-- ===== src/Context/Compaction.antt =====
-- Compression of a conversation: src/hive/context/compaction.py. The summarizer is a parameter: none
-- where it raises; `strip` is in the shared text module.
pub mod Shape
use hive_os.Base.{
  ℕ, ◌+◌, ◌-◌, String, Bool, Option, none, some, List, [], ◌∷◌, ◌++◌, leb, ltb, ◌||◌, ◌==◌,
  if◌then◌else◌, str_eq, length, take, drop, strip,
}
use Prim.Native.String

pub data Role : Type 0 where
  system user assistant tool : Role

pub record Message : Type 0 where
  pub role : Role
  pub content : String

-- messages[-n:]
unfoldable pub last : ℕ → List Message → List Message
last n xs = if n == 0 then xs else drop (length xs - n) xs

-- messages[head:-tail]
unfoldable pub middle : ℕ → ℕ → List Message → List Message
middle head tail xs = if tail == 0 then [] else take (length xs - tail - head) (drop head xs)

unfoldable pub marker : String → Message
marker summary = record {
  role = user;
  content = String.◌++◌ "[Earlier conversation summary]\n" summary;
}

module _ (summarizer : List Message → Option String) where
  -- None where the summarizer raises or its answer is blank.
  unfoldable pub summarized : List Message → Option String
  unfolding strip
  summarized xs = elim (summarizer xs) [
    | none ↦ none
    | some raw ↦ let summary = strip raw in if str_eq summary "" then none else some summary
  ]

  unfoldable pub compact : ℕ → ℕ → ℕ → List Message → List Message
  unfolding last middle marker summarized
  compact head tail trigger messages =
      if leb (length messages) trigger || leb (length messages) (head + tail)
      then messages
      else if length (middle head tail messages) == 0
      then messages
      else elim (summarized (middle head tail messages)) [
        | none ↦ take head messages ++ last tail messages
        | some summary ↦ take head messages ++ marker summary ∷ last tail messages
      ]
