-- ===== src/Context/Compaction/Shape.antt =====
-- What a compacted conversation keeps.
use hive_os.Base.{
  ℕ, zero, suc, ◌+◌, ◌-◌, ◌≤◌, ◌<◌, String, false, Option, List, [], ◌∷◌, ◌≡◌, refl, inl, inr,
  Option-cases, leb, ◌||◌, ◌==◌, length, take, drop, length-append, length-take_le, arith,
}
use hive_os.Context.Compaction.{Message, last, middle, marker, summarized, compact}

length-drop : (n : ℕ) (xs : List Message) → length (drop n xs) ≡ length xs - n
length-drop zero xs = omega arith
length-drop (suc n) [] = omega arith
length-drop (suc n) (x ∷ xs) = omega (arith, length-drop n xs)

length-last_le : (n : ℕ) (xs : List Message) → 0 < n → length (last n xs) ≤ n
unfolding last
length-last_le n xs pos = ground (arith, length-drop (length xs - n) xs)

middle_zero : (head : ℕ) (xs : List Message) → length (middle head 0 xs) ≡ 0
unfolding middle
middle_zero head xs = refl

length-take : (n : ℕ) (xs : List Message) → n ≤ length xs → length (take n xs) ≡ n
length-take zero xs l = refl
length-take (suc n) [] l = absurd (omega arith)
length-take (suc n) (x ∷ xs) l = omega (arith, length-take n xs)

middle_some :
    (head tail : ℕ) (xs : List Message)
    → 0 < tail
    → head + tail < length xs
    → (length (middle head tail xs) == 0) ≡ false
unfolding middle
middle_some head tail xs pos more =
    let rest : length (drop head xs) ≡ length xs - head = length-drop head xs in
    let size : length (take (length xs - tail - head) (drop head xs)) ≡ length xs - tail - head =
      length-take (length xs - tail - head) (drop head xs) (omega arith) in
    ground arith

module _ (summarizer : List Message → Option String) where
  -- Past the trigger, and past a head and a non-empty tail, a compacted conversation has at most the
  -- head, the tail and one message more, whatever the summarizer does.
  pub compacted_length :
      (head tail trigger : ℕ) (messages : List Message)
      → trigger < length messages
      → head + tail < length messages
      → 0 < tail
      → length (compact summarizer head tail trigger messages) ≤ head + tail + 1
  unfolding compact
  compacted_length head tail trigger messages long more pos =
      let past : (leb (length messages) trigger || leb (length messages) (head + tail)) ≡ false =
        ground arith in
      rw (past, middle_some head tail messages pos more)
        (elim (Option-cases (summarized summarizer (middle head tail messages))) [
          | inl nothing ↦ rw nothing (
              omega (
                arith,
                length-append (take head messages) (last tail messages),
                length-take_le head messages,
                length-last_le tail messages pos,
              ))
          | inr (summary, found) ↦ rw found (
              omega (
                arith,
                length-append (take head messages) (marker summary ∷ last tail messages),
                length-take_le head messages,
                length-last_le tail messages pos,
              ))
        ])
