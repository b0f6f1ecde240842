-- ===== src/Agents/LoopGuard.antt =====
-- Detection of degenerate loops in the stream of tool calls: src/hive/agents/loop_guard.py. The
-- digest of a call (`_hash`: JSON and SHA-256) is a parameter.
pub mod Limits
use hive_os.Base.{
  ℕ, ◌+◌, ◌-◌, String, Bool, Option, none, some, List, [], ◌∷◌, ◌++◌, not, ◌&&◌, ltb, ◌==◌,
  if◌then◌else◌, str_eq, length, drop, get_or,
}
use hive_os.Dict.{Dict, get, put}

pub record LoopGuard : Type 0 where
  pub max_identical : ℕ
  pub max_per_tool : ℕ
  pub hashes : List String
  pub per_tool : Dict ℕ

-- The messages of `check`.
pub data Reason : Type 0 where
  over_budget : String → ℕ → Reason
  identical : String → ℕ → Reason
  ping_pong : Reason

unfoldable pub new_guard : ℕ → ℕ → LoopGuard
new_guard max_identical max_per_tool = record {
  max_identical = max_identical;
  max_per_tool = max_per_tool;
  hashes = [];
  per_tool = [];
}

-- xs[-n:]
unfoldable pub last : ℕ → List String → List String
last n xs = if n == 0 then xs else drop (length xs - n) xs

unfoldable pub all_are : String → List String → Bool
all_are h [] = Bool.true
all_are h (x ∷ xs) = str_eq x h && all_are h xs

-- len(set(xs)) == 1
unfoldable pub one_value : List String → Bool
unfolding all_are
one_value [] = Bool.false
one_value (x ∷ xs) = all_are x xs

unfoldable pub is_ping_pong : List String → Bool
is_ping_pong (a ∷ b ∷ c ∷ d ∷ []) = str_eq a c && (str_eq b d && not (str_eq a b))
is_ping_pong _ = Bool.false

unfoldable pub call_count : String → LoopGuard → ℕ
call_count tool g = get_or 0 (get tool g.per_tool)

unfoldable pub recorded : String → String → LoopGuard → LoopGuard
unfolding call_count
recorded tool h g = record g {
  hashes = g.hashes ++ h ∷ [];
  per_tool = put tool (call_count tool g + 1) g.per_tool;
}

unfoldable pub verdict : String → LoopGuard → Option Reason
unfolding call_count last one_value is_ping_pong
verdict tool g =
    let recent = last g.max_identical g.hashes in
    if ltb g.max_per_tool (call_count tool g)
    then some (over_budget tool g.max_per_tool)
    else if (length recent == g.max_identical) && one_value recent
    then some (identical tool g.max_identical)
    else if is_ping_pong (last 4 g.hashes)
    then some ping_pong
    else none

module _ {Args : Type 0} (digest : String → Args → String) where
  unfoldable pub check : String → Args → LoopGuard → LoopGuard × Option Reason
  unfolding recorded verdict
  check tool args g = let g' = recorded tool (digest tool args) g in (g', verdict tool g')

unfoldable pub reset : LoopGuard → LoopGuard
reset g = record g { hashes = []; per_tool = [] }

pub record Stats : Type 0 where
  pub total_calls : ℕ
  pub unique_tools : ℕ
  pub per_tool : Dict ℕ
  pub max_identical : ℕ
  pub max_per_tool : ℕ

unfoldable pub stats : LoopGuard → Stats
stats g = record {
  total_calls = length g.hashes;
  unique_tools = length g.per_tool;
  per_tool = g.per_tool;
  max_identical = g.max_identical;
  max_per_tool = g.max_per_tool;
}
