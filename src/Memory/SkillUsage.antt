-- ===== src/Memory/SkillUsage.antt =====
-- The table of skill use: src/hive/memory/skill_usage.py. Times are milliseconds.
use Prim.Native.Nat.{Ordering}
use Prim.Native.String.{compare}
use hive_os.Base.{
  ℕ, ◌+◌, ◌-◌, String, Bool, true, false, not, Option, none, some, List, [], ◌∷◌, ◌++◌, map, ltb,
  ◌&&◌, ◌==◌, if◌then◌else◌, str_eq,
}
use hive_os.Table.{select, count_where, first_where, update_where, delete_where}

-- STATE_ACTIVE, STATE_STALE, STATE_ARCHIVED
pub data State : Type 0 where
  active stale archived : State

abbrev pub state_eq : State → State → Bool
state_eq active active = true
state_eq stale stale = true
state_eq archived archived = true
state_eq _ _ = false

pub record SkillUsage : Type 0 where
  pub name : String
  pub created_ts : ℕ
  pub last_used_ts : ℕ
  pub use_count : ℕ
  pub pinned : Bool
  pub state : State
  pub agent_created : Bool
  pub archived_ts : Option ℕ

abbrev pub idle_seconds : ℕ → SkillUsage → ℕ
idle_seconds now s = now - s.last_used_ts

abbrev pub Store : Type 0
Store = List SkillUsage

abbrev pub named : String → SkillUsage → Bool
named name s = str_eq s.name name

-- INSERT OR IGNORE
unfoldable pub register : ℕ → String → Bool → Bool → Store → Store
register now name agent_created pinned db =
    if ltb 0 (count_where (named name) db)
    then db
    else db
      ++ (record {
        name = name;
        created_ts = now;
        last_used_ts = now;
        use_count = 0;
        pinned = pinned;
        state = active;
        agent_created = agent_created;
        archived_ts = none;
      })
        ∷ []

-- `register` reads the clock again: `later`.
unfoldable pub record_use : ℕ → ℕ → String → Store → Store
unfolding register
record_use now later name db = elim (first_where (named name) db) [
  | none ↦
      update_where (named name) (λ s. record s { use_count = s.use_count + 1; last_used_ts = now })
        (register later name true false db)
  | some row ↦
      update_where (named name)
        (λ s. record s {
          use_count = s.use_count + 1;
          last_used_ts = now;
          state = if state_eq row.state stale then active else s.state;
        })
        db
]

unfoldable pub set_pinned : String → Bool → Store → Store
set_pinned name pinned db = update_where (named name) (λ s. record s { pinned = pinned }) db

unfoldable pub set_state : String → State → Option ℕ → Store → Store
set_state name state archived_ts db =
    update_where (named name) (λ s. record s { state = state; archived_ts = archived_ts }) db

unfoldable pub get : String → Store → Option SkillUsage
get name db = first_where (named name) db

-- ORDER BY name
unfoldable pub insert_by_name : SkillUsage → Store → Store
insert_by_name s [] = s ∷ []
insert_by_name s (t ∷ ts) =
    let rest = insert_by_name s ts in
    elim (compare s.name t.name) [ Ordering.gt ↦ t ∷ rest | _ ↦ s ∷ t ∷ ts ]

unfoldable pub all : Store → List SkillUsage
unfolding insert_by_name
all [] = []
all (s ∷ db) = insert_by_name s (all db)

unfoldable pub by_state : State → Store → List SkillUsage
unfolding all
by_state state db = all (select (λ s. state_eq s.state state) db)

-- The names of all skills, or of those in one state.
unfoldable pub names : Option State → Store → List String
unfolding all by_state
names none db = map (λ s. s.name) (all db)
names (some state) db = map (λ s. s.name) (by_state state db)

unfoldable pub pinned_names : Store → List String
unfolding all
pinned_names db = map (λ s. s.name) (all (select (λ s. s.pinned) db))

unfoldable pub pin : String → Store → Store × Bool
unfolding set_pinned
pin name db = (set_pinned name true db, ltb 0 (count_where (named name) db))

unfoldable pub unpin : String → Store → Store × Bool
unfolding set_pinned
unpin name db = (set_pinned name false db, ltb 0 (count_where (named name) db))

unfoldable pub unused_skills : Store → List SkillUsage
unfolding all
unused_skills db = all (select (λ s. (s.use_count == 0) && not (state_eq s.state archived)) db)

unfoldable pub archived_count : Store → ℕ
archived_count db = count_where (λ s. state_eq s.state archived) db

unfoldable pub delete : String → Store → Store × Bool
delete name db = (delete_where (named name) db, ltb 0 (count_where (named name) db))
