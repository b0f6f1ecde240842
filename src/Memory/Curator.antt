-- ===== src/Memory/Curator.antt =====
-- The ageing of learned skills: src/hive/memory/curator.py. The live registry is the list of its
-- callables' names that were removed or put back, in order; the backup file is not modelled.
pub mod Keeps
use hive_os.Base.{
  ℕ, ◌*◌, String, Bool, true, false, not, Option, none, some, List, [], ◌∷◌, ◌++◌, leb, ◌&&◌, ◌||◌,
  if◌then◌else◌, length,
}
use hive_os.Memory.SkillUsage.{
  State, active, stale, archived, state_eq, SkillUsage, Store, idle_seconds, set_state, get, all,
}

pub record CuratorConfig : Type 0 where
  pub stale_after_days : ℕ
  pub archive_after_days : ℕ

abbrev pub default_config : CuratorConfig
default_config = record { stale_after_days = 30; archive_after_days = 90 }

-- _DAY, in milliseconds
abbrev pub day : ℕ
day = 86400000

pub record Transition : Type 0 where
  pub name : String
  pub from_state : State
  pub to_state : State

-- A call of the live registry: `deregister(name)` or `reregister(name)`.
pub data Effect : Type 0 where
  deregister reregister : String → Effect

unfoldable pub target_state : SkillUsage → ℕ → CuratorConfig → State
target_state s idle cfg =
    if leb (cfg.archive_after_days * day) idle
    then archived
    else if leb (cfg.stale_after_days * day) idle
    then stale
    else if not (state_eq s.state stale)
    then s.state
    else stale

abbrev pub is_exempt : SkillUsage → Bool
is_exempt s = s.pinned || (not s.agent_created || state_eq s.state archived)

pub record Report : Type 0 where
  pub skills : ℕ
  pub transitions : List Transition
  pub effects : List Effect

-- One skill of the loop of `run`.
unfoldable pub age :
    CuratorConfig → ℕ → SkillUsage → Store → Store × (List Transition × List Effect)
unfolding target_state
age cfg now s db =
    let target = target_state s (idle_seconds now s) cfg in
    if is_exempt s || state_eq target s.state then (db, ([], [])) else (
      set_state s.name target (if state_eq target archived then some now else none) db,
      (
        (record { name = s.name; from_state = s.state; to_state = target }) ∷ [],
        (if state_eq target archived then deregister s.name ∷ [] else []),
      ),
    )

unfoldable pub age_all :
    CuratorConfig → ℕ → List SkillUsage → Store → Store × (List Transition × List Effect)
unfolding age
age_all cfg now [] db = (db, ([], []))
age_all cfg now (s ∷ skills) db =
    let (db', (here, effects)) = age cfg now s db in
    let (db'', (later, more)) = age_all cfg now skills db' in
    (db'', (here ++ later, effects ++ more))

unfoldable pub run : CuratorConfig → ℕ → Store → Store × Report
unfolding age_all
run cfg now db =
    let (db', (transitions, effects)) = age_all cfg now (all db) db in
    (db', record { skills = length (all db); transitions = transitions; effects = effects })

-- `Curator.set_state`
unfoldable pub change_state : ℕ → String → State → Store → Store × (List Effect × Bool)
change_state now name state db = elim (get name db) [
  | none ↦ (db, ([], false))
  | some s ↦ (
    set_state name state (if state_eq state archived then some now else none) db,
    (
      (if state_eq state archived && not (state_eq s.state archived)
          then deregister name ∷ []
          else if state_eq s.state archived && not (state_eq state archived)
          then reregister name ∷ []
          else []),
      true,
    ),
  )
]

unfoldable pub restore : ℕ → String → Store → Store × (List Effect × Bool)
unfolding change_state
restore now name db = change_state now name active db
