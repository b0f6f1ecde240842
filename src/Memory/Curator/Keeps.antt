-- ===== src/Memory/Curator/Keeps.antt =====
-- What the curator never touches.
use Prim.Native.Nat.{Ordering}
use Prim.Native.String.{compare}
use hive_os.Base.{
  ℕ, ◌≤◌, String, true, false, Option, none, some, List, [], ◌∷◌, ◌≡◌, refl, ap, ◌∙◌, inl, inr,
  Bool-cases, map, ◌&&◌, ◌||◌, if◌then◌else◌, str_eq, str_eq_iff, arith, All,
}
use hive_os.Table.{count_where, first_where, update_where}
use hive_os.Table.Rows.{All-unique, first_where_stronger}
use hive_os.Memory.SkillUsage.{
  State, archived, state_eq, SkillUsage, Store, named, set_state, get, all, insert_by_name,
  idle_seconds,
}
use hive_os.Memory.Curator.{CuratorConfig, is_exempt, target_state, age, age_all, run}

map-set_state :
    (name : String) (to : State) (at : Option ℕ) (db : Store)
    → map (λ (s : SkillUsage). s.name) (set_state name to at db)
      ≡ map (λ (s : SkillUsage). s.name) db
unfolding set_state update_where
map-set_state name to at [] = refl
map-set_state name to at (s ∷ db) = ground (arith, map-set_state name to at db)

set_state_other :
    (other name : String) (to : State) (at : Option ℕ) (db : Store) (s : SkillUsage)
    → str_eq other name ≡ false
    → get name db ≡ some s
    → get name (set_state other to at db) ≡ some s
unfolding get set_state first_where update_where
set_state_other other name to at [] s differ found = found
set_state_other other name to at (x ∷ db) s differ found = ground (
  arith,
  set_state_other other name to at db s,
  str_eq_iff x.name other,
  str_eq_iff x.name name,
  str_eq_iff other name,
)

module _ (cfg : CuratorConfig) (now : ℕ) where
  age-names :
      (s : SkillUsage) (db : Store)
      → map (λ (s : SkillUsage). s.name) (age cfg now s db).0 ≡ map (λ (s : SkillUsage). s.name) db
  unfolding age
  age-names s db =
      elim (Bool-cases
        (is_exempt s || state_eq (target_state s (idle_seconds now s) cfg) s.state)) [
          | inl skip ↦ rw skip refl
          | inr move ↦ rw move (
              map-set_state s.name (target_state s (idle_seconds now s) cfg)
                (if state_eq (target_state s (idle_seconds now s) cfg) archived
                  then some now
                  else none)
                db)
        ]

  age_all-names :
      (skills : List SkillUsage) (db : Store)
      → map (λ (s : SkillUsage). s.name) (age_all cfg now skills db).0
        ≡ map (λ (s : SkillUsage). s.name) db
  unfolding age_all
  age_all-names [] db = refl
  age_all-names (s ∷ skills) db = age_all-names skills (age cfg now s db).0 ∙ age-names s db

  -- A run of the curator deletes no row, adds none and moves none.
  pub run_keeps_names :
      (db : Store)
      → map (λ (s : SkillUsage). s.name) (run cfg now db).0 ≡ map (λ (s : SkillUsage). s.name) db
  unfolding run
  run_keeps_names db = age_all-names (all db) db

  module _ (name : String) (s : SkillUsage) (exempt : is_exempt s ≡ true) where
    age-untouched :
        (t : SkillUsage) (db : Store)
        → (str_eq t.name name ≡ true → t ≡ s)
        → get name db ≡ some s
        → get name (age cfg now t db).0 ≡ some s
    unfolding age
    age-untouched t db only found =
        elim (Bool-cases
          (is_exempt t || state_eq (target_state t (idle_seconds now t) cfg) t.state)) [
            | inl skip ↦ rw skip found
            | inr move ↦ elim (Bool-cases (str_eq t.name name)) [
              | inl same ↦
                  let of_t : is_exempt t ≡ true = ap is_exempt (only same) ∙ exempt in
                  absurd (ground arith)
              | inr other ↦ rw move (
                  set_state_other t.name name (target_state t (idle_seconds now t) cfg)
                    (if state_eq (target_state t (idle_seconds now t) cfg) archived
                      then some now
                      else none)
                    db s other found)
            ]
          ]

    age_all-untouched :
        (skills : List SkillUsage) (db : Store)
        → All (λ (t : SkillUsage). str_eq t.name name ≡ true → t ≡ s) skills
        → get name db ≡ some s
        → get name (age_all cfg now skills db).0 ≡ some s
    unfolding age_all
    age_all-untouched [] db only found = found
    age_all-untouched (t ∷ skills) db only found =
        age_all-untouched skills (age cfg now t db).0 only.1 (age-untouched t db only.0 found)

All-insert_by_name :
    (P : SkillUsage → Type 0) (s : SkillUsage) (ts : Store)
    → P s
    → All P ts
    → All P (insert_by_name s ts)
unfolding insert_by_name
All-insert_by_name P s [] p h = (p, tt)
All-insert_by_name P s (t ∷ ts) p h =
    elim (compare s.name t.name)
      as (λ o.
        All P (elim o as (λ _. Store) [ Ordering.gt ↦ t ∷ insert_by_name s ts | _ ↦ s ∷ t ∷ ts ])) [
          | Ordering.gt ↦ (h.0, All-insert_by_name P s ts p h.1)
          | Ordering.lt ↦ (p, h)
          | Ordering.eq ↦ (p, h)
        ]

All-all : (P : SkillUsage → Type 0) (db : Store) → All P db → All P (all db)
unfolding all
All-all P [] h = tt
All-all P (s ∷ db) h = All-insert_by_name P s (all db) h.0 (All-all P db h.1)

-- With unique names, a run leaves a skill that is pinned, archived or not agent-made as it is.
pub run_untouched :
    (cfg : CuratorConfig) (now : ℕ) (name : String) (s : SkillUsage) (db : Store)
    → is_exempt s ≡ true
    → count_where (named name) db ≤ 1
    → get name db ≡ some s
    → get name (run cfg now db).0 ≡ some s
unfolding run get
run_untouched cfg now name s db exempt unique found =
    let here : first_where (λ t. named name t && is_exempt t) db ≡ some s =
      first_where_stronger is_exempt (named name) db s found exempt in
    age_all-untouched cfg now name s exempt (all db) db
      (All-all (λ t. str_eq t.name name ≡ true → t ≡ s) db
        (All-unique is_exempt (named name) db s unique here))
      found
