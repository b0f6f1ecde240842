-- ===== src/Agents/Delegations/Lifecycle.antt =====
-- The rows of the ledger implement the life cycle of a delegation.
use hive_os.Base.{
  ◌≤◌, String, Option, some, List, [], ◌∷◌, ◌≡◌, refl, ap, ◌∙◌, inl, inr, Bool-cases, arith, str_eq,
  if◌then◌else◌,
}
use hive_os.Table.{first_where, update_where}
use hive_os.Table.Rows.{
  altered, first_where-update_where, first_where-update_hit, first_where-append_old,
}
use hive_os.Agents.Delegations.{State, Delegation, Ledger, has_id, get}
use hive_os.Agents.Delegations.Changes.{
  Reaches, stays, then_moves, reserve_for, Change, nothing, followed, noted, updated, spent, leased,
  rooted, nested,
}
use hive_os.Agents.Delegations.Changes.Runs.{run-Change}
use hive_os.Agents.Delegations.Histories.{Op, run}

Reaches-trans : {s t u : State} → Reaches s t → Reaches t u → Reaches s u
Reaches-trans a stays = a
Reaches-trans a (then_moves b m) = then_moves (Reaches-trans a b) m

-- The row under an id later on: it is there, further along its life.
pub record Later (d : Delegation) (o : Option Delegation) : Type 0 where
  pub row : Delegation
  pub there : o ≡ some row
  pub reached : Reaches d.state row.state
  pub attempts_rise : d.attempts ≤ row.attempts

Change-Later :
    {l m : Ledger} (id : String) (d : Delegation)
    → Change l m
    → get id l ≡ some d
    → Later d (get id m)
unfolding get
Change-Later id d nothing found = record {
  row = d;
  there = found;
  reached = stays;
  attempts_rise = omega arith;
}
Change-Later id d (followed a b) found =
    let mid = Change-Later id d a found in
    let end = Change-Later id mid.row b mid.there in
    record {
      row = end.row;
      there = end.there;
      reached = Reaches-trans mid.reached end.reached;
      attempts_rise = omega (arith, mid.attempts_rise, end.attempts_rise);
    }
Change-Later id d (noted l es os) found = record {
  row = d;
  there = found;
  reached = stays;
  attempts_rise = omega arith;
}
Change-Later id d (spent l p f step) found = record {
  row = d;
  there = found;
  reached = stays;
  attempts_rise = omega arith;
}
Change-Later id d (leased l k a b) found = record {
  row = d;
  there = found;
  reached = stays;
  attempts_rise = omega arith;
}
Change-Later id d (updated l p f step) found = elim (Bool-cases (p d)) [
  | inl hit ↦
      let s = step d hit in
      record {
        row = f d;
        there = kept ∙ (rw (found, altered, hit) refl);
        reached = s.moves;
        attempts_rise = s.attempts_rise;
      }
  | inr miss ↦ record {
    row = d;
    there = kept ∙ (rw (found, altered, miss) refl);
    reached = stays;
    attempts_rise = omega arith;
  }
]
  where
    kept :
        first_where (has_id id) (update_where p f l.delegations)
        ≡ altered p f (first_where (has_id id) l.delegations)
    kept =
        first_where-update_hit p (has_id id) f l.delegations
          (λ x hit. ap (λ t. str_eq t id) (step x hit).same_id)
Change-Later id d (rooted l e fresh idle ok) found = record {
  row = d;
  there = first_where-append_old (has_id id) l.delegations (e ∷ []) d found;
  reached = stays;
  attempts_rise = omega arith;
}
Change-Later id d (nested l r e fresh idle there ok) found = record {
  row = if has_id e.root_delegation_id d then reserve_for e d else d;
  there =
      first_where-append_old (has_id id)
        (update_where (has_id e.root_delegation_id) (reserve_for e) l.delegations) (e ∷ []) _ kept;
  reached = elim (Bool-cases (has_id e.root_delegation_id d)) [
    | inl hit ↦ rw hit stays
    | inr miss ↦ rw miss stays
  ];
  attempts_rise = elim (Bool-cases (has_id e.root_delegation_id d)) [
    | inl hit ↦ rw hit (omega arith)
    | inr miss ↦ rw miss (omega arith)
  ];
}
  where
    kept :
        first_where
          (has_id id)
          (update_where (has_id e.root_delegation_id) (reserve_for e) l.delegations)
        ≡ some (if has_id e.root_delegation_id d then reserve_for e d else d)
    kept =
        first_where-update_where (has_id e.root_delegation_id) (has_id id) (reserve_for e)
          l.delegations (λ x. refl)
        ∙ ap (altered (has_id e.root_delegation_id) (reserve_for e)) found

-- Whatever calls any runtimes make, a delegation that the ledger holds stays in it under its id, its state
-- moves only along the life cycle (queued, running, then one end that it never leaves), and its
-- attempts are never counted down.
pub history_refines :
    (casefold : String → String) (ops : List Op) (id : String) (d : Delegation) (l : Ledger)
    → get id l ≡ some d
    → Later d (get id (run casefold l ops))
history_refines casefold ops id d l found = Change-Later id d (run-Change casefold ops l) found
