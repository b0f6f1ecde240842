-- ===== src/Agents/Delegations/Bounds.antt =====
-- What a lease and a row never exceed.
use hive_os.Base.{◌≤◌, String, List, [], ◌∷◌, All, All-append, arith}
use hive_os.Table.{update_where}
use hive_os.Table.Rows.{All-update_where}
use hive_os.Agents.Delegations.{Delegation, Lease, Ledger, empty_ledger}
use hive_os.Agents.Delegations.Changes.{
  reserve_for, Change, nothing, followed, noted, updated, spent, leased, rooted, nested,
}
use hive_os.Agents.Delegations.Changes.Runs.{run-Change}
use hive_os.Agents.Delegations.Histories.{Op, run}

pub record LeaseOk (k : Lease) : Type 0 where
  pub model_calls : k.model_calls_used ≤ k.max_model_calls
  pub tool_calls : k.tool_calls_used ≤ k.max_tool_calls

abbrev pub InBudget : Delegation → Type 0
InBudget d = d.attempts ≤ d.max_attempts

pub record IsBounded (l : Ledger) : Type 0 where
  pub leases_ok : All LeaseOk l.leases
  pub attempts_ok : All InBudget l.delegations

Change-IsBounded : {l m : Ledger} → Change l m → IsBounded l → IsBounded m
Change-IsBounded nothing h = h
Change-IsBounded (followed a b) h = Change-IsBounded b (Change-IsBounded a h)
Change-IsBounded (noted l es os) h = record { leases_ok = h.leases_ok; attempts_ok = h.attempts_ok }
Change-IsBounded (updated l p f step) h = record {
  leases_ok = h.leases_ok;
  attempts_ok =
      All-update_where InBudget p f l.delegations (λ d hit ok. (step d hit).in_budget ok)
        h.attempts_ok;
}
Change-IsBounded (spent l p f step) h = record {
  leases_ok =
      All-update_where LeaseOk p f l.leases
        (λ k hit ok. record {
          model_calls = (step k hit).model_calls ok.model_calls;
          tool_calls = (step k hit).tool_calls ok.tool_calls;
        })
        h.leases_ok;
  attempts_ok = h.attempts_ok;
}
Change-IsBounded (leased l k no_calls no_tools) h = record {
  leases_ok =
      All-append LeaseOk l.leases (k ∷ []) h.leases_ok
        (record { model_calls = omega arith; tool_calls = omega arith }, tt);
  attempts_ok = h.attempts_ok;
}
Change-IsBounded (rooted l d fresh idle ok) h = record {
  leases_ok = h.leases_ok;
  attempts_ok = All-append InBudget l.delegations (d ∷ []) h.attempts_ok (omega arith, tt);
}
Change-IsBounded (nested l r d fresh idle there ok) h = record {
  leases_ok = h.leases_ok;
  attempts_ok =
      All-append InBudget (update_where _ (reserve_for d) l.delegations) (d ∷ [])
        (All-update_where InBudget _ (reserve_for d) l.delegations (λ x hit budget. budget)
          h.attempts_ok)
        (omega arith, tt);
}

-- Whatever calls any runtimes make on an empty ledger, no lease gives more model calls or tool calls
-- than its attempt was granted, and no delegation is attempted more often than its profile allows.
pub leases_within_grant :
    (casefold : String → String) (ops : List Op) → IsBounded (run casefold empty_ledger ops)
unfolding empty_ledger
leases_within_grant casefold ops =
    Change-IsBounded (run-Change casefold ops empty_ledger)
      (record { leases_ok = tt; attempts_ok = tt })
