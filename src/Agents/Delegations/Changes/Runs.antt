-- ===== src/Agents/Delegations/Changes/Runs.antt =====
-- A history of calls is a change.
use hive_os.Base.{String, List, [], ◌∷◌}
use hive_os.Agents.Delegations.{Ledger, register_owner}
use hive_os.Agents.Delegations.Attempts.{close}
use hive_os.Agents.Delegations.Changes.{Change, nothing, followed, noted}
use hive_os.Agents.Delegations.Changes.Calls.{
  authorize_attempt-Change, consume_model_call-Change, consume_tool_call-Change,
}
use hive_os.Agents.Delegations.Changes.Endings.{
  finish-Change, cancel-Change, revoke-Change, recover_interrupted-Change,
}
use hive_os.Agents.Delegations.Changes.Starts.{claim-Change}
use hive_os.Agents.Delegations.Changes.Creates.{create-Change}
use hive_os.Agents.Delegations.Histories.{
  Op, register_op, create_op, claim_op, finish_op, cancel_op, revoke_op, authorize_op, model_op,
  tool_op, recover_op, close_op, apply, run,
}

module _ (casefold : String → String) where
  apply-Change : (op : Op) (l : Ledger) → Change l (apply casefold op l)
  unfolding apply register_owner close
  apply-Change (register_op now self) l = noted l l.events _
  apply-Change (create_op now self id capability parent_run child_run role parent_id) l =
      create-Change casefold now self id capability parent_run child_run role parent_id l
  apply-Change (claim_op now self id) l = claim-Change now self id l
  apply-Change (finish_op now id attempt success review summary) l =
      finish-Change now id attempt success review summary l
  apply-Change (cancel_op now id attempt summary) l = cancel-Change now id attempt summary l
  apply-Change (revoke_op now self id attempt) l = revoke-Change now self id attempt l
  apply-Change (authorize_op now id capability role attempt) l =
      authorize_attempt-Change now id capability role attempt l
  apply-Change (model_op now id capability role attempt) l =
      consume_model_call-Change now id capability role attempt l
  apply-Change (tool_op now id capability role attempt) l =
      consume_tool_call-Change now id capability role attempt l
  apply-Change (recover_op now self alive) l = recover_interrupted-Change alive now self l
  apply-Change (close_op self) l = noted l l.events _

  pub run-Change : (ops : List Op) (l : Ledger) → Change l (run casefold l ops)
  unfolding run
  run-Change [] l = nothing
  run-Change (op ∷ ops) l = followed (apply-Change op l) (run-Change ops (apply casefold op l))
