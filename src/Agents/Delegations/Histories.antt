-- ===== src/Agents/Delegations/Histories.antt =====
-- The calls of the ledger as values, and runs of calls by any runtimes.
use hive_os.Base.{ℕ, String, Bool, List, [], ◌∷◌}
use hive_os.Agents.Delegations.{Ledger, Runtime, register_owner}
use hive_os.Agents.Delegations.Create.{create}
use hive_os.Agents.Delegations.Claim.{claim}
use hive_os.Agents.Delegations.Attempts.{
  finish, cancel, revoke, authorize_attempt, consume_model_call, consume_tool_call,
  recover_interrupted, close,
}

pub data Op : Type 0 where
  register_op : ℕ → Runtime → Op
  create_op : ℕ → Runtime → String → String → String → String → String → String → Op
  claim_op : ℕ → Runtime → String → Op
  finish_op : ℕ → String → ℕ → Bool → Bool → String → Op
  cancel_op : ℕ → String → ℕ → String → Op
  revoke_op : ℕ → Runtime → String → ℕ → Op
  authorize_op : ℕ → String → String → String → ℕ → Op
  model_op : ℕ → String → String → String → ℕ → Op
  tool_op : ℕ → String → String → String → ℕ → Op
  recover_op : ℕ → Runtime → (ℕ → Bool) → Op
  close_op : Runtime → Op

module _ (casefold : String → String) where
  unfoldable pub apply : Op → Ledger → Ledger
  apply (register_op now self) l = register_owner now self l
  apply (create_op now self id capability parent_run child_run role parent_id) l =
      (create casefold now self id capability parent_run child_run role parent_id l).0
  apply (claim_op now self id) l = (claim now self id l).0
  apply (finish_op now id attempt success review summary) l =
      (finish now id attempt success review summary l).0
  apply (cancel_op now id attempt summary) l = (cancel now id attempt summary l).0
  apply (revoke_op now self id attempt) l = (revoke now self id attempt l).0
  apply (authorize_op now id capability role attempt) l =
      (authorize_attempt now id capability role attempt l).0
  apply (model_op now id capability role attempt) l =
      (consume_model_call now id capability role attempt l).0
  apply (tool_op now id capability role attempt) l =
      (consume_tool_call now id capability role attempt l).0
  apply (recover_op now self alive) l = (recover_interrupted alive now self l).0
  apply (close_op self) l = close self l

  unfoldable pub run : Ledger → List Op → Ledger
  run l [] = l
  run l (op ∷ ops) = run (apply op l) ops
