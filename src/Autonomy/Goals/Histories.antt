-- ===== src/Autonomy/Goals/Histories.antt =====
-- The calls of the ledger as values, and runs of calls.
use hive_os.Base.{ℕ, ◌+◌, String, Option, List, [], ◌∷◌, if◌then◌else◌, str_eq}
use hive_os.Autonomy.Goals.{
  Ledger, create, claim_planning, begin_execution, begin_evaluation, complete, request_replan,
  block, cancel, resume,
}

pub data Op : Type 0 where
  create_op : ℕ → String → String → Op
  claim_op : ℕ → Option String → Op
  execute_op : ℕ → String → List ℕ → Option ℕ → Op
  evaluate_op : ℕ → String → Op
  complete_op : ℕ → String → Op
  replan_op : ℕ → String → String → Op
  block_op : ℕ → String → String → Op
  cancel_op : ℕ → String → Op
  resume_op : ℕ → String → Op

unfoldable pub apply : Op → Ledger → Ledger
apply (create_op now id summary) l = (create now id summary l).0
apply (claim_op now id) l = (claim_planning now id l).0
apply (execute_op now id tasks expected) l = (begin_execution now id tasks expected l).0
apply (evaluate_op now id) l = (begin_evaluation now id l).0
apply (complete_op now id) l = (complete now id l).0
apply (replan_op now id reason) l = (request_replan now id reason l).0
apply (block_op now id reason) l = (block now id reason l).0
apply (cancel_op now id) l = (cancel now id l).0
apply (resume_op now id) l = (resume now id l).0

unfoldable pub run : Ledger → List Op → Ledger
run l [] = l
run l (op ∷ ops) = run (apply op l) ops

-- How often the operator resumes one goal.
abbrev pub resumes_in : String → Op → ℕ
resumes_in id (resume_op now other) = if str_eq id other then 1 else 0
resumes_in id _ = 0

unfoldable pub resumes : String → List Op → ℕ
resumes id [] = 0
resumes id (op ∷ ops) = resumes_in id op + resumes id ops

unfoldable pub new_ledger : String → String → Ledger
new_ledger host machine = record {
  goals = [];
  links = [];
  owner_host = host;
  owner_machine_id = machine;
}
