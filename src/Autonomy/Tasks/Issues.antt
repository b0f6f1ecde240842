-- ===== src/Autonomy/Tasks/Issues.antt =====
-- The pickup of GitHub issues: enqueue_issue_work and owns_issue_pickup of
-- src/hive/autonomy/tasks.py. `str.casefold` follows the interpreter's Unicode tables, so it is a
-- parameter.
use Prim.Native.Char.{code}
use Prim.Native.String.{char_at, count}
use Prim.Native.String
use hive_os.Base.{
  ℕ, zero, suc, ◌/◌, ◌%◌, String, Bool, true, false, not, Option, none, some, [], ◌∷◌, ◌++◌, ◌&&◌,
  ◌||◌, ltb, leb, ◌==◌, if◌then◌else◌, str_eq,
}
use hive_os.Table.{count_where, first_where}
use hive_os.Autonomy.Tasks.{
  pending, running, awaiting_approval, state_eq, Value, TaskRecord, IssuePickup, TaskBoard,
}
use hive_os.Autonomy.Tasks.Enqueue.{
  value_error, integrity_error, Result, returned, raised, NewTask, insert_task,
}

-- str(n)
decimal_from : ℕ → ℕ → String → String
decimal_from zero n acc = acc
decimal_from (suc fuel) n acc =
    let acc' = String.◌∷◌ (char_at "0123456789" (n % 10)) acc in
    let rest = decimal_from fuel (n / 10) acc' in if ltb n 10 then acc' else rest

unfoldable pub decimal : ℕ → String
unfolding decimal_from
decimal n = decimal_from (suc n) n ""

-- [A-Za-z0-9_.-]
is_name_char : ℕ → Bool
is_name_char c =
    (leb b'A' c && leb c b'Z')
    || (leb b'a' c && leb c b'z')
    || (leb b'0' c && leb c b'9')
    || c == b'_'
    || c == b'.'
    || c == b'-'

all_name_chars : String → Bool
unfolding is_name_char
all_name_chars String.[] = true
all_name_chars (String.◌∷◌ c s) = is_name_char (code c) && all_name_chars s

unfoldable pub is_repo_name : String → Bool
unfolding all_name_chars
is_repo_name s =
    not (str_eq s ".")
    && (not (str_eq s "..") && (all_name_chars s && (leb 1 (count s) && leb (count s) 100)))

unfoldable pub is_valid_pickup : String → String → ℕ → ℕ → Bool
unfolding is_repo_name
is_valid_pickup owner repo number max_inflight =
    is_repo_name owner
    && (is_repo_name repo
        && (leb 1 number && (leb number 1000000000 && (leb 1 max_inflight && leb max_inflight 4))))

-- The row at a pickup's task: the join of the two tables.
unfoldable pub task_of : TaskBoard → IssuePickup → Option TaskRecord
task_of b p = first_where (λ t. t.id == p.task_id) b.rows

abbrev pub is_inflight : TaskRecord → Bool
is_inflight t =
    state_eq t.state pending || state_eq t.state running || state_eq t.state awaiting_approval

unfoldable pub active_pickup : TaskBoard → IssuePickup → Bool
unfolding task_of
active_pickup b p = elim (task_of b p) [ none ↦ false | some t ↦ is_inflight t ]

-- SELECT COUNT(*) FROM hive_issue_pickups p JOIN hive_tasks t ON t.id=p.task_id WHERE t.state IN (…)
unfoldable pub inflight : TaskBoard → ℕ
unfolding active_pickup
inflight b = count_where (active_pickup b) b.pickups

-- UNIQUE task_id and the primary key issue_key of hive_issue_pickups.
abbrev pub picked : String → IssuePickup → Bool
picked key p = str_eq p.issue_key key

abbrev pub pickup_conflicts : String → ℕ → IssuePickup → Bool
pickup_conflicts key task_id p = picked key p || (p.task_id == task_id)

unfoldable pub insert_pickup : ℕ → String → TaskBoard × ℕ → Result (TaskBoard × ℕ)
insert_pickup now key (b, task_id) =
    if ltb 0 (count_where (pickup_conflicts key task_id) b.pickups)
    then raised integrity_error
    else returned (
      record b {
        pickups =
            b.pickups ++ (record { issue_key = key; task_id = task_id; picked_ts = now }) ∷ [];
      },
      task_id,
    )

-- The two INSERTs of the transaction.
unfoldable pub insert_both : ℕ → String → NewTask → TaskBoard → Result (TaskBoard × ℕ)
insert_both now key n b = elim (insert_task now n b) [
  | raised e ↦ raised e
  | returned r ↦ insert_pickup now key r
]

-- `commit()` and the new id, or `rollback()` and the exception.
unfoldable pub commit_or_rollback :
    TaskBoard → Result (TaskBoard × ℕ) → TaskBoard × Result (Option ℕ)
commit_or_rollback b (raised e) = (b, raised e)
commit_or_rollback b (returned r) = (r.0, returned (some r.1))

module _ (casefold : String → String) where
  unfoldable pub issue_key : String → String → ℕ → String
  unfolding decimal
  issue_key owner repo number =
      String.◌++◌ (casefold owner)
        (String.◌++◌ "/" (String.◌++◌ (casefold repo) (String.◌++◌ "#" (decimal number))))

  abbrev pub issue_task : String → String → String → ℕ → NewTask
  issue_task run owner repo number = record {
    kind = "issue_work";
    payload =
        ("owner", Value.text owner)
        ∷ ("repo", Value.text repo)
        ∷ ("number", Value.number number)
        ∷ [];
    scheduled_for = 0;
    source = "github-issue";
    run_id = run;
    max_attempts = 1;
    key = some (String.◌++◌ "issue:" (issue_key owner repo number));
  }

  -- The board after the transaction, and the task's id unless the issue is refused.
  unfoldable pub enqueue_issue_work :
      ℕ → String → String → String → ℕ → ℕ → TaskBoard → TaskBoard × Result (Option ℕ)
  enqueue_issue_work now run owner repo number max_inflight b =
      let key = issue_key owner repo number in
      if not (is_valid_pickup owner repo number max_inflight)
      then (b, raised value_error)
      else if ltb 0 (count_where (picked key) b.pickups)
      then (b, returned none)
      else if leb max_inflight (inflight b)
      then (b, returned none)
      else commit_or_rollback b (insert_both now key (issue_task run owner repo number) b)

  unfoldable pub owns_issue_pickup : ℕ → String → String → ℕ → TaskBoard → Bool
  owns_issue_pickup task_id owner repo number b =
      let key = issue_key owner repo number in
      ltb 0 (
        count_where
          (λ (p : IssuePickup).
            (p.task_id == task_id)
            && (picked key p
                && ltb 0 (
                    count_where
                      (λ (t : TaskRecord). (t.id == p.task_id) && str_eq t.kind "issue_work")
                      b.rows)))
          b.pickups)
