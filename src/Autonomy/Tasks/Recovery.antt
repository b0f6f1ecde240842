-- ===== src/Autonomy/Tasks/Recovery.antt =====
-- Recovery, approvals and the bulk operations of src/hive/autonomy/tasks.py.
use hive_os.Base.{
  ℕ, ◌+◌, String, Bool, true, false, not, Option, none, some, List, [], ◌∷◌, ◌&&◌, ◌||◌, leb, ◌==◌,
  if◌then◌else◌, max, str_eq,
}
use hive_os.Dict.{get}
use hive_os.Table.{count_where, first_where, update_where, delete_where, select}
use hive_os.Autonomy.Tasks.{
  TaskState, pending, running, awaiting_approval, done, failed, dead, cancelled, state_eq, Value,
  default_stall_timeout, TaskRecord, TaskBoard, update_task, get_task,
}
use hive_os.Autonomy.Tasks.Lifecycle.{has_budget, owned, complete, fail}

-- `updated_ts <= now - age`; the difference of the floats may be negative, so it is kept as a pair.
pub record Cutoff : Type 0 where
  pub now : ℕ
  pub age : ℕ

abbrev pub before : Cutoff → TaskRecord → Bool
before c t = leb (t.updated_ts + c.age) c.now

-- `(? IS NULL OR updated_ts<=?)`
abbrev pub stale : Option Cutoff → TaskRecord → Bool
stale none t = true
stale (some c) t = before c t

abbrev pub stalled : ℕ → Option Cutoff → TaskRecord → Bool
stalled expected stale_before t = owned (some expected) t && stale stale_before t

-- The second stall, or one with no attempt left, is the last.
abbrev pub becomes_dead : TaskRecord → Bool
becomes_dead t = leb 1 t.stall_count || not (has_budget t)

unfoldable pub stall_row : ℕ → TaskState → String → TaskRecord → TaskRecord
stall_row now state detail t = record t {
  state = state;
  updated_ts = now;
  stall_count = t.stall_count + 1;
  last_error = some detail;
}

unfoldable pub stall_or_dead : ℕ → ℕ → ℕ → String → Option Cutoff → TaskBoard → TaskBoard × Bool
unfolding stall_row
stall_or_dead now task_id expected error stale_before b =
    elim (first_where (λ t. (t.id == task_id) && stalled expected stale_before t) b.rows) [
      | none ↦ (b, false)
      | some t ↦
          let last = becomes_dead t in
          let state = if last then dead else pending in
          let detail = if last then "task stalled more than once" else error in
          update_task task_id (stalled expected stale_before) (stall_row now state detail) b
    ]

-- Issue work is one-shot: its lease is never shorter than the normal stall window.
abbrev pub lease : ℕ → TaskRecord → ℕ
lease stall_after t =
    if str_eq t.kind "issue_work" then max stall_after default_stall_timeout else stall_after

is_pending : Option TaskRecord → Bool
is_pending none = false
is_pending (some t) = state_eq t.state pending

-- One row of the loop of `recover_stalled`, with the number of tasks recovered so far; `later` is the clock as
-- `stall_or_dead` reads it again for the row of an id. No other process writes between the rows.
unfoldable pub recover_row : ℕ → (ℕ → ℕ) → ℕ → TaskRecord → TaskBoard × ℕ → TaskBoard × ℕ
unfolding stall_or_dead is_pending get_task
recover_row now later stall_after t (b, recovered) =
    let cutoff : Cutoff = record { now = now; age = lease stall_after t } in
    if not (before cutoff t)
    then (b, recovered)
    else (let (b', hit) =
          stall_or_dead (later t.id) t.id t.attempts "task stalled; recovered once" (some cutoff)
            b in
        (b', if hit && is_pending (get_task t.id b') then recovered + 1 else recovered))

unfoldable pub recover_rows : ℕ → (ℕ → ℕ) → ℕ → List TaskRecord → TaskBoard × ℕ → TaskBoard × ℕ
recover_rows now later stall_after [] acc = acc
recover_rows now later stall_after (t ∷ ts) acc =
    recover_rows now later stall_after ts (recover_row now later stall_after t acc)

unfoldable pub recover_stalled : ℕ → (ℕ → ℕ) → ℕ → TaskBoard → TaskBoard × ℕ
unfolding recover_row recover_rows
recover_stalled now later stall_after b =
    let rows =
      select (λ t. state_eq t.state running && before (record { now = now; age = stall_after }) t)
        b.rows in
    recover_rows now later stall_after rows (b, 0)

unfoldable pub requeue_running : ℕ → (ℕ → ℕ) → TaskBoard → TaskBoard × ℕ
unfolding recover_stalled
requeue_running now later b = recover_stalled now later 0 b

-- payload.get("approval_id") == approval_id
unfoldable pub waits_for : String → TaskRecord → Bool
waits_for approval_id t = elim (get "approval_id" t.payload) [
  | none ↦ false
  | some v ↦ elim v [ Value.text a ↦ str_eq a approval_id | _ ↦ false ]
]

-- error or "approval rejected"
abbrev pub or_default : String → String → String
or_default error default = if str_eq error "" then default else error

unfoldable pub resolve_row : ℕ → String → Bool → String → TaskRecord → TaskBoard × ℕ → TaskBoard × ℕ
unfolding waits_for complete fail
resolve_row now approval_id approved error t (b, matched) =
    if not (waits_for approval_id t)
    then (b, matched)
    else if approved
    then ((complete now t.id none b).0, matched + 1)
    else (fail now t.id (or_default error "approval rejected") b, matched + 1)

unfoldable pub resolve_rows :
    ℕ → String → Bool → String → List TaskRecord → TaskBoard × ℕ → TaskBoard × ℕ
resolve_rows now approval_id approved error [] acc = acc
resolve_rows now approval_id approved error (t ∷ ts) acc =
    resolve_rows now approval_id approved error ts
      (resolve_row now approval_id approved error t acc)

unfoldable pub resolve_approval : ℕ → String → Bool → String → TaskBoard → TaskBoard × ℕ
unfolding resolve_row resolve_rows
resolve_approval now approval_id approved error b =
    resolve_rows now approval_id approved error
      (select (λ t. state_eq t.state awaiting_approval) b.rows) (b, 0)

unfoldable pub run_id_for_approval : String → TaskBoard → String
unfolding waits_for
run_id_for_approval approval_id b =
    elim (first_where (λ t. state_eq t.state awaiting_approval && waits_for approval_id t) b.rows) [
      | none ↦ ""
      | some t ↦ t.run_id
    ]

unfoldable pub retry_all_failed : ℕ → TaskBoard → TaskBoard × ℕ
retry_all_failed now b =
    let hit = λ (t : TaskRecord). state_eq t.state failed && has_budget t in
    (
      record b {
        rows = update_where hit (λ t. record t { state = pending; updated_ts = now }) b.rows;
      },
      count_where hit b.rows,
    )

-- DELETE FROM hive_tasks WHERE state=? AND updated_ts<=?
purge : TaskState → ℕ → ℕ → TaskBoard → TaskBoard × ℕ
purge state now max_age b =
    let hit = λ (t : TaskRecord).
      state_eq t.state state && before (record { now = now; age = max_age }) t in
    (record b { rows = delete_where hit b.rows }, count_where hit b.rows)

unfoldable pub purge_done : ℕ → ℕ → TaskBoard → TaskBoard × ℕ
unfolding purge
purge_done now max_age b = purge done now max_age b

unfoldable pub bulk_purge_failed : ℕ → ℕ → TaskBoard → TaskBoard × ℕ
unfolding purge
bulk_purge_failed now max_age b = purge failed now max_age b

abbrev pub of_kind : Option String → TaskRecord → Bool
of_kind none t = true
of_kind (some kind) t = str_eq t.kind kind

unfoldable pub bulk_cancel_pending : ℕ → Option String → TaskBoard → TaskBoard × ℕ
bulk_cancel_pending now kind b =
    let hit = λ (t : TaskRecord). state_eq t.state pending && of_kind kind t in
    (
      record b {
        rows = update_where hit (λ t. record t { state = cancelled; updated_ts = now }) b.rows;
      },
      count_where hit b.rows,
    )
