-- ===== src/Autonomy/Tasks/Leases.antt =====
-- Recovery respects the lease of issue work, at startup too.
use hive_os.Base.{
  ℕ, ◌+◌, ◌<◌, String, true, false, Option, some, List, [], ◌∷◌, ◌≡◌, ◌≢◌, refl, ◌∙◌, sym, arith,
  inl, inr, Bool-cases, Option-cases, All, All-map, ◌&&◌, ◌==◌, str_eq, true_ne_false,
}
use hive_os.Table.{first_where, select}
use hive_os.Table.Rows.{All-select}
use hive_os.Table.Keyed.{All-by_id}
use hive_os.Autonomy.Tasks.{
  running, state_eq, default_stall_timeout, TaskRecord, TaskBoard, task_id_of, get_task,
}
use hive_os.Autonomy.Tasks.Recovery.{
  Cutoff, before, lease, stalled, stall_row, stall_or_dead, recover_row, recover_rows,
  recover_stalled, requeue_running,
}
use hive_os.Autonomy.Tasks.RowRules.{get_task-update_other}
use hive_os.Autonomy.Tasks.Invariant.{IsWellFormed}

-- A stalled task changes no other task.
get_task-stall_other :
    (now task_id token n : ℕ) (error : String) (cutoff : Option Cutoff) (b : TaskBoard)
    → n ≢ task_id
    → get_task n (stall_or_dead now task_id token error cutoff b).0 ≡ get_task n b
unfolding stall_or_dead
get_task-stall_other now task_id token n error cutoff b other =
    elim (Option-cases (first_where (λ t. (t.id == task_id) && stalled token cutoff t) b.rows)) [
      | inl gone ↦ rw (gone, stall_or_dead)
      | inr (t, found) ↦
          rw (found, stall_or_dead)
            (get_task-update_other task_id _ (stall_row now _ _) (λ r. refl) b n other)
    ]

-- A snapshot row whose lease is alive, or which is another task's, leaves task `n` alone.
abbrev Spares : ℕ → ℕ → ℕ → TaskRecord → Type 0
Spares now age n t = t.id ≡ n → before (record { now = now; age = lease age t }) t ≡ false

get_task-recover_row :
    (now : ℕ) (later : ℕ → ℕ) (age n : ℕ) (t : TaskRecord) (acc : TaskBoard × ℕ)
    → Spares now age n t
    → get_task n (recover_row now later age t acc).0 ≡ get_task n acc.0
unfolding recover_row
get_task-recover_row now later age n t (b, k) spared =
    let cutoff : Cutoff = record { now = now; age = lease age t } in
    elim (Bool-cases (before cutoff t)) [
      | inr early ↦ rw early
      | inl due ↦ rw due (
          get_task-stall_other (later t.id) t.id t.attempts n "task stalled; recovered once"
            (some cutoff) b (λ e. true_ne_false (sym due ∙ spared (sym e))))
    ]

get_task-recover_rows :
    (now : ℕ) (later : ℕ → ℕ) (age n : ℕ) (ts : List TaskRecord) (acc : TaskBoard × ℕ)
    → All (Spares now age n) ts
    → get_task n (recover_rows now later age ts acc).0 ≡ get_task n acc.0
unfolding recover_rows
get_task-recover_rows now later age n [] acc h = refl
get_task-recover_rows now later age n (t ∷ ts) acc h =
    get_task-recover_rows now later age n ts (recover_row now later age t acc) h.1
    ∙ get_task-recover_row now later age n t acc h.0

-- An issue task whose claim was renewed within the last 300 seconds keeps its state through every
-- recovery, whatever its stall timeout, and so through the recovery at startup too.
pub live_lease_survives :
    (now : ℕ) (later : ℕ → ℕ) (age n : ℕ) (b : TaskBoard) (t : TaskRecord)
    → IsWellFormed b
    → get_task n b ≡ some t
    → str_eq t.kind "issue_work" ≡ true
    → now < t.updated_ts + default_stall_timeout
    → (get_task n (recover_stalled now later age b).0 ≡ some t)
      × (get_task n (requeue_running now later b).0 ≡ some t)
unfolding recover_stalled requeue_running get_task
live_lease_survives now later age n b t h found issue alive = (survives age, survives 0)
  where
    spares : (age : ℕ) → All (Spares now age n) b.rows
    spares age =
        All-map _ _ b.rows (λ r unique its_id. rw (unique its_id) (ground arith))
          (All-by_id task_id_of 1 b.next_id n b.rows t h.ids_rise found)

    survives : (age : ℕ) → get_task n (recover_stalled now later age b).0 ≡ some t
    survives age =
        get_task-recover_rows now later age n
          (select (λ t. state_eq t.state running && before (record { now = now; age = age }) t)
            b.rows)
          (b, 0) (All-select (Spares now age n) _ b.rows (spares age))
        ∙ found
