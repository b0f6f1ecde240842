-- ===== src/Autonomy/Tasks/Fencing.antt =====
-- Claims are exclusive, and the token of a claim fences every later result.
pub mod Order
pub mod Late
use hive_os.Base.{
  ℕ, suc, ◌+◌, ◌≤◌, ◌<◌, String, Bool, true, false, Option, none, some, List, ◌≡◌, ◌≢◌, refl, ap,
  ◌∙◌, sym, ◌&&◌, ◌==◌, if◌then◌else◌, arith, inl, inr, Bool-cases, Option-cases, ltb,
}
use hive_os.Table.{first_where, count_where}
use hive_os.Table.Rows.{update_where_none, first_where-none}
use hive_os.Table.Keyed.{first_where-at_id, count_where-at_id, hits}
use hive_os.Autonomy.Tasks.{
  pending, running, state_eq, TaskRecord, TaskBoard, task_id_of, fence, update_task, get_task,
}
use hive_os.Autonomy.Tasks.Lifecycle.{
  Delay, claimable, exhausted, bury, start, token_of, claim_attempt, complete, await_approval,
  fail_if_running, retry_or_dead, defer_rate_limited, cancel_running, touch_running,
}
use hive_os.Autonomy.Tasks.Recovery.{Cutoff, stalled, stall_or_dead}
use hive_os.Autonomy.Tasks.RowRules.{verdict, get_task-update_hit, update_task_flag}
use hive_os.Autonomy.Tasks.Invariant.{IsWellFormed, Change-IsWellFormed}
use hive_os.Autonomy.Tasks.Changes.Claims.{claim_attempt-Change}

-- A guard that the task's row does not meet makes the statement a no-op.
pub update_task_refused :
    (task_id : ℕ) (g : TaskRecord → Bool) (f : TaskRecord → TaskRecord) (b : TaskBoard)
    → IsWellFormed b
    → verdict g (get_task task_id b) ≡ false
    → update_task task_id g f b ≡ (b, false)
unfolding update_task get_task
update_task_refused task_id g f b h no_hit =
    let none_hit = count_where-at_id task_id_of 1 b.next_id task_id g b.rows h.ids_rise in
    let zero_hits : count_where (λ t. (t.id == task_id) && g t) b.rows ≡ 0 = ground arith in
    rw zero_hits (rw (update_where_none (λ t. (t.id == task_id) && g t) f b.rows zero_hits))

token_of-running :
    (task_id : ℕ) (b : TaskBoard) (t : TaskRecord)
    → get_task task_id b ≡ some t
    → t.state ≡ running
    → token_of task_id b.rows ≡ some t.attempts
unfolding token_of get_task
token_of-running task_id b t found live = rw (
  first_where-at_id task_id_of task_id (λ t. state_eq t.state running) b.rows t found
      (ground arith),
  token_of,
)

module _ (now : ℕ) (run : String) (task_id : ℕ) (b : TaskBoard) (h : IsWellFormed b) where
  claim_hit :
      (t : TaskRecord)
      → get_task task_id b ≡ some t
      → claimable t ≡ true
      → claim_attempt now run task_id b
        ≡ ((update_task task_id claimable (start now run) b).0, some (t.attempts + 1))
  unfolding claim_attempt
  claim_hit t found ready =
      let claimed : TaskBoard = (update_task task_id claimable (start now run) b).0 in
      let flag =
        update_task_flag task_id claimable (start now run) (λ t. refl) b h.ids_rise
        ∙ ap (verdict claimable) found
        ∙ ready in
      let now_running : get_task task_id claimed ≡ some (start now run t) =
        get_task-update_hit task_id claimable (start now run) (λ t. refl) b t found ready in
      rw flag (rw (token_of-running task_id claimed (start now run t) now_running refl) refl)

  claim_miss :
      verdict claimable (get_task task_id b) ≡ false → (claim_attempt now run task_id b).1 ≡ none
  unfolding claim_attempt
  claim_miss unready =
      rw (update_task_flag task_id claimable (start now run) (λ t. refl) b h.ids_rise ∙ unready)
        refl

-- Neither of the two statements of a claim finds the task.
claim_refused :
    (now : ℕ) (run : String) (task_id : ℕ) (b : TaskBoard)
    → IsWellFormed b
    → verdict claimable (get_task task_id b) ≡ false
    → verdict exhausted (get_task task_id b) ≡ false
    → claim_attempt now run task_id b ≡ (b, none)
unfolding claim_attempt
claim_refused now run task_id b h unready alive =
    rw (update_task_refused task_id claimable (start now run) b h unready)
      (ap (λ r. (r.0, none)) (update_task_refused task_id exhausted (bury now) b h alive))

none_granted : {token : ℕ} → ◌≡◌ {A = Option ℕ} none (some token) → ⊥
none_granted e = cc

-- What a granted claim says: the task was pending and within its budget, the token is its next
-- attempt number, and the task is running under that token.
pub claim_attempt_granted :
    (now : ℕ) (run : String) (task_id : ℕ) (b : TaskBoard) (token : ℕ)
    → IsWellFormed b
    → (claim_attempt now run task_id b).1 ≡ some token
    → (t : TaskRecord) × (get_task task_id b ≡ some t)
      × (t.state ≡ pending)
      × (t.attempts < t.max_attempts + t.rate_limit_count)
      × (token ≡ t.attempts + 1)
      × (get_task task_id (claim_attempt now run task_id b).0 ≡ some (start now run t))
unfolding claim_attempt
claim_attempt_granted now run task_id b token h granted = elim (Option-cases (get_task task_id b)) [
  | inl gone ↦
      let missed = claim_miss now run task_id b h (ap (verdict claimable) gone) in
      absurd (none_granted (sym missed ∙ granted))
  | inr (t, found) ↦ elim (Bool-cases (claimable t)) [
    | inl ready ↦
        let hit = claim_hit now run task_id b h t found ready in
        (
          t,
          found,
          ground arith,
          ground arith,
          ground arith,
          ap (λ r. get_task task_id r.0) hit
              ∙ get_task-update_hit task_id claimable (start now run) (λ t. refl) b t found ready,
        )
    | inr unready ↦
        let missed = claim_miss now run task_id b h (ap (verdict claimable) found ∙ unready) in
        absurd (none_granted (sym missed ∙ granted))
  ]
]

-- A granted claim is exclusive: the next claim of the task is refused, whoever asks and when, and
-- the refusal changes nothing.
pub claim_attempt_exclusive :
    (now later : ℕ) (run other : String) (task_id : ℕ) (b : TaskBoard) (token : ℕ)
    → IsWellFormed b
    → (claim_attempt now run task_id b).1 ≡ some token
    → let c = (claim_attempt now run task_id b).0 in claim_attempt later other task_id c ≡ (c, none)
unfolding start
claim_attempt_exclusive now later run other task_id b token h granted =
    let (t, found, waiting, budget, is_next, now_running) =
      claim_attempt_granted now run task_id b token h granted in
    let c : TaskBoard = (claim_attempt now run task_id b).0 in
    let k : IsWellFormed c = Change-IsWellFormed (claim_attempt-Change now task_id b run) h in
    claim_refused later other task_id c k (ap (verdict claimable) now_running)
      (ap (verdict exhausted) now_running)

module _ (task_id : ℕ) (b : TaskBoard) (t : TaskRecord) (h : IsWellFormed b)
    (found : get_task task_id b ≡ some t) where
  refuse :
      (g : TaskRecord → Bool) (f : TaskRecord → TaskRecord)
      → g t ≡ false
      → update_task task_id g f b ≡ (b, false)
  refuse g f unmet = update_task_refused task_id g f b h (ap (verdict g) found ∙ unmet)

  stall_refused :
      (now token : ℕ) (error : String) (cutoff : Option Cutoff)
      → stalled token cutoff t ≡ false
      → stall_or_dead now task_id token error cutoff b ≡ (b, false)
  unfolding stall_or_dead get_task
  stall_refused now token error cutoff unmet =
      let p : TaskRecord → Bool = λ t. (t.id == task_id) && stalled token cutoff t in
      let none_hit =
        count_where-at_id task_id_of 1 b.next_id task_id (stalled token cutoff) b.rows h.ids_rise in
      let nothing : first_where p b.rows ≡ none =
        first_where-none p b.rows
          (none_hit ∙ ap (hits task_id_of (stalled token cutoff)) found ∙ rw unmet) in
      rw (nothing, stall_or_dead)

-- A worker that reports with the token of another attempt changes nothing, by any of the eight
-- fenced calls, and is told so.
pub stale_token_ignored :
    (now task_id token : ℕ) (b : TaskBoard) (t : TaskRecord)
    → IsWellFormed b
    → get_task task_id b ≡ some t
    → t.attempts ≢ token
    → (error approval : String) (delay : Delay) (cutoff : Option Cutoff)
    → (complete now task_id (some token) b ≡ (b, false))
      × (await_approval now task_id approval (some token) b ≡ (b, false))
      × (fail_if_running now task_id error (some token) b ≡ (b, false))
      × (retry_or_dead now task_id error (some token) delay b ≡ (b, false))
      × (defer_rate_limited now task_id token delay b ≡ (b, false))
      × (stall_or_dead now task_id token error cutoff b ≡ (b, false))
      × (cancel_running now task_id token b ≡ (b, false))
      × (touch_running now task_id token b ≡ (b, false))
unfolding complete await_approval fail_if_running retry_or_dead defer_rate_limited cancel_running
    touch_running
stale_token_ignored now task_id token b t h found stale error approval delay cutoff =
    let deny = refuse task_id b t h found in
    (
      deny _ _ (ground arith),
      rw (found, await_approval) (deny _ _ (ground arith)),
      deny _ _ (ground arith),
      deny _ _ (ground arith),
      deny _ _ (ground arith),
      stall_refused task_id b t h found now token error cutoff (ground arith),
      deny _ _ (ground arith),
      deny _ _ (ground arith),
    )
