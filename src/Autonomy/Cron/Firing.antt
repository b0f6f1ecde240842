-- ===== src/Autonomy/Cron/Firing.antt =====
-- What a round of the scheduler leaves due.
use Prim.Native.String
use mathlib.Core.List.{append-nil}
use hive_os.Base.{
  sym, ap, ◌∙◌, ◌++◌, ℕ, suc, ◌+◌, String, Bool, true, false, Option, none, some, List, [], ◌∷◌,
  ◌≡◌, inl, inr, All, arith, leb, length,
}
use hive_os.Table.{select}
use hive_os.Autonomy.Tasks.{TaskRecord, TaskBoard}
use hive_os.Autonomy.Tasks.Issues.{decimal}
use hive_os.Autonomy.Tasks.Admission.Rounds.{
  added, enqueue-unkeyed_returned, IsQueued, new_row-IsQueued, rows_from, Each, rows_from-Each,
  added-rows_from,
}
use hive_os.Autonomy.Tasks.Enqueue.{returned, enqueue}
use hive_os.Autonomy.Tasks.Changes.Entries.{Result-cases}
use hive_os.Table.Rows.{length-select}
use hive_os.Table.Rounds.{Pending, count_where-Pending, Pending-select, Pending-update_where}
use hive_os.Autonomy.Cron.{
  CronJob, CronTable, TimeUnit, is_due, next_run, advance, job_task, fire_all, due_and_enqueue,
  due_count,
}

-- A next time, if there is one, that is past `now`.
abbrev pub is_later : ℕ → Option ℕ → Bool
is_later now none = true
is_later now (some t) = leb (suc now) t

not_due :
    (now : ℕ) (x : CronJob) (t u : Option ℕ)
    → is_later now t ≡ true
    → is_due now (record x { last_run = u; next_run = t }) ≡ false
not_due now x none u later = ground arith
not_due now x (some t) u later = ground arith

none_due :
    (now : ℕ) (rows : List CronJob) (t u : Option ℕ)
    → is_later now t ≡ true
    → All (λ (x : CronJob). is_due now (record x { last_run = u; next_run = t }) ≡ false) rows
none_due now [] t u later = tt
none_due now (x ∷ rows) t u later = (not_due now x t u later, none_due now rows t u later)

-- The row that a due job puts on the board.
abbrev pub IsJobTask : String → ℕ → CronJob → TaskRecord → Type 0
IsJobTask run id r t = IsQueued id r.task_kind r.payload (String.◌++◌ "cron:" (decimal r.id)) run t

module _ (interval : String → Option (ℕ × TimeUnit)) (croniter : String → ℕ → Option ℕ) where
  fire_all-settles :
      (now : ℕ) (run : String) (due : List CronJob) (fired n : ℕ) (c : CronTable) (b : TaskBoard)
      → All (λ (r : CronJob). is_later now (next_run interval croniter r.schedule now) ≡ true) due
      → Pending (λ r. r.id) (is_due now) due c.rows
      → (fire_all interval croniter now run due fired (c, b)).1 ≡ returned n
      → (due_count now (fire_all interval croniter now run due fired (c, b)).0.0 ≡ 0)
        × ((n ≡ fired + length due)
            × ((fire_all interval croniter now run due fired (c, b)).0.1.rows
                ≡ b.rows ++ rows_from (job_task interval croniter run) now b.next_id due))
  unfolding fire_all due_count advance rows_from
  fire_all-settles now run [] fired n c b later h e = (
    count_where-Pending (λ r. r.id) (is_due now) c.rows h,
    (ground arith, sym (append-nil b.rows)),
  )
  fire_all-settles now run (r ∷ due) fired n c b later h e =
      elim (Result-cases (enqueue now (job_task interval croniter run r) b)) [
        | inr (error, failed) ↦ absurd (ground arith)
        | inl (r', found) ↦
            let task = job_task interval croniter run in
            let went : enqueue now (task r) b ≡ returned (added now (task r) b, b.next_id) =
              found ∙ ap returned (enqueue-unkeyed_returned now (task r) b r' found) in
            let rest =
              fire_all-settles now run due (fired + 1) n (advance interval croniter now r c)
                (added now (task r) b) later.1
                (Pending-update_where (λ r. r.id) (is_due now) _ r due c.rows
                  (none_due now c.rows (next_run interval croniter r.schedule now) (some now)
                    later.0)
                  h)
                (rw (went, fire_all) at e) in
            rw (went, fire_all)
              (rest.0, (omega (arith, rest.1.0), rest.1.1 ∙ added-rows_from task now r due b))
      ]

  -- When a round of the scheduler does not raise, and the next time of each due job is past the
  -- round's time, no job is due at that time any more, the round returns the number of jobs that were, and it adds to
  -- the board exactly one pending row for each of them, in order and under consecutive ids, with its task kind, its
  -- payload, its id as the source, and three attempts.
  pub round_settles :
      (now : ℕ) (run : String) (n : ℕ) (c : CronTable) (b : TaskBoard)
      → All
          (λ (r : CronJob). is_later now (next_run interval croniter r.schedule now) ≡ true)
          (select (is_due now) c.rows)
      → (due_and_enqueue interval croniter now run (c, b)).1 ≡ returned n
      → (due_count now (due_and_enqueue interval croniter now run (c, b)).0.0 ≡ 0)
        × ((n ≡ due_count now c)
            × ((tasks : List TaskRecord) × ((due_and_enqueue interval croniter now run
                    (c, b)).0.1.rows
                  ≡ b.rows ++ tasks)
                × Each (IsJobTask run) b.next_id (select (is_due now) c.rows) tasks))
  unfolding due_and_enqueue due_count
  round_settles now run n c b later e =
      let done =
        fire_all-settles now run (select (is_due now) c.rows) 0 n c b later
          (Pending-select (λ r. r.id) (is_due now) c.rows) e in
      (
        done.0,
        (
          count done.1.0,
          (
            rows_from (job_task interval croniter run) now b.next_id (select (is_due now) c.rows),
            done.1.1,
            rows_from-Each (IsJobTask run) (job_task interval croniter run) now b.next_id
                (select (is_due now) c.rows) (λ id r. new_row-IsQueued now id _ _ _ run),
          ),
        ),
      )
    where
      count : n ≡ 0 + length (select (is_due now) c.rows) → n ≡ due_count now c
      count e = omega (arith, e, length-select (is_due now) c.rows)
