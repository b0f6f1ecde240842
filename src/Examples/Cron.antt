-- ===== src/Examples/Cron.antt =====
-- The theorem on the scheduler, at one due job.
use hive_os.Base.{List, ◌++◌, ℕ, String, true, Option, none, some, [], ◌∷◌, ◌≡◌, refl, strip}
use hive_os.Table.{select}
use hive_os.Autonomy.Tasks.{TaskRecord, empty_board}
use hive_os.Autonomy.Tasks.Enqueue.{
  returned, enqueue, insert_task, stripped, is_reserved, conflicts, new_row, or_existing,
}
use hive_os.Autonomy.Tasks.Admission.Rounds.{Each}
use hive_os.Autonomy.Cron.{
  CronJob, CronTable, TimeUnit, is_due, due_and_enqueue, due_count, next_run, fire_all,
}
use hive_os.Autonomy.Cron.Firing.{IsJobTask, round_settles}

abbrev no_interval : String → Option (ℕ × TimeUnit)
no_interval text = none

abbrev no_croniter : String → ℕ → Option ℕ
no_croniter text after = none

abbrev hourly : CronJob
hourly = record {
  id = 1;
  schedule = "@hourly";
  task_kind = "tool";
  payload = [];
  enabled = true;
  last_run = none;
  next_run = some 5;
}

abbrev table : CronTable
table = record { rows = hourly ∷ []; next_id = 2 }

fired : (due_and_enqueue no_interval no_croniter 10 "r" (table, empty_board)).1 ≡ returned 1
unfolding due_and_enqueue fire_all select empty_board enqueue insert_task stripped is_reserved
    conflicts new_row or_existing
fired = refl

round_settles_example :
    (due_count 10 (due_and_enqueue no_interval no_croniter 10 "r" (table, empty_board)).0.0 ≡ 0)
    × ((1 ≡ due_count 10 table)
        × ((tasks : List TaskRecord) × ((due_and_enqueue no_interval no_croniter 10 "r"
                (table, empty_board)).0.1.rows
              ≡ empty_board.rows ++ tasks)
            × Each (IsJobTask "r") empty_board.next_id (select (is_due 10) table.rows) tasks))
unfolding select next_run strip
round_settles_example =
    round_settles no_interval no_croniter 10 "r" 1 table empty_board (refl, tt) fired
