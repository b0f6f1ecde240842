-- ===== src/Autonomy/Cron.antt =====
-- Scheduled jobs: src/hive/autonomy/cron.py. The regular expression of intervals and croniter are
-- parameters; times are milliseconds.
pub mod Firing
use Prim.Native.String
use hive_os.Base.{
  ℕ, ◌+◌, ◌*◌, String, Bool, true, false, Option, none, some, List, [], ◌∷◌, ◌++◌, leb, ltb, ◌&&◌,
  ◌==◌, min, if◌then◌else◌, str_eq, strip, length,
}
use hive_os.Table.{select, count_where, first_where, update_where, delete_where}
use hive_os.Autonomy.Tasks.{TaskBoard, Payload, seconds, default_max_attempts}
use hive_os.Autonomy.Tasks.Enqueue.{Error, Result, returned, raised, NewTask, enqueue}
use hive_os.Autonomy.Tasks.Issues.{decimal}

-- A row of hive_cron.
pub record CronJob : Type 0 where
  pub id : ℕ
  pub schedule : String
  pub task_kind : String
  pub payload : Payload
  pub enabled : Bool
  pub last_run : Option ℕ
  pub next_run : Option ℕ

pub record CronTable : Type 0 where
  pub rows : List CronJob
  pub next_id : ℕ

-- _UNIT
pub data TimeUnit : Type 0 where
  s m h d : TimeUnit

unfoldable pub unit_length : TimeUnit → ℕ
unit_length s = seconds 1
unit_length m = seconds 60
unit_length h = seconds 3600
unit_length d = seconds 86400

abbrev pub is_due : ℕ → CronJob → Bool
is_due now r = r.enabled && elim r.next_run [ none ↦ false | some t ↦ leb t now ]

-- `interval` is the match of _INTERVAL_RE, `croniter` the next time of an expression, none where it
-- is not installed or refuses.
module _ (interval : String → Option (ℕ × TimeUnit)) (croniter : String → ℕ → Option ℕ) where
  unfoldable pub next_run : String → ℕ → Option ℕ
  unfolding unit_length strip
  next_run schedule after =
      let sched = strip schedule in
      if str_eq sched "@hourly"
      then some (after + seconds 3600)
      else if str_eq sched "@daily"
      then some (after + seconds 86400)
      else if str_eq sched "@weekly"
      then some (after + seconds 604800)
      else elim (interval sched) [
        | some (n, unit) ↦ some (after + n * unit_length unit)
        | none ↦ croniter sched after
      ]

  unfoldable pub add : ℕ → String → String → Payload → Bool → CronTable → CronTable × ℕ
  unfolding next_run
  add now schedule task_kind payload enabled c = (
    record {
      rows =
          c.rows
          ++ (record {
            id = c.next_id;
            schedule = schedule;
            task_kind = task_kind;
            payload = payload;
            enabled = enabled;
            last_run = none;
            next_run = next_run schedule now;
          })
            ∷ [];
      next_id = c.next_id + 1;
    },
    c.next_id,
  )

  -- UPDATE hive_cron SET last_run=?, next_run=? WHERE id=?
  unfoldable pub advance : ℕ → CronJob → CronTable → CronTable
  advance now r c = record c {
    rows =
        update_where (λ x. x.id == r.id)
          (λ x. record x { last_run = some now; next_run = next_run r.schedule now }) c.rows;
  }

  abbrev pub job_task : String → CronJob → NewTask
  job_task run r = record {
    kind = r.task_kind;
    payload = r.payload;
    scheduled_for = 0;
    source = String.◌++◌ "cron:" (decimal r.id);
    run_id = run;
    max_attempts = default_max_attempts;
    key = none;
  }

  -- The loop over the due rows: the table and the board after it, and the number fired.
  unfoldable pub fire_all :
      ℕ → String → List CronJob → ℕ → CronTable × TaskBoard → (CronTable × TaskBoard) × Result ℕ
  unfolding advance
  fire_all now run [] fired state = (state, returned fired)
  fire_all now run (r ∷ due) fired (c, b) = elim (enqueue now (job_task run r) b) [
    | raised e ↦ ((c, b), raised e)
    | returned (b', id) ↦ fire_all now run due (fired + 1) (advance now r c, b')
  ]

  unfoldable pub due_and_enqueue :
      ℕ → String → CronTable × TaskBoard → (CronTable × TaskBoard) × Result ℕ
  unfolding fire_all
  due_and_enqueue now run (c, b) = fire_all now run (select (is_due now) c.rows) 0 (c, b)

unfoldable pub jobs : CronTable → List CronJob
jobs c = c.rows

unfoldable pub get : ℕ → CronTable → Option CronJob
get job_id c = first_where (λ r. r.id == job_id) c.rows

unfoldable pub set_enabled : ℕ → Bool → CronTable → CronTable
set_enabled job_id enabled c = record c {
  rows = update_where (λ r. r.id == job_id) (λ r. record r { enabled = enabled }) c.rows;
}

unfoldable pub due_count : ℕ → CronTable → ℕ
due_count now c = count_where (is_due now) c.rows

unfoldable pub enabled_count : CronTable → ℕ
enabled_count c = count_where (λ r. r.enabled) c.rows

least : List CronJob → Option ℕ
least [] = none
least (r ∷ rs) =
    let rest = least rs in
    elim r.next_run [ none ↦ rest | some t ↦ elim rest [ none ↦ some t | some u ↦ some (min t u) ] ]

unfoldable pub next_due_time : CronTable → Option ℕ
unfolding least
next_due_time c = least (select (λ r. r.enabled) c.rows)

unfoldable pub remove : ℕ → CronTable → CronTable × Bool
remove job_id c = (
  record c { rows = delete_where (λ r. r.id == job_id) c.rows },
  ltb 0 (count_where (λ r. r.id == job_id) c.rows),
)
