-- ===== src/Autonomy/Tasks/Enqueue.antt =====
-- How work enters the board: enqueue, enqueue_many, enqueue_issue_work, owns_issue_pickup and
-- activate_goal_batch of src/hive/autonomy/tasks.py. `run` is what `current_run_id()` returns. An
-- `int` that may be negative is a natural number here: the code refuses zero and below alike.
use Prim.Native.Char.{code}
use hive_os.Base.{
  ℕ, ◌+◌, String, Bool, true, false, not, Option, none, some, List, [], ◌∷◌, ◌++◌, ◌&&◌, ◌||◌, ltb,
  leb, ◌==◌, if◌then◌else◌, str_eq, strip, get_or, length, insert_sorted,
}
use text.Mathlib.Text.{starts_with}
use hive_os.Table.{count_where, first_where, update_where}
use hive_os.Autonomy.Tasks.{pending, state_eq, Payload, default_max_attempts, TaskRecord, TaskBoard}

pub data Error : Type 0 where
  value_error integrity_error : Error

pub data Result {ℓ} (A : Type ℓ) : Type ℓ where
  returned : A → Result A
  raised : Error → Result A

-- The columns that an INSERT of the program gives.
pub record NewTask : Type 0 where
  pub kind : String
  pub payload : Payload
  pub scheduled_for : ℕ
  pub source : String
  pub run_id : String
  pub max_attempts : ℕ
  pub key : Option String

unfoldable pub new_row : ℕ → ℕ → NewTask → TaskRecord
new_row now id n = record {
  id = id;
  kind = n.kind;
  payload = n.payload;
  state = pending;
  created_ts = now;
  updated_ts = now;
  scheduled_for = n.scheduled_for;
  source = n.source;
  attempts = 0;
  run_id = n.run_id;
  last_error = none;
  max_attempts = n.max_attempts;
  rate_limit_count = 0;
  stall_count = 0;
  idempotency_key = n.key;
}

-- idempotency_key=?
abbrev pub has_key : String → TaskRecord → Bool
has_key key t = elim t.idempotency_key [ none ↦ false | some k ↦ str_eq k key ]

-- The partial UNIQUE index on keys that are neither NULL nor empty.
unfoldable pub conflicts : Option String → List TaskRecord → Bool
conflicts none rows = false
conflicts (some key) rows = if str_eq key "" then false else ltb 0 (count_where (has_key key) rows)

-- INSERT INTO hive_tasks, with its IntegrityError.
unfoldable pub insert_task : ℕ → NewTask → TaskBoard → Result (TaskBoard × ℕ)
unfolding conflicts new_row
insert_task now n b =
    if conflicts n.key b.rows
    then raised integrity_error
    else returned (
      record b { rows = b.rows ++ new_row now b.next_id n ∷ []; next_id = b.next_id + 1 },
      b.next_id,
    )

-- key.startswith("issue:")
unfoldable pub is_reserved : String → Bool
is_reserved key = starts_with key "issue:"

abbrev pub is_reserved_work : String → Option String → Bool
is_reserved_work kind key = str_eq kind "issue_work" || is_reserved (get_or "" key)

-- idempotency_key.strip() if idempotency_key else None
unfoldable pub stripped : Option String → Option String
stripped none = none
stripped (some key) = if str_eq key "" then none else some (strip key)

-- The duplicate's row answers for a key that is taken.
unfoldable pub existing : Option String → TaskBoard → Result (TaskBoard × ℕ)
existing none b = raised integrity_error
existing (some key) b = elim (first_where (has_key key) b.rows) [
  | none ↦ raised integrity_error
  | some t ↦ returned (b, t.id)
]

unfoldable pub or_existing :
    Option String → TaskBoard → Result (TaskBoard × ℕ) → Result (TaskBoard × ℕ)
unfolding existing
or_existing key b (returned r) = returned r
or_existing key b (raised e) = existing key b

-- `n.key` is the caller's key, before it is stripped.
unfoldable pub enqueue : ℕ → NewTask → TaskBoard → Result (TaskBoard × ℕ)
unfolding insert_task stripped or_existing
enqueue now n b =
    if ltb n.max_attempts 1
    then raised value_error
    else if is_reserved_work n.kind n.key
    then raised value_error
    else (let key = stripped n.key in
        or_existing key b (insert_task now (record n { key = key }) b))

-- One entry of a plan; what the dict leaves out is `none`.
pub record Entry : Type 0 where
  pub kind : Option String
  pub payload : Option Payload
  pub scheduled_for : Option ℕ
  pub source : Option String
  pub run_id : Option String
  pub max_attempts : Option ℕ
  pub idempotency_key : Option String

-- str(entry.get("idempotency_key") or "").strip() or None
unfoldable pub entry_key : Option String → Option String
entry_key key = let s = strip (get_or "" key) in if str_eq s "" then none else some s

abbrev pub entry_task : String → Entry → NewTask
entry_task run e = record {
  kind = get_or "tool" e.kind;
  payload = get_or [] e.payload;
  scheduled_for = get_or 0 e.scheduled_for;
  source = get_or "" e.source;
  run_id = get_or run e.run_id;
  max_attempts = get_or default_max_attempts e.max_attempts;
  key = entry_key e.idempotency_key;
}

unfoldable pub insert_entry : ℕ → String → Entry → TaskBoard → Result (TaskBoard × ℕ)
unfolding insert_task entry_key
insert_entry now run e b =
    let n : NewTask = entry_task run e in
    if ltb n.max_attempts 1
    then raised value_error
    else if is_reserved_work n.kind n.key
    then raised value_error
    else insert_task now n b

-- The loop of the transaction: the board so far and the ids in order.
unfoldable pub insert_entries :
    ℕ → String → List Entry → TaskBoard → List ℕ → Result (TaskBoard × List ℕ)
insert_entries now run [] b ids = returned (b, ids)
insert_entries now run (e ∷ es) b ids = elim (insert_entry now run e b) [
  | raised error ↦ raised error
  | returned (b', id) ↦ insert_entries now run es b' (ids ++ id ∷ [])
]

-- A raise rolls the transaction back: the board afterwards stands beside the result.
unfoldable pub enqueue_many : ℕ → String → List Entry → TaskBoard → TaskBoard × Result (List ℕ)
unfolding insert_entries
enqueue_many now run entries b = elim (insert_entries now run entries b []) [
  | raised error ↦ (b, raised error)
  | returned (b', ids) ↦ (b', returned ids)
]

-- sorted({...}) of task ids.
unfoldable pub normalized : List ℕ → List ℕ
normalized [] = []
normalized (n ∷ ns) = insert_sorted n (normalized ns)

abbrev pub is_in : List ℕ → ℕ → Bool
is_in [] n = false
is_in (m ∷ ms) n = (m == n) || is_in ms n

-- SQLite's LIKE before a closing `%`: `_` stands for any character, and ASCII letters fold.
like_char : ℕ → ℕ → Bool
like_char p c =
    p == b'_'
    || (if leb b'A' p && leb p b'Z' then p + 32 else p)
      == (if leb b'A' c && leb c b'Z' then c + 32 else c)

like_prefix : String → String → Bool
unfolding like_char
like_prefix String.[] s = true
like_prefix (String.◌∷◌ p ps) String.[] = false
like_prefix (String.◌∷◌ p ps) (String.◌∷◌ c s) = like_char (code p) (code c) && like_prefix ps s

-- id IN (…) AND state='pending' AND source LIKE 'goal_pending:%'
unfoldable pub awaits_link : List ℕ → TaskRecord → Bool
unfolding like_prefix
awaits_link ids t =
    is_in ids t.id && (state_eq t.state pending && like_prefix "goal_pending:" t.source)

unfoldable pub activate_goal_batch : ℕ → List ℕ → String → TaskBoard → TaskBoard × Bool
unfolding normalized
activate_goal_batch now task_ids source b =
    let ids = normalized task_ids in
    if length ids == 0 || not (starts_with source "goal:") then (b, false) else (
      record b {
        rows =
            update_where (awaits_link ids) (λ t. record t { source = source; updated_ts = now })
              b.rows;
      },
      count_where (awaits_link ids) b.rows == length ids,
    )
