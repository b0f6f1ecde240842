-- ===== src/Autonomy/Tasks/Invariant.antt =====
-- What holds of the board between two calls.
use hive_os.Base.{
  ℕ, ◌+◌, ◌≤◌, ◌<◌, String, Bool, true, false, Option, none, some, List, [], ◌∷◌, ◌++◌, ◌≡◌, refl,
  arith, str_eq, str_eq_iff, All, All-append, All-map,
}
use hive_os.Table.{count_where, update_where, delete_where}
use hive_os.Table.Keyed.{Rising, Rising-append, Rising-update_where, Rising-delete_where}
use hive_os.Table.Rows.{
  All-update_where, All-delete_where, count_where-update_where, count_where-delete_le,
  count_where-append,
}
use hive_os.Autonomy.Tasks.{TaskRecord, IssuePickup, TaskBoard, task_id_of, empty_board}
use hive_os.Autonomy.Tasks.Changes.{
  RowOk, Change, same, followed, updated, deleted, inserted, picked_up,
}
use hive_os.Autonomy.Tasks.Changes.Histories.{run-Change}
use hive_os.Autonomy.Tasks.Operations.{Op, run}
use hive_os.Autonomy.Tasks.Enqueue.{NewTask, new_row, has_key, conflicts}

pub record IsWellFormed (b : TaskBoard) : Type 0 where
  pub ids_rise : Rising task_id_of 1 b.rows b.next_id
  pub rows_ok : All RowOk b.rows
  pub keys_unique : (key : String) → str_eq key "" ≡ false → count_where (has_key key) b.rows ≤ 1
  pub pickups_issued : All (λ (p : IssuePickup). p.task_id < b.next_id) b.pickups

-- An UPDATE of any rows that leaves ids and keys alone.
module _ (p : TaskRecord → Bool) (f : TaskRecord → TaskRecord)
    (same_id : (t : TaskRecord) → (f t).id ≡ t.id)
    (same_key : (key : String) (t : TaskRecord) → has_key key (f t) ≡ has_key key t)
    (keep : (t : TaskRecord) → p t ≡ true → RowOk t → RowOk (f t)) where
  update-IsWellFormed :
      (b : TaskBoard) → IsWellFormed b → IsWellFormed (record b { rows = update_where p f b.rows })
  update-IsWellFormed b h = record {
    ids_rise = Rising-update_where task_id_of f same_id 1 b.next_id p b.rows h.ids_rise;
    rows_ok = All-update_where RowOk p f b.rows keep h.rows_ok;
    keys_unique = λ key e. omega (
      arith,
      h.keys_unique key e,
      count_where-update_where p (has_key key) f b.rows (same_key key),
    );
    pickups_issued = h.pickups_issued;
  }

delete-IsWellFormed :
    (p : TaskRecord → Bool) (b : TaskBoard)
    → IsWellFormed b
    → IsWellFormed (record b { rows = delete_where p b.rows })
delete-IsWellFormed p b h = record {
  ids_rise = Rising-delete_where task_id_of 1 b.next_id p b.rows h.ids_rise;
  rows_ok = All-delete_where RowOk p b.rows h.rows_ok;
  keys_unique =
      λ key e. omega (arith, h.keys_unique key e, count_where-delete_le p (has_key key) b.rows);
  pickups_issued = h.pickups_issued;
}

-- A row whose key is free, if it has one, keeps each key unique.
insert_unique :
    (own : Option String) (t : TaskRecord) (rows : List TaskRecord) (key : String)
    → t.idempotency_key ≡ own
    → conflicts own rows ≡ false
    → str_eq key "" ≡ false
    → count_where (has_key key) rows ≤ 1
    → count_where (has_key key) (rows ++ t ∷ []) ≤ 1
unfolding conflicts count_where
insert_unique none t rows key e free full h =
    ground (arith, count_where-append (has_key key) rows (t ∷ []))
insert_unique (some own) t rows key e free full h =
    ground (arith, count_where-append (has_key key) rows (t ∷ []), str_eq_iff own key)

-- An INSERT whose key is free.
insert-IsWellFormed :
    (now : ℕ) (n : NewTask) (b : TaskBoard)
    → conflicts n.key b.rows ≡ false
    → 1 ≤ n.max_attempts
    → IsWellFormed b
    → IsWellFormed
        (record b { rows = b.rows ++ new_row now b.next_id n ∷ []; next_id = b.next_id + 1 })
unfolding new_row
insert-IsWellFormed now n b free given h = record {
  ids_rise = Rising-append task_id_of 1 b.next_id b.rows (new_row now b.next_id n) h.ids_rise refl;
  rows_ok = All-append RowOk b.rows (new_row now b.next_id n ∷ []) h.rows_ok (ground arith, tt);
  keys_unique = λ key e.
      insert_unique n.key (new_row now b.next_id n) b.rows key refl free e (h.keys_unique key e);
  pickups_issued = All-map _ _ b.pickups (λ p l. omega arith) h.pickups_issued;
}

-- Every change keeps the board well formed.
pub Change-IsWellFormed : {b c : TaskBoard} → Change b c → IsWellFormed b → IsWellFormed c
Change-IsWellFormed (same b) h = h
Change-IsWellFormed (followed first rest) h = Change-IsWellFormed rest (Change-IsWellFormed first h)
Change-IsWellFormed (updated p f same_id same_key tokens keep b) h =
    update-IsWellFormed p f same_id same_key keep b h
Change-IsWellFormed (deleted p b) h = delete-IsWellFormed p b h
Change-IsWellFormed (inserted now n b free given) h = insert-IsWellFormed now n b free given h
Change-IsWellFormed (picked_up p b old) h = record {
  ids_rise = h.ids_rise;
  rows_ok = h.rows_ok;
  keys_unique = h.keys_unique;
  pickups_issued = All-append _ b.pickups (p ∷ []) h.pickups_issued (old, tt);
}

pub empty_board-IsWellFormed : IsWellFormed empty_board
unfolding empty_board count_where
empty_board-IsWellFormed = record {
  ids_rise = omega arith;
  rows_ok = tt;
  keys_unique = λ key e. omega arith;
  pickups_issued = tt;
}

-- Every history of calls on a new board, whatever their arguments and whether they succeed, keeps
-- the board well formed: ids rise and stay below the next id, every task is within its attempt
-- budget of max_attempts claims beyond its rate-limit deferrals, a running task has a claim that
-- is no deferral, a nonempty idempotency key stands in one row at most, and pickups name ids that
-- were given out.
pub run-IsWellFormed :
    (casefold : String → String) (ops : List Op) → IsWellFormed (run casefold empty_board ops)
run-IsWellFormed casefold ops =
    Change-IsWellFormed (run-Change casefold ops empty_board) empty_board-IsWellFormed
