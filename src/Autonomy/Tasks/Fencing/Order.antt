-- ===== src/Autonomy/Tasks/Fencing/Order.antt =====
-- Attempts only grow, and ids are not given out twice: over any history, the tokens of a task rise.
use hive_os.Base.{ℕ, ◌≤◌, ◌<◌, Bool, Option, none, some, ◌≡◌, refl, arith, sym, ◌∙◌}
use hive_os.Table.Keyed.{alter, by_id-update_where, by_id-delete_where, by_id-append_old}
use hive_os.Autonomy.Tasks.{TaskRecord, TaskBoard, task_id_of, get_task}
use hive_os.Autonomy.Tasks.Enqueue.{new_row}
use hive_os.Autonomy.Tasks.Changes.{Change, same, followed, updated, deleted, inserted, picked_up}
use hive_os.Autonomy.Tasks.Invariant.{IsWellFormed, Change-IsWellFormed}

-- A task of `c` that is no newer than `b` was in `b`, with no more attempts.
pub record IsLater (b c : TaskBoard) : Type 0 where
  pub ids_kept : b.next_id ≤ c.next_id
  pub tokens_rise :
      (n : ℕ) (t' : TaskRecord)
      → n < b.next_id
      → get_task n c ≡ some t'
      → (t : TaskRecord) × (get_task n b ≡ some t) × (t.attempts ≤ t'.attempts)

alter-some :
    (p : TaskRecord → Bool) (f : TaskRecord → TaskRecord) (o : Option TaskRecord) (t' : TaskRecord)
    → ((t : TaskRecord) → t.attempts ≤ (f t).attempts)
    → alter task_id_of p f o ≡ some t'
    → (t : TaskRecord) × (o ≡ some t) × (t.attempts ≤ t'.attempts)
alter-some p f none t' tokens e = cc
alter-some p f (some t) t' tokens e = (t, refl, ground (arith, tokens t))

pub Change-IsLater : {b c : TaskBoard} → Change b c → IsWellFormed b → IsLater b c
unfolding get_task
Change-IsLater (same b) h = record {
  ids_kept = omega arith;
  tokens_rise = λ n t' old found. (t', found, omega arith);
}
Change-IsLater (followed first rest) h =
    let before = Change-IsLater first h in
    let after = Change-IsLater rest (Change-IsWellFormed first h) in
    record {
      ids_kept = omega (arith, before.ids_kept, after.ids_kept);
      tokens_rise = λ n t' old found.
          let (t, at, le) = after.tokens_rise n t' (omega (arith, before.ids_kept)) found in
          let (s, at', le') = before.tokens_rise n t old at in (s, at', omega arith);
    }
Change-IsLater (updated p f same_id same_key tokens keep b) h = record {
  ids_kept = omega arith;
  tokens_rise = λ n t' old found.
      alter-some p f _ t' tokens (sym (by_id-update_where task_id_of f same_id n p b.rows) ∙ found);
}
Change-IsLater (deleted p b) h = record {
  ids_kept = omega arith;
  tokens_rise = λ n t' old found.
      (t', by_id-delete_where task_id_of 1 b.next_id n p b.rows t' h.ids_rise found, omega arith);
}
Change-IsLater (inserted now n b free given) h = record {
  ids_kept = omega arith;
  tokens_rise = λ m t' old found. (
    t',
    sym (
          by_id-append_old task_id_of m b.rows (new_row now b.next_id n)
            (unfold new_row in (omega arith)))
        ∙ found,
    omega arith,
  );
}
Change-IsLater (picked_up p b old) h = record {
  ids_kept = omega arith;
  tokens_rise = λ n t' older found. (t', found, omega arith);
}
