-- ===== src/Examples/Commitments.antt =====
-- The theorem on the commitments, at one overdue promise and one that is not.
use hive_os.Base.{true, none, some, [], ◌∷◌, ◌≡◌, refl}
use hive_os.Table.{count_where}
use hive_os.Autonomy.Commitments.{Commitment, CommitmentBook, is_overdue}

abbrev promise : Commitment
promise = record {
  id = 1;
  description = "check the deploy health";
  cadence_seconds = 60000;
  task_kind = "commitment";
  payload = [];
  active = true;
  last_fulfilled = none;
  created_ts = 5;
}

abbrev book : CommitmentBook
book = record {
  rows = promise ∷ record promise { id = 2; last_fulfilled = some 90000 } ∷ [];
  next_id = 3;
}

one_overdue : count_where (is_overdue 100000) book.rows ≡ 1
unfolding count_where
one_overdue = refl
