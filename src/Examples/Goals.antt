-- ===== src/Examples/Goals.antt =====
-- The theorems on the goal ledger, at small histories.
use hive_os.Base.{◌+◌, ◌≤◌, none, some, List, [], ◌∷◌, ◌≡◌, refl, All, insert_sorted}
use hive_os.Table.{select, count_where, first_where, update_where}
use hive_os.Autonomy.Goals.{
  Goal, Status, get_goal, complete, update_goal, begin_evaluation, begin_execution, claim_planning,
  create,
}
use hive_os.Autonomy.Goals.Histories as Goals
use hive_os.Autonomy.Goals.Histories.{resumes, new_ledger}
use hive_os.Autonomy.Goals.Budgets.{generation_bounded}
use hive_os.Autonomy.Goals.Terminal.{completed_stays}

abbrev goal_ops : List Goals.Op
goal_ops = Goals.create_op 1 "g" "do it" ∷ Goals.claim_op 2 none ∷ Goals.replan_op 3 "g" "why" ∷ []

generation_bounded_example :
    All
      (λ (g : Goal). (g.plan_generation ≤ 3 + resumes g.goal_id goal_ops) × (g.replan_count ≤ 2))
      (Goals.run (new_ledger "h" "m") goal_ops).goals
generation_bounded_example = generation_bounded "h" "m" goal_ops

abbrev done_ops : List Goals.Op
done_ops =
    Goals.create_op 1 "g" "do it"
    ∷ Goals.claim_op 2 none
    ∷ Goals.execute_op 3 "g" (1 ∷ []) (some 1)
    ∷ Goals.evaluate_op 4 "g"
    ∷ Goals.complete_op 5 "g"
    ∷ []

abbrev done_goal : Goal
done_goal = record {
  goal_id = "g";
  summary = "do it";
  status = Status.completed;
  plan_generation = 1;
  replan_count = 0;
  max_replans = 2;
  last_reason = "";
  owner_host = "h";
  owner_machine_id = "m";
  created_ts = 1;
  updated_ts = 5;
}

goal_done : get_goal "g" (Goals.run (new_ledger "h" "m") done_ops) ≡ some done_goal
unfolding get_goal Goals.run Goals.apply new_ledger first_where complete update_goal count_where
    begin_evaluation begin_execution insert_sorted claim_planning create select update_where
goal_done = refl

completed_stays_example :
    get_goal "g" (Goals.run (Goals.run (new_ledger "h" "m") done_ops) goal_ops) ≡ some done_goal
completed_stays_example = completed_stays "h" "m" "g" done_ops goal_ops done_goal goal_done refl
