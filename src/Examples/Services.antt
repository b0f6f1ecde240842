-- ===== src/Examples/Services.antt =====
-- The theorems on the router, the limiters, the safety state, the curator and the compaction, at
-- small inputs.
use hive_os.Base.{
  ℕ, ◌+◌, ◌*◌, ◌≤◌, String, Bool, true, false, Option, none, some, List, [], ◌∷◌, ◌≡◌, refl, arith,
  length, map, is_some, if◌then◌else◌,
}
use hive_os.Dict.{get, put}
use hive_os.Table.{count_where, first_where}
use hive_os.Llm.Failover.{default_retry, Failure}
use hive_os.Llm.CredentialPool.{
  CredentialPool, PooledCredential, acquire, scan, get_elem?, is_ready,
}
use hive_os.Llm.CredentialPool.Rotation.{acquire-none_all_cooling}
use hive_os.Llm.Router.{TaskKind, Models, Reservation, Reply, complete}
use hive_os.Llm.Router.Attempts.{requests_bounded, reservations-Accounted, Accounted}
use hive_os.Gateway.RateLimit.{SlidingWindowLimiter, new_limiter}
use hive_os.Gateway.RateLimit.Window.{IsBounded, after, limiter-IsBounded}
use hive_os.Agents.LoopGuard.{
  LoopGuard, new_guard, check, recorded, verdict, call_count, last, one_value, all_are,
  is_ping_pong,
}
use hive_os.Agents.LoopGuard.Limits.{turn, calls_of, copies, within_budget, repetition_stopped}
use hive_os.Core.SafetyState.{SafetyStateStore, Approval, Latch, record_approval, consume_approval}
use hive_os.Core.SafetyState.Decisions as Safety
use hive_os.Core.SafetyState.Decisions.{consumed_once, latch_stays, record_then_consume}
use hive_os.Memory.SkillUsage.{SkillUsage, Store, State, named}
use hive_os.Memory.SkillUsage as Skills
use hive_os.Memory.Curator.{default_config, is_exempt}
use hive_os.Memory.Curator as Curator
use hive_os.Memory.Curator.Keeps.{run_keeps_names, run_untouched}
use hive_os.Context.Compaction.{Message, Role, compact}
use hive_os.Context.Compaction.Shape.{compacted_length}

abbrev ready_key : PooledCredential
ready_key = record { key = "a"; label = 0; failures = 0; cooldown_until = 0 }

abbrev cooling_key : PooledCredential
cooling_key = record { key = "b"; label = 1; failures = 1; cooldown_until = 9000 }

abbrev pool : CredentialPool
pool = record { creds = cooling_key ∷ ready_key ∷ []; cooldown = 60000; cursor = 0 }

abbrev cold_pool : CredentialPool
cold_pool = record { creds = cooling_key ∷ []; cooldown = 60000; cursor = 0 }

handed_out : (acquire 5000 pool).1 ≡ some ready_key
unfolding acquire scan get_elem?
handed_out = refl

nothing_left : (acquire 5000 cold_pool).1 ≡ none
unfolding acquire scan get_elem?
nothing_left = refl

first_key : get_elem? cold_pool.creds 0 ≡ some cooling_key
unfolding get_elem?
first_key = refl

acquire-none_all_cooling_example : is_ready 5000 cooling_key ≡ false
acquire-none_all_cooling_example =
    acquire-none_all_cooling 5000 cold_pool 0 cooling_key (omega arith) nothing_left first_key

abbrev no_hint : String → Bool
no_hint body = false

abbrev whole : String → String
whole body = body

abbrev grants : ℕ → Reservation
grants n = Reservation.granted "id"

abbrev noon : ℕ → ℕ
noon n = 5000

abbrev times_out : ℕ → String → String → Reply
times_out n model key = Reply.failed (Failure.timed_out "slow")

abbrev models : Models
models = record { exec_model = "m1"; exec_fallback_model = "m2"; aux_model = "m3" }

requests_bounded_example :
    length
      (complete no_hint whole grants true noon times_out true TaskKind.execute models default_retry
        pool).0.sent
    ≤ (if true then 2 * 3 else 0)
requests_bounded_example =
    requests_bounded no_hint whole grants true noon times_out true TaskKind.execute models
      default_retry pool

-- A key whose authentication is refused, so that the reservation is released.
abbrev refuses : ℕ → String → String → Reply
refuses n model key = Reply.failed (Failure.http_status 401 "no")

reservations-Accounted_example :
    Accounted no_hint whole grants noon refuses "id"
      (complete no_hint whole grants true noon refuses true TaskKind.execute models default_retry
        pool).0
reservations-Accounted_example =
    reservations-Accounted no_hint whole grants noon refuses "id" true TaskKind.execute models
      default_retry pool refl

abbrev limiter : SlidingWindowLimiter
limiter = record { limit = 2; window = 1000; max_keys = 3; hits = [] }

built : new_limiter 2 1000 3 ≡ some limiter
unfolding new_limiter
built = refl

abbrev requests : List (ℕ × String)
requests = (1, "a") ∷ (2, "a") ∷ (3, "a") ∷ (4, "b") ∷ []

limiter-IsBounded_example : IsBounded (after requests limiter)
limiter-IsBounded_example = limiter-IsBounded 2 1000 3 limiter requests built

abbrev digest : String → String → String
digest tool args = args

abbrev two_calls : List (String × String)
two_calls = ("t", "x") ∷ ("t", "y") ∷ []

abbrev after_two : LoopGuard
after_two = record {
  max_identical = 3;
  max_per_tool = 10;
  hashes = "x" ∷ "y" ∷ [];
  per_tool = ("t", 2) ∷ [];
}

let_through : turn digest (new_guard 3 10) two_calls ≡ some after_two
unfolding turn new_guard check recorded verdict call_count last one_value all_are is_ping_pong get
    put
let_through = refl

within_budget_example : calls_of "t" two_calls ≤ 10
within_budget_example = within_budget digest 3 10 two_calls after_two "t" let_through

abbrev twice : LoopGuard
twice = record {
  max_identical = 3;
  max_per_tool = 10;
  hashes = "y" ∷ "x" ∷ "x" ∷ [];
  per_tool = ("t", 3) ∷ [];
}

repetition_stopped_example : is_some (check digest "t" "x" twice).1 ≡ true
unfolding copies
repetition_stopped_example = repetition_stopped digest "t" "x" twice 2 ("y" ∷ []) refl refl

abbrev item : Approval
item = record {
  id = "a1";
  tool = "shell";
  args_json = "{}";
  reason = "risky";
  kind = "danger";
  requested_at = 10;
  run_id = "";
}

abbrev store : SafetyStateStore
store = record {
  approvals_pending = item ∷ [];
  autonomy_cooldowns = [];
  autonomy_latches = ("stop", record { reason = "spent"; engaged_at = 5 }) ∷ [];
}

consumed_once_example : (consume_approval "a1" (consume_approval "a1" store).0).1 ≡ none
consumed_once_example = consumed_once "a1" store

record_then_consume_example :
    (consume_approval "a1" (record_approval item store)).1
    ≡ some (elim (consume_approval "a1" store).1 [ none ↦ item | some earlier ↦ earlier ])
record_then_consume_example = record_then_consume item store

abbrev too_long : ℕ → String → Bool
too_long n s = false

abbrev stop : Latch
stop = record { reason = "spent"; engaged_at = 5 }

abbrev safety_ops : List Safety.Op
safety_ops = Safety.latch_op 9 "stop" "again" ∷ Safety.consume_op "a1" ∷ []

engaged : get "stop" store.autonomy_latches ≡ some stop
unfolding get
engaged = refl

latch_stays_example : get "stop" (Safety.run too_long safety_ops store).autonomy_latches ≡ some stop
latch_stays_example = latch_stays too_long safety_ops store "stop" stop engaged

abbrev pinned_skill : SkillUsage
pinned_skill = record {
  name = "s";
  created_ts = 0;
  last_used_ts = 0;
  use_count = 0;
  pinned = true;
  state = State.active;
  agent_created = true;
  archived_ts = none;
}

abbrev idle_skill : SkillUsage
idle_skill = record pinned_skill { name = "t"; pinned = false }

abbrev skills : Store
skills = idle_skill ∷ pinned_skill ∷ []

run_keeps_names_example :
    map (λ (s : SkillUsage). s.name) (Curator.run default_config 86400000000 skills).0
    ≡ map (λ (s : SkillUsage). s.name) skills
run_keeps_names_example = run_keeps_names default_config 86400000000 skills

skill_found : Skills.get "s" skills ≡ some pinned_skill
unfolding Skills.get first_where
skill_found = refl

skill_unique : count_where (named "s") skills ≤ 1
unfolding count_where
skill_unique = omega arith

run_untouched_example :
    Skills.get "s" (Curator.run default_config 86400000000 skills).0 ≡ some pinned_skill
run_untouched_example =
    run_untouched default_config 86400000000 "s" pinned_skill skills refl skill_unique skill_found

abbrev hi : Message
hi = record { role = Role.user; content = "hi" }

abbrev chat : List Message
chat = hi ∷ hi ∷ hi ∷ hi ∷ hi ∷ []

abbrev summarize : List Message → Option String
summarize xs = some "they greeted"

compacted_length_example : length (compact summarize 1 1 3 chat) ≤ 1 + 1 + 1
compacted_length_example =
    compacted_length summarize 1 1 3 chat (omega arith) (omega arith) (omega arith)
