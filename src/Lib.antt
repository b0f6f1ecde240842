-- ===== src/Lib.antt =====
-- HiveOS: the durable work of an agent system, and the services around it.
--
-- The program keeps its work in SQLite tables and its live limits in memory. The heartbeat claims
-- tasks of the board (src/hive/autonomy/tasks.py), dispatches them to an agent and reports their
-- outcome under the attempt number that the claim gave; goals (src/hive/autonomy/goals.py) are
-- planned into batches of such tasks. A turn of an agent calls a model through the router
-- (src/hive/llm/router.py), which takes keys from the credential pool and decides by the failover
-- table; its tool calls pass the loop guard; its context is compacted. The gateway limits requests,
-- the safety state keeps approvals and latches, and the curator ages learned skills. A coordinator
-- hands work to specialists through the delegation ledger (src/hive/agents/delegations.py), which
-- grants each a capability and a share of its branch. Failures become incidents
-- (src/hive/observability/incidents.py), a deployment is verified and alerted under leases
-- (src/hive/core/deployment_ledger.py), and the parts tell each other by the event bus
-- (src/hive/core/events.py). Cron and the commitments put recurring work on the board.
--
-- Files, by the part of the program:
--   Table, Dict            the SQL statements and the Python dicts that the parts write
--   Autonomy/Tasks         TaskBoard: a record of the table's rows, the next AUTOINCREMENT id and
--                          the pickups. Enqueue (enqueue, enqueue_many, activate_goal_batch), Issues
--                          (enqueue_issue_work, owns_issue_pickup), Lifecycle (claim_attempt,
--                          complete, retry_or_dead, defer_rate_limited, …), Recovery (stall_or_dead,
--                          recover_stalled, resolve_approval, purges), Queries. Operations has each
--                          call as a value; Changes the step relation on boards that they refine
--   Autonomy/Goals         GoalLedger: rows of goals and of their task links
--   Autonomy/Cron          CronScheduler: next_run, due_and_enqueue (src/hive/autonomy/cron.py)
--   Autonomy/Commitments   CommitmentBook (src/hive/autonomy/commitments.py)
--   Agents/LoopGuard       src/hive/agents/loop_guard.py
--   Agents/Delegations     DelegationLedger (src/hive/agents/delegations.py) and the profiles of
--                          src/hive/agents/profiles.py: Create, Claim, Attempts (finish, cancel,
--                          revoke, consume_*, recover_interrupted, close), Reads (pages and tree).
--                          Histories has each call as a value, Changes the step relation that they refine
--   Observability/Incidents  IncidentLedger (src/hive/observability/incidents.py): Record (record),
--                          Recovery (the transitions), Views; Histories as above
--   Core/Deployments       DeployLedger (src/hive/core/deployment_ledger.py): Checks (the patterns of
--                          the arguments), Schedule, Claims, Alerts, Reads; Steps is the step relation
--   Llm/Failover           src/hive/llm/failover.py
--   Llm/CredentialPool     src/hive/llm/credential_pool.py
--   Llm/Router             ModelRouter.complete on the executor
--   Gateway/RateLimit      src/hive/gateway/rate_limit.py
--   Core/SafetyState       src/hive/core/safety_state.py
--   Core/Events            EventBus (src/hive/core/events.py)
--   Memory/SkillUsage      src/hive/memory/skill_usage.py
--   Memory/Curator         src/hive/memory/curator.py
--   Context/Compaction     src/hive/context/compaction.py
--   Examples               the theorems at concrete inputs
--
-- A call takes the state and returns the state after it beside its result; a call that raises says so
-- in its result. Each call is one transaction of the source, or runs under its lock, so histories are
-- sequences of calls; `record` of the incident ledger reads before its transaction, so its writes
-- are a call of their own that takes what was read. Clocks are arguments; times are whole
-- milliseconds. Integers of the source have no bound, as the natural numbers. Loops are recursion on
-- their lists; `for i in range(n)` is recursion on the number of steps that are left. The climb along
-- the ancestors of a delegation is given two rounds more than there are rows and the loop over pages
-- one; a loop that runs out of rounds has no answer (none), and the results on them show that this
-- does not happen. Parameters are the digests of calls and of failures,
-- the case of texts, the uuids, whether a process is alive, the regular expression of intervals,
-- croniter, the HTTP client, the spend ledger, the provider, the summarizer and the callbacks of the
-- event bus.
--
-- Not modelled: connections, schemas and migrations, logs, reports of averages, the
-- planner process, streaming, the keyring, and the parts around these (channels, tools, memory
-- search, the command line), which wrap third-party services.
mod Base
pub mod Table
pub mod Dict
pub mod Autonomy
pub mod Agents
pub mod Llm
pub mod Gateway
pub mod Memory
pub mod Observability
pub mod Core
pub mod Context
mod Examples
