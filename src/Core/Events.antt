-- ===== src/Core/Events.antt =====
-- The event bus: src/hive/core/events.py. Every method runs under the lock of the bus, and the subscribers
-- of an event run outside it, on the publishing thread. A callback is known by a number, its effect on
-- the bus and on the rest of the program by a parameter.
pub mod Delivery
use hive_os.Base.{
  ℕ, zero, suc, ◌+◌, ◌-◌, String, Bool, true, false, Option, none, some, List, [], ◌∷◌, ◌++◌, ltb,
  ◌==◌, if◌then◌else◌, drop, take, length, map, get_or, str_eq,
}
use hive_os.Dict.{Dict, get, put, remove}

-- EventType, by the values of its members.
pub data EventType : Type 0 where
  inference_start inference_end tool_call_start tool_call_end memory_store memory_retrieve
        agent_turn_start agent_turn_end agent_tick_start agent_tick_end approval_requested
        approval_resolved telemetry_record budget_block selfmod_start selfmod_end subagent_started
        subagent_completed subagent_failed a2a_call_started a2a_call_completed a2a_call_failed :
      EventType

abbrev pub value : EventType → String
value inference_start = "inference_start"
value inference_end = "inference_end"
value tool_call_start = "tool_call_start"
value tool_call_end = "tool_call_end"
value memory_store = "memory_store"
value memory_retrieve = "memory_retrieve"
value agent_turn_start = "agent_turn_start"
value agent_turn_end = "agent_turn_end"
value agent_tick_start = "agent_tick_start"
value agent_tick_end = "agent_tick_end"
value approval_requested = "approval_requested"
value approval_resolved = "approval_resolved"
value telemetry_record = "telemetry_record"
value budget_block = "budget_block"
value selfmod_start = "selfmod_start"
value selfmod_end = "selfmod_end"
value subagent_started = "subagent_started"
value subagent_completed = "subagent_completed"
value subagent_failed = "subagent_failed"
value a2a_call_started = "a2a.call.started"
value a2a_call_completed = "a2a.call.completed"
value a2a_call_failed = "a2a.call.failed"

-- The data is the text of its dict.
pub record Event : Type 0 where
  pub event_type : EventType
  pub data_json : String
  pub timestamp : ℕ

-- A callback, or the wrapper that `subscribe_once` makes of one; each wrapper is a new object.
pub data Subscriber : Type 0 where
  callback : ℕ → Subscriber
  wrapper : ℕ → ℕ → EventType → Subscriber

abbrev pub is_same : Subscriber → Subscriber → Bool
is_same (callback c) (callback d) = c == d
is_same (wrapper n c t) (wrapper m d u) = n == m
is_same _ _ = false

-- What runs when the subscriber is called.
abbrev pub target : Subscriber → ℕ
target (callback c) = c
target (wrapper n c t) = c

pub record EventBus : Type 0 where
  pub subs : Dict (List Subscriber)
  pub record_history : Bool
  pub history_max : ℕ
  pub events : List Event

unfoldable pub new_bus : Bool → ℕ → EventBus
new_bus record_history history_max = record {
  subs = [];
  record_history = record_history;
  history_max = history_max;
  events = [];
}

-- self._subs.get(event_type, [])
unfoldable pub subscribers : EventType → EventBus → List Subscriber
unfolding get
subscribers t b = get_or [] (get (value t) b.subs)

unfoldable pub subscribe : EventType → Subscriber → EventBus → EventBus
unfolding subscribers put
subscribe t s b = record b { subs = put (value t) (subscribers t b ++ s ∷ []) b.subs }

unfoldable pub is_listed : Subscriber → List Subscriber → Bool
is_listed s [] = false
is_listed s (x ∷ xs) = let rest = is_listed s xs in if is_same x s then true else rest

-- list.remove
unfoldable pub remove_first : Subscriber → List Subscriber → List Subscriber
remove_first s [] = []
remove_first s (x ∷ xs) = let rest = remove_first s xs in if is_same x s then xs else x ∷ rest

unfoldable pub unsubscribe : EventType → Subscriber → EventBus → EventBus × Bool
unfolding subscribers is_listed remove_first put remove
unsubscribe t s b =
    let left = remove_first s (subscribers t b) in
    if is_listed s (subscribers t b)
    then (
      record b {
        subs = if length left == 0 then remove (value t) b.subs else put (value t) left b.subs;
      },
      true,
    )
    else (b, false)

-- `nonce` tells the new wrapper from every other object.
unfoldable pub subscribe_once : ℕ → EventType → ℕ → EventBus → EventBus
unfolding subscribe
subscribe_once nonce t c b = subscribe t (wrapper nonce c t) b

-- The `finally` of a wrapper.
unfoldable pub unhook : Subscriber → EventBus → EventBus
unfolding subscribers is_listed remove_first put
unhook (callback c) b = b
unhook (wrapper n c t) b =
    if is_listed (wrapper n c t) (subscribers t b)
    then record b { subs = put (value t) (remove_first (wrapper n c t) (subscribers t b)) b.subs }
    else b

-- self._history[-self._history_max:], which is the whole list for 0.
abbrev pub last_events : ℕ → List Event → List Event
last_events zero es = es
last_events (suc n) es = drop (length es - suc n) es

unfoldable pub remember : Event → EventBus → EventBus
remember e b =
    let all = b.events ++ e ∷ [] in
    if b.record_history
    then record b {
      events = if ltb b.history_max (length all) then last_events b.history_max all else all;
    }
    else b

pub data Outcome : Type 0 where
  finished failed : Outcome

-- `react` is what a callback does to the bus and to the rest of the program, and how it ends.
module _ {W : Type 0} (react : ℕ → Event → EventBus × W → (EventBus × W) × Outcome) where
  unfoldable pub call : Subscriber → Event → EventBus × W → (EventBus × W) × Outcome
  unfolding unhook
  call s e state =
      let (after, outcome) = react (target s) e state in ((unhook s after.0, after.1), outcome)

  -- The loop over the subscribers, with the number of warnings that it logs.
  unfoldable pub deliver : List Subscriber → Event → EventBus × W → ℕ → (EventBus × W) × ℕ
  unfolding call
  deliver [] e state warnings = (state, warnings)
  deliver (s ∷ ss) e state warnings = elim (call s e state).1 [
    | finished ↦ deliver ss e (call s e state).0 warnings
    | failed ↦ deliver ss e (call s e state).0 (warnings + 1)
  ]

  unfoldable pub publish : ℕ → EventType → String → EventBus × W → (EventBus × W) × ℕ
  unfolding deliver remember subscribers
  publish now t data_json (b, w) =
      let e : Event = record { event_type = t; data_json = data_json; timestamp = now } in
      deliver (subscribers t b) e (remember e b, w) 0

unfoldable pub history : EventBus → List Event
history b = b.events

unfoldable pub history_count : EventBus → ℕ
history_count b = length b.events

unfoldable pub clear_history : EventBus → EventBus × ℕ
clear_history b = (record b { events = [] }, length b.events)

unfoldable pub unsubscribe_all : EventType → EventBus → EventBus × ℕ
unfolding subscribers remove
unsubscribe_all t b = (record b { subs = remove (value t) b.subs }, length (subscribers t b))

unfoldable pub subscriber_count : EventType → EventBus → ℕ
unfolding subscribers
subscriber_count t b = length (subscribers t b)

unfoldable pub registrations : Dict (List Subscriber) → ℕ
registrations [] = 0
registrations ((t, ss) ∷ d) = length ss + registrations d

unfoldable pub total_subscribers : EventBus → ℕ
unfolding registrations
total_subscribers b = registrations b.subs

unfoldable pub tally : List Event → Dict ℕ → Dict ℕ
unfolding get put
tally [] counts = counts
tally (e ∷ es) counts =
    tally es (put (value e.event_type) (get_or 0 (get (value e.event_type) counts) + 1) counts)

unfoldable pub history_by_type : EventBus → Dict ℕ
unfolding tally
history_by_type b = tally b.events []

reverse : List Event → List Event
reverse [] = []
reverse (e ∷ es) = reverse es ++ e ∷ []

unfoldable pub recent_events : ℕ → EventBus → List Event
unfolding reverse
recent_events n b = reverse (last_events n b.events)
