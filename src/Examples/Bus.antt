-- ===== src/Examples/Bus.antt =====
-- The theorem on the event bus, at a subscriber that fails and drops the others.
use hive_os.Base.{ℕ, true, [], ◌++◌, ◌≡◌, map, if◌then◌else◌, ◌==◌}
use hive_os.Core.Events.{
  Event, EventBus, Outcome, finished, failed, callback, target, budget_block, new_bus, subscribe,
  subscribe_once, subscribers, unsubscribe_all, publish,
}
use hive_os.Core.Events.Delivery.{noting, fails, delivered_to_all}

abbrev bus : EventBus
bus =
    subscribe budget_block (callback 3)
      (subscribe_once 9 budget_block 2 (subscribe budget_block (callback 1) (new_bus true 10)))

abbrev drop_all : ℕ → Event → EventBus → EventBus
drop_all c e b = (unsubscribe_all budget_block b).0

abbrev first_fails : ℕ → Event → Outcome
first_fails c e = if c == 1 then failed else finished

delivered_to_all_example :
    ((publish (noting drop_all first_fails) 1000 budget_block "{}" (bus, [])).0.1
      ≡ [] ++ map target (subscribers budget_block bus))
    × ((publish (noting drop_all first_fails) 1000 budget_block "{}" (bus, [])).1
        ≡ fails first_fails
            (record { event_type = budget_block; data_json = "{}"; timestamp = 1000 })
            (subscribers budget_block bus))
delivered_to_all_example = delivered_to_all drop_all first_fails 1000 budget_block "{}" bus []
