-- ===== src/Core/Events/Delivery.antt =====
-- Who gets an event: `publish` in src/hive/core/events.py.
use hive_os.Base.{
  ℕ, ◌+◌, String, List, [], ◌∷◌, ◌++◌, ◌≡◌, refl, ap, sym, ◌∙◌, inl, inr, ◌⊎◌, map, arith,
}
use hive_os.Core.Events.{
  EventType, Event, Subscriber, target, EventBus, subscribers, unhook, remember, Outcome, finished,
  failed, call, deliver, publish,
}

-- A callback that notes its own call, does what it likes to the bus and ends as it likes.
abbrev pub noting :
    (ℕ → Event → EventBus → EventBus)
    → (ℕ → Event → Outcome)
    → ℕ
    → Event
    → EventBus × List ℕ
    → (EventBus × List ℕ) × Outcome
noting meddle outcome c e (b, log) = ((meddle c e b, log ++ c ∷ []), outcome c e)

abbrev pub fails : (ℕ → Event → Outcome) → Event → List Subscriber → ℕ
fails outcome e [] = 0
fails outcome e (s ∷ ss) = elim (outcome (target s) e) [
  | finished ↦ fails outcome e ss
  | failed ↦ fails outcome e ss + 1
]

Outcome-cases : (o : Outcome) → (o ≡ finished) ⊎ (o ≡ failed)
Outcome-cases finished = inl refl
Outcome-cases failed = inr refl

append_assoc : (xs ys zs : List ℕ) → (xs ++ ys) ++ zs ≡ xs ++ (ys ++ zs)
append_assoc [] ys zs = refl
append_assoc (x ∷ xs) ys zs = ap (λ t. x ∷ t) (append_assoc xs ys zs)

append_nil : (xs : List ℕ) → xs ++ [] ≡ xs
append_nil [] = refl
append_nil (x ∷ xs) = ap (λ t. x ∷ t) (append_nil xs)

module _ (meddle : ℕ → Event → EventBus → EventBus) (outcome : ℕ → Event → Outcome) where
  deliver-log :
      (ss : List Subscriber) (e : Event) (b : EventBus) (log : List ℕ) (warnings : ℕ)
      → ((deliver (noting meddle outcome) ss e (b, log) warnings).0.1 ≡ log ++ map target ss)
        × ((deliver (noting meddle outcome) ss e (b, log) warnings).1
            ≡ warnings + fails outcome e ss)
  unfolding deliver call
  deliver-log [] e b log warnings = (sym (append_nil log), omega arith)
  deliver-log (s ∷ ss) e b log warnings =
      let assoc = append_assoc log (target s ∷ []) (map target ss) in
      elim (Outcome-cases (outcome (target s) e)) [
        | inl fine ↦
            let rest =
              deliver-log ss e (unhook s (meddle (target s) e b)) (log ++ target s ∷ []) warnings in
            rw (fine, deliver, fails) (rest.0 ∙ assoc, rest.1)
        | inr broken ↦
            let rest =
              deliver-log ss e (unhook s (meddle (target s) e b)) (log ++ target s ∷ [])
                (warnings + 1) in
            rw (broken, deliver, fails) (rest.0 ∙ assoc, omega (arith, rest.1))
      ]

  -- Every subscriber that is registered when an event is published gets it, once and in the order of
  -- registration, whichever subscribers raise and whatever they do to the bus meanwhile; one warning is
  -- logged for each that raises.
  pub delivered_to_all :
      (now : ℕ) (t : EventType) (data_json : String) (b : EventBus) (log : List ℕ)
      → ((publish (noting meddle outcome) now t data_json (b, log)).0.1
          ≡ log ++ map target (subscribers t b))
        × ((publish (noting meddle outcome) now t data_json (b, log)).1
            ≡ fails outcome
                (record { event_type = t; data_json = data_json; timestamp = now })
                (subscribers t b))
  unfolding publish
  delivered_to_all now t data_json b log =
      let e : Event = record { event_type = t; data_json = data_json; timestamp = now } in
      let done = deliver-log (subscribers t b) e (remember e b) log 0 in
      (done.0, omega (arith, done.1))
