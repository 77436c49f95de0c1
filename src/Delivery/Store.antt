-- ===== src/Delivery/Store.antt =====
-- `class AlertDeliveryStore`: three append-only tables.
use Prim.Native.String.{compare as text_compare}
use Prim.Native.Nat.{compare, Ordering}
use marketpilot.Base.{
  text_key, Bool, Exec, List, Option, String, [], err, false, first, if◌then◌else◌, last, leb, none,
  not, ok, select, some, true, ◌++◌, ◌==◌, ◌∷◌,
}
use marketpilot.Domain.Snapshot.{Json, Platform}
use marketpilot.Delivery.Defs.{
  OutboxMessage, OutboxEvent, DeliveryAttempt, DeliveryError, immutable_conflict, unknown_message,
  message_json, event_content, attempt_json,
}

pub record Store : Type 0 where
  pub messages : List OutboxMessage
  pub events : List OutboxEvent
  pub attempts : List DeliveryAttempt

abbrev pub no_rows : Store
no_rows = record { messages = []; events = []; attempts = [] }

abbrev pub Action : Type 0 → Type 0
Action A = Exec Store DeliveryError A

-- `store.message(message_id)`
unfoldable pub find_message : Store → String → Option OutboxMessage
find_message s id = first (λ m. m.message_id == id) s.messages

-- `_append_immutable`: the same content under a known key changes nothing, other content conflicts.
abbrev differs : Platform → Json → Json → Bool
differs py a b = not (py.dumps a == py.dumps b)

module _ (py : Platform) where
  unfoldable pub append_message : OutboxMessage → Action OutboxMessage
  unfolding find_message
  append_message m s = elim (find_message s m.message_id) [
    | some old ↦
        if differs py (message_json old) (message_json m)
        then (err immutable_conflict, s)
        else (ok old, s)
    | none ↦ (ok m, record s { messages = s.messages ++ m ∷ [] })
  ]

  unfoldable pub append_event : OutboxEvent → Action OutboxEvent
  unfolding find_message
  append_event e s = elim (find_message s e.message_id) [
    | none ↦ (err unknown_message, s)
    | some _ ↦ elim (first (λ d. d.event_id == e.event_id) s.events) [
      | some old ↦
          if differs py (event_content old) (event_content e)
          then (err immutable_conflict, s)
          else (ok e, s)
      | none ↦ (ok e, record s { events = s.events ++ e ∷ [] })
    ]
  ]

  unfoldable pub append_attempt : DeliveryAttempt → Action DeliveryAttempt
  unfolding find_message
  append_attempt a s = elim (find_message s a.message_id) [
    | none ↦ (err unknown_message, s)
    | some _ ↦ elim (first (λ d. d.attempt_id == a.attempt_id) s.attempts) [
      | some old ↦
          if differs py (attempt_json old) (attempt_json a)
          then (err immutable_conflict, s)
          else (ok a, s)
      | none ↦ (ok a, record s { attempts = s.attempts ++ a ∷ [] })
    ]
  ]

-- ORDER BY recorded_at, sequence
unfoldable pub insert_event : OutboxEvent → List OutboxEvent → List OutboxEvent
insert_event e [] = e ∷ []
insert_event e (d ∷ ds) =
    if leb e.recorded_at d.recorded_at then e ∷ d ∷ ds else d ∷ insert_event e ds

unfoldable pub by_recorded : List OutboxEvent → List OutboxEvent
unfolding insert_event
by_recorded [] = []
by_recorded (e ∷ es) = insert_event e (by_recorded es)

-- `store.events(message_id)`
unfoldable pub events_of : Store → String → List OutboxEvent
unfolding by_recorded
events_of s id = by_recorded (select (λ e. e.message_id == id) s.events)

-- `len(store.attempts(message_id))`
abbrev pub attempts_of : Store → String → List DeliveryAttempt
attempts_of s id = select (λ a. a.message_id == id) s.attempts

-- `(created_at, message_id) <= (created_at, message_id)`
unfoldable pub not_after : OutboxMessage → OutboxMessage → Bool
not_after m n = elim (compare m.created_at n.created_at) [
  | Ordering.lt ↦ true
  | Ordering.gt ↦ false
  | Ordering.eq ↦ elim (text_compare m.message_id n.message_id) [ Ordering.gt ↦ false | _ ↦ true ]
]

unfoldable pub insert_message : OutboxMessage → List OutboxMessage → List OutboxMessage
unfolding not_after
insert_message m [] = m ∷ []
insert_message m (n ∷ ns) = if not_after m n then m ∷ n ∷ ns else n ∷ insert_message m ns

unfoldable pub by_created : List OutboxMessage → List OutboxMessage
unfolding insert_message
by_created [] = []
by_created (m ∷ ms) = insert_message m (by_created ms)

-- `store.latest_message_for_dedupe(dedupe_key)`
unfoldable pub latest_message_for_dedupe : Store → String → Option OutboxMessage
unfolding by_created
latest_message_for_dedupe s key = last (by_created (select (λ m. m.dedupe_key == key) s.messages))
