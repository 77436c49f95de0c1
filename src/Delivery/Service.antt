-- ===== src/Delivery/Service.antt =====
-- `class AlertDeliveryOrchestrator`, method by method.
use marketpilot.Base.{
  lift, Result, ok, err, text_key, Bool, Datetime, List, Option, String, [], any, aware, false,
  gets, if◌then◌else◌, last, leb, length, minutes, naive, none, not, ok, pure, raise, seconds, some,
  true, ℕ, ◌&&◌, ◌+◌, ◌==◌, ◌>>=◌, ◌>>◌, ◌∷◌,
}
use marketpilot.Domain.Snapshot.{text, object, field, end}
use marketpilot.Delivery.Defs.{
  DeliveryChannel, OutboxEventKind, enqueued, suppressed, delivery_disabled, delivered,
  retry_scheduled, dead_lettered, acknowledged, AttemptOutcome, sent, transient_failure,
  permanent_failure, disabled, OutboxMessage, OutboxEvent, DeliveryAttempt, event_content,
  deterministic_delivery_id, Signer, verify_outbox_message, ChannelPolicy, delivery_enabled,
  retry_delay, must_be_timezone_aware, DeliveryError,
}
use marketpilot.Domain.Snapshot.{number, instant}
use marketpilot.Delivery.Store.{
  Store, Action, append_event, append_attempt, events_of, attempts_of, by_created,
}

pub record SenderResult : Type 0 where
  pub outcome : AttemptOutcome
  pub reason_code : Option String
  pub response_reference : Option String

-- A sender of the application. `none` is an exception. The number of the attempt stands for the
-- state that a sender may keep between its calls.
pub record DeliverySender : Type 0 where
  pub name : String
  pub network_capable : Bool
  pub send : OutboxMessage → ℕ → Option SenderResult

-- The arguments of the constructor; a channel with no policy of its own has the disabled default.
pub record Orchestrator : Type 0 where
  pub signer : Signer
  pub policy_version : String
  pub channels : DeliveryChannel → ChannelPolicy
  pub senders : DeliveryChannel → DeliverySender
  pub network_authorized : Bool

-- `NullDeliverySender`
abbrev pub null_sender : DeliverySender
null_sender = record {
  name = "null-disabled";
  network_capable = false;
  send = λ m n. some (record {
    outcome = disabled;
    reason_code = some "NULL_SENDER_DISABLED";
    response_reference = none;
  });
}

-- `ChannelPolicy(channel=channel)`
abbrev pub default_policy : ChannelPolicy
default_policy = record {
  enabled = false;
  opted_in = false;
  authorization_id = none;
  allow_network = false;
  cooldown = minutes 5;
  max_attempts = 3;
  base_backoff = seconds 5;
  max_backoff = minutes 2;
  require_ack = false;
  ack_timeout = minutes 2;
  max_escalations = 0;
}

abbrev pub aware_at : Datetime → String → Action ℕ
aware_at (naive _) name = raise (must_be_timezone_aware name)
aware_at (aware t) _ = pure t

abbrev pub blank_event : String → OutboxEventKind → ℕ → OutboxEvent
blank_event id kind at = record {
  event_id = "";
  message_id = id;
  kind = kind;
  recorded_at = at;
  attempt_number = none;
  reason_code = none;
  next_attempt_at = none;
  ack_due_at = none;
  escalation_level = 0;
  actor = none;
}

module _ (o : Orchestrator) where
  -- `_append_event`, on the event's content
  unfoldable pub add_event : OutboxEvent → Action OutboxEvent
  unfolding append_event
  add_event e = append_event o.signer.platform (record e {
    event_id = deterministic_delivery_id o.signer.platform "outbox-event" (event_content e);
  })

abbrev pub is_terminal : OutboxEventKind → Bool
is_terminal suppressed = true
is_terminal delivery_disabled = true
is_terminal dead_lettered = true
is_terminal acknowledged = true
is_terminal _ = false

abbrev due_at : ℕ → OutboxEvent → Bool
due_at now e = elim e.kind [
  | enqueued ↦ leb e.recorded_at now
  | retry_scheduled ↦ elim e.next_attempt_at [ none ↦ false | some t ↦ leb t now ]
  | _ ↦ false
]

-- `_is_due`
unfoldable pub is_due : Store → String → ℕ → Bool
is_due s id now =
    let events = events_of s id in
    if any (λ e. is_terminal e.kind) events
    then false
    else elim (last events) [ none ↦ false | some latest ↦ due_at now latest ]

abbrev refused : AttemptOutcome → String → SenderResult
refused outcome reason = record {
  outcome = outcome;
  reason_code = some reason;
  response_reference = none;
}

abbrev or_exception : Option SenderResult → SenderResult
or_exception none = refused transient_failure "SENDER_EXCEPTION"
or_exception (some r) = r

abbrev pub or_reason : Option String → String → Option String
or_reason none d = some d
or_reason (some r) d = if r == "" then some d else some r

module _ (o : Orchestrator) where
  -- The guards of `_dispatch`, and the call of the sender behind them.
  unfoldable pub attempt_result : OutboxMessage → ℕ → SenderResult
  attempt_result m n =
      let p = o.channels m.channel in
      let sender = o.senders m.channel in
      if not (delivery_enabled p)
      then refused disabled "CHANNEL_NOT_OPTED_IN"
      else if not (verify_outbox_message o.signer m)
      then refused permanent_failure "SIGNATURE_INVALID"
      else if sender.network_capable && not (o.network_authorized && p.allow_network)
      then refused disabled "NETWORK_NOT_AUTHORIZED"
      else or_exception (sender.send m n)

  -- The event that follows an attempt; the delay of a retry may raise.
  unfoldable pub event_after :
      OutboxMessage → ℕ → ℕ → SenderResult → Result DeliveryError OutboxEvent
  unfolding retry_delay
  event_after m now n result =
      let p = o.channels m.channel in
      elim result.outcome [
        | sent ↦ ok (record (blank_event m.message_id delivered now) {
          attempt_number = some n;
          ack_due_at = if p.require_ack then some (now + p.ack_timeout) else none;
        })
        | transient_failure ↦
            if leb p.max_attempts n
            then ok (record (blank_event m.message_id dead_lettered now) {
              attempt_number = some n;
              reason_code = some "RETRY_BUDGET_EXHAUSTED";
            })
            else elim (retry_delay p n) [
              | err e ↦ err e
              | ok delay ↦ ok (record (blank_event m.message_id retry_scheduled now) {
                attempt_number = some (n + 1);
                next_attempt_at = some (now + delay);
                reason_code = or_reason result.reason_code "TRANSIENT_FAILURE";
              })
            ]
        | permanent_failure ↦ ok (record (blank_event m.message_id dead_lettered now) {
          attempt_number = some n;
          reason_code = or_reason result.reason_code "PERMANENT_FAILURE";
        })
        | disabled ↦ ok (record (blank_event m.message_id delivery_disabled now) {
          attempt_number = some n;
          reason_code = or_reason result.reason_code "DELIVERY_DISABLED";
        })
      ]

  unfoldable pub attempt_of : OutboxMessage → ℕ → ℕ → SenderResult → DeliveryAttempt
  attempt_of m now n result = record {
    attempt_id = deterministic_delivery_id o.signer.platform "attempt" (
        object (
          field "message_id" (text m.message_id)
            (field "attempt_number" (number n) (field "attempted_at" (instant now) end))));
    message_id = m.message_id;
    channel = m.channel;
    attempted_at = now;
    attempt_number = n;
    sender_name = (o.senders m.channel).name;
    outcome = result.outcome;
    reason_code = result.reason_code;
    response_reference = result.response_reference;
  }

  -- `_dispatch`
  unfoldable pub dispatch : OutboxMessage → ℕ → Action DeliveryAttempt
  unfolding append_attempt add_event attempt_of event_after
  dispatch m now = do
    n ← gets (λ s. length (attempts_of s m.message_id) + 1)
    append_attempt o.signer.platform (attempt_of m now n (attempt_result m n))
    e ← lift (event_after m now n (attempt_result m n))
    add_event o e
    pure (attempt_of m now n (attempt_result m n))

  -- The loop of `dispatch_due` over the messages that were there when it began.
  unfoldable pub dispatch_loop : List OutboxMessage → ℕ → Action (List DeliveryAttempt)
  unfolding dispatch is_due
  dispatch_loop [] now s = (ok [], s)
  dispatch_loop (m ∷ ms) now s =
      let rest = dispatch_loop ms now in
      if is_due s m.message_id now
      then (do a ← dispatch m now; as_list ← rest; pure (a ∷ as_list)) s
      else rest s

  unfoldable pub dispatch_due : Datetime → Action (List DeliveryAttempt)
  unfolding dispatch_loop by_created
  dispatch_due as_of = do
    now ← aware_at as_of "as_of"
    ms ← gets (λ s. by_created s.messages)
    dispatch_loop ms now
