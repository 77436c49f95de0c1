-- ===== src/Delivery/Examples.antt =====
-- A webhook channel that is enabled for a local sender, and one alert on it.
use marketpilot.Base.{
  text_key, [], arith, err, false, greatest_timedelta, inl, is_blank, none, ok, refl, some, true, ℕ,
  ◌*◌, ◌+◌, ◌<◌, ◌^◌, ◌∷◌, ◌≡◌, ◌≤◌, ◌⊎◌,
}
use marketpilot.Fixtures.{toy}
use marketpilot.Domain.Snapshot.{end}
use marketpilot.Delivery.Defs.{
  OutboxMessage, acknowledged, delivered, enqueued, retry_scheduled, transient_failure, sent,
  webhook, signing_content, sign_outbox_content, delivery_enabled, verify_outbox_message,
  is_valid_policy, OutboxEvent, DeliveryAttempt, overflow_error, deterministic_delivery_id,
  event_content,
}
use marketpilot.Delivery.Store.{Store, events_of}
use marketpilot.Delivery.Service.{
  Orchestrator, DeliverySender, attempt_result, event_after, SenderResult, default_policy,
  blank_event, attempt_of, dispatch_due,
}
use marketpilot.Delivery.Guarded.{sent_only_if_authorized, IsPermittedSend}
use marketpilot.Delivery.Retries.{retry_is_later}

abbrev local_sender : DeliverySender
local_sender = record {
  name = "local";
  network_capable = false;
  send = λ m n. some (record { outcome = sent; reason_code = none; response_reference = none });
}

abbrev service : Orchestrator
service = record {
  signer = record { platform = toy; hmac = λ s. s };
  policy_version = "v1";
  channels = λ c. record default_policy {
    enabled = true;
    opted_in = true;
    authorization_id = some "approval-1";
  };
  senders = λ c. local_sender;
  network_authorized = false;
}

abbrev unsigned : OutboxMessage
unsigned = record {
  message_id = "m1";
  alert_id = "a1";
  fingerprint = "f1";
  channel = webhook;
  destination_reference = "desk";
  payload = end;
  created_at = 5;
  dedupe_key = "WEBHOOK:f1:desk";
  signature = "";
  policy_version = "v1";
  authorization_reference_hash = none;
}

abbrev message : OutboxMessage
message = record unsigned {
  signature = sign_outbox_content service.signer (signing_content unsigned);
}

abbrev rows : Store
rows = record {
  messages = message ∷ [];
  events =
      blank_event "m1" enqueued 5
      ∷ blank_event "m1" delivered 7
      ∷ blank_event "m1" acknowledged 6
      ∷ [];
  attempts = [];
}

abbrev failure : SenderResult
failure = record { outcome = transient_failure; reason_code = none; response_reference = none }

abbrev waiting : Store
waiting = record {
  messages = message ∷ [];
  events = blank_event "m1" enqueued 5 ∷ [];
  attempts = [];
}

abbrev first_attempt : DeliveryAttempt
unfolding attempt_of
first_attempt =
    attempt_of service message 10 1
      (record { outcome = sent; reason_code = none; response_reference = none })

sent_only_if_authorized_example : IsPermittedSend service (message ∷ []) first_attempt
unfolding dispatch_due delivery_enabled verify_outbox_message sign_outbox_content signing_content
    is_blank attempt_result events_of deterministic_delivery_id event_content
sent_only_if_authorized_example =
    sent_only_if_authorized service 10 waiting (first_attempt ∷ []) first_attempt refl (inl refl)
      refl

retry_is_later_example :
    (((service.channels message.channel).base_backoff * 2 ^ 0 ≤ greatest_timedelta)
      × (e : OutboxEvent) × (event_after service message 10 1 failure ≡ ok e)
      × (e.kind ≡ retry_scheduled)
      × (e.attempt_number ≡ some 2)
      × (t : ℕ) × (e.next_attempt_at ≡ some t)
      × (10 < t)
      × (10 + (service.channels message.channel).base_backoff ≤ t)
      × (t ≤ 10 + (service.channels message.channel).max_backoff))
    ⊎ ((greatest_timedelta < (service.channels message.channel).base_backoff * 2 ^ 0)
        × (event_after service message 10 1 failure ≡ err overflow_error))
unfolding is_valid_policy is_blank
retry_is_later_example =
    retry_is_later service message 10 1 failure refl refl (omega arith) (omega arith)
