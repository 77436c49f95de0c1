-- ===== src/Delivery/Defs.antt =====
-- The messages, events and attempts of the outbox, their ids and signatures, and channel policies.
use Prim.Native.String.{◌++◌ as text_append}
use marketpilot.Base.{
  text_key, Bool, Option, Result, String, err, false, if◌then◌else◌, is_blank, leb, ltb, min, none,
  not, ok, some, timedelta, ℕ, ◌&&◌, ◌*◌, ◌-◌, ◌==◌, ◌^◌,
}
use marketpilot.Domain.Snapshot.{
  Json, null, text, number, instant, object, Fields, field, end, Platform,
}

pub data DeliveryChannel : Type 0 where
  webhook email mobile : DeliveryChannel

pub data OutboxEventKind : Type 0 where
  enqueued suppressed delivery_disabled delivered : OutboxEventKind
  retry_scheduled dead_lettered acknowledged escalated : OutboxEventKind

pub data AttemptOutcome : Type 0 where
  sent transient_failure permanent_failure disabled : AttemptOutcome

abbrev pub channel_value : DeliveryChannel → String
channel_value webhook = "WEBHOOK"
channel_value email = "EMAIL"
channel_value mobile = "MOBILE"

abbrev pub kind_value : OutboxEventKind → String
kind_value enqueued = "ENQUEUED"
kind_value suppressed = "SUPPRESSED"
kind_value delivery_disabled = "DELIVERY_DISABLED"
kind_value delivered = "DELIVERED"
kind_value retry_scheduled = "RETRY_SCHEDULED"
kind_value dead_lettered = "DEAD_LETTERED"
kind_value acknowledged = "ACKNOWLEDGED"
kind_value escalated = "ESCALATED"

pub record OutboxMessage : Type 0 where
  pub message_id : String
  pub alert_id : String
  pub fingerprint : String
  pub channel : DeliveryChannel
  pub destination_reference : String
  pub payload : Fields
  pub created_at : ℕ
  pub dedupe_key : String
  pub signature : String
  pub policy_version : String
  pub authorization_reference_hash : Option String

pub record OutboxEvent : Type 0 where
  pub event_id : String
  pub message_id : String
  pub kind : OutboxEventKind
  pub recorded_at : ℕ
  pub attempt_number : Option ℕ
  pub reason_code : Option String
  pub next_attempt_at : Option ℕ
  pub ack_due_at : Option ℕ
  pub escalation_level : ℕ
  pub actor : Option String

pub record DeliveryAttempt : Type 0 where
  pub attempt_id : String
  pub message_id : String
  pub channel : DeliveryChannel
  pub attempted_at : ℕ
  pub attempt_number : ℕ
  pub sender_name : String
  pub outcome : AttemptOutcome
  pub reason_code : Option String
  pub response_reference : Option String

abbrev pub text_or_null : Option String → Json
text_or_null none = null
text_or_null (some s) = text s

abbrev pub number_or_null : Option ℕ → Json
number_or_null none = null
number_or_null (some n) = number n

abbrev pub instant_or_null : Option ℕ → Json
instant_or_null none = null
instant_or_null (some t) = instant t

-- `signing_content`; the run mode is always "SCENARIO"
unfoldable pub signing_content : OutboxMessage → Json
signing_content m = object (
    field "message_id" (text m.message_id) (
      field "alert_id" (text m.alert_id) (
        field "fingerprint" (text m.fingerprint) (
          field "channel" (text (channel_value m.channel)) (
            field "destination_reference" (text m.destination_reference) (
              field "payload" (object m.payload) (
                field "created_at" (instant m.created_at) (
                  field "dedupe_key" (text m.dedupe_key) (
                    field "policy_version" (text m.policy_version) (
                      field "authorization_reference_hash"
                        (text_or_null m.authorization_reference_hash)
                        (field "run_mode" (text "SCENARIO") end)))))))))))

-- The row of a message: its content and its signature.
unfoldable pub message_json : OutboxMessage → Json
unfolding signing_content
message_json m =
    object (field "content" (signing_content m) (field "signature" (text m.signature) end))

-- The content of an event, which its id digests.
unfoldable pub event_content : OutboxEvent → Json
event_content e = object (
    field "message_id" (text e.message_id) (
      field "kind" (text (kind_value e.kind)) (
        field "recorded_at" (instant e.recorded_at) (
          field "attempt_number" (number_or_null e.attempt_number) (
            field "reason_code" (text_or_null e.reason_code) (
              field "next_attempt_at" (instant_or_null e.next_attempt_at) (
                field "ack_due_at" (instant_or_null e.ack_due_at) (
                  field "escalation_level" (number e.escalation_level)
                    (field "actor" (text_or_null e.actor) end)))))))))

abbrev pub outcome_value : AttemptOutcome → String
outcome_value sent = "SENT"
outcome_value transient_failure = "TRANSIENT_FAILURE"
outcome_value permanent_failure = "PERMANENT_FAILURE"
outcome_value disabled = "DISABLED"

unfoldable pub attempt_json : DeliveryAttempt → Json
attempt_json a = object (
    field "message_id" (text a.message_id) (
      field "channel" (text (channel_value a.channel)) (
        field "attempted_at" (instant a.attempted_at) (
          field "attempt_number" (number a.attempt_number) (
            field "sender_name" (text a.sender_name) (
              field "outcome" (text (outcome_value a.outcome)) (
                field "reason_code" (text_or_null a.reason_code)
                  (field "response_reference" (text_or_null a.response_reference) end))))))))

-- `deterministic_delivery_id`
unfoldable pub deterministic_delivery_id : Platform → String → Json → String
deterministic_delivery_id py prefix content =
    text_append prefix (text_append ":" (py.sha256 (py.dumps content)))

-- `hmac.new(key, canonical, sha256).hexdigest()` of the standard library is a parameter; the key is
-- part of it.
pub record Signer : Type 0 where
  pub platform : Platform
  pub hmac : String → String

-- `sign_outbox_content`
unfoldable pub sign_outbox_content : Signer → Json → String
sign_outbox_content k content = text_append "hmac-sha256:" (k.hmac (k.platform.dumps content))

-- `verify_outbox_message`
unfoldable pub verify_outbox_message : Signer → OutboxMessage → Bool
unfolding sign_outbox_content
verify_outbox_message k m = m.signature == sign_outbox_content k (signing_content m)

pub record ChannelPolicy : Type 0 where
  pub enabled : Bool
  pub opted_in : Bool
  pub authorization_id : Option String
  pub allow_network : Bool
  pub cooldown : ℕ
  pub max_attempts : ℕ
  pub base_backoff : ℕ
  pub max_backoff : ℕ
  pub require_ack : Bool
  pub ack_timeout : ℕ
  pub max_escalations : ℕ

abbrev pub has_text : Option String → Bool
has_text none = false
has_text (some s) = not (is_blank s)

-- `ChannelPolicy.__post_init__`; durations and counts are not negative by their type
unfoldable pub is_valid_policy : ChannelPolicy → Bool
is_valid_policy p =
    not (p.enabled && p.opted_in && not (has_text p.authorization_id))
    && leb 1 p.max_attempts
    && ltb 0 p.base_backoff
    && leb p.base_backoff p.max_backoff
    && ltb 0 p.ack_timeout

unfoldable pub delivery_enabled : ChannelPolicy → Bool
delivery_enabled p = p.enabled && p.opted_in && has_text p.authorization_id

pub data DeliveryError : Type 0 where
  must_be_timezone_aware : String → DeliveryError
  must_not_be_blank : String → DeliveryError
  not_an_opaque_identifier : DeliveryError
  created_at_regressed : DeliveryError
  immutable_conflict : DeliveryError
  unknown_message : DeliveryError
  not_delivered : DeliveryError
  precedes_delivery : DeliveryError
  attempt_number_must_be_positive : DeliveryError
  overflow_error : DeliveryError

-- `retry_delay`. The duration is built before it is cut off at `max_backoff`.
unfoldable pub retry_delay : ChannelPolicy → ℕ → Result DeliveryError ℕ
unfolding timedelta
retry_delay p attempt_number =
    if ltb attempt_number 1
    then err attempt_number_must_be_positive
    else elim (timedelta (p.base_backoff * 2 ^ (attempt_number - 1))) [
      | none ↦ err overflow_error
      | some delay ↦ ok (min delay p.max_backoff)
    ]
