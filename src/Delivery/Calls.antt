-- ===== src/Delivery/Calls.antt =====
-- The other calls of the orchestrator: `enqueue`, `acknowledge` and `escalate_due`.
use Prim.Native.Char.{code}
use Prim.Native.String.{◌++◌ as text_append}
use marketpilot.Base.{
  text_key, Bool, Datetime, List, Option, String, [], any, false, gets, if◌then◌else◌, is_blank,
  is_some, last, leb, length, ltb, nat_eq, none, not, ok, or_raise, pure, raise_if, select, some,
  suc, true, zero, ℕ, ◌&&◌, ◌++◌, ◌+◌, ◌==◌, ◌>>=◌, ◌>>◌, ◌||◌, ◌∷◌,
}
use marketpilot.Domain.Snapshot.{text, object, Fields, field, end}
use marketpilot.Delivery.Defs.{
  DeliveryChannel, channel_value, OutboxEventKind, enqueued, suppressed, delivery_disabled,
  delivered, retry_scheduled, dead_lettered, acknowledged, escalated, OutboxMessage, OutboxEvent,
  signing_content, deterministic_delivery_id, sign_outbox_content, verify_outbox_message,
  ChannelPolicy, delivery_enabled, must_not_be_blank, not_an_opaque_identifier,
  created_at_regressed, unknown_message, not_delivered, precedes_delivery,
}
use marketpilot.Delivery.Store.{
  Action, find_message, append_message, events_of, attempts_of, by_created,
  latest_message_for_dedupe,
}
use marketpilot.Delivery.Service.{Orchestrator, aware_at, blank_event, add_event}

-- The keyword arguments of `enqueue`.
pub record Submission : Type 0 where
  pub message_id : String
  pub alert_id : String
  pub fingerprint : String
  pub channel : DeliveryChannel
  pub destination_reference : String
  pub payload : Fields
  pub created_at : Datetime

is_alphanumeric : ℕ → Bool
is_alphanumeric c = leb b'0' c && leb c b'9' || leb b'A' c && leb c b'Z' || leb b'a' c && leb c b'z'

is_reference_char : ℕ → Bool
unfolding is_alphanumeric
is_reference_char c =
    is_alphanumeric c || nat_eq c b'.' || nat_eq c b'_' || nat_eq c b':' || nat_eq c b'-'

-- At most `n` further characters of the identifier.
reference_rest : String → ℕ → Bool
unfolding is_reference_char
reference_rest String.[] n = true
reference_rest (String.◌∷◌ c s) zero = false
reference_rest (String.◌∷◌ c s) (suc n) = is_reference_char (code c) && reference_rest s n

-- `_DESTINATION_REFERENCE.fullmatch(value) is not None`
unfoldable pub is_opaque_reference : String → Bool
unfolding reference_rest is_alphanumeric
is_opaque_reference String.[] = false
is_opaque_reference (String.◌∷◌ c s) = is_alphanumeric (code c) && reference_rest s 127

abbrev pub dedupe_key_of : Submission → String
dedupe_key_of x =
    text_append (channel_value x.channel)
      (text_append ":" (text_append x.fingerprint (text_append ":" x.destination_reference)))

abbrev regresses : Submission → ℕ → Option OutboxMessage → Bool
regresses x created none = false
regresses x created (some previous) =
    not (previous.message_id == x.message_id) && ltb created previous.created_at

abbrev cools_down : ChannelPolicy → Submission → ℕ → Option OutboxMessage → Bool
cools_down p x created none = false
cools_down p x created (some previous) =
    not (previous.message_id == x.message_id) && ltb created (previous.created_at + p.cooldown)

module _ (o : Orchestrator) where
  -- An absent or empty authorization id has no hash.
  abbrev authorization_hash : Option String → Option String
  authorization_hash none = none
  authorization_hash (some id) =
      if id == ""
      then none
      else some (
          deterministic_delivery_id o.signer.platform "sha256"
            (object (field "authorization_id" (text id) end)))

  abbrev unsigned_message : Submission → ℕ → OutboxMessage
  unsigned_message x created = record {
    message_id = x.message_id;
    alert_id = x.alert_id;
    fingerprint = x.fingerprint;
    channel = x.channel;
    destination_reference = x.destination_reference;
    payload = x.payload;
    created_at = created;
    dedupe_key = dedupe_key_of x;
    signature = "";
    policy_version = o.policy_version;
    authorization_reference_hash = authorization_hash (o.channels x.channel).authorization_id;
  }

  abbrev pub signed_message : Submission → ℕ → OutboxMessage
  signed_message x created = record (unsigned_message x created) {
    signature = sign_outbox_content o.signer (signing_content (unsigned_message x created));
  }

  -- The first event of a new message.
  unfoldable pub first_event : Submission → ℕ → Bool → OutboxEvent
  first_event x created suppress =
      if suppress
      then record (blank_event x.message_id suppressed created) {
        reason_code = some "DEDUPE_COOLDOWN";
      }
      else if not (delivery_enabled (o.channels x.channel))
      then record (blank_event x.message_id delivery_disabled created) {
        reason_code = some "CHANNEL_NOT_OPTED_IN";
      }
      else blank_event x.message_id enqueued created

  unfoldable pub enqueue : Submission → Action OutboxMessage
  unfolding is_opaque_reference is_blank find_message latest_message_for_dedupe append_message
      add_event first_event
  enqueue x = do
    created ← aware_at x.created_at "created_at"
    raise_if (is_blank x.message_id) (must_not_be_blank "message_id")
    raise_if (is_blank x.alert_id) (must_not_be_blank "alert_id")
    raise_if (is_blank x.fingerprint) (must_not_be_blank "fingerprint")
    raise_if (is_blank x.destination_reference) (must_not_be_blank "destination_reference")
    raise_if (not (is_opaque_reference x.destination_reference)) not_an_opaque_identifier
    existing ← gets (λ s. find_message s x.message_id)
    previous ← gets (λ s. latest_message_for_dedupe s (dedupe_key_of x))
    raise_if (regresses x created previous) created_at_regressed
    stored ← append_message o.signer.platform (signed_message x created)
    if is_some existing then pure stored else do
      add_event o (first_event x created (cools_down (o.channels x.channel) x created previous))
      pure stored

abbrev is_kind : OutboxEventKind → OutboxEventKind → Bool
is_kind delivered delivered = true
is_kind acknowledged acknowledged = true
is_kind escalated escalated = true
is_kind dead_lettered dead_lettered = true
is_kind _ _ = false

abbrev pub of_kind : OutboxEventKind → List OutboxEvent → List OutboxEvent
of_kind k events = select (λ e. is_kind k e.kind) events

module _ (o : Orchestrator) where
  -- The rest of `acknowledge`, once a delivery is there.
  unfoldable pub settle : String → String → ℕ → List OutboxEvent → OutboxEvent → Action OutboxEvent
  unfolding add_event
  settle id actor now events delivery = do
    raise_if (ltb now delivery.recorded_at) precedes_delivery
    elim (of_kind acknowledged events) [
      | ◌∷◌ old olds ↦ pure old
      | [] ↦ add_event o (record (blank_event id acknowledged now) {
        reason_code = some "USER_ACKNOWLEDGED";
        actor = some actor;
      })
    ]

  unfoldable pub acknowledge : String → String → Datetime → Action OutboxEvent
  unfolding settle find_message events_of is_blank
  acknowledge id actor acknowledged_at = do
    now ← aware_at acknowledged_at "acknowledged_at"
    raise_if (is_blank actor) (must_not_be_blank "actor")
    message ← gets (λ s. find_message s id)
    raise_if (not (is_some message)) unknown_message
    events ← gets (λ s. events_of s id)
    delivery ← or_raise (last (of_kind delivered events)) not_delivered
    settle id actor now events delivery

  -- Escalation is due: a delivery that is the last event, whose acknowledgment is overdue.
  abbrev overdue : ℕ → Option OutboxEvent → Bool
  overdue now none = false
  overdue now (some e) =
      is_kind delivered e.kind && elim e.ack_due_at [ none ↦ false | some t ↦ leb t now ]

  abbrev awaits : OutboxMessage → List OutboxEvent → ℕ → Bool
  awaits m events now =
      (o.channels m.channel).require_ack
      && not (any (λ e. is_kind acknowledged e.kind) events)
      && overdue now (last events)

  unfoldable pub escalate : OutboxMessage → List OutboxEvent → ℕ → Action (List OutboxEvent)
  unfolding add_event
  escalate m events now =
      let level = length (of_kind escalated events) in
      if leb (o.channels m.channel).max_escalations level
      then (if any (λ e. is_kind dead_lettered e.kind) events then pure [] else (do
        e ← add_event o (record (blank_event m.message_id dead_lettered now) {
          reason_code = some "ACK_TIMEOUT";
          escalation_level = level;
        })
        pure (e ∷ [])))
      else (do
        e ← add_event o (record (blank_event m.message_id escalated now) {
          reason_code = some "ACK_TIMEOUT";
          escalation_level = level + 1;
        })
        n ← gets (λ s. length (attempts_of s m.message_id) + 1)
        add_event o (record (blank_event m.message_id retry_scheduled now) {
          attempt_number = some n;
          next_attempt_at = some now;
          reason_code = some "ACK_ESCALATION";
          escalation_level = level + 1;
        })
        pure (e ∷ []))

  -- The loop of `escalate_due`.
  unfoldable pub escalate_loop : List OutboxMessage → ℕ → Action (List OutboxEvent)
  unfolding escalate events_of
  escalate_loop [] now s = (ok [], s)
  escalate_loop (m ∷ ms) now s =
      let rest = escalate_loop ms now in
      if awaits m (events_of s m.message_id) now
      then (do new ← escalate m (events_of s m.message_id) now; others ← rest; pure (new ++ others))
          s
      else rest s

  unfoldable pub escalate_due : Datetime → Action (List OutboxEvent)
  unfolding escalate_loop by_created
  escalate_due as_of = do
    now ← aware_at as_of "as_of"
    ms ← gets (λ s. by_created s.messages)
    escalate_loop ms now

  unfoldable pub verify_signature : String → Action Bool
  unfolding find_message verify_outbox_message
  verify_signature id = do
    found ← gets (λ s. find_message s id)
    m ← or_raise found unknown_message
    pure (verify_outbox_message o.signer m)
