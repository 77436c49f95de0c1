-- ===== src/Delivery/Guarded.antt =====
-- What `dispatch_due` of services/alert_delivery_service.py returns as SENT.
use marketpilot.Base.{
  Bool-cases, IsIn, List, Option-cases, String, [], ap, arith, aware, bind-ok, eq_iff, false,
  if◌then◌else◌, inl, inr, is_blank, length, ok, pure, refl, some, subst, true, ℕ, ◌+◌, ◌>>=◌, ◌∙◌,
  ◌∷◌, ◌≡◌, ◌⊎◌,
}
use marketpilot.Delivery.Defs.{
  OutboxMessage, sent, delivery_enabled, verify_outbox_message, ChannelPolicy, DeliveryAttempt,
  Signer, sign_outbox_content, signing_content,
}
use marketpilot.Delivery.Store.{Store, insert_message, by_created, attempts_of, not_after}
use marketpilot.Delivery.Service.{
  Orchestrator, SenderResult, attempt_result, attempt_of, dispatch, dispatch_loop, dispatch_due,
  is_due,
}

-- A stored message that an attempt was made on, and what allowed the sender to be called with it.
pub record IsPermittedSend (o : Orchestrator) (ms : List OutboxMessage) (a : DeliveryAttempt)
    : Type 0 where
  pub message : OutboxMessage
  pub stored : IsIn message ms
  pub named : message.message_id ≡ a.message_id
  pub on_channel : message.channel ≡ a.channel
  pub enabled : (o.channels a.channel).enabled ≡ true
  pub opted_in : (o.channels a.channel).opted_in ≡ true
  pub approved :
      (id : String) × ((o.channels a.channel).authorization_id ≡ some id) × (is_blank id ≡ false)
  pub signed : message.signature ≡ sign_outbox_content o.signer (signing_content message)
  pub reached :
      ((o.senders a.channel).network_capable ≡ false)
      ⊎ ((o.network_authorized ≡ true) × ((o.channels a.channel).allow_network ≡ true))
  pub accepted :
      (r : SenderResult) × ((o.senders a.channel).send message a.attempt_number ≡ some r)
      × (r.outcome ≡ sent)

delivery_enabled_parts :
    (p : ChannelPolicy)
    → delivery_enabled p ≡ true
    → (p.enabled ≡ true)
      × (p.opted_in ≡ true)
      × (id : String) × (p.authorization_id ≡ some id)
      × (is_blank id ≡ false)
unfolding delivery_enabled
delivery_enabled_parts p h = elim (Option-cases p.authorization_id) [
  | inl unset ↦ absurd (ground arith)
  | inr (id, there) ↦ (ground arith, ground arith, id, there, ground arith)
]

verify_outbox_message-signed :
    (k : Signer) (m : OutboxMessage)
    → verify_outbox_message k m ≡ true
    → m.signature ≡ sign_outbox_content k (signing_content m)
unfolding verify_outbox_message
verify_outbox_message-signed k m h =
    (eq_iff m.signature (sign_outbox_content k (signing_content m))).0 h

sent_guards :
    (o : Orchestrator) (m : OutboxMessage) (n : ℕ)
    → (attempt_result o m n).outcome ≡ sent
    → (delivery_enabled (o.channels m.channel) ≡ true)
      × (verify_outbox_message o.signer m ≡ true)
      × (((o.senders m.channel).network_capable ≡ false)
          ⊎ ((o.network_authorized ≡ true) × ((o.channels m.channel).allow_network ≡ true)))
      × (r : SenderResult) × ((o.senders m.channel).send m n ≡ some r)
      × (r.outcome ≡ sent)
unfolding attempt_result
sent_guards o m n h = elim (Option-cases ((o.senders m.channel).send m n)) [
  | inl raised ↦ absurd (ground arith)
  | inr (r, there) ↦ (ground arith, ground arith, ground arith, r, there, ground arith)
]

attempt_of-IsPermittedSend :
    (o : Orchestrator) (ms : List OutboxMessage) (m : OutboxMessage) (now n : ℕ)
    → IsIn m ms
    → (attempt_result o m n).outcome ≡ sent
    → IsPermittedSend o ms (attempt_of o m now n (attempt_result o m n))
unfolding attempt_of
attempt_of-IsPermittedSend o ms m now n there h =
    let (open_, signed, reached, r, sent_by, said) = sent_guards o m n h in
    let (on, opted, id, there_id, shown) = delivery_enabled_parts (o.channels m.channel) open_ in
    record {
      message = m;
      stored = there;
      named = refl;
      on_channel = refl;
      enabled = on;
      opted_in = opted;
      approved = (id, there_id, shown);
      signed = verify_outbox_message-signed o.signer m signed;
      reached = reached;
      accepted = (r, sent_by, said);
    }

dispatch-attempt_of :
    (o : Orchestrator) (m : OutboxMessage) (now : ℕ) (s : Store) (a : DeliveryAttempt)
    → (dispatch o m now s).0 ≡ ok a
    → (n : ℕ) × (attempt_of o m now n (attempt_result o m n) ≡ a)
unfolding dispatch
dispatch-attempt_of o m now s a h = (length (attempts_of s m.message_id) + 1, ground (arith, h))

-- Every attempt that the loop returns was made on one of its messages.
dispatch_loop-attempt_of :
    (o : Orchestrator) (ms : List OutboxMessage) (now : ℕ) (s : Store)
    (attempts : List DeliveryAttempt) (a : DeliveryAttempt)
    → (dispatch_loop o ms now s).0 ≡ ok attempts
    → IsIn a attempts
    → (m : OutboxMessage) × IsIn m ms × (n : ℕ) × (attempt_of o m now n (attempt_result o m n) ≡ a)
unfolding dispatch_loop
dispatch_loop-attempt_of o [] now s attempts a h there =
    let none_made : attempts ≡ [] = ground (arith, h) in absurd (subst (IsIn a) none_made there)
dispatch_loop-attempt_of o (m ∷ ms) now s attempts a h there =
    let after = dispatch o m now s in
    elim (Bool-cases (is_due s m.message_id now)) [
      | inl due ↦
          let (one, made, rest) =
            bind-ok (dispatch o m now) (λ d. dispatch_loop o ms now >>= λ ds. pure (d ∷ ds)) s
              attempts (ground (arith, h, due)) in
          let (others, looped, returned) =
            bind-ok (dispatch_loop o ms now) (λ ds. pure (one ∷ ds)) after.1 attempts rest in
          let listed : attempts ≡ one ∷ others = ground (arith, returned) in
          elim (subst (IsIn a) listed there)
            as (λ (_ : (one ≡ a) ⊎ IsIn a others).
              (k : OutboxMessage) × IsIn k (m ∷ ms)
              × (n : ℕ) × (attempt_of o k now n (attempt_result o k n) ≡ a)) [
                | inl same ↦
                    let (n, same_) = dispatch-attempt_of o m now s one made in
                    (m, inl refl, n, same_ ∙ same)
                | inr behind ↦
                    let (k, here, n, found) =
                      dispatch_loop-attempt_of o ms now after.1 others a looped behind in
                    (k, inr here, n, found)
              ]
      | inr waiting ↦
          let (k, here, n, found) =
            dispatch_loop-attempt_of o ms now s attempts a (ground (arith, h, waiting)) there in
          (k, inr here, n, found)
    ]

insert_message-IsIn :
    (m x : OutboxMessage) (ms : List OutboxMessage) → IsIn x (insert_message m ms) → IsIn x (m ∷ ms)
unfolding insert_message
insert_message-IsIn m x [] h = h
insert_message-IsIn m x (n ∷ ns) h = elim (Bool-cases (not_after m n)) [
  | inl b ↦ subst (λ c. IsIn x (if c then m ∷ n ∷ ns else n ∷ insert_message m ns)) b h
  | inr b ↦ elim (subst (λ c. IsIn x (if c then m ∷ n ∷ ns else n ∷ insert_message m ns)) b h) [
    | inl same ↦ inr (inl same)
    | inr there ↦ elim (insert_message-IsIn m x ns there) [
      | inl same ↦ inl same
      | inr behind ↦ inr (inr behind)
    ]
  ]
]

by_created-IsIn : (x : OutboxMessage) (ms : List OutboxMessage) → IsIn x (by_created ms) → IsIn x ms
unfolding by_created
by_created-IsIn x [] h = h
by_created-IsIn x (m ∷ ms) h = elim (insert_message-IsIn m x (by_created ms) h) [
  | inl same ↦ inl same
  | inr there ↦ inr (by_created-IsIn x ms there)
]

-- Every attempt with the outcome SENT that `dispatch_due` returns was made on a message of the store,
-- on its channel: the channel is enabled, opted in and authorized under an id that is not blank, the
-- signature on the message is the one of its content, a sender that can reach the network is
-- authorized for it both by the service and by the channel, and it was the sender that said SENT.
pub sent_only_if_authorized :
    (o : Orchestrator) (now : ℕ) (s : Store) (attempts : List DeliveryAttempt) (a : DeliveryAttempt)
    → (dispatch_due o (aware now) s).0 ≡ ok attempts
    → IsIn a attempts
    → a.outcome ≡ sent
    → IsPermittedSend o s.messages a
unfolding dispatch_due
sent_only_if_authorized o now s attempts a h there was_sent =
    let (m, here, n, made) =
      dispatch_loop-attempt_of o (by_created s.messages) now s attempts a h there in
    subst (IsPermittedSend o s.messages) made (
      attempt_of-IsPermittedSend o s.messages m now n (by_created-IsIn m s.messages here)
        (unfold attempt_of in ap (λ (x : DeliveryAttempt). x.outcome) made ∙ was_sent))
