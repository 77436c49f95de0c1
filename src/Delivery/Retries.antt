-- ===== src/Delivery/Retries.antt =====
-- The retry that follows a failed attempt, in services/alert_delivery_service.py.
use marketpilot.Base.{
  Bool-cases, arith, err, greatest_timedelta, inl, inr, le-mul_of_pos, leb, min, ok, pow_pos, refl,
  some, true, ℕ, ◌*◌, ◌+◌, ◌-◌, ◌<◌, ◌^◌, ◌≡◌, ◌≤◌, ◌⊎◌,
}
use marketpilot.Delivery.Defs.{
  OutboxMessage, transient_failure, retry_scheduled, is_valid_policy, retry_delay, ChannelPolicy,
  overflow_error, OutboxEvent,
}
use marketpilot.Delivery.Service.{Orchestrator, SenderResult, event_after, blank_event, or_reason}

retry_delay_bounds :
    (p : ChannelPolicy) (n : ℕ)
    → is_valid_policy p ≡ true
    → 0 < n
    → p.base_backoff * 2 ^ (n - 1) ≤ greatest_timedelta
    → (d : ℕ) × (retry_delay p n ≡ ok d) × (0 < d) × (p.base_backoff ≤ d) × (d ≤ p.max_backoff)
unfolding is_valid_policy retry_delay
retry_delay_bounds p n h counted fits =
    let valid : (0 < p.base_backoff) × (p.base_backoff ≤ p.max_backoff) = ground arith in
    let base = le-mul_of_pos p.base_backoff (2 ^ (n - 1)) (pow_pos (n - 1)) in
    (
      min (p.base_backoff * 2 ^ (n - 1)) p.max_backoff,
      ground (arith, counted, fits),
      omega arith,
      omega arith,
      omega arith,
    )

retry_delay-overflow :
    (p : ChannelPolicy) (n : ℕ)
    → 0 < n
    → greatest_timedelta < p.base_backoff * 2 ^ (n - 1)
    → retry_delay p n ≡ err overflow_error
unfolding retry_delay
retry_delay-overflow p n counted large = ground (arith, counted, large)

-- Under a valid policy a transient failure with attempts left is followed by a retry with the next
-- attempt's number, at an instant after the failed attempt, at least the base backoff and at most the
-- greatest backoff away from it, where the uncut delay fits a timedelta; where it does not, an
-- OverflowError is raised and there is no event.
pub retry_is_later :
    (o : Orchestrator) (m : OutboxMessage) (now n : ℕ) (result : SenderResult)
    → is_valid_policy (o.channels m.channel) ≡ true
    → result.outcome ≡ transient_failure
    → 0 < n
    → n < (o.channels m.channel).max_attempts
    → (((o.channels m.channel).base_backoff * 2 ^ (n - 1) ≤ greatest_timedelta)
        × (e : OutboxEvent) × (event_after o m now n result ≡ ok e)
        × (e.kind ≡ retry_scheduled)
        × (e.attempt_number ≡ some (n + 1))
        × (t : ℕ) × (e.next_attempt_at ≡ some t)
        × (now < t)
        × (now + (o.channels m.channel).base_backoff ≤ t)
        × (t ≤ now + (o.channels m.channel).max_backoff))
      ⊎ ((greatest_timedelta < (o.channels m.channel).base_backoff * 2 ^ (n - 1))
          × (event_after o m now n result ≡ err overflow_error))
unfolding event_after
retry_is_later o m now n result valid failed counted left =
    let p = o.channels m.channel in
    elim (Bool-cases (leb (p.base_backoff * 2 ^ (n - 1)) greatest_timedelta)) [
      | inl below ↦
          let fits : p.base_backoff * 2 ^ (n - 1) ≤ greatest_timedelta = ground (arith, below) in
          let (d, made, after, least, most) = retry_delay_bounds p n valid counted fits in
          inl (
            fits,
            record (blank_event m.message_id retry_scheduled now) {
              attempt_number = some (n + 1);
              next_attempt_at = some (now + d);
              reason_code = or_reason result.reason_code "TRANSIENT_FAILURE";
            },
            ground (arith, made, failed, left),
            refl,
            refl,
            now + d,
            refl,
            omega arith,
            omega arith,
            omega arith,
          )
      | inr above ↦
          let large : greatest_timedelta < p.base_backoff * 2 ^ (n - 1) = ground (arith, above) in
          inr (large, ground (arith, retry_delay-overflow p n counted large, failed, left))
    ]
