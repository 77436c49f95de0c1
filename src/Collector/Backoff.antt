-- ===== src/Collector/Backoff.antt =====
-- The bounds of the reconnection delay, and runs that return a result.
use marketpilot.Base.{
  All, Bool-cases, List, [], arith, false, greatest_timedelta, inl, inr, le-mul_of_pos, ltb, min,
  pow_pos, refl, some, true, ℕ, ◌*◌, ◌+◌, ◌-◌, ◌<◌, ◌^◌, ◌∷◌, ◌≡◌, ◌≢◌, ◌≤◌,
}
use marketpilot.Collector.Defs.{
  on_connection_lost, not_a_duration, apply_event, CollectorEvent, CollectorPolicy, Run, Setup,
  is_valid_policy, reconnect_delay,
}
use marketpilot.Collector.Step.{
  completed_run, run, loop, step, conclude, process, note_event, fresh_run,
}
use native.Mathlib.Nat.{mul-le-mul_left, pow-le-pow_right}

-- Under a valid policy every delay that fits a timedelta before it is cut off lies between the base
-- and the greatest backoff and is positive.
reconnect_delay_bounds :
    (p : CollectorPolicy) (attempt : ℕ)
    → is_valid_policy p ≡ true
    → 0 < attempt
    → p.base_backoff * 2 ^ (attempt - 1) ≤ greatest_timedelta
    → (d : ℕ) × (reconnect_delay p attempt ≡ some d)
      × (0 < d)
      × (p.base_backoff ≤ d)
      × (d ≤ p.max_backoff)
unfolding is_valid_policy reconnect_delay
reconnect_delay_bounds p attempt h counted fits =
    let valid : (0 < p.base_backoff) × (p.base_backoff ≤ p.max_backoff) = ground arith in
    let base = le-mul_of_pos p.base_backoff (2 ^ (attempt - 1)) (pow_pos (attempt - 1)) in
    (
      min (p.base_backoff * 2 ^ (attempt - 1)) p.max_backoff,
      ground (arith, counted, fits),
      omega arith,
      omega arith,
      omega arith,
    )

reconnect_delay-fits :
    (p : CollectorPolicy) (attempt : ℕ)
    → 0 < attempt
    → attempt ≤ p.max_reconnect_attempts
    → p.base_backoff * 2 ^ (p.max_reconnect_attempts - 1) ≤ greatest_timedelta
    → (d : ℕ) × (reconnect_delay p attempt ≡ some d)
unfolding reconnect_delay
reconnect_delay-fits p attempt counted within fits =
    let grows = mul-le-mul_left p.base_backoff (
      pow-le-pow_right {n = 2} (omega arith) {i = attempt - 1} {j = p.max_reconnect_attempts - 1}
        (omega arith)) in
    let small : p.base_backoff * 2 ^ (attempt - 1) ≤ greatest_timedelta = omega arith in
    (min (p.base_backoff * 2 ^ (attempt - 1)) p.max_backoff, ground (arith, counted, small))

connection_lost-fits :
    (p : CollectorPolicy) (e : CollectorEvent) (r : Run)
    → p.base_backoff * 2 ^ (p.max_reconnect_attempts - 1) ≤ greatest_timedelta
    → r.raised ≡ false
    → (on_connection_lost p e r).0.raised ≡ false
unfolding on_connection_lost
connection_lost-fits p e r fits h =
    elim (Bool-cases (ltb p.max_reconnect_attempts (r.attempts + 1))) [
      | inl spent ↦ ground (arith, spent, h)
      | inr left ↦
          let (d, there) =
            reconnect_delay-fits p (r.attempts + 1) (omega arith) (ground (arith, left)) fits in
          ground (arith, left, there, h)
    ]

process-fits :
    (c : Setup) (e : CollectorEvent) (r : Run)
    → c.policy.base_backoff * 2 ^ (c.policy.max_reconnect_attempts - 1) ≤ greatest_timedelta
    → e.retry_after ≢ not_a_duration
    → r.raised ≡ false
    → (process c e r).0.raised ≡ false
unfolding process apply_event
process-fits c e r fits given h =
    ground (arith, connection_lost-fits c.policy e (note_event e r) fits h, given, h)

loop-fits :
    (c : Setup) (es : List CollectorEvent) (r : Run)
    → c.policy.base_backoff * 2 ^ (c.policy.max_reconnect_attempts - 1) ≤ greatest_timedelta
    → All (λ e. e.retry_after ≢ not_a_duration) es
    → r.raised ≡ false
    → (loop c es r).raised ≡ false
unfolding loop
loop-fits c [] r fits given h = h
loop-fits c (e ∷ es) r fits (first_one, given) h =
    loop-fits c es (step c e r) fits given
      (unfold step conclude in process-fits c e r fits first_one h)

-- Where the greatest delay of the reconnection budget fits a timedelta before it is cut off, and so
-- does every interval that an event gives, a run returns its result.
run_completes :
    (c : Setup) (es : List CollectorEvent)
    → c.policy.base_backoff * 2 ^ (c.policy.max_reconnect_attempts - 1) ≤ greatest_timedelta
    → All (λ e. e.retry_after ≢ not_a_duration) es
    → completed_run c es ≡ some (run c es)
unfolding completed_run run
run_completes c es fits given =
    rw (loop-fits c es (fresh_run c) fits given (unfold fresh_run in refl)) refl
