-- ===== src/Collector/Redelivery.antt =====
-- An event that comes a second time.
use marketpilot.Base.{
  text_key, List, Option, String, [], ap, arith, contains, eq_iff, false, last, none, refl, select,
  some, subst, sym, true, ℕ, ◌++◌, ◌+◌, ◌∷◌, ◌≡◌, ◌⊎◌,
}
use marketpilot.Collector.Defs.{
  CollectorTrace, CollectorEvent, Setup, Run, later, Reason, apply_freshness, streaming,
  collector_stale, CollectorPolicy, degraded, CollectorState, CollectorTrace,
}
use marketpilot.Collector.Halted.{apply_event-IsKept}
use marketpilot.Collector.Step.{
  optional_reason, note_event, process, conclude, step, loop, loop_induction, early_reasons,
  assess_quality, is_lasting, optional_reason,
}

process-seen :
    (c : Setup) (e : CollectorEvent) (r : Run)
    → contains e.event_id (process c e r).0.seen_events ≡ true
unfolding process
process-seen c e r =
    ground
      (arith, (apply_event-IsKept c e (note_event e r)).seen_events, eq_iff e.event_id e.event_id)

process-keeps_seen :
    (c : Setup) (e : CollectorEvent) (id : String) (r : Run)
    → contains id r.seen_events ≡ true
    → contains id (process c e r).0.seen_events ≡ true
unfolding process
process-keeps_seen c e id r h =
    ground (arith, (apply_event-IsKept c e (note_event e r)).seen_events)

seen_events-step :
    (c : Setup) (e : CollectorEvent) (r : Run)
    → (step c e r).seen_events ≡ (process c e r).0.seen_events
unfolding step conclude
seen_events-step c e r = refl

-- What a copy of an event leaves as it was, and what it moves.
pub record IsCounted (c : Setup) (copy : CollectorEvent) (r s : Run) : Type 0 where
  pub accepted_quotes : s.accepted_quotes ≡ r.accepted_quotes
  pub watermark : s.watermark ≡ r.watermark
  pub last_observation_at : s.last_observation_at ≡ r.last_observation_at
  pub latest_by_source : s.latest_by_source ≡ r.latest_by_source
  pub seen_observations : s.seen_observations ≡ r.seen_observations
  pub seen_events : s.seen_events ≡ r.seen_events
  pub attempts : s.attempts ≡ r.attempts
  pub next_retry_at : s.next_retry_at ≡ r.next_retry_at
  pub run_reasons : s.run_reasons ≡ r.run_reasons
  pub duplicate_observations : s.duplicate_observations ≡ r.duplicate_observations
  pub out_of_order_observations : s.out_of_order_observations ≡ r.out_of_order_observations
  pub duplicate_events : s.duplicate_events ≡ r.duplicate_events + 1
  pub previous_first_seen_at :
      s.previous_first_seen_at ≡ some (later r.previous_first_seen_at copy.first_seen_at)
  pub assessed_again : s.quality_report ≡ assess_quality c copy r
  pub kept_or_degraded : (s.state ≡ r.state) ⊎ ((r.state ≡ streaming) × (s.state ≡ degraded))
  pub traced : (t : CollectorTrace) × (s.traces ≡ r.traces ++ t ∷ []) × (t.accepted ≡ false)

early_reasons-passing :
    (e : CollectorEvent) (r : Run) (o : Option Reason)
    → (o ≡ none) ⊎ (o ≡ some collector_stale)
    → select is_lasting (early_reasons e r ++ optional_reason o) ≡ []
early_reasons-passing e r o h = ground (arith, h)

process-refuses :
    (c : Setup) (e : CollectorEvent) (r : Run)
    → contains e.event_id r.seen_events ≡ true
    → (process c e r) ≡ (note_event e r, early_reasons e r)
unfolding process
process-refuses c e r h = ground (arith, h)

-- The freshness step degrades a streaming collector or leaves the state alone.
apply_freshness-cases :
    (p : CollectorPolicy) (state : CollectorState) (now : ℕ) (last : Option ℕ)
    → (((apply_freshness p state now last).0 ≡ state)
        ⊎ ((state ≡ streaming) × ((apply_freshness p state now last).0 ≡ degraded)))
      × (((apply_freshness p state now last).1 ≡ none)
          ⊎ ((apply_freshness p state now last).1 ≡ some collector_stale))
unfolding apply_freshness
apply_freshness-cases p state now last = ground arith

conclude-IsCounted :
    (c : Setup) (e : CollectorEvent) (r : Run)
    → contains e.event_id r.seen_events ≡ true
    → IsCounted c e r (conclude c e (note_event e r, early_reasons e r))
unfolding conclude note_event assess_quality
conclude-IsCounted c e r h =
    let (state, reason) =
      apply_freshness-cases c.policy r.state e.first_seen_at r.last_observation_at in
    record {
      accepted_quotes = refl;
      watermark = refl;
      last_observation_at = refl;
      latest_by_source = refl;
      seen_observations = refl;
      seen_events = ground (arith, h);
      attempts = refl;
      next_retry_at = refl;
      run_reasons =
          ap (λ xs. xs ++ r.run_reasons)
            (early_reasons-passing e r
              (apply_freshness c.policy r.state e.first_seen_at r.last_observation_at).1 reason);
      duplicate_observations = refl;
      out_of_order_observations = refl;
      duplicate_events = ground (arith, h);
      previous_first_seen_at = refl;
      assessed_again = refl;
      kept_or_degraded = state;
      traced = (_, refl, ground (arith, h));
    }

duplicate-IsCounted :
    (c : Setup) (e : CollectorEvent) (r : Run)
    → contains e.event_id r.seen_events ≡ true
    → IsCounted c e r (step c e r)
unfolding step
duplicate-IsCounted c e r h =
    subst (λ p. IsCounted c e r (conclude c e p)) (sym (process-refuses c e r h))
      (conclude-IsCounted c e r h)

-- Delivering an event again, however many events later and whatever the copy holds, is counted as a
-- duplicate and is not accepted. What the run knows of the market, the connection's retries and the
-- lasting reasons stay as they were. The copy's instant counts as one at which an event was seen, the
-- quotes are assessed again at that instant, and a streaming collector may be degraded as stale at it;
-- the state changes in no other way.
pub redelivery-IsCounted :
    (c : Setup) (e copy : CollectorEvent) (es : List CollectorEvent) (r : Run)
    → copy.event_id ≡ e.event_id
    → IsCounted c copy (loop c (e ∷ es) r) (loop c (copy ∷ []) (loop c (e ∷ es) r))
redelivery-IsCounted c e copy es r same =
    let seen : contains e.event_id (loop c es (step c e r)).seen_events ≡ true =
      loop_induction c (λ s. contains e.event_id s.seen_events ≡ true)
        (λ f s k. rw (seen_events-step c f s) (process-keeps_seen c f e.event_id s k)) es
        (step c e r) (rw (seen_events-step c e r) (process-seen c e r)) in
    unfold loop in duplicate-IsCounted c copy (loop c es (step c e r)) (rw same seen)
