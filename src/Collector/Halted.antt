-- ===== src/Collector/Halted.antt =====
-- What the handlers leave alone, and the halted state.
use marketpilot.Base.{text_key, List, arith, ◌≡◌}
use marketpilot.Collector.Defs.{CollectorEvent, Reason, Setup, Run, apply_event, halted}
use marketpilot.Collector.Step.{process, conclude, step, loop, loop_induction}

-- The bookkeeping that no handler touches.
pub record IsKept (r s : Run) : Type 0 where
  pub seen_events : s.seen_events ≡ r.seen_events
  pub traces : s.traces ≡ r.traces
  pub run_reasons : s.run_reasons ≡ r.run_reasons
  pub duplicate_events : s.duplicate_events ≡ r.duplicate_events
  pub previous_first_seen_at : s.previous_first_seen_at ≡ r.previous_first_seen_at

pub apply_event-IsKept : (c : Setup) (e : CollectorEvent) (r : Run) → IsKept r (apply_event c e r).0
unfolding apply_event
apply_event-IsKept c e r = ground arith

pub process-halted :
    (c : Setup) (e : CollectorEvent) (r : Run) → r.state ≡ halted → (process c e r).0.state ≡ halted
unfolding process
process-halted c e r h = ground arith

pub conclude-halted :
    (c : Setup) (e : CollectorEvent) (r : Run) (xs : List Reason)
    → r.state ≡ halted
    → (conclude c e (r, xs)).state ≡ halted
unfolding conclude
conclude-halted c e r xs h = ground arith

-- A halted collector stays halted for the rest of the run, whatever events follow.
pub halted_stays :
    (c : Setup) (es : List CollectorEvent) (r : Run)
    → r.state ≡ halted
    → (loop c es r).state ≡ halted
halted_stays c es r h =
    loop_induction c (λ s. s.state ≡ halted)
      (λ e s k.
        unfold step in
        conclude-halted c e (process c e s).0 (process c e s).1 (process-halted c e s k))
      es r h
