-- ===== src/Collector/Permits.antt =====
-- What a run that permits a decision has shown.
use marketpilot.Base.{
  text_key, All, List, Option-cases, [], append-nil_parts, arith, eq_iff, false, inl, inr, last,
  select, some, true, ◌++◌, ◌∷◌, ◌≡◌,
}
use marketpilot.Decision.{green}
use marketpilot.Collector.Defs.{
  CollectorEvent, CollectorTrace, CapabilityReport, FeedQualityReport, Setup, Run, streaming,
}
use marketpilot.Collector.Halted.{apply_event-IsKept}
use marketpilot.Collector.Drift.{Undrifted, run-Undrifted}
use marketpilot.Collector.Step.{
  CollectorRunResult, capability_reasons, fresh_run, note_event, process, conclude, step, loop,
  loop_induction, run, permits_decision, is_lasting, gate_reasons, state_reasons,
}

-- The provider's capability is proved in full.
pub record IsCapable (c : CapabilityReport) : Type 0 where
  pub configured : c.configured ≡ true
  pub verified : c.verification_status ≡ "VERIFIED"
  pub production_ready : c.production_ready ≡ true
  pub green_quality : c.quality ≡ green

no_capability_reason : (c : CapabilityReport) → capability_reasons c ≡ [] → IsCapable c
unfolding capability_reasons
no_capability_reason c h = ground (arith, eq_iff c.verification_status "VERIFIED")

-- No schema drift, exhausted budget or invalid retry interval in this event's trace.
abbrev pub IsClean : CollectorTrace → Type 0
IsClean t = select is_lasting t.reasons ≡ []

All-snoc :
    (ts : List CollectorTrace) (t : CollectorTrace)
    → All IsClean ts
    → IsClean t
    → All IsClean (ts ++ t ∷ [])
All-snoc [] t h k = (k, tt)
All-snoc (x ∷ ts) t h k = (h.0, All-snoc ts t h.1 k)

process-run_reasons :
    (c : Setup) (e : CollectorEvent) (r : Run)
    → (process c e r).0.run_reasons ≡ []
    → (r.run_reasons ≡ []) × ((process c e r).0.traces ≡ r.traces)
unfolding process
process-run_reasons c e r h = ground (
  arith,
  (apply_event-IsKept c e (note_event e r)).run_reasons,
  (apply_event-IsKept c e (note_event e r)).traces,
)

-- The run has no lasting reason only if the capability is proved and every trace is clean.
abbrev Explains : Setup → Run → Type 0
Explains c r = r.run_reasons ≡ [] → IsCapable c.capability × All IsClean r.traces

step-Explains : (c : Setup) (e : CollectorEvent) (r : Run) → Explains c r → Explains c (step c e r)
unfolding step conclude
step-Explains c e r k h =
    let (clean, before) = append-nil_parts _ (process c e r).0.run_reasons h in
    let (earlier, same) = process-run_reasons c e r before in
    let (capable, traces) = k earlier in (capable, rw same (All-snoc r.traces _ traces clean))

-- What was proved by the time that a decision is permitted.
pub record IsPermitted (c : Setup) (es : List CollectorEvent) : Type 0 where
  pub live : (run c es).final.state ≡ streaming
  pub capable : IsCapable c.capability
  pub clean : All IsClean (run c es).final.traces
  pub undrifted : Undrifted c [] es
  pub gated : gate_reasons c.session_gate (last es) ≡ []
  pub reported :
      (q : FeedQualityReport) × ((run c es).final.quality_report ≡ some q)
      × (q.status ≡ green)
      × (q.freeze ≡ false)

permits_parts :
    (x : CollectorRunResult)
    → permits_decision x ≡ true
    → (x.final.state ≡ streaming)
      × (x.reasons ≡ [])
      × ((q : FeedQualityReport) × (x.final.quality_report ≡ some q)
          × (q.status ≡ green)
          × (q.freeze ≡ false))
unfolding permits_decision
permits_parts x h = elim (Option-cases x.final.quality_report) [
  | inl missing ↦ absurd (ground arith)
  | inr (q, there) ↦ (ground arith, ground arith, (q, there, ground arith, ground arith))
]

final_reasons :
    (c : Setup) (es : List CollectorEvent)
    → (run c es).reasons ≡ []
    → ((run c es).final.run_reasons ≡ []) × (gate_reasons c.session_gate (last es) ≡ [])
unfolding run
final_reasons c es h =
    let (lasting, rest) = append-nil_parts (loop c es (fresh_run c)).run_reasons _ h in
    let (state, rest') = append-nil_parts (state_reasons (loop c es (fresh_run c)).state) _ rest in
    let (gated, _) = append-nil_parts (gate_reasons c.session_gate (last es)) _ rest' in
    (lasting, gated)

start-Explains : (c : Setup) → Explains c (fresh_run c)
unfolding fresh_run
start-Explains c h = (no_capability_reason c.capability h, tt)

run_explained :
    (c : Setup) (es : List CollectorEvent)
    → (run c es).final.run_reasons ≡ []
    → IsCapable c.capability × All IsClean (run c es).final.traces
unfolding run
run_explained c es =
    loop_induction c (Explains c) (step-Explains c) es (fresh_run c) (start-Explains c)

-- A run permits a decision only when it ends streaming, with a green report that does not freeze;
-- when the provider's capability is proved in full and the session gate raised nothing at the last
-- event; when no event's trace has a schema drift, a used-up reconnection budget or an invalid retry
-- interval; and when every event is of the expected schema version and no drift event, except one
-- whose id an earlier event had or that was seen before an earlier event.
pub permits-IsPermitted :
    (c : Setup) (es : List CollectorEvent) → permits_decision (run c es) ≡ true → IsPermitted c es
permits-IsPermitted c es h =
    let (live, none_left, reported) = permits_parts (run c es) h in
    let (lasting, gated) = final_reasons c es none_left in
    let (capable, clean) = run_explained c es lasting in
    record {
      live = live;
      capable = capable;
      clean = clean;
      undrifted = run-Undrifted c es live;
      gated = gated;
      reported = reported;
    }
