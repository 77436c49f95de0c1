-- ===== src/Collector/Feed.antt =====
-- The collector with the evaluator of quotes that its constructor makes.
use marketpilot.Base.{
  text_key, List, List-cases, String, [], ap, arith, false, inl, inr, map, refl, some, subst, sym,
  true, values, ◌++◌, ◌∙◌, ◌∷◌, ◌≡◌, ◌≤◌,
}
use marketpilot.Decision.{green}
use marketpilot.Collector.Fresh.{loop-append}
use marketpilot.Quality
use marketpilot.Quality.{Decimals, QualityPolicy, evaluate_at}
use marketpilot.Quality.Clean.{IsClean, permits_exactly}
use marketpilot.Collector.Defs.{CollectorEvent, FeedQualityReport, QuoteObservation, Setup, Run}
use marketpilot.Collector.Step.{
  fresh_run, assess_quality, conclude, loop, permits_decision, run, step,
}
use marketpilot.Collector.Permits.{permits-IsPermitted}

module _ {W : Type 0} (d : Decimals W) (p : QualityPolicy W)
    (read : QuoteObservation → Quality.QuoteObservation W) (render : Quality.Reason → String) where
  -- A report, as the collector reads it: `render` gives the text of a reason.
  abbrev feed_report : Quality.FeedQualityReport → FeedQualityReport
  feed_report r = record { status = r.status; freeze = r.freeze; reasons = map render r.reasons }

  -- `QuoteQualityEvaluator(quality_policy)` of the constructor: `read` gives the quotes their numbers,
  -- their entitlement and their delay.
  unfoldable pub with_evaluator : Setup → Setup
  unfolding evaluate_at
  with_evaluator c = record c {
    evaluate = λ quotes now. feed_report (evaluate_at d p now (map read quotes));
  }

-- The report of a turn is about the quotes that are held after it.
step_report :
    (c : Setup) (e : CollectorEvent) (r : Run)
    → (step c e r).quality_report ≡ assess_quality c e (step c e r)
unfolding step conclude assess_quality
step_report c e r = refl

final_report :
    (c : Setup) (es : List CollectorEvent) (e : CollectorEvent)
    → (run c (es ++ e ∷ [])).final.quality_report ≡ assess_quality c e (run c (es ++ e ∷ [])).final
unfolding run loop
final_report c es e =
    subst (λ r. r.quality_report ≡ assess_quality c e r)
      (sym (loop-append c es (e ∷ []) (fresh_run c))) (step_report c e (loop c es (fresh_run c)))

-- The report on quotes that are there.
assessed :
    (c : Setup) (e : CollectorEvent) (r : Run) (q : FeedQualityReport)
    → assess_quality c e r ≡ some q
    → c.evaluate (values r.latest_by_source) e.first_seen_at ≡ q
unfolding assess_quality
assessed c e r q h = elim (List-cases r.latest_by_source) [
  | inl none_held ↦ cc (none_held, h)
  | inr (x, xs, held) ↦ cc (held, h)
]

green_permits :
    (r : Quality.FeedQualityReport)
    → r.status ≡ green
    → r.freeze ≡ false
    → Quality.permits_decision r ≡ true
green_permits r g f = ground (arith, g, f)

module _ {W : Type 0} (d : Decimals W) (p : QualityPolicy W)
    (read : QuoteObservation → Quality.QuoteObservation W) (render : Quality.Reason → String) where
  -- With the evaluator of its constructor, under a policy whose amber limit is at least its green one,
  -- the collector permits a decision only if the quotes that it holds at the end, one for each source,
  -- are clean at the last event: two sources where the policy asks for two, one instrument, agreement,
  -- and every quote entitled, prompt, recent in all its required fields and well formed.
  pub permitted_feed-IsClean :
      (c : Setup) (es : List CollectorEvent) (e : CollectorEvent)
      → p.green_max_age ≤ p.amber_max_age
      → permits_decision (run (with_evaluator d p read render c) (es ++ e ∷ [])) ≡ true
      → IsClean d p e.first_seen_at (
          map read
            (values (run (with_evaluator d p read render c) (es ++ e ∷ [])).final.latest_by_source))
  unfolding with_evaluator
  permitted_feed-IsClean c es e le h =
      let full = with_evaluator d p read render c in
      let final = (run full (es ++ e ∷ [])).final in
      let (q, there, is_green, thawed) = (permits-IsPermitted full (es ++ e ∷ []) h).reported in
      let same = assessed full e final q (sym (final_report full es e) ∙ there) in
      (permits_exactly d p e.first_seen_at (map read (values final.latest_by_source)) le).0 (
        green_permits (evaluate_at d p e.first_seen_at (map read (values final.latest_by_source)))
          (ap (λ r. r.status) same ∙ is_green) (ap (λ r. r.freeze) same ∙ thawed))
