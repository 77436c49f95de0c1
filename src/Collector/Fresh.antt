-- ===== src/Collector/Fresh.antt =====
-- A collector that says STREAMING has a fresh observation; reconnections stay within their budget;
-- the watermark never falls.
use marketpilot.Base.{
  text_key, List, Option, Option-cases, [], ap, arith, eq_iff, inl, inr, none, refl, some, subst,
  sym, ℕ, ◌++◌, ◌+◌, ◌∙◌, ◌∷◌, ◌≡◌, ◌≤◌, ◌⊎◌,
}
use mathlib.Core.List.{append_assoc, append-nil}
use marketpilot.Collector.Defs.{
  CollectorEvent, Reason, Setup, Run, streaming, halted, QuoteObservation, quote,
}
use marketpilot.Collector.Step.{process, conclude, step, loop, loop_induction, fresh_run, run}

conclude-streaming :
    (c : Setup) (e : CollectorEvent) (r : Run) (xs : List Reason)
    → (conclude c e (r, xs)).state ≡ streaming
    → (t : ℕ) × ((conclude c e (r, xs)).last_observation_at ≡ some t)
      × (e.first_seen_at ≤ t + c.policy.freshness_limit)
unfolding conclude
conclude-streaming c e r xs h = elim (Option-cases r.last_observation_at) [
  | inl unseen ↦ absurd (ground arith)
  | inr (t, there) ↦ (t, ground arith, ground arith)
]

pub loop-append :
    (c : Setup) (es fs : List CollectorEvent) (r : Run)
    → loop c (es ++ fs) r ≡ loop c fs (loop c es r)
unfolding loop
loop-append c [] fs r = refl
loop-append c (e ∷ es) fs r = loop-append c es fs (step c e r)

-- Among the events there is a quote of the expected instrument, seen at the instant, and at it the
-- number of accepted quotes went up by one.
pub record IsObserved (c : Setup) (es : List CollectorEvent) (t : ℕ) : Type 0 where
  pub before : List CollectorEvent
  pub event : CollectorEvent
  pub after : List CollectorEvent
  pub observation : QuoteObservation
  pub among : before ++ event ∷ after ≡ es
  pub is_quote : event.kind ≡ quote
  pub seen : event.first_seen_at ≡ t
  pub holds : event.observation ≡ some observation
  pub expected : observation.instrument_id ≡ c.expected_instrument_id
  pub counted :
      (run c (before ++ event ∷ [])).final.accepted_quotes
      ≡ (run c before).final.accepted_quotes + 1

-- The instant of the last observation is unset, kept, or set by a quote that is accepted.
Observes : Setup → CollectorEvent → Run → Run → Type 0
Observes c e r s =
    (s.last_observation_at ≡ none)
    ⊎ ((s.last_observation_at ≡ r.last_observation_at)
        ⊎ ((s.last_observation_at ≡ some e.first_seen_at)
            × (e.kind ≡ quote)
            × (s.accepted_quotes ≡ r.accepted_quotes + 1)
            × (o : QuoteObservation) × (e.observation ≡ some o)
            × (o.instrument_id ≡ c.expected_instrument_id)))

process-Observes : (c : Setup) (e : CollectorEvent) (r : Run) → Observes c e r (process c e r).0
unfolding process Observes
process-Observes c e r = elim (Option-cases e.observation) [
  | inl missing ↦ ground (arith, missing)
  | inr (o, there) ↦ ground (arith, there, eq_iff o.instrument_id c.expected_instrument_id)
]

-- The last observation of a run is one of its events.
Remembers : Setup → List CollectorEvent → Run → Type 0
Remembers c es r =
    (r.last_observation_at ≡ none)
    ⊎ ((t : ℕ) × (r.last_observation_at ≡ some t) × IsObserved c es t)

none≢some : (t : ℕ) → none ≡ some t → ⊥
none≢some t h = ground (arith, h)

some-inj : (t u : ℕ) → some t ≡ some u → t ≡ u
some-inj t u h = cc h

IsObserved-snoc :
    (c : Setup) (es : List CollectorEvent) (e : CollectorEvent) (t : ℕ)
    → IsObserved c es t
    → IsObserved c (es ++ e ∷ []) t
IsObserved-snoc c es e t h = record {
  before = h.before;
  event = h.event;
  after = h.after ++ e ∷ [];
  observation = h.observation;
  among = sym (append_assoc h.before (h.event ∷ h.after) (e ∷ [])) ∙ ap (λ l. l ++ e ∷ []) h.among;
  is_quote = h.is_quote;
  seen = h.seen;
  holds = h.holds;
  expected = h.expected;
  counted = h.counted;
}

run-snoc :
    (c : Setup) (es : List CollectorEvent) (e : CollectorEvent)
    → (run c (es ++ e ∷ [])).final ≡ step c e (run c es).final
unfolding run loop
run-snoc c es e = loop-append c es (e ∷ []) (fresh_run c)

run-Remembers_snoc :
    (c : Setup) (es : List CollectorEvent) (e : CollectorEvent)
    → Remembers c es (run c es).final
    → Remembers c (es ++ e ∷ []) (process c e (run c es).final).0
unfolding Remembers Observes
run-Remembers_snoc c es e h = elim (process-Observes c e (run c es).final) [
  | inl unset ↦ inl unset
  | inr (inl kept) ↦ elim h [
    | inl unset ↦ inl (kept ∙ unset)
    | inr (t, there, o) ↦ inr (t, kept ∙ there, IsObserved-snoc c es e t o)
  ]
  | inr (inr (set_, is_quote, up, o, there, same)) ↦ inr (
    e.first_seen_at,
    set_,
    record {
      before = es;
      event = e;
      after = [];
      observation = o;
      among = refl;
      is_quote = is_quote;
      seen = refl;
      holds = there;
      expected = same;
      counted =
          ap (λ (x : Run). x.accepted_quotes) (run-snoc c es e) ∙ (unfold step conclude in up);
    },
  )
]

run-Remembers_after :
    (c : Setup) (before es : List CollectorEvent)
    → Remembers c before (run c before).final
    → Remembers c (before ++ es) (run c (before ++ es)).final
run-Remembers_after c before [] h =
    subst (λ l. Remembers c l (run c l).final) (sym (append-nil before)) h
run-Remembers_after c before (e ∷ es) h =
    let next : Remembers c (before ++ e ∷ []) (run c (before ++ e ∷ [])).final =
      subst (Remembers c (before ++ e ∷ [])) (sym (run-snoc c before e))
        (unfold Remembers step conclude in run-Remembers_snoc c before e h) in
    subst (λ l. Remembers c l (run c l).final) (append_assoc before (e ∷ []) es)
      (run-Remembers_after c (before ++ e ∷ []) es next)

-- When a run ends in STREAMING, one of its events is a quote of the expected instrument that was
-- accepted, the number of accepted quotes going up by one at it, and that was seen at most the
-- freshness limit before the last event was: a connection alone, or stale quotes, never leave the
-- collector in that state.
pub streaming_is_fresh :
    (c : Setup) (es : List CollectorEvent) (e : CollectorEvent)
    → (run c (es ++ e ∷ [])).final.state ≡ streaming
    → (t : ℕ) × IsObserved c (es ++ e ∷ []) t × (e.first_seen_at ≤ t + c.policy.freshness_limit)
unfolding Remembers
streaming_is_fresh c es e h =
    let r = (run c es).final in
    let (t, there, fresh) =
      conclude-streaming c e (process c e r).0 (process c e r).1
        (unfold step in ap (λ (x : Run). x.state) (sym (run-snoc c es e)) ∙ h) in
    let known = run-Remembers_after c [] (es ++ e ∷ []) (unfold run loop fresh_run in inl refl) in
    let last : (run c (es ++ e ∷ [])).final.last_observation_at ≡ some t =
      ap (λ (x : Run). x.last_observation_at) (run-snoc c es e) ∙ (unfold step in there) in
    elim known [
      | inl unset ↦ absurd (none≢some t (sym unset ∙ last))
      | inr (u, at_u, o) ↦
          (t, subst (IsObserved c (es ++ e ∷ [])) (some-inj u t (sym at_u ∙ last)) o, fresh)
    ]

-- The reconnection budget is kept unless the collector is halted.
abbrev pub IsWithinBudget : Setup → Run → Type 0
IsWithinBudget c r = (r.state ≡ halted) ⊎ (r.attempts ≤ c.policy.max_reconnect_attempts)

process-IsWithinBudget :
    (c : Setup) (e : CollectorEvent) (r : Run)
    → IsWithinBudget c r
    → IsWithinBudget c (process c e r).0
unfolding process
process-IsWithinBudget c e r h = ground arith

conclude-IsWithinBudget :
    (c : Setup) (e : CollectorEvent) (r : Run) (xs : List Reason)
    → IsWithinBudget c r
    → IsWithinBudget c (conclude c e (r, xs))
unfolding conclude
conclude-IsWithinBudget c e r xs h = ground arith

-- After any events the attempts since the last connection are within the policy's budget, or the
-- collector is halted.
pub run-IsWithinBudget : (c : Setup) (es : List CollectorEvent) → IsWithinBudget c (run c es).final
unfolding run
run-IsWithinBudget c es =
    loop_induction c (IsWithinBudget c)
      (λ e s k.
        unfold step in
        conclude-IsWithinBudget c e (process c e s).0 (process c e s).1
          (process-IsWithinBudget c e s k))
      es (fresh_run c) (unfold fresh_run in inr (omega arith))

-- A watermark that is not lost and does not fall.
abbrev pub Reaches : Option ℕ → Option ℕ → Type 0
Reaches none _ = Unit
Reaches (some w) none = ⊥
Reaches (some w) (some v) = w ≤ v

process-Reaches :
    (c : Setup) (e : CollectorEvent) (r : Run) → Reaches r.watermark (process c e r).0.watermark
unfolding process
process-Reaches c e r = elim (Option-cases r.watermark) [
  | inl unset ↦ rw unset tt
  | inr (w, there) ↦ ground arith
]

Reaches-trans : (a b d : Option ℕ) → Reaches a b → Reaches b d → Reaches a d
Reaches-trans none b d h k = tt
Reaches-trans (some w) none d h k = absurd h
Reaches-trans (some w) (some v) none h k = absurd k
Reaches-trans (some w) (some v) (some u) h k = omega arith

Reaches-refl : (a : Option ℕ) → Reaches a a
Reaches-refl none = tt
Reaches-refl (some w) = omega arith

-- More events never lower or unset the watermark.
watermark_rises :
    (c : Setup) (es fs : List CollectorEvent)
    → Reaches (run c es).final.watermark (run c (es ++ fs)).final.watermark
unfolding run
watermark_rises c es fs = rw (loop-append c es fs (fresh_run c)) (
    loop_induction c (λ s. Reaches (loop c es (fresh_run c)).watermark s.watermark)
      (λ e s k.
        unfold step conclude in
        Reaches-trans (loop c es (fresh_run c)).watermark s.watermark (process c e s).0.watermark k
          (process-Reaches c e s))
      fs (loop c es (fresh_run c)) (Reaches-refl (loop c es (fresh_run c)).watermark))
