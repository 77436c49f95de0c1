-- ===== src/Collector/Drift.antt =====
-- Schema drift: which events a run that is live at its end may have stepped over.
use marketpilot.Base.{
  text_key, All, Bool-cases, List, Option, Option-cases, String, [], arith, contains, eq_iff, false,
  if◌then◌else◌, inl, inr, ltb, none, refl, some, subst, sym, true, ℕ, ◌<◌, ◌==◌, ◌∙◌, ◌∷◌, ◌≡◌,
  ◌≢◌, ◌⊎◌,
}
use marketpilot.Collector.Defs.{
  later, CollectorEventKind, schema_drift, halted, CollectorEvent, Setup, Run, streaming,
}
use marketpilot.Collector.Halted.{halted_stays, conclude-halted, apply_event-IsKept}
use marketpilot.Collector.Step.{
  early_reasons, fresh_run, note_event, process, conclude, step, loop, run,
}

-- An event with this id came earlier.
abbrev pub HasId : String → List CollectorEvent → Type 0
HasId id [] = ⊥
HasId id (f ∷ fs) = (f.event_id ≡ id) ⊎ HasId id fs

-- An event came earlier that was seen later.
abbrev pub HasLater : ℕ → List CollectorEvent → Type 0
HasLater t [] = ⊥
HasLater t (f ∷ fs) = (t < f.first_seen_at) ⊎ HasLater t fs

-- Of the events, with those before them at hand, each is of the expected schema and no drift event,
-- or has the id of an earlier event, or was seen before an earlier event.
abbrev pub Undrifted : Setup → List CollectorEvent → List CollectorEvent → Type 0
Undrifted c earlier [] = Unit
Undrifted c earlier (e ∷ es) =
    ((HasId e.event_id earlier ⊎ HasLater e.first_seen_at earlier)
      ⊎ ((e.schema_version ≡ c.expected_schema_version) × (e.kind ≢ schema_drift)))
    × Undrifted c (e ∷ earlier) es

-- What the run's variables know of the events before.
Tracks : List CollectorEvent → Run → Type 0
Tracks earlier r =
    All (λ id. HasId id earlier) r.seen_events × (elim r.previous_first_seen_at as (λ _. Type 0) [
      | none ↦ Unit
      | some p ↦ (t : ℕ) → t < p → HasLater t earlier
    ])

weaken_ids :
    (e : CollectorEvent) (earlier : List CollectorEvent) (ids : List String)
    → All (λ id. HasId id earlier) ids
    → All (λ id. HasId id (e ∷ earlier)) ids
weaken_ids e earlier [] h = tt
weaken_ids e earlier (x ∷ xs) (hx, h) = (inr hx, weaken_ids e earlier xs h)

contains-HasId :
    (id : String) (earlier : List CollectorEvent) (ids : List String)
    → All (λ k. HasId k earlier) ids
    → contains id ids ≡ true
    → HasId id earlier
contains-HasId id earlier [] h k = absurd (ground (arith, k))
contains-HasId id earlier (x ∷ xs) (hx, h) k = elim (Bool-cases (x == id)) [
  | inl same ↦ subst (λ y. HasId y earlier) ((eq_iff x id).0 same) hx
  | inr other ↦ contains-HasId id earlier xs h (ground (arith, k, other, eq_iff x id, eq_iff id x))
]

later-HasLater :
    (e : CollectorEvent) (earlier : List CollectorEvent) (o : Option ℕ)
    → (elim o as (λ _. Type 0) [ none ↦ Unit | some p ↦ (t : ℕ) → t < p → HasLater t earlier ])
    → (t : ℕ) → t < later o e.first_seen_at
    → HasLater t (e ∷ earlier)
later-HasLater e earlier none h t k = inl k
later-HasLater e earlier (some p) h t k = elim (Bool-cases (ltb t p)) [
  | inl before ↦ inr (h t (ground (arith, before)))
  | inr after ↦ inl (ground (arith, k, after))
]

process-keeps :
    (c : Setup) (e : CollectorEvent) (r : Run)
    → ((process c e r).0.seen_events ≡ (note_event e r).seen_events)
      × ((process c e r).0.previous_first_seen_at ≡ (note_event e r).previous_first_seen_at)
unfolding process
process-keeps c e r = (
  ground (arith, (apply_event-IsKept c e (note_event e r)).seen_events),
  ground (arith, (apply_event-IsKept c e (note_event e r)).previous_first_seen_at),
)

halted≢streaming : halted ≡ streaming → ⊥
halted≢streaming h = ground (arith, h)

note_event-Tracks :
    (e : CollectorEvent) (earlier : List CollectorEvent) (r : Run)
    → Tracks earlier r
    → Tracks (e ∷ earlier) (note_event e r)
unfolding Tracks note_event
note_event-Tracks e earlier r (ids, times) = (
  elim (contains e.event_id r.seen_events)
      as (λ b.
        All (λ id. HasId id (e ∷ earlier))
          (if b then r.seen_events else e.event_id ∷ r.seen_events)) [
            | true ↦ weaken_ids e earlier r.seen_events ids
            | false ↦ (inl refl, weaken_ids e earlier r.seen_events ids)
          ],
  later-HasLater e earlier r.previous_first_seen_at times,
)

step-Tracks :
    (c : Setup) (e : CollectorEvent) (earlier : List CollectorEvent) (r : Run)
    → Tracks earlier r
    → Tracks (e ∷ earlier) (step c e r)
unfolding Tracks step conclude
step-Tracks c e earlier r h =
    let (ids, times) = note_event-Tracks e earlier r h in
    let (same_ids, same_time) = process-keeps c e r in (rw same_ids ids, rw same_time times)

early_cases :
    (e : CollectorEvent) (r : Run)
    → (early_reasons e r ≡ [])
      ⊎ ((contains e.event_id r.seen_events ≡ true)
          ⊎ ((p : ℕ) × (r.previous_first_seen_at ≡ some p) × (e.first_seen_at < p)))
early_cases e r = elim (Option-cases r.previous_first_seen_at) [
  | inl first_one ↦ ground (arith, first_one)
  | inr (p, there) ↦ elim (Bool-cases (ltb e.first_seen_at p)) [
    | inl back ↦ inr (inr (p, there, ground (arith, back)))
    | inr on ↦ ground (arith, there, on)
  ]
]

refused_is_explained :
    (e : CollectorEvent) (earlier : List CollectorEvent) (r : Run)
    → Tracks earlier r
    → (contains e.event_id r.seen_events ≡ true)
      ⊎ ((p : ℕ) × (r.previous_first_seen_at ≡ some p) × (e.first_seen_at < p))
    → HasId e.event_id earlier ⊎ HasLater e.first_seen_at earlier
unfolding Tracks
refused_is_explained e earlier r (ids, times) (inl copy) =
    inl (contains-HasId e.event_id earlier r.seen_events ids copy)
refused_is_explained e earlier r (ids, times) (inr (p, there, back)) = inr (
    subst
      (λ (o : Option ℕ). elim o as (λ _. Type 0) [
        | none ↦ Unit
        | some q ↦ (t : ℕ) → t < q → HasLater t earlier
      ])
      there times e.first_seen_at back)

drift_halts :
    (c : Setup) (e : CollectorEvent) (r : Run)
    → early_reasons e r ≡ []
    → ((e.schema_version == c.expected_schema_version) ≡ false) ⊎ (e.kind ≡ schema_drift)
    → (process c e r).0.state ≡ halted
unfolding process
drift_halts c e r h d = ground (arith, h, d)

kind_cases : (k : CollectorEventKind) → (k ≡ schema_drift) ⊎ (k ≢ schema_drift)
kind_cases k = ground arith

-- A run that is live at its end has stepped over no drift.
loop-Undrifted :
    (c : Setup) (earlier es : List CollectorEvent) (r : Run)
    → Tracks earlier r
    → (loop c es r).state ≡ streaming
    → Undrifted c earlier es
unfolding loop
loop-Undrifted c earlier [] r known live = tt
loop-Undrifted c earlier (e ∷ es) r known live =
    let stopped_here : (process c e r).0.state ≡ halted → ⊥ = λ h. halted≢streaming (
      sym (
        halted_stays c es (step c e r)
          (unfold step in conclude-halted c e (process c e r).0 (process c e r).1 h))
      ∙ live) in
    let rest =
      loop-Undrifted c (e ∷ earlier) es (step c e r) (step-Tracks c e earlier r known) live in
    elim (early_cases e r) [
      | inr refused ↦ (inl (refused_is_explained e earlier r known refused), rest)
      | inl passed ↦ elim (Bool-cases (e.schema_version == c.expected_schema_version)) [
        | inr wrong ↦ absurd (stopped_here (drift_halts c e r passed (inl wrong)))
        | inl right ↦ elim (kind_cases e.kind) [
          | inl drifts ↦ absurd (stopped_here (drift_halts c e r passed (inr drifts)))
          | inr fine ↦
              (inr ((eq_iff e.schema_version c.expected_schema_version).0 right, fine), rest)
        ]
      ]
    ]

-- A run that ends streaming has stepped over no drift.
pub run-Undrifted :
    (c : Setup) (es : List CollectorEvent) → (run c es).final.state ≡ streaming → Undrifted c [] es
unfolding run
run-Undrifted c es live =
    loop-Undrifted c [] es (fresh_run c) (unfold Tracks fresh_run in (tt, tt)) live
