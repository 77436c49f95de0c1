-- ===== src/RiskLock/State.antt =====
-- What each state of the lock says of the evidence.
use marketpilot.Base.{
  text_key, List, List-cases, Option, Option-cases, [], arith, aware, false, inl, inr, none, ok,
  refl, some, true, ℕ, ◌+◌, ◌<◌, ◌↔◌, ◌∷◌, ◌≡◌, ◌≤◌,
}
use native.Mathlib.Nat.{le_trans}
use native.Mathlib.Decide.{dec_lt}
use marketpilot.RiskLock.{
  EventRecord, RiskLockPolicy, RiskLockAssessment, locked, stabilizing, cleared, Reason,
  lock_reasons, stability_reasons, stable_until, assessment, assess_at, assess, missing_at,
}

-- The event is confirmed and corroborated, by other assets too, and nothing contradicts it.
pub record IsEvidenced (p : RiskLockPolicy) (e : EventRecord ℕ) (now : ℕ) : Type 0 where
  pub uncontradicted : e.contradictory_evidence ≡ false
  pub confirmed : (t : ℕ) × (e.confirmed_at ≡ some t) × (t ≤ now)
  pub corroborated : p.minimum_corroborating_sources ≤ e.corroborating_sources
  pub cross_asset : e.cross_asset_confirmed ≡ true
  pub cross_confirmed : (t : ℕ) × (e.cross_asset_confirmed_at ≡ some t) × (t ≤ now)

-- The market has been stable for the window, over enough observations.
pub record IsStable (p : RiskLockPolicy) (e : EventRecord ℕ) (now : ℕ) : Type 0 where
  pub waited : (t : ℕ) × (e.stable_since ≡ some t) × (t + p.stability_window ≤ now)
  pub observed : p.minimum_stable_observations ≤ e.stable_observations

there_at : (now : ℕ) (o : Option ℕ) → missing_at now o ≡ false → (t : ℕ) × (o ≡ some t) × (t ≤ now)
there_at now none h = absurd (ground arith)
there_at now (some t) h = (t, refl, ground arith)

there_at_back :
    (now : ℕ) (o : Option ℕ) → (t : ℕ) × (o ≡ some t) × (t ≤ now) → missing_at now o ≡ false
there_at_back now o (t, e, h) = rw e (ground arith)

module _ (p : RiskLockPolicy) (e : EventRecord ℕ) (now : ℕ) where
  no_lock : lock_reasons p e now ≡ [] → IsEvidenced p e now
  unfolding lock_reasons
  no_lock h = record {
    uncontradicted = ground arith;
    confirmed = there_at now e.confirmed_at (ground arith);
    corroborated = ground arith;
    cross_asset = ground arith;
    cross_confirmed = there_at now e.cross_asset_confirmed_at (ground arith);
  }

  no_lock_back : IsEvidenced p e now → lock_reasons p e now ≡ []
  unfolding lock_reasons
  no_lock_back h = ground (
    arith,
    there_at_back now e.confirmed_at h.confirmed,
    there_at_back now e.cross_asset_confirmed_at h.cross_confirmed,
  )

  steady : stability_reasons p e now ≡ [] → IsStable p e now
  unfolding stability_reasons
  steady h = elim (Option-cases e.stable_since) [
    | inl unset ↦ absurd (ground arith)
    | inr (t, there) ↦ record { waited = (t, there, ground arith); observed = ground arith }
  ]

  steady_back : IsStable p e now → stability_reasons p e now ≡ []
  unfolding stability_reasons
  steady_back h = let (t, there, waited) = h.waited in ground (arith, h.observed)

module _ (p : RiskLockPolicy) (e : EventRecord ℕ) (now : ℕ) where
  when_locked :
      (r : Reason) (rs : List Reason)
      → lock_reasons p e now ≡ r ∷ rs
      → ((assess_at p e now).state ≡ locked) × (¬ IsEvidenced p e now)
  unfolding assess_at assessment
  when_locked r rs h = (ground arith, λ k. cc (h, no_lock_back p e now k))

  when_stabilizing :
      (r : Reason) (rs : List Reason)
      → lock_reasons p e now ≡ []
      → stability_reasons p e now ≡ r ∷ rs
      → ((assess_at p e now).state ≡ stabilizing)
        × ((assess_at p e now).rerun_at ≡ stable_until p e.stable_since)
        × (¬ IsStable p e now)
  unfolding assess_at assessment
  when_stabilizing r rs h k = (ground arith, ground arith, λ m. cc (k, steady_back p e now m))

  when_cleared :
      lock_reasons p e now ≡ []
      → stability_reasons p e now ≡ []
      → (assess_at p e now).state ≡ cleared
  unfolding assess_at assessment
  when_cleared h k = ground arith

-- What the state says, at an instant.
pub record IsExact (p : RiskLockPolicy) (e : EventRecord ℕ) (now : ℕ) (a : RiskLockAssessment)
    : Type 0 where
  pub if_locked : (a.state ≡ locked) ↔ (¬ IsEvidenced p e now)
  pub if_stabilizing : (a.state ≡ stabilizing) ↔ (IsEvidenced p e now × (¬ IsStable p e now))
  pub if_cleared : (a.state ≡ cleared) ↔ (IsEvidenced p e now × IsStable p e now)

assess_at-IsExact :
    (p : RiskLockPolicy) (e : EventRecord ℕ) (now : ℕ) → IsExact p e now (assess_at p e now)
assess_at-IsExact p e now = elim (List-cases (lock_reasons p e now)) [
  | inr (r, rs, h) ↦
      let (s, n) = when_locked p e now r rs h in
      record {
        if_locked = (λ _. n, λ _. s);
        if_stabilizing = (λ k. cc (s, k), λ k. absurd (n k.0));
        if_cleared = (λ k. cc (s, k), λ k. absurd (n k.0));
      }
  | inl h ↦
      let evidence = no_lock p e now h in
      elim (List-cases (stability_reasons p e now)) [
        | inr (r, rs, k) ↦
            let (s, _, n) = when_stabilizing p e now r rs h k in
            record {
              if_locked = (λ m. cc (s, m), λ m. absurd (m evidence));
              if_stabilizing = (λ _. (evidence, n), λ _. s);
              if_cleared = (λ m. cc (s, m), λ m. absurd (n m.1));
            }
        | inl k ↦
            let s = when_cleared p e now h k in
            record {
              if_locked = (λ m. cc (s, m), λ m. absurd (m evidence));
              if_stabilizing = (λ m. cc (s, m), λ m. absurd (m.1 (steady p e now k)));
              if_cleared = (λ _. (evidence, steady p e now k), λ _. s);
            }
      ]
]

-- From the instant at which the event was first seen, `assess` returns, and its state is exact:
-- locked unless the event is confirmed, corroborated, uncontradicted and confirmed across assets by
-- then; then stabilizing until it has been stable for the window over enough observations; then
-- cleared.
pub assess-IsExact :
    (p : RiskLockPolicy) (e : EventRecord ℕ) (now : ℕ)
    → e.first_seen_at ≤ now
    → (a : RiskLockAssessment) × (assess p e (aware now) ≡ ok a) × IsExact p e now a
unfolding assess
assess-IsExact p e now seen = (assess_at p e now, ground arith, assess_at-IsExact p e now)

IsEvidenced-later :
    (p : RiskLockPolicy) (e : EventRecord ℕ) (now later : ℕ)
    → now ≤ later
    → IsEvidenced p e now
    → IsEvidenced p e later
IsEvidenced-later p e now later le h =
    let (t, there, by) = h.confirmed in
    let (u, there', by') = h.cross_confirmed in
    record {
      uncontradicted = h.uncontradicted;
      confirmed = (t, there, omega arith);
      corroborated = h.corroborated;
      cross_asset = h.cross_asset;
      cross_confirmed = (u, there', omega arith);
    }

IsStable-later :
    (p : RiskLockPolicy) (e : EventRecord ℕ) (now later : ℕ)
    → now ≤ later
    → IsStable p e now
    → IsStable p e later
IsStable-later p e now later le h =
    let (t, there, by) = h.waited in
    record { waited = (t, there, omega arith); observed = h.observed }

assess_ok :
    (p : RiskLockPolicy) (e : EventRecord ℕ) (now : ℕ) (a : RiskLockAssessment)
    → assess p e (aware now) ≡ ok a
    → a ≡ assess_at p e now
unfolding assess
assess_ok p e now a h = ground arith

-- The lock does not come back by itself: on the same facts, an event that is cleared at an instant is
-- cleared at every later one.
stays_cleared :
    (p : RiskLockPolicy) (e : EventRecord ℕ) (now later : ℕ) (a b : RiskLockAssessment)
    → now ≤ later
    → assess p e (aware now) ≡ ok a
    → assess p e (aware later) ≡ ok b
    → a.state ≡ cleared
    → b.state ≡ cleared
stays_cleared p e now later a b le ha hb h =
    let same = assess_ok p e now a ha in
    let same' = assess_ok p e later b hb in
    let (evidence, steady_now) = (assess_at-IsExact p e now).if_cleared.0 (rw same at h) in
    rw same' (
      (assess_at-IsExact p e later).if_cleared.1
        (IsEvidenced-later p e now later le evidence, IsStable-later p e now later le steady_now))

assess_visible :
    (p : RiskLockPolicy) (e : EventRecord ℕ) (now : ℕ) (a : RiskLockAssessment)
    → assess p e (aware now) ≡ ok a
    → e.first_seen_at ≤ now
unfolding assess
assess_visible p e now a h = ground arith

rerun_source :
    (p : RiskLockPolicy) (e : EventRecord ℕ) (now r : ℕ)
    → (assess_at p e now).rerun_at ≡ some r
    → (t : ℕ) × (e.stable_since ≡ some t) × (r ≡ t + p.stability_window)
unfolding assess_at assessment
rerun_source p e now r h = elim (Option-cases e.stable_since) [
  | inl unset ↦ absurd (ground arith)
  | inr (t, there) ↦ (t, there, ground arith)
]

later_than :
    (p : RiskLockPolicy) (e : EventRecord ℕ) (now r t : ℕ)
    → e.stable_since ≡ some t
    → r ≡ t + p.stability_window
    → p.minimum_stable_observations ≤ e.stable_observations
    → ¬ IsStable p e now
    → now < r
later_than p e now r t there sum enough unsteady = elim (dec_lt now r) [
  | yes h ↦ h
  | no h ↦ absurd (unsteady (record { waited = (t, there, omega arith); observed = enough }))
]

-- `rerun_at` is the right instant: when an assessment is stabilizing, the observations are enough
-- and it names an instant to run again, that instant is still to come, and the assessment at it is
-- cleared.
pub rerun_clears :
    (p : RiskLockPolicy) (e : EventRecord ℕ) (now r : ℕ) (a : RiskLockAssessment)
    → assess p e (aware now) ≡ ok a
    → a.state ≡ stabilizing
    → a.rerun_at ≡ some r
    → p.minimum_stable_observations ≤ e.stable_observations
    → (now < r) × ((b : RiskLockAssessment) × (assess p e (aware r) ≡ ok b) × (b.state ≡ cleared))
rerun_clears p e now r a ha h again enough =
    let same = assess_ok p e now a ha in
    let (evidence, unsteady) = (assess_at-IsExact p e now).if_stabilizing.0 (rw same at h) in
    let (t, there, sum) = rerun_source p e now r (rw same at again) in
    let ahead : now < r = later_than p e now r t there sum enough unsteady in
    let (b, runs, exact) =
      assess-IsExact p e r (le_trans (assess_visible p e now a ha) (omega arith)) in
    (
      ahead,
      (
        b,
        runs,
        exact.if_cleared.1 (
          IsEvidenced-later p e now r (omega arith) evidence,
          record { waited = (t, there, omega arith); observed = enough },
        ),
      ),
    )
