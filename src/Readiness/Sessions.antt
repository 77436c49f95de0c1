-- ===== src/Readiness/Sessions.antt =====
-- What the sessions of an admitting report have shown.
use marketpilot.Base.{
  text_key, nat_key, All, Bool, Bool-cases, List, String, [], any, ap, arith, aware, contains,
  false, if◌then◌else◌, inl, inr, length, ltb, map, not, ok, refl, select, subst, sym, true, ℕ,
  ◌++◌, ◌<◌, ◌||◌, ◌∙◌, ◌∷◌, ◌≡◌, ◌≤◌,
}
use marketpilot.Domain.Snapshot.{Platform}
use marketpilot.Readiness.Evidence.{ReadinessManifest, manifest_digest}
use marketpilot.Readiness.Ledger.{ShadowLedgerEntry, ShadowSession}
use marketpilot.Readiness.Gate.{
  code_matches, ShadowEvidenceReport, ReadinessGateReport, Thresholds, distinct, evaluate_readiness,
  evaluate_shadow_evidence, is_qualifying, manifest_generated_in_future, sessions_for,
  session_time_window, code_version_mismatch, shadow_session_count, shadow_trading_date_count,
  source_degradation_drill, recovery_drill, shadow_report, when, code_version_mismatch,
  shadow_session_count, shadow_trading_date_count, source_degradation_drill,
}
use marketpilot.Readiness.Admission.{made_from, unblocked}

-- No date stands twice.
abbrev pub IsDistinct : List ℕ → Type 0
IsDistinct [] = Unit
IsDistinct (d ∷ ds) = (contains d ds ≡ false) × IsDistinct ds

distinct-IsDistinct : (ds : List ℕ) → IsDistinct (distinct ds)
unfolding distinct
distinct-IsDistinct [] = tt
distinct-IsDistinct (d ∷ ds) = elim (Bool-cases (contains d (distinct ds))) [
  | inl h ↦
      subst (λ b. IsDistinct (if b then distinct ds else d ∷ distinct ds)) (sym h)
        (distinct-IsDistinct ds)
  | inr h ↦
      subst (λ b. IsDistinct (if b then distinct ds else d ∷ distinct ds)) (sym h)
        (h, distinct-IsDistinct ds)
]

contains-distinct : (d : ℕ) (ds : List ℕ) → contains d (distinct ds) ≡ true → contains d ds ≡ true
unfolding distinct
contains-distinct d [] h = h
contains-distinct d (e ∷ ds) h =
    ground (arith, contains-distinct d ds, Bool-cases (contains e (distinct ds)), h)

-- A session of a manifest within the window that the report is about.
pub record IsInWindow (generated now : ℕ) (s : ShadowSession) : Type 0 where
  pub after : generated ≤ s.started_at
  pub before : s.ended_at ≤ now

-- What the qualifying sessions must show.
pub record IsAdmitted (t : Thresholds) (generated now : ℕ) (sessions : List ShadowSession)
    : Type 0 where
  pub generated_before : generated ≤ now
  pub within : All (IsInWindow generated now) sessions
  pub enough_sessions :
      t.minimum_sessions ≤ length (select (is_qualifying t generated now) sessions)
  pub some_sessions : 0 < length (select (is_qualifying t generated now) sessions)
  pub dates :
      (ds : List ℕ) × IsDistinct ds
      × (t.minimum_trading_dates ≤ length ds)
      × ((d : ℕ)
          → contains d ds ≡ true
          → contains d (map (λ s. s.trading_date) (select (is_qualifying t generated now) sessions))
            ≡ true)
  pub degraded :
      any (λ s. s.source_degradation_drill_passed) (select (is_qualifying t generated now) sessions)
      ≡ true
  pub recovered :
      any (λ s. s.recovery_drill_passed) (select (is_qualifying t generated now) sessions) ≡ true

when_nil : {A : Type 0} (c : Bool) (b : A) → when c b ≡ [] → c ≡ false
when_nil true b h = cc
when_nil false b h = refl

when_free :
    {A : Type 0} (c : Bool) (b : A) {xs : List A} → when c b ++ xs ≡ [] → (c ≡ false) × (xs ≡ [])
when_free true b h = cc
when_free false b h = (refl, h)

held : (b : Bool) → not b ≡ false → b ≡ true
held b h = ground (arith, h)

le_of : (n m : ℕ) → ltb n m ≡ false → m ≤ n
le_of n m h = ground (arith, h)

lt_of : (n m : ℕ) → ltb n m ≡ false → 0 < m → 0 < n
lt_of n m h p = ground (arith, h)

none_outside :
    (generated now : ℕ) (sessions : List ShadowSession)
    → ltb 0 (length (select (λ s. ltb s.started_at generated || ltb now s.ended_at) sessions))
      ≡ false
    → All (IsInWindow generated now) sessions
none_outside generated now [] h = tt
none_outside generated now (s ∷ ss) h = (
  record { after = ground (arith, h); before = ground (arith, h) },
  none_outside generated now ss (ground (arith, h)),
)

shadow_parts :
    (t : Thresholds) (digest : String) (generated now : ℕ) (entries : List ShadowLedgerEntry)
    (s : ShadowEvidenceReport)
    → evaluate_shadow_evidence t digest (aware generated) (aware now) entries ≡ ok s
    → (0 < t.minimum_sessions)
      × (shadow_report t generated now entries (sessions_for digest entries) ≡ s)
unfolding evaluate_shadow_evidence
shadow_parts t digest generated now entries s h = (ground (arith, h), ground (arith, h))

shadow_admits :
    (t : Thresholds) (generated now : ℕ) (entries : List ShadowLedgerEntry)
    (sessions : List ShadowSession)
    → 0 < t.minimum_sessions
    → generated ≤ now
    → (shadow_report t generated now entries sessions).blockers ≡ []
    → IsAdmitted t generated now sessions
unfolding shadow_report
shadow_admits t generated now entries sessions pos future h =
    let q = select (is_qualifying t generated now) sessions in
    let ds = distinct (map (λ s. s.trading_date) q) in
    let (a, h1) =
      when_free
        (ltb 0 (length (select (λ s. ltb s.started_at generated || ltb now s.ended_at) sessions)))
        session_time_window h in
    let (_, h2) =
      when_free
        (ltb 0 (length (select (λ s. not (code_matches t.expected_code_version s)) sessions)))
        code_version_mismatch h1 in
    let (c, h3) = when_free (ltb (length q) t.minimum_sessions) shadow_session_count h2 in
    let (d, h4) =
      when_free (ltb (length ds) t.minimum_trading_dates) shadow_trading_date_count h3 in
    let (e, h5) =
      when_free (not (any (λ s. s.source_degradation_drill_passed) q)) source_degradation_drill
        h4 in
    let f = when_nil (not (any (λ s. s.recovery_drill_passed) q)) recovery_drill h5 in
    record {
      generated_before = future;
      within = none_outside generated now sessions a;
      enough_sessions = le_of (length q) t.minimum_sessions c;
      some_sessions = lt_of (length q) t.minimum_sessions c pos;
      dates = (
        ds,
        distinct-IsDistinct (map (λ s. s.trading_date) q),
        le_of (length ds) t.minimum_trading_dates d,
        λ k. contains-distinct k (map (λ s. s.trading_date) q),
      );
      degraded = held (any (λ s. s.source_degradation_drill_passed) q) e;
      recovered = held (any (λ s. s.recovery_drill_passed) q) f;
    }

-- A report that admits the shadow sessions was evaluated no earlier than its manifest, every session
-- recorded under the manifest lies between the manifest and the evaluation, at least the minimum of
-- sessions and one of them qualify, on at least the minimum of pairwise distinct trading dates, and
-- both drills were passed in a qualifying session.
pub admission_needs_sessions :
    (py : Platform) (t : Thresholds) (m : ReadinessManifest) (entries : List ShadowLedgerEntry)
    (now : ℕ) (report : ReadinessGateReport)
    → evaluate_readiness py t m entries (aware now) ≡ ok report
    → report.shadow_admission_ready ≡ true
    → IsAdmitted t m.generated_at now (sessions_for (manifest_digest py m) entries)
admission_needs_sessions py t m entries now report h ready =
    let (s, made, same) = made_from py t m entries now report h in
    let (future, _, free) =
      unblocked py m now s (ap (λ z. z.shadow_admission_ready) same ∙ ready) in
    let (pos, is_s) = shadow_parts t (manifest_digest py m) m.generated_at now entries s made in
    shadow_admits t m.generated_at now entries _ pos
      (ground (arith, when_nil _ manifest_generated_in_future future))
      (ap (λ z. z.blockers) is_s ∙ free)
