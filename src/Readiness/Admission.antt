-- ===== src/Readiness/Admission.antt =====
-- What a report that admits has shown.
use marketpilot.Base.{
  text_key, All, Bool-cases, Dict, List, Option, Option-cases, Result-cases, [], ap,
  append-nil_parts, arith, aware, get, inl, inr, length, ltb, map, nat_eq, none, ok, put, put-cases,
  refl, some, subst, sym, true, ℕ, ◌<◌, ◌∙◌, ◌∷◌, ◌≡◌, ◌⊎◌,
}
use marketpilot.Domain.Snapshot.{Platform}
use marketpilot.Readiness.Evidence.{
  EvidenceRequirement, ReadinessEvidence, ReadinessManifest, allows, check_evidence, verified,
  manifest_digest, requirement_key, required_external_evidence, EvidenceStatus,
  webull_account_entitlement, licensed_market_data_coverage, point_in_time_timestamp_semantics,
  expired_spxw_nbbo_history, live_event_source_coverage, production_security_and_recovery,
  untouched_holdout_approval, is_verified, is_verified, EvidenceStatus,
}
use marketpilot.Readiness.Ledger.{ShadowLedgerEntry}
use marketpilot.Readiness.Gate.{
  manifest_generated_in_future, when, gate_report, gate_blockers, ShadowEvidenceReport, shadow,
  Thresholds, ReadinessGateReport, by_requirement, evaluate_readiness, evaluate_shadow_evidence,
  evidence_blockers, requirement_blockers,
}

-- Verified evidence that is still valid at an instant.
pub record IsProof (r : EvidenceRequirement) (now : ℕ) (e : ReadinessEvidence) : Type 0 where
  pub about : e.requirement ≡ r
  pub is_verified : e.status ≡ verified
  pub allowed : allows r e.authority ≡ true
  pub confirmed : e.redactions_confirmed ≡ true
  pub expires : (t : ℕ) × (e.expires_at ≡ some t) × (now < t)

-- The evidence stands in a list.
abbrev pub IsAmong : ReadinessEvidence → List ReadinessEvidence → Type 0
IsAmong e [] = ⊥
IsAmong e (x ∷ xs) = (x ≡ e) ⊎ IsAmong e xs

-- What the map of evidence holds is one of the pieces it was made from, of the requirement.
by_requirement-get :
    (es : List ReadinessEvidence) (d : Dict EvidenceRequirement ReadinessEvidence)
    (r : EvidenceRequirement) (e : ReadinessEvidence)
    → get (by_requirement es d) r ≡ some e
    → (IsAmong e es × (e.requirement ≡ r)) ⊎ (get d r ≡ some e)
unfolding by_requirement
by_requirement-get [] d r e g = inr g
by_requirement-get (x ∷ es) d r e g = elim (by_requirement-get es (put d x.requirement x) r e g) [
  | inl (there, about) ↦ inl (inr there, about)
  | inr q ↦ elim (put-cases d x.requirement r x e q) [
    | inl (key, same) ↦ inl (inl same, ap (λ y. y.requirement) (sym same) ∙ key)
    | inr old ↦ inr old
  ]
]

nothing_filed : (r : EvidenceRequirement) (e : ReadinessEvidence) → get [] r ≡ some e → ⊥
unfolding get
nothing_filed r e h = ground (arith, h)

among_All :
    (P : ReadinessEvidence → Type 0) (es : List ReadinessEvidence) (e : ReadinessEvidence)
    → All P es
    → IsAmong e es
    → P e
among_All P (x ∷ xs) e (px, h) (inl same) = subst P same px
among_All P (x ∷ xs) e (px, h) (inr there) = among_All P xs e h there
among_All P [] e h there = absurd there

verified_status : (s : EvidenceStatus) → is_verified s ≡ true → s ≡ verified
verified_status s h = ground arith

blocker_free :
    (now : ℕ) (r : EvidenceRequirement) (o : Option ReadinessEvidence)
    → evidence_blockers now r o ≡ []
    → (e : ReadinessEvidence) × (o ≡ some e)
      × (e.status ≡ verified)
      × ((t : ℕ) × (e.expires_at ≡ some t) × (now < t))
unfolding evidence_blockers
blocker_free now r none h = cc
blocker_free now r (some e) h = elim (Bool-cases (is_verified e.status)) [
  | inl v ↦ elim (Option-cases e.expires_at) [
    | inl q ↦ cc (h, v, q)
    | inr (t, q) ↦ (e, refl, verified_status e.status v, (t, q, ground (arith, h, v, q)))
  ]
  | inr v ↦ cc (h, v)
]

all_free :
    (now : ℕ) (d : Dict EvidenceRequirement ReadinessEvidence) (rs : List EvidenceRequirement)
    → requirement_blockers now d rs ≡ []
    → All (λ r. evidence_blockers now r (get d r) ≡ []) rs
unfolding requirement_blockers
all_free now d [] h = tt
all_free now d (r ∷ rs) h =
    let (a, b) =
      append-nil_parts (evidence_blockers now r (get d r)) (requirement_blockers now d rs) h in
    (a, all_free now d rs b)

requirement_free :
    (now : ℕ) (d : Dict EvidenceRequirement ReadinessEvidence) (r : EvidenceRequirement)
    → requirement_blockers now d required_external_evidence ≡ []
    → evidence_blockers now r (get d r) ≡ []
requirement_free now d r h =
    let (a, (b, (c, (e, (f, (g, (k, _))))))) = all_free now d required_external_evidence h in
    elim r as (λ k. evidence_blockers now k (get d k) ≡ []) [
      | webull_account_entitlement ↦ a
      | licensed_market_data_coverage ↦ b
      | point_in_time_timestamp_semantics ↦ c
      | expired_spxw_nbbo_history ↦ e
      | live_event_source_coverage ↦ f
      | production_security_and_recovery ↦ g
      | untouched_holdout_approval ↦ k
    ]

verified_parts :
    (e : ReadinessEvidence)
    → check_evidence e ≡ ok tt
    → e.status ≡ verified
    → (allows e.requirement e.authority ≡ true) × (e.redactions_confirmed ≡ true)
unfolding check_evidence
verified_parts e h v = (ground (arith, h, v), ground (arith, h, v))

map-nil : {A B : Type 0} (f : A → B) (xs : List A) → map f xs ≡ [] → xs ≡ []
map-nil f [] h = refl
map-nil f (x ∷ xs) h = cc

length-nil : {A : Type 0} (xs : List A) → nat_eq (length xs) 0 ≡ true → xs ≡ []
length-nil [] h = refl
length-nil (x ∷ xs) h = ground (arith, h)

-- The report a gate's report was made from.
pub made_from :
    (py : Platform) (t : Thresholds) (m : ReadinessManifest) (entries : List ShadowLedgerEntry)
    (now : ℕ) (report : ReadinessGateReport)
    → evaluate_readiness py t m entries (aware now) ≡ ok report
    → (s : ShadowEvidenceReport) × (evaluate_shadow_evidence t
          (manifest_digest py m)
          (aware m.generated_at)
          (aware now)
          entries
        ≡ ok s)
      × (gate_report py m now s ≡ report)
unfolding evaluate_readiness
made_from py t m entries now report h =
    elim (Result-cases (
      evaluate_shadow_evidence t (manifest_digest py m) (aware m.generated_at) (aware now)
        entries)) [ inl (s, q) ↦ (s, q, cc (h, q)) | inr (e, q) ↦ cc (h, q) ]

-- Nothing blocks an admitting report.
pub unblocked :
    (py : Platform) (m : ReadinessManifest) (now : ℕ) (s : ShadowEvidenceReport)
    → (gate_report py m now s).shadow_admission_ready ≡ true
    → (when (ltb now m.generated_at) manifest_generated_in_future ≡ [])
      × (requirement_blockers now (by_requirement m.evidence []) required_external_evidence ≡ [])
      × (s.blockers ≡ [])
unfolding gate_report gate_blockers
unblocked py m now s h =
    let (a, rest) =
      append-nil_parts (when (ltb now m.generated_at) manifest_generated_in_future) _
        (length-nil _ h) in
    let (b, c) =
      append-nil_parts
        (requirement_blockers now (by_requirement m.evidence []) required_external_evidence) _
        rest in
    (a, b, map-nil shadow s.blockers c)

-- A report that admits the shadow sessions has, for each of the seven external requirements, evidence
-- in the manifest, of that requirement that is verified, by an authority that the requirement allows, with its
-- redactions confirmed, and not expired at the instant of the evaluation; where every piece of
-- evidence of the manifest was constructed.
pub admission_needs_evidence :
    (py : Platform) (t : Thresholds) (m : ReadinessManifest) (entries : List ShadowLedgerEntry)
    (now : ℕ) (report : ReadinessGateReport) (r : EvidenceRequirement)
    → All (λ x. check_evidence x ≡ ok tt) m.evidence
    → evaluate_readiness py t m entries (aware now) ≡ ok report
    → report.shadow_admission_ready ≡ true
    → (e : ReadinessEvidence) × IsAmong e m.evidence × IsProof r now e
admission_needs_evidence py t m entries now report r made h ready =
    let (s, _, same) = made_from py t m entries now report h in
    let (_, free, _) = unblocked py m now s (ap (λ z. z.shadow_admission_ready) same ∙ ready) in
    let (e, q, v, (t, x, l)) =
      blocker_free now r _ (requirement_free now (by_requirement m.evidence []) r free) in
    let (there, about) =
      elim (by_requirement-get m.evidence [] r e q)
        as (λ _. IsAmong e m.evidence × (e.requirement ≡ r)) [
          | inl found ↦ found
          | inr old ↦ absurd (nothing_filed r e old)
        ] in
    let (a, c) =
      verified_parts e (among_All (λ x. check_evidence x ≡ ok tt) m.evidence e made there) v in
    (
      e,
      there,
      record {
        about = about;
        is_verified = v;
        allowed = subst (λ k. allows k e.authority ≡ true) about a;
        confirmed = c;
        expires = (t, x, l);
      },
    )
