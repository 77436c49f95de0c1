-- ===== src/Alerts/Spacing.antt =====
-- Every call keeps the alerts of a fingerprint a cooldown apart.
use marketpilot.Base.{
  text_key, Bool, Datetime, Option, Option-cases, Result, String, ap, arith, err, false, get,
  if◌then◌else◌, inl, inr, ltb, none, ok, put, refl, some, sym, true, ℕ, ◌+◌, ◌∙◌, ◌≡◌, ◌≤◌,
}
use marketpilot.Alerts.Records.{AlertCandidate, AlertRecord, AlertStatus, FeedbackKind}
use marketpilot.Alerts.Engine.{
  AlertError, count_of, file_feedback, feedback_for, AlertEngine, AlertPolicy, check_feedback, emit,
  deduplicated, found, latest, observe, raise_alert, record_feedback, record_of, status_for,
  with_status,
}
use marketpilot.Alerts.Validity.{IsValid, put-IsValid}
use marketpilot.Alerts.Raised.{raised-IsValid}

abbrev pub IsWell : AlertPolicy → AlertEngine → Type 0
IsWell policy s = IsValid policy.cooldown s.latest_by_fingerprint s.alerts

-- What both outcomes of a test leave true of the engine.
pub split_if :
    (P : AlertEngine → Type 0) (b : Bool)
    (x y : Result AlertError (Option AlertRecord) × AlertEngine)
    → (b ≡ true → P x.1)
    → (b ≡ false → P y.1)
    → P (if b then x else y).1
split_if P true x y h k = h refl
split_if P false x y h k = k refl

module _ (policy : AlertPolicy) where
  abbrev pub counted : AlertEngine → AlertCandidate → AlertEngine
  counted s c = record s {
    observations =
        put s.observations c.fingerprint (count_of (get s.observations c.fingerprint) + 1);
  }

  newest_latest :
      (s : AlertEngine) (i : String) (a : AlertRecord)
      → IsWell policy s
      → get s.alerts i ≡ some a
      → (b : AlertRecord) × (latest s a.candidate.fingerprint ≡ some b)
        × (a.created_at ≤ b.created_at)
  newest_latest s i a well h =
      let (j, b, l, hb, le) = well.newest i a h in (b, ap (found s.alerts) l ∙ hb, le)

  pub latest_there :
      (s : AlertEngine) (f : String) (a : AlertRecord)
      → IsWell policy s
      → latest s f ≡ some a
      → get s.alerts a.alert_id ≡ some a
  latest_there s f a well h = elim (Option-cases (get s.latest_by_fingerprint f)) [
    | inl q ↦ cc (ap (found s.alerts) q, h)
    | inr (j, q) ↦
        let there : get s.alerts j ≡ some a = sym (ap (found s.alerts) q) ∙ h in
        cc (well.named j a there, there)
  ]

  raise_alert-IsWell :
      (s : AlertEngine) (fresh : String) (c : AlertCandidate)
      → IsWell policy s
      → get s.alerts fresh ≡ none
      → ((b : AlertRecord)
          → latest s c.fingerprint ≡ some b
          → b.created_at + policy.cooldown ≤ c.observed_at)
      → IsWell policy (raise_alert fresh c s)
  raise_alert-IsWell s fresh c well is_fresh cool =
      raised-IsValid policy.cooldown s.latest_by_fingerprint s.alerts fresh (record_of fresh c) well
        is_fresh refl
        (λ i a h q.
          let (b, l, le) = newest_latest s i a well h in ground (arith, le, cool b (cc (l, q))))

  emit-IsWell :
      (s : AlertEngine) (fresh : String) (c : AlertCandidate) (previous : Option AlertRecord)
      → IsWell policy s
      → get s.alerts fresh ≡ none
      → latest s c.fingerprint ≡ previous
      → IsWell policy (emit policy fresh c previous s).1
  unfolding emit
  emit-IsWell s fresh c none well is_fresh l =
      raise_alert-IsWell s fresh c well is_fresh (λ b q. cc (l, q))
  emit-IsWell s fresh c (some previous) well is_fresh l =
      split_if (IsWell policy) (ltb c.observed_at previous.created_at) _ _ (λ _. well)
        (λ _.
          split_if (IsWell policy) (ltb c.observed_at (previous.created_at + policy.cooldown)) _ _
            (λ _.
              put-IsValid policy.cooldown s.latest_by_fingerprint s.alerts previous.alert_id
                previous (deduplicated previous) well (latest_there s c.fingerprint previous well l)
                (record { same_id = refl; same_candidate = refl; same_creation = refl }))
            (λ h.
              raise_alert-IsWell s fresh c well is_fresh
                (λ b q. let same : previous ≡ b = cc (l, q) in ground (arith, h, same))))

  pub observe-IsWell :
      (fresh : String) (c : AlertCandidate) (active : Bool) (s : AlertEngine)
      → IsWell policy s
      → get s.alerts fresh ≡ none
      → IsWell policy (observe policy fresh c active s).1
  unfolding observe
  observe-IsWell fresh c false s well is_fresh = well
  observe-IsWell fresh c true s well is_fresh =
      split_if (IsWell policy) (ltb _ policy.hysteresis_observations) _ _ (λ _. well)
        (λ _.
          emit-IsWell (counted s c) fresh c (latest (counted s c) c.fingerprint) well is_fresh refl)

  with_status-IsWell :
      (s : AlertEngine) (i : String) (a : AlertRecord) (status : Option AlertStatus)
      → IsWell policy s
      → get s.alerts i ≡ some a
      → IsWell policy (with_status i a status s)
  with_status-IsWell s i a none well h = well
  with_status-IsWell s i a (some status) well h =
      put-IsValid policy.cooldown s.latest_by_fingerprint s.alerts i a _ well h
        (record { same_id = refl; same_candidate = refl; same_creation = refl })

  file_feedback-IsWell :
      (fresh i : String) (kind : FeedbackKind) (actor : String) (comment : Option String)
      (a : AlertRecord) (checked : Result AlertError ℕ) (s : AlertEngine)
      → IsWell policy s
      → get s.alerts i ≡ some a
      → IsWell policy (file_feedback fresh i kind actor comment a checked s).1
  unfolding file_feedback
  file_feedback-IsWell fresh i kind actor comment a (err e) s well h = well
  file_feedback-IsWell fresh i kind actor comment a (ok t) s well h =
      with_status-IsWell _ i a (status_for kind) well h

  feedback_for-IsWell :
      (fresh i : String) (kind : FeedbackKind) (actor : String) (t : Datetime)
      (comment : Option String) (o : Option AlertRecord) (s : AlertEngine)
      → IsWell policy s
      → get s.alerts i ≡ o
      → IsWell policy (feedback_for fresh i kind actor t comment o s).1
  unfolding feedback_for
  feedback_for-IsWell fresh i kind actor t comment none s well h = well
  feedback_for-IsWell fresh i kind actor t comment (some a) s well h =
      file_feedback-IsWell fresh i kind actor comment a (check_feedback a t actor comment) s well h

  pub record_feedback-IsWell :
      (fresh i : String) (kind : FeedbackKind) (actor : String) (t : Datetime)
      (comment : Option String) (s : AlertEngine)
      → IsWell policy s
      → IsWell policy (record_feedback fresh i kind actor t comment s).1
  unfolding record_feedback
  record_feedback-IsWell fresh i kind actor t comment s well =
      feedback_for-IsWell fresh i kind actor t comment (get s.alerts i) s well refl
