-- ===== src/Alerts/Evidence.antt =====
-- Calls only add: alerts stay, and so does feedback.
use mathlib.Core.List.{append-nil}
use marketpilot.Base.{
  All-append, text_key, All, Bool, Bool-cases, Datetime, Dict, List, Option, Result, String, [],
  arith, aware, err, false, get, inl, inr, ltb, naive, none, ok, refl, some, subst, sym, true, ℕ,
  ◌++◌, ◌+◌, ◌==◌, ◌∙◌, ◌∷◌, ◌≡◌, ◌≤◌,
}
use marketpilot.Alerts.Records.{
  AlertCandidate, AlertFeedback, AlertRecord, AlertStatus, FeedbackKind,
}
use marketpilot.Alerts.Engine.{
  AlertEngine, AlertError, AlertPolicy, check_feedback, deduplicated, due_escalations, emit,
  feedback_for, file_feedback, latest, observe, raise_alert, record_feedback, record_of, status_for,
  with_status,
}
use marketpilot.Alerts.Validity.{IsVersion, put_miss, put_new, same_text}
use marketpilot.Alerts.Escalation.{due_escalations-map}
use marketpilot.Alerts.Spacing.{counted, split_if, IsWell, latest_there}
use marketpilot.Alerts.Reach.{
  Reachable, Step, advanced, advanced-IsVersion, there_after, Reachable-IsWell, start, next,
  observed, recorded, escalations,
}

-- Every alert of the first engine is in the second one, in a later version.
abbrev pub Keeps : AlertEngine → AlertEngine → Type 0
Keeps s t =
    (i : String) (a : AlertRecord)
    → get s.alerts i ≡ some a
    → (b : AlertRecord) × (get t.alerts i ≡ some b) × IsVersion b a

-- Feedback on an alert that is there, not before the alert.
abbrev pub IsOnAlert : AlertEngine → AlertFeedback → Type 0
IsOnAlert s f =
    (a : AlertRecord) × (get s.alerts f.alert_id ≡ some a) × (a.created_at ≤ f.recorded_at)

-- What a call did.
record Grows (s t : AlertEngine) : Type 0 where
  keeps : Keeps s t
  added :
      (extra : List AlertFeedback) × (t.feedback ≡ s.feedback ++ extra) × All (IsOnAlert t) extra

IsVersion-refl : (a : AlertRecord) → IsVersion a a
IsVersion-refl a = record { same_id = refl; same_candidate = refl; same_creation = refl }

-- A call that leaves the feedback as it is.
quiet : (s t : AlertEngine) → t.feedback ≡ s.feedback → Keeps s t → Grows s t
quiet s t q k = record { keeps = k; added = ([], q ∙ sym (append-nil s.feedback), tt) }

raise_alert-Keeps :
    (s : AlertEngine) (fresh : String) (c : AlertCandidate)
    → get s.alerts fresh ≡ none
    → Keeps s (raise_alert fresh c s)
raise_alert-Keeps s fresh c is_fresh i a h = elim (Bool-cases (fresh == i)) [
  | inl e ↦ cc (is_fresh, same_text fresh i e, h)
  | inr e ↦ (a, put_miss s.alerts fresh i (record_of fresh c) e ∙ h, IsVersion-refl a)
]

emit-Grows :
    (policy : AlertPolicy) (s : AlertEngine) (fresh : String) (c : AlertCandidate)
    (o : Option AlertRecord)
    → IsWell policy s
    → get s.alerts fresh ≡ none
    → latest s c.fingerprint ≡ o
    → Grows s (emit policy fresh c o s).1
unfolding emit
emit-Grows policy s fresh c none well is_fresh l =
    quiet s _ refl (raise_alert-Keeps s fresh c is_fresh)
emit-Grows policy s fresh c (some a) well is_fresh l =
    split_if (Grows s) (ltb c.observed_at a.created_at) _ _
      (λ _. quiet s s refl (λ i d h. (d, h, IsVersion-refl d)))
      (λ _.
        split_if (Grows s) (ltb c.observed_at (a.created_at + policy.cooldown)) _ _
          (λ _. quiet s _ refl (λ i d h.
            put_new s.alerts a.alert_id i a (deduplicated a) d
              (latest_there policy s c.fingerprint a well l)
              (record { same_id = refl; same_candidate = refl; same_creation = refl }) h))
          (λ _. quiet s _ refl (raise_alert-Keeps s fresh c is_fresh)))

-- The counts play no part.
from_counted :
    (s t : AlertEngine) {o : Dict String ℕ} → Grows (record s { observations = o }) t → Grows s t
from_counted s t g = record { keeps = g.keeps; added = g.added }

observe-Grows :
    (policy : AlertPolicy) (s : AlertEngine) (fresh : String) (c : AlertCandidate) (active : Bool)
    → IsWell policy s
    → get s.alerts fresh ≡ none
    → Grows s (observe policy fresh c active s).1
unfolding observe
observe-Grows policy s fresh c false well is_fresh =
    quiet s _ refl (λ i d h. (d, h, IsVersion-refl d))
observe-Grows policy s fresh c true well is_fresh =
    split_if (Grows s) (ltb _ policy.hysteresis_observations) _ _
      (λ _. quiet s _ refl (λ i d h. (d, h, IsVersion-refl d)))
      (λ _. from_counted s _ (
        emit-Grows policy (counted policy s c) fresh c (latest (counted policy s c) c.fingerprint)
          well is_fresh refl))

filed_check :
    (a : AlertRecord) (t : Datetime) (actor : String) (comment : Option String) (n : ℕ)
    → check_feedback a t actor comment ≡ ok n
    → a.created_at ≤ n
filed_check a (naive m) actor comment n h = cc h
filed_check a (aware m) actor comment n h = ground (arith, h)

with_status-Keeps :
    (s : AlertEngine) (i : String) (a : AlertRecord) (o : Option AlertStatus)
    → get s.alerts i ≡ some a
    → Keeps s (with_status i a o s)
with_status-Keeps s i a none h = λ j d k. (d, k, IsVersion-refl d)
with_status-Keeps s i a (some status) h = λ j d k.
    put_new s.alerts i j a _ d h
      (record { same_id = refl; same_candidate = refl; same_creation = refl }) k

with_status_feedback :
    (s : AlertEngine) (i : String) (a : AlertRecord) (o : Option AlertStatus)
    → (with_status i a o s).feedback ≡ s.feedback
with_status_feedback s i a none = refl
with_status_feedback s i a (some status) = refl

file_feedback-Grows :
    (fresh i : String) (kind : FeedbackKind) (actor : String) (comment : Option String)
    (a : AlertRecord) (checked : Result AlertError ℕ) (s : AlertEngine)
    → get s.alerts i ≡ some a
    → ((n : ℕ) → checked ≡ ok n → a.created_at ≤ n)
    → Grows s (file_feedback fresh i kind actor comment a checked s).1
unfolding file_feedback
file_feedback-Grows fresh i kind actor comment a (err e) s h le =
    quiet s s refl (λ j d k. (d, k, IsVersion-refl d))
file_feedback-Grows fresh i kind actor comment a (ok n) s h le =
    let (b, hb, v) = with_status-Keeps _ i a (status_for kind) h i a h in
    record {
      keeps = with_status-Keeps _ i a (status_for kind) h;
      added = (
        _,
        with_status_feedback _ i a (status_for kind),
        ((b, hb, ground (arith, v.same_creation, le n refl)), tt),
      );
    }

feedback_for-Grows :
    (fresh i : String) (kind : FeedbackKind) (actor : String) (t : Datetime)
    (comment : Option String) (o : Option AlertRecord) (s : AlertEngine)
    → get s.alerts i ≡ o
    → Grows s (feedback_for fresh i kind actor t comment o s).1
unfolding feedback_for
feedback_for-Grows fresh i kind actor t comment none s h =
    quiet s s refl (λ j d k. (d, k, IsVersion-refl d))
feedback_for-Grows fresh i kind actor t comment (some a) s h =
    file_feedback-Grows fresh i kind actor comment a (check_feedback a t actor comment) s h
      (filed_check a t actor comment)

due_escalations-Grows :
    (policy : AlertPolicy) (t : Datetime) (s : AlertEngine)
    → IsWell policy s
    → Grows s (due_escalations policy t s).1
unfolding due_escalations
due_escalations-Grows policy (naive n) s well = quiet s s refl (λ j d k. (d, k, IsVersion-refl d))
due_escalations-Grows policy (aware n) s well =
    subst (λ x. Grows s x.1) (sym (due_escalations-map policy n s well.keyed))
      (quiet s _ refl (λ i d h.
        (_, there_after (advanced policy n) s.alerts i d h, advanced-IsVersion policy n d)))

Step-Grows :
    (policy : AlertPolicy) (s t : AlertEngine) → Step policy s t → IsWell policy s → Grows s t
unfolding record_feedback feedback_for
Step-Grows policy _ _ (observed fresh c active s f) well =
    observe-Grows policy s fresh c active well f
Step-Grows policy _ _ (recorded fresh i kind actor t comment s) well =
    feedback_for-Grows fresh i kind actor t comment (get s.alerts i) s refl
Step-Grows policy _ _ (escalations t s) well = due_escalations-Grows policy t s well

-- In an engine that calls reach from a new one, each with an id not in use, no such call loses an
-- alert or changes its id, its candidate or its creation, and the feedback after the call is the
-- feedback before it with further items at its end.
pub evidence_is_append_only :
    (policy : AlertPolicy) (s t : AlertEngine)
    → Reachable policy s
    → Step policy s t
    → Keeps s t × ((extra : List AlertFeedback) × (t.feedback ≡ s.feedback ++ extra))
evidence_is_append_only policy s t r step =
    let grown = Step-Grows policy s t step (Reachable-IsWell policy s r) in
    let (extra, q, _) = grown.added in (grown.keeps, (extra, q))

Keeps-IsOnAlert :
    (s t : AlertEngine) (fs : List AlertFeedback)
    → Keeps s t
    → All (IsOnAlert s) fs
    → All (IsOnAlert t) fs
Keeps-IsOnAlert s t [] k h = tt
Keeps-IsOnAlert s t (f ∷ fs) k ((a, ha, le), h) =
    let (b, hb, v) = k f.alert_id a ha in
    ((b, hb, ground (arith, v.same_creation, le)), Keeps-IsOnAlert s t fs k h)

-- In an engine that calls reach from a new one, each with an id not in use, every item of the
-- feedback names an alert that is there and is not dated before the alert.
feedback_follows_alert :
    (policy : AlertPolicy) (s : AlertEngine) → Reachable policy s → All (IsOnAlert s) s.feedback
feedback_follows_alert policy _ start = tt
feedback_follows_alert policy _ (next s t r step) =
    let grown = Step-Grows policy s t step (Reachable-IsWell policy s r) in
    let (extra, q, h) = grown.added in
    subst (All (IsOnAlert t)) (sym q) (
      All-append (IsOnAlert t) s.feedback extra
        (Keeps-IsOnAlert s t s.feedback grown.keeps (feedback_follows_alert policy s r)) h)
