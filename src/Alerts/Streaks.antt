-- ===== src/Alerts/Streaks.antt =====
-- The counts of the engine, against the log of what was observed.
use marketpilot.Base.{
  text_key, Bool, Datetime, Dict, List, Option, Result, String, [], ap, arith, aware, eq_iff, err,
  false, get, get-pop, get-put, if◌then◌else◌, naive, none, ok, pop, put, refl, some, true, ℕ, ◌+◌,
  ◌==◌, ◌∙◌, ◌∷◌, ◌≡◌, ◌≤◌,
}
use marketpilot.Alerts.Records.{AlertCandidate, AlertRecord, AlertStatus, FeedbackKind}
use marketpilot.Alerts.Engine.{
  AlertEngine, AlertError, AlertPolicy, check_feedback, count_of, due_escalations, emit,
  feedback_for, file_feedback, new_engine, observe, record_feedback, status_for, with_status,
}

-- The engine after the calls whose observations, the last one first, the log lists.
pub data Trace (policy : AlertPolicy) : List (String × Bool) → AlertEngine → Type 0 where
  begin : Trace policy [] new_engine
  seen :
      (log : List (String × Bool)) (s : AlertEngine) (fresh : String) (c : AlertCandidate)
      (active : Bool)
      → Trace policy log s
      → Trace policy ((c.fingerprint, active) ∷ log) (observe policy fresh c active s).1
  feedback_given :
      (log : List (String × Bool)) (s : AlertEngine) (fresh i : String) (kind : FeedbackKind)
      (actor : String) (t : Datetime) (comment : Option String)
      → Trace policy log s
      → Trace policy log (record_feedback fresh i kind actor t comment s).1
  escalations_taken :
      (log : List (String × Bool)) (s : AlertEngine) (t : Datetime)
      → Trace policy log s
      → Trace policy log (due_escalations policy t s).1

-- How many of the last observations of a fingerprint were active without a break.
abbrev pub streak : String → List (String × Bool) → ℕ
streak f [] = 0
streak f ((g, active) ∷ log) =
    if g == f then if active then streak f log + 1 else 0 else streak f log

emit_observations :
    (policy : AlertPolicy) (fresh : String) (c : AlertCandidate) (o : Option AlertRecord)
    (s : AlertEngine)
    → (emit policy fresh c o s).1.observations ≡ s.observations
unfolding emit
emit_observations policy fresh c none s = refl
emit_observations policy fresh c (some a) s = ground arith

observe_observations :
    (policy : AlertPolicy) (fresh : String) (c : AlertCandidate) (s : AlertEngine)
    → (observe policy fresh c true s).1.observations
      ≡ put s.observations c.fingerprint (count_of (get s.observations c.fingerprint) + 1)
unfolding observe
observe_observations policy fresh c s = ground (arith, emit_observations policy fresh c)

with_status_observations :
    (i : String) (a : AlertRecord) (o : Option AlertStatus) (s : AlertEngine)
    → (with_status i a o s).observations ≡ s.observations
with_status_observations i a none s = refl
with_status_observations i a (some status) s = refl

file_feedback_observations :
    (fresh i : String) (kind : FeedbackKind) (actor : String) (comment : Option String)
    (a : AlertRecord) (checked : Result AlertError ℕ) (s : AlertEngine)
    → (file_feedback fresh i kind actor comment a checked s).1.observations ≡ s.observations
unfolding file_feedback
file_feedback_observations fresh i kind actor comment a (err e) s = refl
file_feedback_observations fresh i kind actor comment a (ok t) s =
    with_status_observations i a (status_for kind) _

feedback_for_observations :
    (fresh i : String) (kind : FeedbackKind) (actor : String) (t : Datetime)
    (comment : Option String) (o : Option AlertRecord) (s : AlertEngine)
    → (feedback_for fresh i kind actor t comment o s).1.observations ≡ s.observations
unfolding feedback_for
feedback_for_observations fresh i kind actor t comment none s = refl
feedback_for_observations fresh i kind actor t comment (some a) s =
    file_feedback_observations fresh i kind actor comment a (check_feedback a t actor comment) s

due_escalations_observations :
    (policy : AlertPolicy) (t : Datetime) (s : AlertEngine)
    → (due_escalations policy t s).1.observations ≡ s.observations
unfolding due_escalations
due_escalations_observations policy (naive n) s = refl
due_escalations_observations policy (aware n) s = refl

count_of-put :
    (d : Dict String ℕ) (k f : String) (n : ℕ)
    → count_of (get (put d k n) f) ≡ (if k == f then n else count_of (get d f))
count_of-put d k f n = ground (arith, get-put d k f n)

count_of-pop :
    (d : Dict String ℕ) (k f : String)
    → count_of (get (pop d k) f) ≡ (if k == f then 0 else count_of (get d f))
count_of-pop d k f = ground (arith, get-pop d k f)

abbrev counted : AlertEngine → String → ℕ
counted s f = count_of (get s.observations f)

counted-observe :
    (policy : AlertPolicy) (log : List (String × Bool)) (s : AlertEngine) (fresh : String)
    (c : AlertCandidate) (active : Bool) (f : String)
    → ((g : String) → counted s g ≡ streak g log)
    → counted (observe policy fresh c active s).1 f ≡ streak f ((c.fingerprint, active) ∷ log)
unfolding observe
counted-observe policy log s fresh c false f ih =
    ground (arith, count_of-pop s.observations c.fingerprint f, ih f)
counted-observe policy log s fresh c true f ih =
    ap (λ d. count_of (get d f)) (observe_observations policy fresh c s)
    ∙ ground (
      arith,
      count_of-put s.observations c.fingerprint f (counted s c.fingerprint + 1),
      ih f,
      ih c.fingerprint,
      eq_iff c.fingerprint f,
    )

-- After any calls on a new engine, what it counts for a fingerprint is the number of its last observations that were active
-- without a break.
pub counted-streak :
    (policy : AlertPolicy) (log : List (String × Bool)) (s : AlertEngine) (f : String)
    → Trace policy log s
    → counted s f ≡ streak f log
unfolding get record_feedback feedback_for
counted-streak policy _ _ f begin = refl
counted-streak policy _ _ f (seen log s fresh c active r) =
    counted-observe policy log s fresh c active f (λ g. counted-streak policy log s g r)
counted-streak policy _ _ f (feedback_given log s fresh i kind actor t comment r) =
    ap (λ d. count_of (get d f))
      (feedback_for_observations fresh i kind actor t comment (get s.alerts i) s)
    ∙ counted-streak policy log s f r
counted-streak policy _ _ f (escalations_taken log s t r) =
    ap (λ d. count_of (get d f)) (due_escalations_observations policy t s)
    ∙ counted-streak policy log s f r

-- After any calls on a new engine, an observation that returns an alert is active and ends a run of
-- active observations of its fingerprint at least as long as the policy asks for.
pub alert_needs_streak :
    (policy : AlertPolicy) (log : List (String × Bool)) (s : AlertEngine) (fresh : String)
    (c : AlertCandidate) (active : Bool) (a : AlertRecord)
    → Trace policy log s
    → (observe policy fresh c active s).0 ≡ ok (some a)
    → (active ≡ true)
      × (policy.hysteresis_observations ≤ streak c.fingerprint ((c.fingerprint, active) ∷ log))
unfolding observe
alert_needs_streak policy log s fresh c false a r h = cc h
alert_needs_streak policy log s fresh c true a r h = (
  refl,
  ground
      (arith, counted-streak policy log s c.fingerprint r, eq_iff c.fingerprint c.fingerprint, h),
)
