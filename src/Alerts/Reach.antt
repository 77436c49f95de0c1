-- ===== src/Alerts/Reach.antt =====
-- The engines that the calls reach.
use marketpilot.Base.{
  text_key, Bool, Datetime, Dict, IsKeyed, Option, Option-cases, String, [], arith, aware, false,
  get, if◌then◌else◌, inl, inr, map, naive, none, refl, some, subst, sym, true, ℕ, ◌+◌, ◌∷◌, ◌≡◌,
  ◌≢◌, ◌≤◌, ◌⊎◌,
}
use marketpilot.Alerts.Records.{AlertCandidate, AlertRecord, FeedbackKind}
use marketpilot.Alerts.Engine.{
  AlertEngine, AlertPolicy, due_escalations, escalated, is_due, new_engine, observe,
  record_feedback,
}
use marketpilot.Alerts.Escalation.{due_escalations-map, escalated_entry}
use marketpilot.Alerts.Validity.{IsVersion, versions-IsValid}
use marketpilot.Alerts.Spacing.{IsWell, observe-IsWell, record_feedback-IsWell}

-- One call, with the id that it draws not in use.
pub data Step (policy : AlertPolicy) : AlertEngine → AlertEngine → Type 0 where
  observed :
      (fresh : String) (c : AlertCandidate) (active : Bool) (s : AlertEngine)
      → get s.alerts fresh ≡ none
      → Step policy s (observe policy fresh c active s).1
  recorded :
      (fresh i : String) (kind : FeedbackKind) (actor : String) (t : Datetime)
      (comment : Option String) (s : AlertEngine)
      → Step policy s (record_feedback fresh i kind actor t comment s).1
  escalations : (t : Datetime) (s : AlertEngine) → Step policy s (due_escalations policy t s).1

pub data Reachable (policy : AlertPolicy) : AlertEngine → Type 0 where
  start : Reachable policy new_engine
  next : (s t : AlertEngine) → Reachable policy s → Step policy s t → Reachable policy t

module _ (f : AlertRecord → AlertRecord) where
  pub there_after :
      (d : Dict String AlertRecord) (i : String) (a : AlertRecord)
      → get d i ≡ some a
      → get (map (λ e. (e.0, f e.1)) d) i ≡ some (f a)
  unfolding get
  there_after [] i a h = cc
  there_after ((j, b) ∷ d) i a h = ground (arith, there_after d i a, h)

  free_after :
      (d : Dict String AlertRecord) (i : String)
      → get d i ≡ none
      → get (map (λ e. (e.0, f e.1)) d) i ≡ none
  unfolding get
  free_after [] i h = refl
  free_after ((j, b) ∷ d) i h = ground (arith, free_after d i, h)

module _ (policy : AlertPolicy) (t : ℕ) where
  abbrev pub advanced : AlertRecord → AlertRecord
  advanced a = if is_due policy t a then escalated a else a

  pub advanced-IsVersion : (a : AlertRecord) → IsVersion (advanced a) a
  advanced-IsVersion a =
      elim (is_due policy t a) as (λ b. IsVersion (if b then escalated a else a) a) [
        | true ↦ record { same_id = refl; same_candidate = refl; same_creation = refl }
        | false ↦ record { same_id = refl; same_candidate = refl; same_creation = refl }
      ]

  map-IsKeyed :
      (d : Dict String AlertRecord) → IsKeyed d → IsKeyed (map (escalated_entry policy t) d)
  map-IsKeyed [] h = tt
  map-IsKeyed ((j, b) ∷ d) (hj, h) = (free_after advanced d j hj, map-IsKeyed d h)

  map-old :
      (d : Dict String AlertRecord) (i : String) (c : AlertRecord)
      → get (map (escalated_entry policy t) d) i ≡ some c
      → (a : AlertRecord) × (get d i ≡ some a) × IsVersion c a
  map-old d i c h = elim (Option-cases (get d i)) [
    | inl n ↦ cc (free_after advanced d i n, h)
    | inr (a, q) ↦
        let same : advanced a ≡ c = cc (there_after advanced d i a q, h) in
        (a, q, subst (λ z. IsVersion z a) same (advanced-IsVersion a))
  ]

due_escalations-IsWell :
    (policy : AlertPolicy) (t : Datetime) (s : AlertEngine)
    → IsWell policy s
    → IsWell policy (due_escalations policy t s).1
unfolding due_escalations
due_escalations-IsWell policy (naive n) s well = well
due_escalations-IsWell policy (aware n) s well =
    subst (λ x. IsWell policy x.1) (sym (due_escalations-map policy n s well.keyed))
      (versions-IsValid policy.cooldown s.latest_by_fingerprint s.alerts _ well
        (map-IsKeyed policy n s.alerts well.keyed) (map-old policy n s.alerts)
        (λ i d h.
          (_, there_after (advanced policy n) s.alerts i d h, advanced-IsVersion policy n d)))

Step-IsWell :
    (policy : AlertPolicy) (s t : AlertEngine) → Step policy s t → IsWell policy s → IsWell policy t
Step-IsWell policy _ _ (observed fresh c active s f) well =
    observe-IsWell policy fresh c active s well f
Step-IsWell policy _ _ (recorded fresh i kind actor t comment s) well =
    record_feedback-IsWell policy fresh i kind actor t comment s well
Step-IsWell policy _ _ (escalations t s) well = due_escalations-IsWell policy t s well

new-IsWell : (policy : AlertPolicy) → IsWell policy new_engine
unfolding get
new-IsWell policy = record {
  keyed = tt;
  named = λ i a h. cc h;
  linked = λ f i h. cc h;
  newest = λ i a h. cc h;
  spaced = λ i j a b h k ne q. cc h;
}

pub Reachable-IsWell :
    (policy : AlertPolicy) (s : AlertEngine) → Reachable policy s → IsWell policy s
Reachable-IsWell policy _ start = new-IsWell policy
Reachable-IsWell policy _ (next s t r step) =
    Step-IsWell policy s t step (Reachable-IsWell policy s r)

-- In an engine that calls reach from a new one, each call with an id not in use, two alerts of one
-- fingerprint under different ids were created at least a cooldown apart.
pub alerts_spaced :
    (policy : AlertPolicy) (s : AlertEngine) (i j : String) (a b : AlertRecord)
    → Reachable policy s
    → get s.alerts i ≡ some a
    → get s.alerts j ≡ some b
    → i ≢ j
    → a.candidate.fingerprint ≡ b.candidate.fingerprint
    → (a.created_at + policy.cooldown ≤ b.created_at)
      ⊎ (b.created_at + policy.cooldown ≤ a.created_at)
alerts_spaced policy s i j a b r = (Reachable-IsWell policy s r).spaced i j a b
