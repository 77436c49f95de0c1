-- ===== src/Alerts/Escalation.antt =====
-- What `due_escalations` returns and writes.
use mathlib.Core.List.{append_assoc}
use mathlib.Core.Bool.{false≢true}
use marketpilot.Base.{
  text_key, All, Bool, Bool-cases, Dict, IsKeyed, List, String, [], ap, arith, aware, eq_iff, false,
  get, if◌then◌else◌, inl, inr, map, none, ok, put, refl, select, sym, true, values, ℕ, ◌++◌, ◌+◌,
  ◌==◌, ◌↔◌, ◌∙◌, ◌∷◌, ◌≡◌, ◌≤◌, ◌⊎◌,
}
use marketpilot.Alerts.Records.{AlertRecord, p0, opened}
use marketpilot.Alerts.Engine.{
  AlertEngine, AlertPolicy, due_escalations, escalate_each, escalated, is_due,
}

-- An entry of the alerts after the call.
abbrev pub escalated_entry : AlertPolicy → ℕ → String × AlertRecord → String × AlertRecord
escalated_entry policy t e = (e.0, if is_due policy t e.1 then escalated e.1 else e.1)

put_middle :
    (done rest : Dict String AlertRecord) (k : String) (v w : AlertRecord)
    → get done k ≡ none
    → put (done ++ (k, v) ∷ rest) k w ≡ done ++ (k, w) ∷ rest
unfolding get put
put_middle [] rest k v w h = ground (arith, eq_iff k k)
put_middle ((j, u) ∷ done) rest k v w h = ground (arith, put_middle done rest k v w, h)

get-snoc :
    (done : Dict String AlertRecord) (k j : String) (v : AlertRecord)
    → get done j ≡ none
    → (k == j) ≡ false
    → get (done ++ (k, v) ∷ []) j ≡ none
unfolding get
get-snoc [] k j v h ne = ground (arith, ne)
get-snoc ((i, u) ∷ done) k j v h ne = ground (arith, get-snoc done k j v, h, ne)

-- The keys that are still to come stay free.
still_free :
    (done rest : Dict String AlertRecord) (k : String) (v : AlertRecord)
    → All (λ e. get done e.0 ≡ none) rest
    → get rest k ≡ none
    → All (λ e. get (done ++ (k, v) ∷ []) e.0 ≡ none) rest
unfolding get
still_free done [] k v h n = tt
still_free done ((j, u) ∷ rest) k v (hj, h) n = (
  get-snoc done k j v hj (ground (arith, n, eq_iff j k, eq_iff k j)),
  still_free done rest k v h (ground (arith, n)),
)

abbrev after_one :
    AlertRecord
    → List AlertRecord × Dict String AlertRecord
    → List AlertRecord × Dict String AlertRecord
after_one a r = (escalated a ∷ r.0, r.1)

escalate_each_due :
    (policy : AlertPolicy) (t : ℕ) (k : String) (a : AlertRecord)
    (items alerts : Dict String AlertRecord)
    → is_due policy t a ≡ true
    → escalate_each policy t ((k, a) ∷ items) alerts
      ≡ after_one a (escalate_each policy t items (put alerts k (escalated a)))
unfolding escalate_each
escalate_each_due policy t k a items alerts h =
    ap
      (λ (b : Bool). elim b as (λ _. List AlertRecord × Dict String AlertRecord) [
        | true ↦ after_one a (escalate_each policy t items (put alerts k (escalated a)))
        | false ↦ escalate_each policy t items alerts
      ])
      h

escalate_each_kept :
    (policy : AlertPolicy) (t : ℕ) (k : String) (a : AlertRecord)
    (items alerts : Dict String AlertRecord)
    → is_due policy t a ≡ false
    → escalate_each policy t ((k, a) ∷ items) alerts ≡ escalate_each policy t items alerts
unfolding escalate_each
escalate_each_kept policy t k a items alerts h =
    ap
      (λ (b : Bool). elim b as (λ _. List AlertRecord × Dict String AlertRecord) [
        | true ↦ after_one a (escalate_each policy t items (put alerts k (escalated a)))
        | false ↦ escalate_each policy t items alerts
      ])
      h

escalate_each_lem :
    (policy : AlertPolicy) (t : ℕ) (done items : Dict String AlertRecord)
    → All (λ e. get done e.0 ≡ none) items
    → IsKeyed items
    → escalate_each policy t items (done ++ items) ≡ (
      map escalated (select (is_due policy t) (values items)),
      done ++ map (escalated_entry policy t) items,
    )
unfolding escalate_each
escalate_each_lem policy t done [] free keyed = refl
escalate_each_lem policy t done ((k, a) ∷ items) (fk, free) (hk, keyed) =
    elim (Bool-cases (is_due policy t a)) [
      | inl due ↦ rw due (
          escalate_each_due policy t k a items (done ++ (k, a) ∷ items) due
          ∙ ap (λ d. after_one a (escalate_each policy t items d))
              (put_middle done items k a (escalated a) fk
                ∙ sym (append_assoc done ((k, escalated a) ∷ []) items))
          ∙ ap (after_one a) (
              escalate_each_lem policy t (done ++ (k, escalated a) ∷ []) items
                (still_free done items k (escalated a) free hk) keyed)
          ∙ ap (λ d. (escalated a ∷ map escalated (select (is_due policy t) (values items)), d))
              (append_assoc done ((k, escalated a) ∷ []) (map (escalated_entry policy t) items)))
      | inr due ↦ rw due (
          escalate_each_kept policy t k a items (done ++ (k, a) ∷ items) due
          ∙ ap (escalate_each policy t items) (sym (append_assoc done ((k, a) ∷ []) items))
          ∙ escalate_each_lem policy t (done ++ (k, a) ∷ []) items
              (still_free done items k a free hk) keyed
          ∙ ap (λ d. (map escalated (select (is_due policy t) (values items)), d))
              (append_assoc done ((k, a) ∷ []) (map (escalated_entry policy t) items)))
    ]

none_done : (items : Dict String AlertRecord) → All (λ e. get {V = AlertRecord} [] e.0 ≡ none) items
unfolding get
none_done [] = tt
none_done (e ∷ items) = (refl, none_done items)

-- What a call returns and writes, by the code's own test and update.
pub due_escalations-map :
    (policy : AlertPolicy) (t : ℕ) (s : AlertEngine)
    → IsKeyed s.alerts
    → due_escalations policy (aware t) s ≡ (
      ok (map escalated (select (is_due policy t) (values s.alerts))),
      record s { alerts = map (escalated_entry policy t) s.alerts },
    )
unfolding due_escalations
due_escalations-map policy t s keyed =
    rw (escalate_each_lem policy t [] s.alerts (none_done s.alerts) keyed) refl

-- An alert that is still open, of priority P0, and at least as old as the policy says.
abbrev pub IsDue : AlertPolicy → ℕ → AlertRecord → Type 0
IsDue policy t a =
    (a.candidate.priority ≡ p0)
    × (a.status ≡ opened)
    × (a.created_at + policy.p0_escalation_after ≤ t)

is_due_iff :
    (policy : AlertPolicy) (t : ℕ) (a : AlertRecord) → (is_due policy t a ≡ true) ↔ IsDue policy t a
is_due_iff policy t a = ground arith

-- The alerts before and after, and those returned: the keys are the same and in the same order; an
-- alert that is due is one level up and the next one returned, every other is as it was and is not
-- returned.
abbrev pub Escalates :
    AlertPolicy → ℕ → Dict String AlertRecord → Dict String AlertRecord → List AlertRecord → Type 0
Escalates policy t [] after due = (after ≡ []) × (due ≡ [])
Escalates policy t (e ∷ before) after due =
    (IsDue policy t e.1
      × (rest : Dict String AlertRecord) × (others : List AlertRecord) × (after
          ≡ (e.0, record e.1 { escalation_level = e.1.escalation_level + 1 }) ∷ rest)
      × (due ≡ record e.1 { escalation_level = e.1.escalation_level + 1 } ∷ others)
      × Escalates policy t before rest others)
    ⊎ (¬ IsDue policy t e.1
        × (rest : Dict String AlertRecord) × (after ≡ e ∷ rest)
        × Escalates policy t before rest due)

map-Escalates :
    (policy : AlertPolicy) (t : ℕ) (items : Dict String AlertRecord)
    → Escalates policy t items
        (map (escalated_entry policy t) items)
        (map escalated (select (is_due policy t) (values items)))
map-Escalates policy t [] = (refl, refl)
map-Escalates policy t (e ∷ items) = elim (Bool-cases (is_due policy t e.1)) [
  | inl due ↦ rw due (
      inl (
        (is_due_iff policy t e.1).0 due,
        map (escalated_entry policy t) items,
        map escalated (select (is_due policy t) (values items)),
        refl,
        refl,
        map-Escalates policy t items,
      ))
  | inr kept ↦ rw kept (
      inr (
        λ d. false≢true (sym kept ∙ (is_due_iff policy t e.1).1 d),
        map (escalated_entry policy t) items,
        refl,
        map-Escalates policy t items,
      ))
]

-- Where no key of the alerts stands twice, `due_escalations` returns the alerts that are open, of
-- priority P0 and at least as old as the policy says at the instant, in the order of the dictionary
-- and each one level up; it writes these in their places, and every other alert and everything else
-- of the engine is as it was.
pub due_escalations_lem :
    (policy : AlertPolicy) (t : ℕ) (s : AlertEngine)
    → IsKeyed s.alerts
    → (due : List AlertRecord) × (after : Dict String AlertRecord) × (due_escalations policy
          (aware t)
          s
        ≡ (ok due, record s { alerts = after }))
      × Escalates policy t s.alerts after due
due_escalations_lem policy t s keyed = (
  map escalated (select (is_due policy t) (values s.alerts)),
  map (escalated_entry policy t) s.alerts,
  due_escalations-map policy t s keyed,
  map-Escalates policy t s.alerts,
)
