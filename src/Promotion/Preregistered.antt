-- ===== src/Promotion/Preregistered.antt =====
-- validation/promotion_gate.py: when the gate returns a report, and which.
use marketpilot.Base.{
  pair_key, text_key, Bool, Datetime, String, ap, arith, aware, equal_self, false, is_blank, leb→lt,
  lt→leb, map, naive, not, ok, refl, subst, sym, true, ℕ, ◌<◌, ◌==◌, ◌||◌, ◌↔◌, ◌∙◌, ◌≡◌,
}
use marketpilot.Base.Fallible.{bound, ok-injective, refuse_if_passed, ◌>>◌, refuse_if}
use marketpilot.Domain.Snapshot.{Platform}
use marketpilot.Promotion.Criteria.{
  Floats, PromotionCriteria, PromotionError, aware_utc, is_unique, slice_key, create,
  validate_fields, calculated_hash, verify, evaluated_before_freeze, frozen_before_registration,
  manifest_hashes_required, slice_keys_must_be_unique, report_hash_mismatch, criteria_hash_mismatch,
}
use marketpilot.Promotion.Gate.{
  FrozenValidationReport, GateRequest, evaluate_promotion_gate, report_at, report_of,
  report_hash_of, verify_report,
}

aware_of : (d : Datetime) (name : String) (t : ℕ) → aware_utc d name ≡ ok t → d ≡ aware t
aware_of (naive n) name t h = ground (arith, h)
aware_of (aware n) name t h = ground (arith, h)

true_of_negation : (b : Bool) → not b ≡ false → b ≡ true
true_of_negation b h = ground (arith, h)

refuse_self : (s : String) (e : PromotionError) → refuse_if (not (s == s)) e ≡ ok tt
refuse_self s e = rw (equal_self s) refl

module _ {W : Type 0} (f : Floats W) (py : Platform) (c : PromotionCriteria W)
    (q : GateRequest W) where
  -- The holdout was frozen after the criteria were registered and evaluated after that; its slices are
  -- told apart by their keys.
  abbrev pub IsInOrder : ℕ → ℕ → Type 0
  IsInOrder frozen evaluated =
      ((is_blank q.data_manifest_hash || is_blank q.holdout_manifest_hash) ≡ false)
      × (c.registered_at < frozen)
      × (frozen < evaluated)
      × (is_unique (map slice_key q.slices) ≡ true)

  own_hash : (u : ℕ) → verify_report f py (report_of f py c q u) ≡ ok tt
  unfolding verify_report report_of
  own_hash u = refuse_self (report_hash_of f py (report_of f py c q u)) report_hash_mismatch

  report_at-IsInOrder :
      (t u : ℕ) (r : FrozenValidationReport W)
      → report_at f py c q t u ≡ ok r
      → IsInOrder t u × (r ≡ report_of f py c q u)
  unfolding report_at
  report_at-IsInOrder t u r h =
      let a = refuse_if_passed _ manifest_hashes_required _ r h in
      let b = refuse_if_passed _ frozen_before_registration _ r a.1 in
      let d = refuse_if_passed _ evaluated_before_freeze _ r b.1 in
      let e =
        refuse_if_passed (not (is_unique (map slice_key q.slices))) slice_keys_must_be_unique _ r
          d.1 in
      let g = bound (verify_report f py (report_of f py c q u)) _ r e.1 in
      (
        (a.0, leb→lt c.registered_at t b.0, leb→lt t u d.0, true_of_negation _ e.0),
        sym (ok-injective g.2),
      )

  pub evaluated_at_instants :
      (r : FrozenValidationReport W)
      → evaluate_promotion_gate f py c q ≡ ok r
      → (t : ℕ) × (u : ℕ) × ((verify f py c ≡ ok tt)
          × (q.holdout_frozen_at ≡ aware t)
          × (q.evaluated_at ≡ aware u))
        × IsInOrder t u
        × (r ≡ report_of f py c q u)
  unfolding evaluate_promotion_gate
  evaluated_at_instants r h =
      let v = bound (verify f py c) _ r h in
      let t = bound (aware_utc q.holdout_frozen_at "holdout_frozen_at") _ r v.2 in
      let u = bound (aware_utc q.evaluated_at "evaluated_at") _ r t.2 in
      let w = report_at-IsInOrder t.0 u.0 r u.2 in
      (
        t.0,
        u.0,
        (v.1, aware_of q.holdout_frozen_at _ t.0 t.1, aware_of q.evaluated_at _ u.0 u.1),
        w.0,
        w.1,
      )

  ordered_report_at : (t u : ℕ) → IsInOrder t u → report_at f py c q t u ≡ ok (report_of f py c q u)
  unfolding report_at
  ordered_report_at t u (named, registered, frozen, unique) = rw named (
      rw (lt→leb c.registered_at t registered)
        (rw (lt→leb t u frozen) (rw unique (rw (own_hash u) refl))))

-- The gate returns a report exactly when the criteria pass their own check and their hash, both
-- manifests are named, the holdout was frozen after the criteria were registered, the evaluation is
-- after that, and no two slices have one key; the report then passes its own check.
pub evaluates_exactly :
    {W : Type 0} (f : Floats W) (py : Platform) (c : PromotionCriteria W) (q : GateRequest W)
    → ((r : FrozenValidationReport W) × (evaluate_promotion_gate f py c q ≡ ok r)
        × (verify_report f py r ≡ ok tt))
      ↔ ((t : ℕ) × (u : ℕ) × ((verify f py c ≡ ok tt)
            × (q.holdout_frozen_at ≡ aware t)
            × (q.evaluated_at ≡ aware u))
          × IsInOrder f py c q t u)
unfolding evaluate_promotion_gate
evaluates_exactly f py c q = (
  λ (r, h, own).
      let (t, u, known, ordered, made) = evaluated_at_instants f py c q r h in
      (t, u, known, ordered),
  λ (t, u, (passes, frozen, evaluated), ordered). (
    report_of f py c q u,
    rw passes (rw frozen (rw evaluated (ordered_report_at f py c q t u ordered))),
    own_hash f py c q u,
  ),
)

sealed_verifies :
    {W : Type 0} (f : Floats W) (py : Platform) (c : PromotionCriteria W)
    → validate_fields f c ≡ ok tt
    → verify f py (record c { criteria_hash = calculated_hash f py c }) ≡ ok tt
unfolding verify validate_fields
sealed_verifies f py c v =
    let h = calculated_hash f py c in
    ap (λ m. m >> refuse_if (not (h == h)) criteria_hash_mismatch) v
    ∙ refuse_self h criteria_hash_mismatch

-- Criteria that `create` returns pass `verify`.
created_criteria_verify :
    {W : Type 0} (f : Floats W) (py : Platform) (c made : PromotionCriteria W) (d : Datetime)
    → create f py c d ≡ ok made
    → verify f py made ≡ ok tt
unfolding create verify
created_criteria_verify {W = W} f py c made d h =
    let t = bound (aware_utc d "registered_at") _ made h in
    let p1 = refuse_if_passed (not (f.is_finite c.maximum_expiry_cross_rate)) _ _ made t.2 in
    let p2 = refuse_if_passed (not (f.is_finite c.maximum_touch_rate)) _ _ made p1.1 in
    let p3 = refuse_if_passed (not (f.is_finite c.maximum_cvar)) _ _ made p2.1 in
    let p4 = refuse_if_passed (not (f.is_finite c.maximum_drawdown)) _ _ made p3.1 in
    let p5 = refuse_if_passed (not (f.is_finite c.minimum_no_trade_pnl_difference)) _ _ made p4.1 in
    let candidate : PromotionCriteria W = record c { registered_at = t.0; criteria_hash = "" } in
    let valid = bound (validate_fields f candidate) _ made p5.1 in
    subst (λ m. verify f py m ≡ ok tt) (ok-injective valid.2)
      (sealed_verifies f py candidate valid.1)
