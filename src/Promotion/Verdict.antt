-- ===== src/Promotion/Verdict.antt =====
-- validation/promotion_gate.py: what a passed report says of the slices.
use Prim.Native.String.{◌++◌ as text_append}
use mathlib.Core.Bool.{false≢true}
use marketpilot.Base.{
  text_order, pair_key, All, Bool, Dict, List, Option-cases, String, [], and_parts, ap, arith,
  contains, equal_self, false, get, get-put, inl, inr, insert, map, none, ok, put, put-cases, refl,
  some, sort, subst, sym, true, ◌&&◌, ◌++◌, ◌↔◌, ◌∙◌, ◌∷◌, ◌≡◌, ◌≤◌, ◌⊎◌,
}
use marketpilot.Promotion.Preregistered.{evaluated_at_instants}
use marketpilot.Domain.Snapshot.{Platform}
use marketpilot.Promotion.Criteria.{
  Floats, PromotionCriteria, ValidationSliceEvidence, is_unique, slice_key,
}
use marketpilot.Promotion.Gate.{
  FrozenValidationReport, GateRequest, all_failures, by_key, evaluate_promotion_gate, is_empty,
  report_of, slice_failures,
}

is_empty-append : (xs ys : List String) → is_empty (xs ++ ys) ≡ (is_empty xs && is_empty ys)
is_empty-append [] ys = refl
is_empty-append (x ∷ xs) ys = refl

insert-filled : (x : String) (xs : List String) → is_empty (insert (λ s. s) x xs) ≡ false
unfolding insert
insert-filled x [] = refl
insert-filled x (y ∷ ys) = ground arith

-- Sorting neither loses the last failure nor makes one up.
sort-filled : (xs : List String) → is_empty (sort (λ s. s) xs) ≡ is_empty xs
unfolding sort
sort-filled [] = refl
sort-filled (x ∷ xs) = insert-filled x (sort (λ s. s) xs)

is_empty-nil : (xs : List String) → (is_empty xs ≡ true) ↔ (xs ≡ [])
is_empty-nil [] = (λ _. refl, λ _. refl)
is_empty-nil (x ∷ xs) = (λ h. absurd (false≢true h), λ h. ap is_empty h)

and_true : (a b : Bool) → a ≡ true → b ≡ true → (a && b) ≡ true
and_true a b p q = ground (arith, p, q)

unique_head :
    (k : String × String) (ks : List (String × String))
    → is_unique (k ∷ ks) ≡ true
    → (contains k ks ≡ false) × (is_unique ks ≡ true)
unique_head k ks h = ground (arith, h)

get_nothing : {V : Type 0} (k : String × String) (v : V) → get [] k ≡ some v → ⊥
unfolding get
get_nothing k v h = ground (arith, h)

get-put_self :
    {V : Type 0} (d : Dict (String × String) V) (k : String × String) (v : V)
    → get (put d k v) k ≡ some v
get-put_self d k v = ground (arith, get-put d k k v, equal_self k)

module _ {W : Type 0} where
  abbrev pub IsAmong : ValidationSliceEvidence W → List (ValidationSliceEvidence W) → Type 0
  IsAmong x [] = ⊥
  IsAmong x (y ∷ ys) = (y ≡ x) ⊎ IsAmong x ys

  by_key_outside :
      (xs : List (ValidationSliceEvidence W))
      (d : Dict (String × String) (ValidationSliceEvidence W)) (k : String × String)
      → contains k (map slice_key xs) ≡ false
      → get (by_key xs d) k ≡ get d k
  unfolding by_key
  by_key_outside [] d k h = refl
  by_key_outside (x ∷ xs) d k h = ground (
    arith,
    by_key_outside xs (put d (slice_key x) x) k,
    get-put d (slice_key x) k x,
    pair_key.equal_iff k (slice_key x),
    pair_key.equal_iff (slice_key x) k,
  )

  -- The dictionary holds each of the slices, where their keys are unique, ...
  by_key_among :
      (xs : List (ValidationSliceEvidence W))
      (d : Dict (String × String) (ValidationSliceEvidence W)) (x : ValidationSliceEvidence W)
      → is_unique (map slice_key xs) ≡ true
      → IsAmong x xs
      → get (by_key xs d) (slice_key x) ≡ some x
  unfolding by_key
  by_key_among [] d x u h = absurd h
  by_key_among (y ∷ ys) d x u (inl e) =
      let new = put d (slice_key y) y in
      let there =
        by_key_outside ys new (slice_key y) (unique_head (slice_key y) (map slice_key ys) u).0 in
      subst (λ z. get (by_key ys new) (slice_key z) ≡ some z) e
        (there ∙ get-put_self d (slice_key y) y)
  by_key_among (y ∷ ys) d x u (inr h) =
      by_key_among ys (put d (slice_key y) y) x (unique_head (slice_key y) (map slice_key ys) u).1 h

  -- ... and nothing else.
  by_key-IsAmong :
      (xs : List (ValidationSliceEvidence W))
      (d : Dict (String × String) (ValidationSliceEvidence W)) (k : String × String)
      (x : ValidationSliceEvidence W)
      → get (by_key xs d) k ≡ some x
      → (IsAmong x xs × (slice_key x ≡ k)) ⊎ (get d k ≡ some x)
  unfolding by_key
  by_key-IsAmong [] d k x h = inr h
  by_key-IsAmong (y ∷ ys) d k x h = elim (by_key-IsAmong ys (put d (slice_key y) y) k x h) [
    | inl a ↦ inl (inr a.0, a.1)
    | inr g ↦ elim (put-cases d (slice_key y) k y x g) [
      | inl e ↦ inl (inl e.1, ap slice_key (sym e.1) ∙ e.0)
      | inr old ↦ inr old
    ]
  ]

module _ {W : Type 0} (f : Floats W) (c : PromotionCriteria W) where
  -- The evidence of a slice is within every threshold of the criteria.
  abbrev pub IsWithin : ValidationSliceEvidence W → Type 0
  IsWithin x =
      (c.minimum_samples_per_slice ≤ x.sample_count)
      × (f.lt c.maximum_expiry_cross_rate x.expiry_cross_rate ≡ false)
      × (f.lt c.maximum_touch_rate x.touch_rate ≡ false)
      × (f.lt c.maximum_cvar x.cvar ≡ false)
      × (f.lt c.maximum_drawdown x.maximum_drawdown ≡ false)
      × (f.lt x.no_trade_pnl_difference c.minimum_no_trade_pnl_difference ≡ false)

  -- A required slice has evidence, which is within every threshold.
  abbrev pub IsMet : List (ValidationSliceEvidence W) → String × String → Type 0
  IsMet xs k = (x : ValidationSliceEvidence W) × IsAmong x xs × (slice_key x ≡ k) × IsWithin x

  slice_failures-empty :
      (p : String) (x : ValidationSliceEvidence W)
      → (is_empty (slice_failures f c p (some x)) ≡ true) ↔ IsWithin x
  unfolding slice_failures
  slice_failures-empty p x = ground arith

  missing_fails : (p : String) → is_empty (slice_failures f c p none) ≡ true → ⊥
  unfolding slice_failures
  missing_fails p h = false≢true h

  slice_judgement :
      (xs : List (ValidationSliceEvidence W)) (p : String) (k : String × String)
      → is_unique (map slice_key xs) ≡ true
      → (is_empty (slice_failures f c p (get (by_key xs []) k)) ≡ true) ↔ IsMet xs k
  slice_judgement xs p k u = (
    λ h. elim (Option-cases (get (by_key xs []) k)) [
      | inl n ↦ absurd (missing_fails p (subst (λ o. is_empty (slice_failures f c p o) ≡ true) n h))
      | inr (x, e) ↦ elim (by_key-IsAmong xs [] k x e) [
        | inl (a, q) ↦ (
          x,
          a,
          q,
          (slice_failures-empty p x).0 (subst (λ o. is_empty (slice_failures f c p o) ≡ true) e h),
        )
        | inr old ↦ absurd (get_nothing k x old)
      ]
    ],
    λ (x, a, q, w).
        let there = subst (λ j. get (by_key xs []) j ≡ some x) q (by_key_among xs [] x u a) in
        subst (λ o. is_empty (slice_failures f c p o) ≡ true) (sym there)
          ((slice_failures-empty p x).1 w),
  )

  all_failures-empty :
      (xs : List (ValidationSliceEvidence W)) (ks : List (String × String))
      → is_unique (map slice_key xs) ≡ true
      → (is_empty (all_failures f c (by_key xs []) ks) ≡ true) ↔ All (IsMet xs) ks
  unfolding all_failures
  all_failures-empty xs [] u = (λ _. tt, λ _. refl)
  all_failures-empty xs (k ∷ ks) u =
      let here =
        slice_failures f c (text_append k.0 (text_append "/" k.1)) (get (by_key xs []) k) in
      let rest = all_failures f c (by_key xs []) ks in
      let first = slice_judgement xs (text_append k.0 (text_append "/" k.1)) k u in
      let others = all_failures-empty xs ks u in
      (
        λ h.
            let parts =
              and_parts (is_empty here) (is_empty rest) (sym (is_empty-append here rest) ∙ h) in
            (first.0 parts.0, others.0 parts.1),
        λ m.
            is_empty-append here rest
            ∙ and_true (is_empty here) (is_empty rest) (first.1 m.0) (others.1 m.1),
      )

-- A candidate passes exactly when every slice that the criteria require has evidence in the holdout,
-- and that evidence is within each of the thresholds; and the report's list of failures is empty in
-- exactly the same cases, so that a report that does not pass names a failure.
pub passed_exactly :
    {W : Type 0} (f : Floats W) (py : Platform) (c : PromotionCriteria W) (q : GateRequest W)
    (r : FrozenValidationReport W)
    → evaluate_promotion_gate f py c q ≡ ok r
    → ((r.passed ≡ true) ↔ All (IsMet f c q.slices) c.required_slices)
      × ((r.failures ≡ []) ↔ All (IsMet f c q.slices) c.required_slices)
unfolding report_of
passed_exactly f py c q r h =
    let (t, u, known, ordered, made) = evaluated_at_instants f py c q r h in
    let same = ap (λ x. x.passed) made in
    let verdict = all_failures-empty f c q.slices c.required_slices ordered.3 in
    let named = ap (λ x. is_empty x.failures) made ∙ sort-filled _ in
    (
      (λ p. verdict.0 (sym same ∙ p), λ m. same ∙ verdict.1 m),
      (
        λ n. verdict.0 (sym named ∙ (is_empty-nil r.failures).1 n),
        λ m. (is_empty-nil r.failures).0 (named ∙ verdict.1 m),
      ),
    )
