-- ===== src/Base/Keyed.antt =====
-- What a `dict` keeps: each key stands once. Its entries, and its entries in the order of the keys.
use mathlib.Core.Path.{◌≡◌, refl, sym, subst, ◌∙◌}
use mathlib.Core.Option.{none, some}
use mathlib.Core.List.{List, [], ◌∷◌, ◌++◌, map}
use mathlib.Core.Logic.{inl, inr}
use native.Mathlib.Omega.{arith}
use marketpilot.Base.Tests.{Bool-cases, is_some, if◌then◌else◌, Key, ◌==◌}
use marketpilot.Base.Lists.{All, contains}
use marketpilot.Base.Dicts.{Dict, get, put, values, get-put}
use marketpilot.Base.Order.{Order}
use marketpilot.Base.Sort.{insert, sort}

-- What follows pointwise from one predicate to another.
pub All-map {ℓ κ μ} :
    {A : Type ℓ} (P : A → Type κ) (Q : A → Type μ)
    → ((a : A) → P a → Q a)
    → (xs : List A) → All P xs
    → All Q xs
All-map P Q f [] h = tt
All-map P Q f (x ∷ xs) (px, h) = (f x px, All-map P Q f xs h)

pub All-append {ℓ κ} :
    {A : Type ℓ} (P : A → Type κ) (xs ys : List A) → All P xs → All P ys → All P (xs ++ ys)
All-append P [] ys h k = k
All-append P (x ∷ xs) ys (px, h) k = (px, All-append P xs ys h k)

pub append-nil_parts {ℓ} : {A : Type ℓ} (xs ys : List A) → xs ++ ys ≡ [] → (xs ≡ []) × (ys ≡ [])
append-nil_parts [] ys h = (refl, h)
append-nil_parts (x ∷ xs) ys h = cc

pub All-zip {ℓ κ μ} :
    {A : Type ℓ} (P : A → Type κ) (Q : A → Type μ) (xs : List A)
    → All P xs
    → All Q xs
    → All (λ x. P x × Q x) xs
All-zip P Q [] h k = tt
All-zip P Q (x ∷ xs) (px, h) (qx, k) = ((px, qx), All-zip P Q xs h k)

pub All-values {κ} :
    {K V : Type 0} (P : V → Type κ) (d : Dict K V) → All (λ e. P e.1) d → All P (values d)
All-values P [] h = tt
All-values P (e ∷ d) (pe, h) = (pe, All-values P d h)

pub All-keys {κ} :
    {K V : Type 0} (P : K → Type κ) (d : Dict K V)
    → All (λ e. P e.0) d
    → All P (map (λ (e : K × V). e.0) d)
All-keys P [] h = tt
All-keys P (e ∷ d) (pe, h) = (pe, All-keys P d h)

pub All-of_values {κ} :
    {K V : Type 0} (P : V → Type κ) (d : Dict K V) → All P (values d) → All (λ e. P e.1) d
All-of_values P [] h = tt
All-of_values P (e ∷ d) (pe, h) = (pe, All-of_values P d h)

module _ {K V : Type 0} ⦃key : Key K⦄ where
  abbrev pub IsKeyed : Dict K V → Type 0
  IsKeyed [] = Unit
  IsKeyed (e ∷ d) = (get d e.0 ≡ none) × IsKeyed d

  pub IsKeyed-put : (d : Dict K V) (k : K) (v : V) → IsKeyed d → IsKeyed (put d k v)
  unfolding put get
  IsKeyed-put [] k v h = (refl, tt)
  IsKeyed-put ((j, w) ∷ d) k v (hj, h) =
      ground (arith, IsKeyed-put d k v h, get-put d k j v, key.equal_iff j k, key.equal_iff k j)

  pub All-put :
      (P : K × V → Type 0) (d : Dict K V) (k : K) (v : V) → All P d → P (k, v) → All P (put d k v)
  unfolding put
  All-put P [] k v h p = (p, tt)
  All-put P ((j, w) ∷ d) k v (pj, h) p = elim (Bool-cases (j == k)) [
    | inl e ↦ rw e (subst (λ i. P (i, v)) (sym ((key.equal_iff j k).0 e)) p, h)
    | inr e ↦ rw e (pj, All-put P d k v h p)
  ]

  pub values-put_new :
      (d : Dict K V) (k : K) (v : V) → get d k ≡ none → values (put d k v) ≡ values d ++ v ∷ []
  unfolding get put
  values-put_new [] k v h = refl
  values-put_new ((j, w) ∷ d) k v h = ground (arith, values-put_new d k v)

  pub put_same : (d : Dict K V) (k : K) (v : V) → get d k ≡ some v → put d k v ≡ d
  unfolding get put
  put_same [] k v h = cc
  put_same ((j, w) ∷ d) k v h = ground (arith, put_same d k v)

  get_later :
      (d : Dict K V) (j : K) (w : V)
      → get d j ≡ none
      → (e : K × V) → get d e.0 ≡ some e.1
      → get ((j, w) ∷ d) e.0 ≡ some e.1
  unfolding get
  get_later d j w h (k, v) p = ground (arith, key.equal_iff j k)

  -- Every entry is what a lookup of its key finds.
  pub All-get : (d : Dict K V) → IsKeyed d → All (λ e. get d e.0 ≡ some e.1) d
  unfolding get
  All-get [] h = tt
  All-get ((j, w) ∷ d) (hj, h) =
      (ground (arith, key.equal_iff j j), All-map _ _ (get_later d j w hj) d (All-get d h))

  -- `k in d`
  pub contains-keys :
      (d : Dict K V) (k : K) → contains k (map (λ (e : K × V). e.0) d) ≡ is_some (get d k)
  unfolding get
  contains-keys [] k = refl
  contains-keys ((j, w) ∷ d) k =
      ground (arith, contains-keys d k, key.equal_iff j k, key.equal_iff k j)

  pub get_of_All :
      (P : K × V → Type 0) (d : Dict K V) (k : K) (v : V) → All P d → get d k ≡ some v → P (k, v)
  unfolding get
  get_of_All P [] k v h g = cc
  get_of_All P ((j, w) ∷ d) k v (pj, h) g = elim (Bool-cases (j == k)) [
    | inl e ↦ let same : (j, w) ≡ (k, v) = ground (arith, key.equal_iff j k) in subst P same pj
    | inr e ↦ get_of_All P d k v h (rw e at g)
  ]

module _ {K V : Type 0} ⦃key : Key K⦄ ⦃o : Order K⦄ where
  abbrev key_of : K × V → K
  key_of e = e.0

  get-insert :
      (e : K × V) (d : Dict K V) (k : K)
      → get d e.0 ≡ none
      → get (insert key_of e d) k ≡ (if e.0 == k then some e.1 else get d k)
  unfolding get insert
  get-insert e [] k h = refl
  get-insert (i, v) ((j, w) ∷ d) k h = ground (
    arith,
    get-insert (i, v) d k,
    key.equal_iff i k,
    key.equal_iff j i,
    key.equal_iff j k,
    key.equal_iff i j,
  )

  IsKeyed-insert :
      (e : K × V) (d : Dict K V) → get d e.0 ≡ none → IsKeyed d → IsKeyed (insert key_of e d)
  unfolding get insert
  IsKeyed-insert e [] h k = ground arith
  IsKeyed-insert (i, v) ((j, w) ∷ d) h (hj, k) =
      ground (
        arith,
        IsKeyed-insert (i, v) d,
        get-insert (i, v) d j,
        key.equal_iff j i,
        key.equal_iff i j,
      )

  get-IsKeyed-sort :
      (d : Dict K V)
      → IsKeyed d
      → IsKeyed (sort key_of d) × ((k : K) → get (sort key_of d) k ≡ get d k)
  unfolding get sort
  get-IsKeyed-sort [] h = (tt, λ k. refl)
  get-IsKeyed-sort (e ∷ d) (he, h) =
      let (keyed, same) = get-IsKeyed-sort d h in
      (
        IsKeyed-insert e (sort key_of d) (same e.0 ∙ he) keyed,
        λ k. ground (arith, get-insert e (sort key_of d) k, same k, same e.0),
      )

  pub IsKeyed-sort : (d : Dict K V) → IsKeyed d → IsKeyed (sort (λ (e : K × V). e.0) d)
  IsKeyed-sort d h = (get-IsKeyed-sort d h).0

  pub get-sort : (d : Dict K V) (k : K) → IsKeyed d → get (sort (λ (e : K × V). e.0) d) k ≡ get d k
  get-sort d k h = (get-IsKeyed-sort d h).1 k
