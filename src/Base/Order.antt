-- ===== src/Base/Order.antt =====
-- Python's `<=` on keys of a sort: a total order, as an interface. Texts are compared by code
-- points, tuples from the left.
use Prim.Native.Nat.{ℕ, compare, Ordering}
use Prim.Native.Char.{code}
use Prim.Native.String.{String}
use mathlib.Core.Path.{◌≡◌, refl}
use mathlib.Core.Bool.{Bool, true, false, not, ◌&&◌, ◌||◌}
use native.Mathlib.Omega.{arith}
use text.Mathlib.TextEquality.{codes_equal}
use marketpilot.Base.Tests.{leb}

pub record Order {ℓ} (K : Type ℓ) : Type ℓ where
  pub le : K → K → Bool
  pub le_trans : (i j k : K) → le i j ≡ true → le j k ≡ true → le i k ≡ true
  pub le_total : (j k : K) → le j k ≡ false → le k j ≡ true
  pub le_antisymm : (j k : K) → le j k ≡ true → le k j ≡ true → j ≡ k

infix 50 ◌≼◌
abbrev pub ◌≼◌ {ℓ} : {K : Type ℓ} ⦃o : Order K⦄ → K → K → Bool
◌≼◌ ⦃o⦄ = o.le

pub ≼_refl {ℓ} : {K : Type ℓ} ⦃o : Order K⦄ (k : K) → (k ≼ k) ≡ true
≼_refl ⦃o⦄ k = ground (arith, o.le_total k k)

pub ≼_trans {ℓ} :
    {K : Type ℓ} ⦃o : Order K⦄ (i j k : K) → (i ≼ j) ≡ true → (j ≼ k) ≡ true → (i ≼ k) ≡ true
≼_trans ⦃o⦄ = o.le_trans

pub ≼_total {ℓ} : {K : Type ℓ} ⦃o : Order K⦄ (j k : K) → (j ≼ k) ≡ false → (k ≼ j) ≡ true
≼_total ⦃o⦄ = o.le_total

pub nat_le_trans : (i j k : ℕ) → leb i j ≡ true → leb j k ≡ true → leb i k ≡ true
nat_le_trans i j k p q = ground arith

pub nat_le_total : (j k : ℕ) → leb j k ≡ false → leb k j ≡ true
nat_le_total j k p = ground arith

pub nat_le_antisymm : (j k : ℕ) → leb j k ≡ true → leb k j ≡ true → j ≡ k
nat_le_antisymm j k p q = ground arith

instance abbrev pub nat_order : Order ℕ
nat_order = record {
  le = leb;
  le_trans = nat_le_trans;
  le_total = nat_le_total;
  le_antisymm = nat_le_antisymm;
}

-- `s <= t` on texts
unfoldable pub text_le : String → String → Bool
text_le String.[] t = true
text_le (String.◌∷◌ c s) String.[] = false
text_le (String.◌∷◌ c s) (String.◌∷◌ d t) =
    let rest = text_le s t in
    elim (compare (code c) (code d)) [
      | Ordering.lt ↦ true
      | Ordering.gt ↦ false
      | Ordering.eq ↦ rest
    ]

pub text_le_trans : (r s t : String) → text_le r s ≡ true → text_le s t ≡ true → text_le r t ≡ true
unfolding text_le
text_le_trans String.[] s t p q = refl
text_le_trans (String.◌∷◌ c r) String.[] t p q = cc
text_le_trans (String.◌∷◌ c r) (String.◌∷◌ d s) String.[] p q = cc
text_le_trans (String.◌∷◌ c r) (String.◌∷◌ d s) (String.◌∷◌ e t) p q =
    ground (arith, text_le_trans r s t)

pub text_le_total : (s t : String) → text_le s t ≡ false → text_le t s ≡ true
unfolding text_le
text_le_total String.[] t p = cc
text_le_total (String.◌∷◌ c s) String.[] p = refl
text_le_total (String.◌∷◌ c s) (String.◌∷◌ d t) p = ground (arith, text_le_total s t)

pub text_le_antisymm : (s t : String) → text_le s t ≡ true → text_le t s ≡ true → s ≡ t
unfolding text_le
text_le_antisymm String.[] String.[] p q = refl
text_le_antisymm String.[] (String.◌∷◌ d t) p q = cc
text_le_antisymm (String.◌∷◌ c s) String.[] p q = cc
text_le_antisymm (String.◌∷◌ c s) (String.◌∷◌ d t) p q =
    ground (arith, text_le_antisymm s t, codes_equal c d)

instance abbrev pub text_order : Order String
text_order = record {
  le = text_le;
  le_trans = text_le_trans;
  le_total = text_le_total;
  le_antisymm = text_le_antisymm;
}

module _ {ℓ κ} {J : Type ℓ} {K : Type κ} ⦃oj : Order J⦄ ⦃ok : Order K⦄ where
  abbrev pub pair_le : J × K → J × K → Bool
  pair_le (a, b) (c, d) = (a ≼ c) && (not (c ≼ a) || (b ≼ d))

  pub pair_le_trans : (p q r : J × K) → pair_le p q ≡ true → pair_le q r ≡ true → pair_le p r ≡ true
  pair_le_trans (a, b) (c, d) (e, f) h k =
      ground (arith, oj.le_trans a c e, oj.le_trans e a c, oj.le_trans c e a, ok.le_trans b d f)

  pub pair_le_total : (p q : J × K) → pair_le p q ≡ false → pair_le q p ≡ true
  pair_le_total (a, b) (c, d) h = ground (arith, oj.le_total a c, ok.le_total b d)

  pub pair_le_antisymm : (p q : J × K) → pair_le p q ≡ true → pair_le q p ≡ true → p ≡ q
  pair_le_antisymm (a, b) (c, d) h k = ground (arith, oj.le_antisymm a c, ok.le_antisymm b d)

  instance abbrev pub pair_order : Order (J × K)
  pair_order = record {
    le = pair_le;
    le_trans = pair_le_trans;
    le_total = pair_le_total;
    le_antisymm = pair_le_antisymm;
  }

-- `reverse=True`, which keeps equal keys in their order.
abbrev pub flipped_order : Order ℕ
flipped_order = record {
  le = λ j k. leb k j;
  le_trans = λ i j k p q. nat_le_trans k j i q p;
  le_total = λ j k. nat_le_total k j;
  le_antisymm = λ j k p q. nat_le_antisymm j k q p;
}
