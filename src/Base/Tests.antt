-- ===== src/Base/Tests.antt =====
-- Boolean tests, the conditional, and equality as an interface.
use Prim.Native.Nat.{ℕ, ◌≤◌, ◌<◌, compare, Ordering}
use Prim.Native.String.{String}
use mathlib.Core.Path.{◌≡◌, refl}
use mathlib.Core.Logic.{◌↔◌, ◌⊎◌, inl, inr}
use mathlib.Core.Bool.{false≢true, Bool, true, false, ◌&&◌}
use mathlib.Core.Option.{Option, none, some}
use native.Mathlib.Omega.{arith}
use text.Mathlib.Text.{◌==◌ as text_eq}
use text.Mathlib.TextEquality.{eq_iff}

abbrev pub ltb : ℕ → ℕ → Bool
ltb a b = elim (compare a b) [ Ordering.lt ↦ true | _ ↦ false ]

abbrev pub leb : ℕ → ℕ → Bool
leb a b = elim (compare a b) [ Ordering.gt ↦ false | _ ↦ true ]

abbrev pub nat_eq : ℕ → ℕ → Bool
nat_eq a b = elim (compare a b) [ Ordering.eq ↦ true | _ ↦ false ]

infix 1 if◌then◌else◌
abbrev pub if◌then◌else◌ {ℓ} : {A : Type ℓ} → Bool → A → A → A
if true then x else _ = x
if false then _ else y = y

abbrev pub is_some {ℓ} : {A : Type ℓ} → Option A → Bool
is_some none = false
is_some (some _) = true

pub le→leb : (a b : ℕ) → a ≤ b → leb a b ≡ true
le→leb a b h = ground (arith, h)

pub lt→leb : (a b : ℕ) → a < b → leb b a ≡ false
lt→leb a b h = ground (arith, h)

pub leb→lt : (a b : ℕ) → leb b a ≡ false → a < b
leb→lt a b h = ground (arith, h)

pub and_parts : (a b : Bool) → (a && b) ≡ true → (a ≡ true) × (b ≡ true)
and_parts a b h = ground (arith, h)

pub nat_eq_iff : (a b : ℕ) → (nat_eq a b ≡ true) ↔ (a ≡ b)
nat_eq_iff a b = ground arith

pub Bool-cases : (b : Bool) → (b ≡ true) ⊎ (b ≡ false)
Bool-cases true = inl refl
Bool-cases false = inr refl

pub Option-cases {ℓ} : {A : Type ℓ} (o : Option A) → (o ≡ none) ⊎ ((a : A) × (o ≡ some a))
Option-cases none = inl refl
Option-cases (some a) = inr (a, refl)

pub some_of {ℓ} : {A : Type ℓ} (o : Option A) → is_some o ≡ true → (a : A) × (o ≡ some a)
some_of none h = absurd (false≢true h)
some_of (some a) h = (a, refl)

-- What a `dict` or a `set` asks of its keys.
pub record Key {ℓ} (K : Type ℓ) : Type ℓ where
  pub equal : K → K → Bool
  pub equal_iff : (j k : K) → (equal j k ≡ true) ↔ (j ≡ k)

module _ {ℓ} {K : Type ℓ} ⦃key : Key K⦄ where
  infix 50 ◌==◌
  -- Python's `==` on keys
  abbrev pub ◌==◌ : K → K → Bool
  j == k = key.equal j k

  pub equal_self : (k : K) → (k == k) ≡ true
  equal_self k = (key.equal_iff k k).1 refl

instance abbrev pub text_key : Key String
text_key = record { equal = text_eq; equal_iff = eq_iff }

instance abbrev pub nat_key : Key ℕ
nat_key = record { equal = nat_eq; equal_iff = nat_eq_iff }

-- A tuple of two texts as a key.
abbrev pub pair_eq : String × String → String × String → Bool
pair_eq (a, b) (c, d) = text_eq a c && text_eq b d

pub pair_eq_iff : (p q : String × String) → (pair_eq p q ≡ true) ↔ (p ≡ q)
pair_eq_iff (a, b) (c, d) = ground (arith, eq_iff a c, eq_iff b d)

instance abbrev pub pair_key : Key (String × String)
pair_key = record { equal = pair_eq; equal_iff = pair_eq_iff }
