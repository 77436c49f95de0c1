-- ===== src/Base/Fallible.antt =====
-- Functions that may raise and change no object.
use mathlib.Core.Path.{◌≡◌, refl}
use mathlib.Core.Bool.{Bool, false}
use native.Mathlib.Omega.{arith}
use marketpilot.Base.Tests.{if◌then◌else◌}
use marketpilot.Base.Monad.{Result, ok, err}

infixl 5 ◌>>=◌ ◌>>◌
abbrev pub ◌>>=◌ : {E A B : Type 0} → Result E A → (A → Result E B) → Result E B
ok a >>= f = f a
err e >>= f = err e

abbrev pub ◌>>◌ : {E B : Type 0} → Result E (Unit {0}) → Result E B → Result E B
m >> k = m >>= λ _. k

-- `if c: raise e`
abbrev pub refuse_if : {E : Type 0} → Bool → E → Result E (Unit {0})
refuse_if c e = if c then err e else ok tt

-- What follows a test that was passed
pub refuse_if_passed :
    {E B : Type 0} (c : Bool) (e : E) (k : Result E B) (x : B)
    → refuse_if c e >> k ≡ ok x
    → (c ≡ false) × (k ≡ ok x)
refuse_if_passed c e k x h = ground arith

-- The result that a chain goes on with
pub bound :
    {E A B : Type 0} (m : Result E A) (f : A → Result E B) (x : B)
    → m >>= f ≡ ok x
    → (a : A) × (m ≡ ok a) × (f a ≡ ok x)
bound (ok a) f x h = (a, refl, h)
bound (err e) f x h = ground arith

pub ok-injective : {E A : Type 0} {x y : A} → Path (Result E A) (ok x) (ok y) → x ≡ y
ok-injective h = ground arith

pub bind_same :
    {E A B : Type 0} (m : Result E A) (f g : A → Result E B)
    → ((a : A) → f a ≡ g a)
    → m >>= f ≡ m >>= g
bind_same (ok a) f g h = h a
bind_same (err e) f g h = refl
