-- ===== src/Base/Monad.antt =====
-- Calls that may raise, and methods that also change an object. What was written before a raise
-- stays written, so the object comes back beside the exception too.
use mathlib.Core.Bool.{Bool}
use mathlib.Core.Option.{Option, none, some}
use mathlib.Core.Path.{◌≡◌, refl}
use mathlib.Core.Logic.{◌⊎◌, inl, inr}
use marketpilot.Base.Tests.{if◌then◌else◌}

pub data Result (E A : Type 0) : Type 0 where
  ok : A → Result E A
  err : E → Result E A

pub Result-cases :
    {E A : Type 0} (r : Result E A) → ((a : A) × (r ≡ ok a)) ⊎ ((e : E) × (r ≡ err e))
Result-cases (ok a) = inl (a, refl)
Result-cases (err e) = inr (e, refl)

abbrev pub Exec : Type 0 → Type 0 → Type 0 → Type 0
Exec S E A = S → Result E A × S

module _ {S E A : Type 0} where
  abbrev pub pure : A → Exec S E A
  pure a s = (ok a, s)

  abbrev pub raise : E → Exec S E A
  raise e s = (err e, s)

  abbrev pub lift : Result E A → Exec S E A
  lift r s = (r, s)

  abbrev pub gets : (S → A) → Exec S E A
  gets f s = (ok (f s), s)

  abbrev pub or_raise : Option A → E → Exec S E A
  or_raise none e = raise e
  or_raise (some a) _ = pure a

abbrev pub raise_if : {S E : Type 0} → Bool → E → Exec S E (Unit {0})
raise_if c e s = (if c then err e else ok tt, s)

abbrev pub modify : {S E : Type 0} → (S → S) → Exec S E (Unit {0})
modify f s = (ok tt, f s)

abbrev continued : {S E A B : Type 0} → Result E A × S → (A → Exec S E B) → Result E B × S
continued (ok a, s) f = f a s
continued (err e, s) f = (err e, s)

infixl 5 ◌>>=◌ ◌>>◌
abbrev pub ◌>>=◌ : {S E A B : Type 0} → Exec S E A → (A → Exec S E B) → Exec S E B
◌>>=◌ m f s = continued (m s) f

abbrev pub ◌>>◌ : {S E A B : Type 0} → Exec S E A → Exec S E B → Exec S E B
m >> k = m >>= λ _. k

continued-ok :
    {S E A B : Type 0} (r : Result E A × S) (f : A → Exec S E B) (b : B)
    → (continued r f).0 ≡ ok b
    → (a : A) × (r.0 ≡ ok a) × ((f a r.1).0 ≡ ok b)
continued-ok (ok a, s) f b h = (a, refl, h)
continued-ok (err e, s) f b h = cc h

-- A chain that returned went through its first call.
pub bind-ok :
    {S E A B : Type 0} (m : Exec S E A) (f : A → Exec S E B) (s : S) (b : B)
    → ((m >>= f) s).0 ≡ ok b
    → (a : A) × ((m s).0 ≡ ok a) × ((f a (m s).1).0 ≡ ok b)
bind-ok m f s b h = continued-ok (m s) f b h
