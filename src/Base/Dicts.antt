-- ===== src/Base/Dicts.antt =====
-- Python's `dict`, in insertion order.
use mathlib.Core.Path.{◌≡◌, refl}
use mathlib.Core.Logic.{◌⊎◌}
use mathlib.Core.Option.{Option, none, some}
use mathlib.Core.List.{List, [], ◌∷◌, map}
use native.Mathlib.Omega.{arith}
use marketpilot.Base.Tests.{if◌then◌else◌, is_some, Key, ◌==◌, equal_self}

abbrev pub Dict {ℓ κ} : Type ℓ → Type κ → Type (ℓ ⊔ κ)
Dict K V = List (K × V)

-- `d.values()`
abbrev pub values : {K V : Type 0} → Dict K V → List V
values d = map (λ e. e.1) d

module _ {K V : Type 0} ⦃key : Key K⦄ where
  -- `d.get(k)`
  unfoldable pub get : Dict K V → K → Option V
  get [] k = none
  get ((j, v) ∷ d) k = if j == k then some v else get d k

  -- `d[k] = v`: an old key keeps its place.
  unfoldable pub put : Dict K V → K → V → Dict K V
  put [] k v = (k, v) ∷ []
  put ((j, w) ∷ d) k v = if j == k then (j, v) ∷ d else (j, w) ∷ put d k v

  -- `d.pop(k, None)`
  unfoldable pub pop : Dict K V → K → Dict K V
  pop [] k = []
  pop ((j, w) ∷ d) k = let rest = pop d k in if j == k then rest else (j, w) ∷ rest

  -- `d.setdefault(k, v)`
  unfoldable pub setdefault : Dict K V → K → V → Dict K V
  unfolding get put
  setdefault d k v = if is_some (get d k) then d else put d k v

  pub get-put :
      (d : Dict K V) (k j : K) (v : V) → get (put d k v) j ≡ (if k == j then some v else get d j)
  unfolding get put
  get-put [] k j v = refl
  get-put ((i, w) ∷ d) k j v =
      ground (arith, get-put d k j v, key.equal_iff i k, key.equal_iff i j, key.equal_iff k j)

  pub put-cases :
      (d : Dict K V) (k j : K) (v w : V)
      → get (put d k v) j ≡ some w
      → ((k ≡ j) × (v ≡ w)) ⊎ (get d j ≡ some w)
  put-cases d k j v w h = ground (arith, get-put d k j v, key.equal_iff k j)

  -- What was there under another key is there.
  pub put_keeps :
      (d : Dict K V) (k j : K) (v w : V)
      → get d k ≡ none
      → get d j ≡ some w
      → get (put d k v) j ≡ some w
  put_keeps d k j v w n h = ground (arith, get-put d k j v, key.equal_iff k j)

  pub get-pop : (d : Dict K V) (k j : K) → get (pop d k) j ≡ (if k == j then none else get d j)
  unfolding get pop
  get-pop [] k j = ground arith
  get-pop ((i, w) ∷ d) k j =
      ground (arith, get-pop d k j, key.equal_iff i k, key.equal_iff i j, key.equal_iff k j)

  pub get-setdefault :
      (d : Dict K V) (k j : K) (v : V)
      → get (setdefault d k v) j
        ≡ (if is_some (get d k) then get d j else if k == j then some v else get d j)
  unfolding setdefault
  get-setdefault d k j v = ground (arith, get-put d k j v)

module _ {K V : Type 0} ⦃key : Key K⦄ where
  -- What was there before `setdefault` is there after it.
  pub get-setdefault_kept :
      (d : Dict K V) (k j : K) (v w : V) → get d j ≡ some w → get (setdefault d k v) j ≡ some w
  get-setdefault_kept d k j v w h = ground (arith, get-setdefault d k j v, key.equal_iff k j)

pub ruleset dict_laws = (get-put, get-pop, get-setdefault, equal_self)
