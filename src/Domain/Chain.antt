-- ===== src/Domain/Chain.antt =====
-- Ledgers that chain their entries by digests: what the last digest says of the whole ledger. The
-- ledgers of ingest/cost_ledger.py and services/readiness.py fill this interface.
use marketpilot.Base.{
  and_parts, text_key, Bool, Bool-cases, List, String, [], ap, arith, eq_iff, false, inl, inr,
  length, nat_eq, refl, sym, true, ◌&&◌, ◌++◌, ◌==◌, ◌∙◌, ◌∷◌, ◌≡◌, ◌≢◌, ◌⊎◌,
}
use marketpilot.Domain.Snapshot.{
  Json, null, flag, text, number, float, instant, day, list, object, Items, nil, cons, Fields,
  field, end, Platform, freeze_snapshot,
}

abbrev flag_eq : Bool → Bool → Bool
flag_eq true true = true
flag_eq false false = true
flag_eq _ _ = false

mutual
  json_eq : Json → Json → Bool
  json_eq null null = true
  json_eq (flag a) (flag b) = flag_eq a b
  json_eq (text a) (text b) = a == b
  json_eq (number a) (number b) = nat_eq a b
  json_eq (float a) (float b) = a == b
  json_eq (instant a) (instant b) = nat_eq a b
  json_eq (day a) (day b) = nat_eq a b
  json_eq (list a) (list b) = items_eq a b
  json_eq (object a) (object b) = fields_eq a b
  json_eq _ _ = false

  items_eq : Items → Items → Bool
  items_eq nil nil = true
  items_eq (cons a as_) (cons b bs) = json_eq a b && items_eq as_ bs
  items_eq _ _ = false

  fields_eq : Fields → Fields → Bool
  fields_eq end end = true
  fields_eq (field j a as_) (field k b bs) = (j == k) && (json_eq a b && fields_eq as_ bs)
  fields_eq _ _ = false

mutual
  unfolding json_eq items_eq fields_eq

  json_eq_sound : (a b : Json) → json_eq a b ≡ true → a ≡ b
  json_eq_sound null b h = ground arith
  json_eq_sound (flag a) b h = ground arith
  json_eq_sound (text a) (text b) h = ground (arith, eq_iff a b)
  json_eq_sound (number a) b h = ground arith
  json_eq_sound (float a) (float b) h = ground (arith, eq_iff a b)
  json_eq_sound (instant a) b h = ground arith
  json_eq_sound (day a) b h = ground arith
  json_eq_sound (list a) (list b) h = ap list (items_eq_sound a b h)
  json_eq_sound (object a) (object b) h = ap object (fields_eq_sound a b h)
  json_eq_sound a b h = ground arith

  items_eq_sound : (a b : Items) → items_eq a b ≡ true → a ≡ b
  items_eq_sound nil b h = ground arith
  items_eq_sound (cons a as_) nil h = ground arith
  items_eq_sound (cons a as_) (cons b bs) h =
      let (p, q) = and_parts (json_eq a b) (items_eq as_ bs) h in
      cc (json_eq_sound a b p, items_eq_sound as_ bs q)

  fields_eq_sound : (a b : Fields) → fields_eq a b ≡ true → a ≡ b
  fields_eq_sound end b h = ground arith
  fields_eq_sound (field j a as_) end h = ground arith
  fields_eq_sound (field j a as_) (field k b bs) h =
      let (p, rest) = and_parts (j == k) (json_eq a b && fields_eq as_ bs) h in
      let (q, r) = and_parts (json_eq a b) (fields_eq as_ bs) rest in
      cc ((eq_iff j k).0 p, json_eq_sound a b q, fields_eq_sound as_ bs r)

mutual
  unfolding json_eq items_eq fields_eq

  json_eq_self : (a : Json) → json_eq a a ≡ true
  json_eq_self null = refl
  json_eq_self (flag a) = ground arith
  json_eq_self (text a) = (eq_iff a a).1 refl
  json_eq_self (number a) = ground arith
  json_eq_self (float a) = (eq_iff a a).1 refl
  json_eq_self (instant a) = ground arith
  json_eq_self (day a) = ground arith
  json_eq_self (list a) = items_eq_self a
  json_eq_self (object a) = fields_eq_self a

  items_eq_self : (a : Items) → items_eq a a ≡ true
  items_eq_self nil = refl
  items_eq_self (cons a as_) = ground (arith, json_eq_self a, items_eq_self as_)

  fields_eq_self : (a : Fields) → fields_eq a a ≡ true
  fields_eq_self end = refl
  fields_eq_self (field j a as_) = ground (arith, eq_iff j j, json_eq_self a, fields_eq_self as_)

-- An entry names the digest before it, and its payload determines it up to its own digest.
pub record Chain (E : Type 0) : Type 0 where
  pub previous : E → String
  pub hash : E → String
  pub payload : E → Json
  pub determined : (x y : E) → payload x ≡ payload y → hash x ≡ hash y → x ≡ y

module _ {E : Type 0} (py : Platform) (c : Chain E) where
  -- The digest that the next entry names.
  abbrev pub head : String → List E → String
  head genesis [] = genesis
  head genesis (x ∷ xs) = head (c.hash x) xs

  abbrev pub IsLinked : String → List E → Type 0
  IsLinked genesis [] = Unit
  IsLinked genesis (x ∷ xs) =
      (c.previous x ≡ genesis)
      × ((freeze_snapshot py (c.payload x)).snapshot_id ≡ c.hash x)
      × IsLinked (c.hash x) xs

  -- At some place the two chains have entries whose payloads differ and yet have one digest.
  abbrev pub IsClash : List E → List E → Type 0
  IsClash (x ∷ xs) (y ∷ ys) =
      ((c.payload x ≢ c.payload y)
        × ((freeze_snapshot py (c.payload x)).snapshot_id
            ≡ (freeze_snapshot py (c.payload y)).snapshot_id))
      ⊎ IsClash xs ys
  IsClash _ _ = ⊥

  same_entry :
      (x y : E)
      → (freeze_snapshot py (c.payload x)).snapshot_id ≡ c.hash x
      → (freeze_snapshot py (c.payload y)).snapshot_id ≡ c.hash y
      → c.hash x ≡ c.hash y
      → (x ≡ y)
        ⊎ ((c.payload x ≢ c.payload y)
            × ((freeze_snapshot py (c.payload x)).snapshot_id
                ≡ (freeze_snapshot py (c.payload y)).snapshot_id))
  same_entry x y dx dy h = elim (Bool-cases (json_eq (c.payload x) (c.payload y))) [
    | inl same ↦ inl (c.determined x y (json_eq_sound (c.payload x) (c.payload y) same) h)
    | inr other ↦
        inr (
          λ e. cc (other, ap (json_eq (c.payload x)) e, json_eq_self (c.payload x)),
          dx ∙ h ∙ sym dy,
        )
  ]

  -- The last digest and the length determine the chain, or two entries at one place clash.
  pub chain_determined :
      (p q : String) (xs ys : List E)
      → IsLinked p xs
      → IsLinked q ys
      → length xs ≡ length ys
      → head p xs ≡ head q ys
      → ((p ≡ q) × (xs ≡ ys)) ⊎ IsClash xs ys
  chain_determined p q [] [] lx ly n h = inl (h, refl)
  chain_determined p q [] (y ∷ ys) lx ly n h = absurd (omega arith)
  chain_determined p q (x ∷ xs) [] lx ly n h = absurd (omega arith)
  chain_determined p q (x ∷ xs) (y ∷ ys) (px, dx, lx) (qy, dy, ly) n h =
      elim (chain_determined (c.hash x) (c.hash y) xs ys lx ly (omega arith) h) [
        | inr clash ↦ inr (inr clash)
        | inl (heads, tails) ↦ elim (same_entry x y dx dy heads) [
          | inr clash ↦ inr (inl clash)
          | inl same ↦ inl (sym px ∙ ap c.previous same ∙ qy, cc (same, tails))
        ]
      ]

  -- A chain goes on with an entry that names its head.
  pub IsLinked-snoc :
      (p : String) (xs : List E) (x : E)
      → IsLinked p xs
      → c.previous x ≡ head p xs
      → (freeze_snapshot py (c.payload x)).snapshot_id ≡ c.hash x
      → IsLinked p (xs ++ x ∷ [])
  IsLinked-snoc p [] x l e d = (e, d, tt)
  IsLinked-snoc p (y ∷ ys) x (py_, dy, l) e d = (py_, dy, IsLinked-snoc (c.hash y) ys x l e d)
