-- ===== src/Alerts/Raised.antt =====
-- A new alert, a cooldown after the latest of its fingerprint.
use marketpilot.Base.{
  IsKeyed-put, text_key, Bool-cases, Dict, Option, String, ap, arith, equal_self, false, get, inl,
  inr, none, put, some, subst, sym, ℕ, ◌+◌, ◌==◌, ◌∙◌, ◌≡◌, ◌≤◌, ◌⊎◌,
}
use marketpilot.Alerts.Records.{AlertRecord}
use marketpilot.Alerts.Validity.{
  IsNamed, IsLinkedBy, HasNewest, IsSpaced, IsValid, put_hit, put_miss, same_text,
}

-- What the latest alert of the new one's fingerprint must be.
abbrev pub IsCool : ℕ → Option AlertRecord → ℕ → Type 0
IsCool cooldown none t = Unit
IsCool cooldown (some previous) t = previous.created_at + cooldown ≤ t

module _ (cooldown : ℕ) (latest : Dict String String) (alerts : Dict String AlertRecord)
    (fresh : String) (r : AlertRecord) (valid : IsValid cooldown latest alerts)
    (is_fresh : get alerts fresh ≡ none) (is_named : r.alert_id ≡ fresh)
    (cool : (i : String) (a : AlertRecord)
      → get alerts i ≡ some a
      → a.candidate.fingerprint ≡ r.candidate.fingerprint
      → a.created_at + cooldown ≤ r.created_at) where
  -- An alert of the new dictionary is the new one or an old one.
  split :
      (i : String) (a : AlertRecord)
      → get (put alerts fresh r) i ≡ some a
      → ((i ≡ fresh) × (a ≡ r)) ⊎ ((fresh == i ≡ false) × (get alerts i ≡ some a))
  split i a h = elim (Bool-cases (fresh == i)) [
    | inl e ↦ inl (sym (same_text fresh i e), cc (put_hit alerts fresh i r e, h))
    | inr e ↦ inr (e, cc (put_miss alerts fresh i r e, h))
  ]

  kept :
      (i : String) (a : AlertRecord) → get alerts i ≡ some a → get (put alerts fresh r) i ≡ some a
  kept i a h = elim (Bool-cases (fresh == i)) [
    | inl e ↦ cc (is_fresh, same_text fresh i e, h)
    | inr e ↦ put_miss alerts fresh i r e ∙ h
  ]

  fresh_there : get (put alerts fresh r) fresh ≡ some r
  fresh_there = put_hit alerts fresh fresh r (equal_self fresh)

  raised-IsNamed : IsNamed (put alerts fresh r)
  raised-IsNamed i a h = elim (split i a h) [
    | inl (e, q) ↦ cc (is_named, e, q)
    | inr (_, q) ↦ valid.named i a q
  ]

  raised-IsLinkedBy : IsLinkedBy (put latest r.candidate.fingerprint fresh) (put alerts fresh r)
  raised-IsLinkedBy f i h = elim (Bool-cases (r.candidate.fingerprint == f)) [
    | inl e ↦ (
      r,
      subst (λ k. get (put alerts fresh r) k ≡ some r)
          (cc (put_hit latest r.candidate.fingerprint f fresh e, h)) fresh_there,
      same_text r.candidate.fingerprint f e,
    )
    | inr e ↦
        let (a, ha, q) =
          valid.linked f i (cc (put_miss latest r.candidate.fingerprint f fresh e, h)) in
        (a, kept i a ha, q)
  ]

  raised-HasNewest : HasNewest (put latest r.candidate.fingerprint fresh) (put alerts fresh r)
  raised-HasNewest i a h = elim (Bool-cases (r.candidate.fingerprint == a.candidate.fingerprint)) [
    | inl e ↦ (
      fresh,
      r,
      put_hit latest r.candidate.fingerprint a.candidate.fingerprint fresh e,
      fresh_there,
      elim (split i a h) [
        | inl (_, q) ↦ ground (arith, q)
        | inr (_, q) ↦
            ground (
              arith,
              cool i a q (sym (same_text r.candidate.fingerprint a.candidate.fingerprint e)),
            )
      ],
    )
    | inr e ↦ elim (split i a h) [
      | inl (_, q) ↦ cc (e, equal_self r.candidate.fingerprint, ap (λ z. z.candidate.fingerprint) q)
      | inr (_, q) ↦
          let (j, b, l, hb, le) = valid.newest i a q in
          (
            j,
            b,
            put_miss latest r.candidate.fingerprint a.candidate.fingerprint fresh e ∙ l,
            kept j b hb,
            le,
          )
    ]
  ]

  raised-IsSpaced : IsSpaced cooldown (put alerts fresh r)
  raised-IsSpaced i j a b ha hb ne q = elim (split i a ha) [
    | inl (ei, qa) ↦ elim (split j b hb) [
      | inl (ej, qb) ↦ elim (ne (cc (ei, ej))) [ ]
      | inr (_, qb) ↦ inr (ground (arith, qa, cool j b qb (cc (q, qa))))
    ]
    | inr (_, qa) ↦ elim (split j b hb) [
      | inl (ej, qb) ↦ inl (ground (arith, qb, cool i a qa (cc (q, qb))))
      | inr (_, qb) ↦ valid.spaced i j a b qa qb ne q
    ]
  ]

  pub raised-IsValid :
      IsValid cooldown (put latest r.candidate.fingerprint fresh) (put alerts fresh r)
  raised-IsValid = record {
    keyed = IsKeyed-put alerts fresh r valid.keyed;
    named = raised-IsNamed;
    linked = raised-IsLinkedBy;
    newest = raised-HasNewest;
    spaced = raised-IsSpaced;
  }
