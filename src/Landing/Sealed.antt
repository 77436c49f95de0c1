-- ===== src/Landing/Sealed.antt =====
-- services/raw_landing.py: what a run of landings keeps of the store.
use marketpilot.Base.Fallible.{bound, refuse_if_passed}
use marketpilot.Base.{
  ◌++◌, ap, text_key, Bool-cases, List, Option, Result, String, [], arith, eq_iff, err, false, get,
  inl, inr, none, ok, put, refl, some, subst, sym, true, ℕ, ◌∷◌, ◌≡◌, ◌⊎◌,
}
use marketpilot.Landing.Objects.{
  EncryptedLandingObject, EncryptionEnvelope, Landing, LandingError, LandingReceipt, PayloadCipher,
  put_if_absent, write, object_conflict, published_after_first_seen,
}
use marketpilot.Landing.Service.{
  LandingRequest, LandingSetup, all_safe, associated_text, candidate, draft_receipt, insert_fresh,
  land, land_prepared, enclosed, context_of, conflicts, receipt_of, associated_of, object_key_of,
  place, prepare, prepare_fields, utc_of, receive,
}

-- What a cipher sealed it opens, with the same associated data.
unfoldable pub IsCipher : PayloadCipher → Type 0
IsCipher k =
    (draw payload associated : String)
    → k.decrypt (k.encrypt draw payload associated) associated ≡ ok payload

-- Landings one after the other, refused ones among them
unfoldable pub land_all : LandingSetup → List LandingRequest → Landing → Landing
unfolding land
land_all c [] s = s
land_all c (q ∷ qs) s = land_all c qs (land c q s).1

module _ (c : LandingSetup) where
  -- The object under `key` opens with the associated data of its name, to a payload of its digest.
  unfoldable pub IsSealed : String → EncryptedLandingObject → Type 0
  IsSealed key o =
      (p : String) × (d : String) × (i : String) × (payload : String) × (all_safe p ≡ true)
      × (all_safe d ≡ true)
      × (key ≡ object_key_of p d i)
      × (o.object_key ≡ key)
      × (c.cipher.decrypt o.envelope (c.encode (associated_text i p d)) ≡ ok payload)
      × (c.sha256 payload ≡ o.plaintext_sha256)

  unfoldable pub IsSound : Landing → Type 0
  IsSound s =
      (key : String) (o : EncryptedLandingObject) → get s.objects key ≡ some o → IsSealed key o

  -- What `prepare` says of the receipt it makes
  unfoldable pub IsDraft : LandingRequest → LandingReceipt → Type 0
  IsDraft q r =
      (all_safe r.provider ≡ true)
      × (all_safe r.dataset ≡ true)
      × (r.object_key ≡ object_key_of r.provider r.dataset r.landing_id)
      × (r.plaintext_sha256 ≡ c.sha256 q.payload)
      × (c.authorize (context_of write q.principal q.purpose q.provider q.dataset) ≡ true)

  prepare_fields-IsDraft :
      (q : LandingRequest) (t u : ℕ) (r : LandingReceipt)
      → prepare_fields c q t u ≡ ok r
      → IsDraft q r
  unfolding prepare_fields draft_receipt IsDraft all_safe
  prepare_fields-IsDraft q t u r h = ground arith

  pub prepare-IsDraft : (q : LandingRequest) (r : LandingReceipt) → prepare c q ≡ ok r → IsDraft q r
  unfolding prepare draft_receipt
  prepare-IsDraft q r h =
      let published = bound (utc_of q.published_at "published_at") _ r h in
      let seen = bound (utc_of q.first_seen_at "first_seen_at") _ r published.2 in
      let ordered = refuse_if_passed _ published_after_first_seen _ r seen.2 in
      prepare_fields-IsDraft q published.0 seen.0 r ordered.1

  -- The object that stands for the receipt, in a store.
  unfoldable pub IsHeld : LandingReceipt → Landing → Type 0
  IsHeld r s =
      (o : EncryptedLandingObject) × (get s.objects r.object_key ≡ some o)
      × (o.object_key ≡ r.object_key)
      × (o.plaintext_sha256 ≡ r.plaintext_sha256)
      × (o.content_type ≡ r.content_type)
      × (o.envelope.key_id ≡ r.key_id)
      × (o.envelope.algorithm ≡ r.algorithm)

  unfoldable pub IsKept : EncryptedLandingObject → LandingReceipt → Type 0
  IsKept o r =
      (o.object_key ≡ r.object_key)
      × (o.plaintext_sha256 ≡ r.plaintext_sha256)
      × (o.content_type ≡ r.content_type)

  enclosed-eq :
      (r : LandingReceipt) (payload : String) (e : EncryptionEnvelope) (o : EncryptedLandingObject)
      → enclosed r payload e ≡ ok o
      → o ≡ record {
        object_key = r.object_key;
        envelope = e;
        content_type = r.content_type;
        plaintext_sha256 = r.plaintext_sha256;
      }
  unfolding enclosed
  enclosed-eq r payload e o h = ground arith

  candidate-IsKept :
      (q : LandingRequest) (r : LandingReceipt) (o : EncryptedLandingObject)
      → candidate c q r ≡ ok o
      → IsKept o r
  unfolding candidate IsKept
  candidate-IsKept q r o h =
      let same =
        enclosed-eq r q.payload (c.cipher.encrypt q.draw q.payload (associated_of c r)) o h in
      (
        ap (λ x. x.object_key) same,
        ap (λ x. x.plaintext_sha256) same,
        ap (λ x. x.content_type) same,
      )

  candidate-IsSealed :
      (q : LandingRequest) (r : LandingReceipt) (o : EncryptedLandingObject)
      → IsDraft q r
      → candidate c q r ≡ ok o
      → IsCipher c.cipher
      → IsSealed r.object_key o
  unfolding candidate IsCipher IsSealed IsDraft
  candidate-IsSealed q r o d h k =
      let same =
        enclosed-eq r q.payload (c.cipher.encrypt q.draw q.payload (associated_of c r)) o h in
      let opens = k q.draw q.payload (associated_of c r) in
      subst (IsSealed r.object_key) (sym same)
        (r.provider, r.dataset, r.landing_id, q.payload, d.0, d.1, d.2, refl, opens, sym d.3)

  -- What a landing may do: fail and change nothing, or issue the receipt of an object that was there, or
  -- of one that it puts there.
  unfoldable pub IsFailure : Landing → Result LandingError LandingReceipt × Landing → Type 0
  IsFailure s x = (e : LandingError) × (x ≡ (err e, s))

  unfoldable pub IsPlaced : LandingReceipt → Landing → EncryptedLandingObject → Landing → Type 0
  IsPlaced r s o t =
      ((get s.objects r.object_key ≡ some o) × (t.objects ≡ s.objects))
      ⊎ ((get s.objects r.object_key ≡ none)
          × (t.objects ≡ put s.objects r.object_key o)
          × (IsCipher c.cipher → IsSealed r.object_key o))

  unfoldable pub IsIssued :
      LandingReceipt → Landing → Result LandingError LandingReceipt × Landing → Type 0
  IsIssued r s x =
      (o : EncryptedLandingObject) × (x.0 ≡ ok (receipt_of r o))
      × (x.1.receipts ≡ s.receipts ++ receipt_of r o ∷ [])
      × IsKept o r
      × IsPlaced r s o x.1

  no_conflict :
      (r : LandingReceipt) (o : EncryptedLandingObject) → conflicts r o ≡ false → IsKept o r
  unfolding IsKept
  no_conflict r o h = ground (
    arith,
    eq_iff o.object_key r.object_key,
    eq_iff o.plaintext_sha256 r.plaintext_sha256,
    eq_iff o.content_type r.content_type,
  )

  kept_conflict :
      (r : LandingReceipt) (o : EncryptedLandingObject) → IsKept o r → conflicts r o ≡ false
  unfolding IsKept
  kept_conflict r o k = ground (
    arith,
    eq_iff o.object_key r.object_key,
    eq_iff o.plaintext_sha256 r.plaintext_sha256,
    eq_iff o.content_type r.content_type,
  )

  put_if_absent-eq :
      (o : EncryptedLandingObject) (s : Landing)
      → get s.objects o.object_key ≡ none
      → put_if_absent o s ≡ (o, record s { objects = put s.objects o.object_key o })
  unfolding put_if_absent
  put_if_absent-eq o s h = rw h refl

  insert_fresh-cases :
      (q : LandingRequest) (r : LandingReceipt) (m : Result LandingError EncryptedLandingObject)
      (s : Landing)
      → IsDraft q r
      → candidate c q r ≡ m
      → get s.objects r.object_key ≡ none
      → IsFailure s (insert_fresh r m s) ⊎ IsIssued r s (insert_fresh r m s)
  unfolding insert_fresh receive IsFailure IsIssued IsPlaced IsKept
  insert_fresh-cases q r (err e) s d h n = inl (e, refl)
  insert_fresh-cases q r (ok o) s d h n =
      let kept = candidate-IsKept q r o h in
      let there = put_if_absent-eq o s (subst (λ x. get s.objects x ≡ none) (sym kept.0) n) in
      inr (
        o,
        rw there (rw (kept_conflict r o kept) refl),
        rw there (rw (kept_conflict r o kept) refl),
        kept,
        inr (
          n,
          rw there (rw (kept_conflict r o kept) (ap (λ x. put s.objects x o) kept.0)),
          candidate-IsSealed q r o d h,
        ),
      )

  place-cases :
      (q : LandingRequest) (r : LandingReceipt) (m : Option EncryptedLandingObject) (s : Landing)
      → IsDraft q r
      → get s.objects r.object_key ≡ m
      → IsFailure s (place c q r m s) ⊎ IsIssued r s (place c q r m s)
  unfolding place receive IsFailure IsIssued IsPlaced
  place-cases q r none s d n = insert_fresh-cases q r (candidate c q r) s d refl n
  place-cases q r (some o) s d n = elim (Bool-cases (conflicts r o)) [
    | inl h ↦ inl (object_conflict, rw h refl)
    | inr h ↦ inr (o, rw h refl, rw h refl, no_conflict r o h, inl (n, rw h refl))
  ]

  land_prepared-cases :
      (q : LandingRequest) (m : Result LandingError LandingReceipt) (s : Landing)
      → prepare c q ≡ m
      → IsFailure s (land_prepared c q m s)
        ⊎ ((r : LandingReceipt) × IsDraft q r × IsIssued r s (land_prepared c q m s))
  unfolding land_prepared IsFailure
  land_prepared-cases q (err e) s h = inl (e, refl)
  land_prepared-cases q (ok r) s h =
      let drafted = prepare-IsDraft q r h in
      elim (place-cases q r (get s.objects r.object_key) s drafted refl) [
        | inl f ↦ inl f
        | inr x ↦ inr (r, drafted, x)
      ]

  pub land-cases :
      (q : LandingRequest) (s : Landing)
      → IsFailure s (land c q s) ⊎ ((r : LandingReceipt) × IsDraft q r × IsIssued r s (land c q s))
  unfolding land
  land-cases q s = land_prepared-cases q (prepare c q) s refl
