-- ===== src/Landing/ReadBack.antt =====
-- services/raw_landing.py: what was landed is read back.
use marketpilot.Base.{
  text_key, List, String, [], ap, arith, eq_iff, equal_self, err, get, get-put, inl, inr, ok,
  put-cases, put_keeps, some, subst, sym, true, ◌++◌, ◌∙◌, ◌∷◌, ◌≡◌, ◌⊎◌,
}
use marketpilot.Base.Fallible.{ok-injective}
use marketpilot.Landing.Objects.{
  EncryptedLandingObject, Landing, LandingError, LandingReceipt, empty_landing, read, write,
}
use marketpilot.Landing.Service.{
  LandingRequest, LandingSetup, associated_text, checked_read, context_of, land, read_authorized,
  receipt_of,
}
use marketpilot.Landing.Keys.{object_key_parts}
use marketpilot.Landing.Sealed.{
  IsCipher, IsDraft, IsFailure, IsIssued, IsKept, IsPlaced, IsSealed, IsSound, land-cases, land_all,
}

module _ (c : LandingSetup) where
  -- An object that is there stays there.
  placed_keeps :
      (r : LandingReceipt) (s : Landing) (o : EncryptedLandingObject) (t : Landing) (key : String)
      (v : EncryptedLandingObject)
      → IsPlaced c r s o t
      → get s.objects key ≡ some v
      → get t.objects key ≡ some v
  unfolding IsPlaced
  placed_keeps r s o t key v (inl p) h = ap (λ d. get d key) p.1 ∙ h
  placed_keeps r s o t key v (inr p) h =
      ap (λ d. get d key) p.1 ∙ put_keeps s.objects r.object_key key o v p.0 h

  land_keeps :
      (q : LandingRequest) (s : Landing) (key : String) (v : EncryptedLandingObject)
      → get s.objects key ≡ some v
      → get (land c q s).1.objects key ≡ some v
  unfolding IsFailure IsIssued
  land_keeps q s key v h = elim (land-cases c q s) [
    | inl f ↦ ap (λ x. get x.1.objects key) f.1 ∙ h
    | inr x ↦ placed_keeps x.0 s x.2.0 (land c q s).1 key v x.2.4 h
  ]

module _ (c : LandingSetup) (cipher : IsCipher c.cipher) where
  placed-IsSound :
      (r : LandingReceipt) (s : Landing) (o : EncryptedLandingObject) (t : Landing)
      → IsPlaced c r s o t
      → IsSound c s
      → IsSound c t
  unfolding IsPlaced IsSound
  placed-IsSound r s o t (inl p) h key v g = h key v (ap (λ d. get d key) (sym p.1) ∙ g)
  placed-IsSound r s o t (inr p) h key v g =
      elim (put-cases s.objects r.object_key key o v (ap (λ d. get d key) (sym p.1) ∙ g)) [
        | inl e ↦
            subst (λ x. IsSealed c x v) e.0
              (subst (λ x. IsSealed c r.object_key x) e.1 (p.2 cipher))
        | inr e ↦ h key v e
      ]

  placed_get :
      (r : LandingReceipt) (s : Landing) (o : EncryptedLandingObject) (t : Landing)
      → IsPlaced c r s o t
      → get t.objects r.object_key ≡ some o
  unfolding IsPlaced
  placed_get r s o t (inl p) = ap (λ d. get d r.object_key) p.1 ∙ p.0
  placed_get r s o t (inr p) =
      ground (arith, p.1, get-put s.objects r.object_key r.object_key o, equal_self r.object_key)

  land-IsSound : (q : LandingRequest) (s : Landing) → IsSound c s → IsSound c (land c q s).1
  unfolding IsFailure IsIssued
  land-IsSound q s h = elim (land-cases c q s) [
    | inl f ↦ subst (IsSound c) (sym (ap (λ x. x.1) f.1)) h
    | inr x ↦ placed-IsSound x.0 s x.2.0 (land c q s).1 x.2.4 h
  ]

  land_all-IsSound :
      (qs : List LandingRequest) (s : Landing) → IsSound c s → IsSound c (land_all c qs s)
  unfolding land_all
  land_all-IsSound [] s h = h
  land_all-IsSound (q ∷ qs) s h = land_all-IsSound qs (land c q s).1 (land-IsSound q s h)

  land_all_keeps :
      (qs : List LandingRequest) (s : Landing) (key : String) (v : EncryptedLandingObject)
      → get s.objects key ≡ some v
      → get (land_all c qs s).objects key ≡ some v
  unfolding land_all
  land_all_keeps [] s key v h = h
  land_all_keeps (q ∷ qs) s key v h =
      land_all_keeps qs (land c q s).1 key v (land_keeps c q s key v h)

  empty-IsSound : IsSound c empty_landing
  unfolding IsSound get
  empty-IsSound key o h = ground arith

  -- A sealed object that the receipt agrees with opens with the receipt's own associated data.
  sealed_opens :
      (q : LandingRequest) (r : LandingReceipt) (o : EncryptedLandingObject)
      → IsDraft c q r
      → IsSealed c r.object_key o
      → IsKept c o r
      → (payload : String) × (c.cipher.decrypt o.envelope
            (c.encode (associated_text r.landing_id r.provider r.dataset))
          ≡ ok payload)
        × (c.sha256 payload ≡ r.plaintext_sha256)
  unfolding IsDraft IsSealed IsKept
  sealed_opens q r o d (p, s, i, payload, hp, hs, name, there, opens, hash) k =
      let parts =
        object_key_parts p s i r.provider r.dataset r.landing_id hp hs d.0 d.1 (sym name ∙ d.2) in
      (payload, cc (parts.0, parts.1, parts.2, opens), hash ∙ k.1)

  checked_read_opens :
      (r : LandingReceipt) (o : EncryptedLandingObject) (payload : String)
      → IsKept c o r
      → c.cipher.decrypt o.envelope (c.encode (associated_text r.landing_id r.provider r.dataset))
        ≡ ok payload
      → c.sha256 payload ≡ r.plaintext_sha256
      → checked_read c (receipt_of r o) (some o) ≡ ok payload
  unfolding checked_read IsKept
  checked_read_opens r o payload k opens hash = ground (
    arith,
    opens,
    eq_iff o.object_key r.object_key,
    eq_iff o.plaintext_sha256 r.plaintext_sha256,
    eq_iff o.content_type r.content_type,
    eq_iff o.envelope.key_id o.envelope.key_id,
    eq_iff o.envelope.algorithm o.envelope.algorithm,
    eq_iff (c.sha256 payload) r.plaintext_sha256,
  )

  authorized_read :
      (t : LandingReceipt) (principal purpose : String) (s : Landing) (payload : String)
      → c.authorize (context_of read principal purpose t.provider t.dataset) ≡ true
      → checked_read c t (get s.objects t.object_key) ≡ ok payload
      → read_authorized c t principal purpose s ≡ ok payload
  unfolding read_authorized
  authorized_read t principal purpose s payload a h = rw a h

-- A landed payload is read back: whatever was landed before and is landed after it, with a cipher that
-- opens what it sealed, a caller who may read gets, for the receipt of a landing, a payload with the
-- SHA-256 digest of the one that was landed.
pub land_reads_back :
    (c : LandingSetup)
    → IsCipher c.cipher
    → (earlier : List LandingRequest) (q : LandingRequest) (later : List LandingRequest)
      (t : LandingReceipt) (principal purpose : String)
    → (land c q (land_all c earlier empty_landing)).0 ≡ ok t
    → c.authorize (context_of read principal purpose t.provider t.dataset) ≡ true
    → (payload : String) × (read_authorized c t principal purpose
          (land_all c later (land c q (land_all c earlier empty_landing)).1)
        ≡ ok payload)
      × (c.sha256 payload ≡ c.sha256 q.payload)
unfolding IsFailure IsIssued IsDraft IsSound
land_reads_back c cipher earlier q later t principal purpose h a =
    let before = land_all c earlier empty_landing in
    let sound = land_all-IsSound c cipher earlier empty_landing (empty-IsSound c cipher) in
    elim (land-cases c q before) [
      | inl (e, f) ↦ ground (arith, h, ap (λ x. x.0) f)
      | inr (r, d, (o, issued, added, kept, placed)) ↦
          let there = placed_get c cipher r before o (land c q before).1 placed in
          let sealed = land-IsSound c cipher q before sound r.object_key o there in
          let opens = sealed_opens c cipher q r o d sealed kept in
          let still = land_all_keeps c cipher later (land c q before).1 r.object_key o there in
          (
            opens.0,
            authorized_read c cipher t principal purpose (land_all c later (land c q before).1)
                opens.0 a
                (subst
                  (λ x.
                    checked_read c x
                      (get (land_all c later (land c q before).1).objects x.object_key)
                    ≡ ok opens.0)
                  (ok-injective (sym issued ∙ h))
                  (ap (checked_read c (receipt_of r o)) still
                    ∙ checked_read_opens c cipher r o opens.0 kept opens.1 opens.2)),
            opens.2 ∙ d.3,
          )
    ]

-- A landing that is refused changes neither the store nor the receipts; one that succeeds was
-- authorized, adds its receipt at the end and keeps every object that was stored.
pub landing_is_atomic :
    (c : LandingSetup) (q : LandingRequest) (s : Landing)
    → ((e : LandingError) × (land c q s ≡ (err e, s)))
      ⊎ ((t : LandingReceipt) × ((land c q s).0 ≡ ok t)
          × ((land c q s).1.receipts ≡ s.receipts ++ t ∷ [])
          × (c.authorize (context_of write q.principal q.purpose q.provider q.dataset) ≡ true)
          × ((key : String) (o : EncryptedLandingObject)
              → get s.objects key ≡ some o
              → get (land c q s).1.objects key ≡ some o))
unfolding IsFailure IsIssued IsDraft
landing_is_atomic c q s = elim (land-cases c q s) [
  | inl f ↦ inl f
  | inr (r, d, (o, issued, added, kept, placed)) ↦
      inr (receipt_of r o, issued, added, d.4, land_keeps c q s)
]
