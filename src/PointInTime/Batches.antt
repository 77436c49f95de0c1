-- ===== src/PointInTime/Batches.antt =====
-- The file of batches: what is written stays.
use marketpilot.Base.{
  text_key, Bool-cases, List, Option, Option-cases, Result-cases, String, [], ap, arith, eq_iff,
  first, inl, inr, none, ok, refl, some, subst, sym, ◌++◌, ◌==◌, ◌∙◌, ◌∷◌, ◌≡◌, ◌⊎◌,
}
use marketpilot.PointInTime.Records.{JsonLibrary, PointInTimeRecord, verify}
use marketpilot.PointInTime.Batch.{PitBatchLedger, append_batch, find, load, load_lines}

-- Any number of appends, whether they return or raise.
abbrev pub append_batches : JsonLibrary → List PointInTimeRecord → PitBatchLedger → PitBatchLedger
append_batches py [] f = f
append_batches py (r ∷ rs) f = append_batches py rs (append_batch py r f).1

first-snoc :
    (k : String) (xs : List PointInTimeRecord) (r old : PointInTimeRecord)
    → first (λ (x : PointInTimeRecord). x.logical_key == k) xs ≡ some old
    → first (λ (x : PointInTimeRecord). x.logical_key == k) (xs ++ r ∷ []) ≡ some old
first-snoc k [] r old h = cc
first-snoc k (x ∷ xs) r old h = ground (arith, first-snoc k xs r old)

first-snoc_new :
    (k : String) (xs : List PointInTimeRecord) (r : PointInTimeRecord)
    → first (λ (x : PointInTimeRecord). x.logical_key == k) xs ≡ none
    → r.logical_key ≡ k
    → first (λ (x : PointInTimeRecord). x.logical_key == k) (xs ++ r ∷ []) ≡ some r
first-snoc_new k [] r h e = ground (arith, eq_iff r.logical_key k)
first-snoc_new k (x ∷ xs) r h e = ground (arith, first-snoc_new k xs r)

module _ (py : JsonLibrary) where
  load_lines-eq : (xs ys : List PointInTimeRecord) → load_lines py xs ≡ ok ys → xs ≡ ys
  unfolding load_lines
  load_lines-eq [] ys h = ground arith
  load_lines-eq (x ∷ xs) ys h = elim (Result-cases (load_lines py xs)) [
    | inl (zs, e) ↦ ground (arith, load_lines-eq xs zs)
    | inr (z, e) ↦ ground arith
  ]

  load_lines-snoc :
      (xs : List PointInTimeRecord) (r : PointInTimeRecord)
      → load_lines py xs ≡ ok xs
      → verify py r ≡ ok tt
      → load_lines py (xs ++ r ∷ []) ≡ ok (xs ++ r ∷ [])
  unfolding load_lines
  load_lines-snoc [] r h v = rw v refl
  load_lines-snoc (x ∷ xs) r h v = elim (Result-cases (load_lines py xs)) [
    | inl (zs, e) ↦ ground (arith, load_lines-eq xs zs e, load_lines-snoc xs r)
    | inr (z, e) ↦ ground arith
  ]

  -- `find` reads the lines as they stand.
  find_loaded :
      (k : String) (f : PitBatchLedger) (o : Option PointInTimeRecord)
      → find py k f ≡ ok o
      → (load_lines py f.lines ≡ ok f.lines)
        × (first (λ (x : PointInTimeRecord). x.logical_key == k) f.lines ≡ o)
  unfolding find load
  find_loaded k f o h = elim (Result-cases (load_lines py f.lines)) [
    | inl (zs, e) ↦ ground (arith, load_lines-eq f.lines zs e)
    | inr (z, e) ↦ ground arith
  ]

  loaded_find :
      (k : String) (f : PitBatchLedger)
      → load_lines py f.lines ≡ ok f.lines
      → find py k f ≡ ok (first (λ (x : PointInTimeRecord). x.logical_key == k) f.lines)
  unfolding find load
  loaded_find k f h = rw h refl

  append_batch_cases :
      (r : PointInTimeRecord) (f : PitBatchLedger)
      → ((append_batch py r f).1 ≡ f)
        ⊎ ((verify py r ≡ ok tt)
            × (find py r.logical_key f ≡ ok none)
            × (append_batch py r f ≡ (ok tt, record { lines = f.lines ++ r ∷ [] })))
  unfolding append_batch
  append_batch_cases r f = elim (Result-cases (verify py r)) [
    | inr (z, e) ↦ inl (rw (e, append_batch) refl)
    | inl (u, e) ↦ elim (Result-cases (find py r.logical_key f)) [
      | inr (z, e') ↦ inl (rw (e, append_batch, e') refl)
      | inl (o, e') ↦ elim (Option-cases o) [
        | inl free ↦ inr (e, e' ∙ ap ok free, rw (e, append_batch, e', free) refl)
        | inr (old, there) ↦ elim (Bool-cases (old.record_id == r.record_id)) [
          | inl same ↦ inl (rw (e, append_batch, e', there, same) refl)
          | inr other ↦ inl (rw (e, append_batch, e', there, other) refl)
        ]
      ]
    ]
  ]

  find-append_batch :
      (k : String) (r : PointInTimeRecord) (f : PitBatchLedger) (old : PointInTimeRecord)
      → find py k f ≡ ok (some old)
      → find py k (append_batch py r f).1 ≡ ok (some old)
  find-append_batch k r f old h = elim (append_batch_cases r f) [
    | inl same ↦ rw same h
    | inr (v, free, e) ↦
        let (loads, there) = find_loaded k f (some old) h in
        let g : PitBatchLedger = record { lines = f.lines ++ r ∷ [] } in
        let found = loaded_find k g (load_lines-snoc f.lines r loads v) in
        subst (λ t. find py k t ≡ ok (some old)) (sym (ap (λ p. p.1) e))
          (found ∙ ap ok (first-snoc k f.lines r old there))
  ]

-- The first record of a batch is final: once `find` returns a record for a key, it returns that
-- record after any further appends, whether these return or raise.
pub batch_is_final :
    (py : JsonLibrary) (k : String) (rs : List PointInTimeRecord) (f : PitBatchLedger)
    (old : PointInTimeRecord)
    → find py k f ≡ ok (some old)
    → find py k (append_batches py rs f) ≡ ok (some old)
batch_is_final py k [] f old h = h
batch_is_final py k (r ∷ rs) f old h =
    batch_is_final py k rs (append_batch py r f).1 old (find-append_batch py k r f old h)
