-- ===== src/PointInTime/View.antt =====
-- What `visible_records` returns: for each logical key the latest visible revision, and no other.
use marketpilot.Base.{
  text_key, nat_key, text_order, nat_order, pair_order, All, All-get, All-map, All-of_sort,
  All-of_values, All-put, All-sort, All-values, All-zip, Bool-cases, Dict, IsKeyed, IsKeyed-put,
  List, Option-cases, String, [], ap, arith, aware, eq_iff, false, first, get, get-put, get-sort,
  get_of_All, inl, inr, ltb, ok, put, refl, some, sort, subst, true, values, ℕ, ≼_refl, ≼_total,
  ≼_trans, ◌==◌, ◌∙◌, ◌∷◌, ◌≡◌, ◌≤◌, ◌≼◌, ◌⊎◌,
}
use marketpilot.PointInTime.Records.{JsonLibrary, PointInTimeRecord, verify}
use marketpilot.PointInTime.Replay.{
  PointInTimeLedger, ReplayVisibility, append_all, empty, keep_latest, records, revision_order,
  select_record, select_records, visible_at, visible_records,
}
use marketpilot.PointInTime.LookAhead.{IsKept, append_all-IsKept, empty-IsKept}

-- The record of the key is of the key.
abbrev pub IsFiled : String × PointInTimeRecord → Type 0
IsFiled e = e.1.logical_key ≡ e.0

pub first-values :
    (k : String) (d : Dict String PointInTimeRecord)
    → All IsFiled d
    → first (λ (r : PointInTimeRecord). r.logical_key == k) (values d) ≡ get d k
unfolding get
first-values k [] h = refl
first-values k ((j, r) ∷ d) (own, h) = ground (arith, first-values k d h)

module _ (py : JsonLibrary) (by : ReplayVisibility) (now : ℕ) where
  abbrev pub Table : Type 0
  Table = Dict String PointInTimeRecord

  abbrev pub Covers : PointInTimeRecord → Table → Type 0
  Covers x d =
      (r : PointInTimeRecord) × (get d x.logical_key ≡ some r)
      × ((revision_order x ≼ revision_order r) ≡ true)

  -- A filed record is no earlier than the one that it replaces.
  keep_cases :
      (x : PointInTimeRecord) (d : Table)
      → ((keep_latest x d ≡ d) × Covers x d)
        ⊎ ((keep_latest x d ≡ put d x.logical_key x)
            × ((r : PointInTimeRecord)
                → get d x.logical_key ≡ some r
                → (revision_order r ≼ revision_order x) ≡ true))
  unfolding keep_latest
  keep_cases x d = elim (Option-cases (get d x.logical_key)) [
    | inl free ↦ inr (rw (free, keep_latest) refl, λ r h. cc (free, h))
    | inr (r, found) ↦ elim (Bool-cases (revision_order x ≼ revision_order r)) [
      | inl le ↦ inl (rw (found, le, keep_latest), (r, found, le))
      | inr gt ↦ inr (
        rw (found, gt, keep_latest) refl,
        λ q h.
            let same : r ≡ q = cc (found, h) in
            subst (λ z. (revision_order z ≼ revision_order x) ≡ true) same
              (≼_total (revision_order x) (revision_order r) gt),
      )
    ]
  ]

  keep_latest-IsKeyed : (x : PointInTimeRecord) (d : Table) → IsKeyed d → IsKeyed (keep_latest x d)
  keep_latest-IsKeyed x d k = elim (keep_cases x d) [
    | inl (e, _) ↦ rw e k
    | inr (e, _) ↦ rw e (IsKeyed-put d x.logical_key x k)
  ]

  keep_latest-All :
      (P : String × PointInTimeRecord → Type 0) (x : PointInTimeRecord) (d : Table)
      → All P d
      → P (x.logical_key, x)
      → All P (keep_latest x d)
  keep_latest-All P x d h p = elim (keep_cases x d) [
    | inl (e, _) ↦ rw e h
    | inr (e, _) ↦ rw e (All-put P d x.logical_key x h p)
  ]

  ordered :
      (x : PointInTimeRecord) → verify py x ≡ ok tt → ltb x.first_seen_at x.published_at ≡ false
  unfolding verify
  ordered x v = ground arith

  -- A round leaves the table, or files a visible record.
  pub select_cases :
      (x : PointInTimeRecord) (d : Table)
      → verify py x ≡ ok tt
      → ((select_record py by now x d ≡ ok d) × (ltb now (visible_at by x) ≡ true))
        ⊎ ((select_record py by now x d ≡ ok (keep_latest x d))
            × (ltb now (visible_at by x) ≡ false))
  unfolding select_record
  select_cases x d v = elim (Bool-cases (ltb now (visible_at by x))) [
    | inl late ↦ inl (rw (v, late) refl, late)
    | inr seen ↦ inr (rw (v, seen, ordered x v) refl, seen)
  ]

  keep_latest-Covers : (x : PointInTimeRecord) (d : Table) → Covers x (keep_latest x d)
  keep_latest-Covers x d = elim (keep_cases x d) [
    | inl (e, covered) ↦ rw e covered
    | inr (e, _) ↦ rw e (
      x,
      ground (arith, get-put d x.logical_key x.logical_key x, eq_iff x.logical_key x.logical_key),
      ≼_refl (revision_order x),
    )
  ]

  Covers-keep_latest :
      (x y : PointInTimeRecord) (d : Table) → Covers y d → Covers y (keep_latest x d)
  Covers-keep_latest x y d (r, found, le) = elim (keep_cases x d) [
    | inl (e, covered) ↦ rw e (r, found, le)
    | inr (e, beaten) ↦ rw e (elim (Bool-cases (x.logical_key == y.logical_key)) [
      | inl same ↦ (
        x,
        get-put d x.logical_key y.logical_key x ∙ rw same,
        ≼_trans (revision_order y) (revision_order r) (revision_order x) le
            (beaten r (ap (get d) ((eq_iff x.logical_key y.logical_key).0 same) ∙ found)),
      )
      | inr other ↦ (r, get-put d x.logical_key y.logical_key x ∙ rw other found, le)
    ])
  ]

  -- A filed record is visible, and what `Good` says of all records.
  abbrev pub IsFiledFrom : (PointInTimeRecord → Type 0) → String × PointInTimeRecord → Type 0
  IsFiledFrom Good e = IsFiled e × Good e.1 × (ltb now (visible_at by e.1) ≡ false)

  -- The loop ends; its table has each key once, files good visible records, and covers what it
  -- covered and every visible record that it has met.
  pub record IsTable (Good : PointInTimeRecord → Type 0) (xs : List PointInTimeRecord)
      (d d' : Table) : Type 0 where
    pub keyed : IsKeyed d'
    pub filed : All (IsFiledFrom Good) d'
    pub grown : (y : PointInTimeRecord) → Covers y d → Covers y d'
    pub covered : All (λ x. (ltb now (visible_at by x) ≡ true) ⊎ Covers x d') xs

  select_table :
      (Good : PointInTimeRecord → Type 0) (xs : List PointInTimeRecord) (d : Table)
      → All (λ x. (verify py x ≡ ok tt) × Good x) xs
      → IsKeyed d
      → All (IsFiledFrom Good) d
      → (d' : Table) × (select_records py by now xs d ≡ ok d') × IsTable Good xs d d'
  unfolding select_records
  select_table Good [] d g k f =
      (d, refl, record { keyed = k; filed = f; grown = λ y c. c; covered = tt })
  select_table Good (x ∷ xs) d ((v, gx), g) k f = elim (select_cases x d v) [
    | inl (e, late) ↦
        let (d', e', t) = select_table Good xs d g k f in
        (
          d',
          rw e e',
          record {
            keyed = t.keyed;
            filed = t.filed;
            grown = t.grown;
            covered = (inl late, t.covered);
          },
        )
    | inr (e, seen) ↦
        let (d', e', t) =
          select_table Good xs (keep_latest x d) g (keep_latest-IsKeyed x d k)
            (keep_latest-All (IsFiledFrom Good) x d f (refl, gx, seen)) in
        (
          d',
          rw e e',
          record {
            keyed = t.keyed;
            filed = t.filed;
            grown = λ y c. t.grown y (Covers-keep_latest x y d c);
            covered = (inr (t.grown x (keep_latest-Covers x d)), t.covered);
          },
        )
  ]

  abbrev pub IsStored : PointInTimeLedger → PointInTimeRecord → Type 0
  IsStored s r = get s.records r.record_id ≡ some r

  abbrev pub IsGood : PointInTimeLedger → PointInTimeRecord → Type 0
  IsGood s r = IsStored s r × (verify py r ≡ ok tt)

  stored_entry :
      (s : PointInTimeLedger) (e : String × PointInTimeRecord)
      → ((e.1.record_id ≡ e.0) × (verify py e.1 ≡ ok tt)) × (get s.records e.0 ≡ some e.1)
      → (verify py e.1 ≡ ok tt) × IsGood s e.1
  stored_entry s (k, r) ((own, v), found) = (v, (ap (get s.records) own ∙ found, v))

  pub kept_table :
      (s : PointInTimeLedger)
      → IsKept py s
      → (d : Table) × (select_records py by now (records s) [] ≡ ok d)
        × IsTable (IsGood s) (records s) [] d
  unfolding records
  kept_table s k =
      let stored =
        All-map _ (λ e. (verify py e.1 ≡ ok tt) × IsGood s e.1) (stored_entry s) s.records
          (All-zip _ _ s.records k.stored (All-get s.records k.keyed)) in
      select_table (IsGood s) (sort (λ (r : PointInTimeRecord). r.record_id) (values s.records)) []
        (All-sort _ _ (values s.records) (All-values _ s.records stored)) tt tt

  pub covers :
      (s : PointInTimeLedger) (d : Table) (x : PointInTimeRecord)
      → IsStored s x
      → All (λ y. (ltb now (visible_at by y) ≡ true) ⊎ Covers y d) (records s)
      → visible_at by x ≤ now
      → Covers x d
  unfolding records
  covers s d x there met seen =
      elim (get_of_All _ s.records x.record_id x
        (All-of_values _ s.records (All-of_sort _ _ (values s.records) met)) there) [
          | inl late ↦ absurd (ground arith)
          | inr c ↦ c
        ]

abbrev pub key_of : String × PointInTimeRecord → String
key_of e = e.0

-- On any ledger that appends have made `visible_records` returns, and only stored records that are
-- visible at the instant.
visible_records_sound :
    (py : JsonLibrary) (by : ReplayVisibility) (now : ℕ) (old : List PointInTimeRecord)
    → (view : List PointInTimeRecord) × (visible_records py by
          (aware now)
          (append_all py old empty).1
        ≡ ok view)
      × All
          (λ r.
            (get ((append_all py old empty).1).records r.record_id ≡ some r)
            × (visible_at by r ≤ now))
          view
unfolding visible_records
visible_records_sound py by now old =
    let s = (append_all py old empty).1 in
    let (d, e, t) = kept_table py by now s (append_all-IsKept py old empty (empty-IsKept py)) in
    (
      values (sort key_of d),
      rw e refl,
      All-values _ (sort key_of d)
          (All-sort _ _ d (All-map _ _ (λ e f. (f.1.0, ground arith)) d t.filed)),
    )

-- On any ledger that appends have made, for each stored record that is visible at the instant the
-- view has a record of its logical key whose revision is as late or later.
pub visible_is_latest :
    (py : JsonLibrary) (by : ReplayVisibility) (now : ℕ) (old : List PointInTimeRecord)
    (x : PointInTimeRecord)
    → get ((append_all py old empty).1).records x.record_id ≡ some x
    → visible_at by x ≤ now
    → (view : List PointInTimeRecord) × (r : PointInTimeRecord) × (visible_records py by
          (aware now)
          (append_all py old empty).1
        ≡ ok view)
      × (first (λ (y : PointInTimeRecord). y.logical_key == x.logical_key) view ≡ some r)
      × ((revision_order x ≼ revision_order r) ≡ true)
unfolding visible_records
visible_is_latest py by now old x there seen =
    let s = (append_all py old empty).1 in
    let (d, e, t) = kept_table py by now s (append_all-IsKept py old empty (empty-IsKept py)) in
    let (r, found, le) = covers py by now s d x there t.covered seen in
    let sorted = sort key_of d in
    let filed = All-sort _ _ d (All-map _ IsFiled (λ e f. f.0) d t.filed) in
    (
      values sorted,
      r,
      rw e refl,
      first-values x.logical_key sorted filed ∙ get-sort d x.logical_key t.keyed ∙ found,
      le,
    )
