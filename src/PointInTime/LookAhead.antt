-- ===== src/PointInTime/LookAhead.antt =====
-- What the ledger keeps, and why later facts cannot change an earlier view.
use marketpilot.Base.{
  text_key, text_order, All, All-get, All-map, All-put, All-values, All-zip, Bool-cases, Dict,
  IsKeyed, IsKeyed-put, List, Option-cases, Result-cases, String, [], ap, arith, aware, eq_iff,
  false, first, get, inl, inr, insert, ltb, none, ok, put, put_same, refl, some, sort, sort-snoc,
  true, values, values-put_new, ℕ, ◌&&◌, ◌<◌, ◌∙◌, ◌∷◌, ◌≡◌, ◌≼◌, ◌⊎◌,
}
use marketpilot.PointInTime.Records.{JsonLibrary, PointInTimeRecord, verify}
use marketpilot.PointInTime.Replay.{
  PointInTimeLedger, ReplayVisibility, append, append_all, empty, records, same_record,
  select_record, select_records, visible_at, visible_records,
}

pub same_record-eq : (a b : PointInTimeRecord) → same_record a b ≡ true → a ≡ b
unfolding same_record
same_record-eq a b h = ground (
  arith,
  eq_iff a.record_id b.record_id,
  eq_iff a.logical_key b.logical_key,
  eq_iff a.provider b.provider,
  eq_iff a.provider_version b.provider_version,
  eq_iff a.schema_version b.schema_version,
  eq_iff a.content_hash b.content_hash,
  eq_iff a.canonical_content b.canonical_content,
)

module _ (py : JsonLibrary) where
  -- Every record stands once, under its own id, and verifies.
  pub record IsKept (s : PointInTimeLedger) : Type 0 where
    pub stored : All (λ e. (e.1.record_id ≡ e.0) × (verify py e.1 ≡ ok tt)) s.records
    pub keyed : IsKeyed s.records

  -- What an append that returns does to the ledger.
  pub append_cases :
      (r : PointInTimeRecord) (s : PointInTimeLedger)
      → ((append py r s).1 ≡ s)
        ⊎ ((verify py r ≡ ok tt)
            × (get s.records r.record_id ≡ none)
            × ((append py r s).1 ≡ record { records = put s.records r.record_id r }))
  unfolding append
  append_cases r s = elim (Result-cases (verify py r)) [
    | inr (e, h) ↦ inl (rw (h, append))
    | inl (u, h) ↦ elim (Option-cases (get s.records r.record_id)) [
      | inl free ↦ inr (h, free, rw (h, append, free))
      | inr (old, found) ↦ elim (Bool-cases (same_record old r)) [
        | inl same ↦
            let again : get s.records r.record_id ≡ some r =
              found ∙ ap some (same_record-eq old r same) in
            inl (
              rw (h, append, found, same)
                (ap (λ d. record { records = d }) (put_same s.records r.record_id r again)))
        | inr other ↦ inl (rw (h, append, found, other))
      ]
    ]
  ]

  pub append-IsKept :
      (r : PointInTimeRecord) (s : PointInTimeLedger) → IsKept s → IsKept (append py r s).1
  append-IsKept r s k = elim (append_cases r s) [
    | inl same ↦ rw same k
    | inr (h, free, e) ↦ rw e (record {
      stored = All-put _ s.records r.record_id r k.stored (refl, h);
      keyed = IsKeyed-put s.records r.record_id r k.keyed;
    })
  ]

  -- A property that every append of such a record keeps holds after all of them.
  pub append_all_induction :
      (Q : PointInTimeRecord → Type 0) (P : PointInTimeLedger → Type 0)
      → ((r : PointInTimeRecord) (s : PointInTimeLedger) → Q r → P s → P (append py r s).1)
      → (rs : List PointInTimeRecord) (s : PointInTimeLedger) → All Q rs
      → P s
      → P (append_all py rs s).1
  unfolding append_all
  append_all_induction Q P keep [] s qs h = h
  append_all_induction Q P keep (r ∷ rs) s (q, qs) h = elim (Result-cases (append py r s).0) [
    | inl (u, e) ↦
        rw (e, append_all) (append_all_induction Q P keep rs (append py r s).1 qs (keep r s q h))
    | inr (x, e) ↦ rw (e, append_all) (keep r s q h)
  ]

  pub append_all-IsKept :
      (rs : List PointInTimeRecord) (s : PointInTimeLedger)
      → IsKept s
      → IsKept (append_all py rs s).1
  append_all-IsKept rs s k =
      append_all_induction (λ _. Unit) IsKept (λ r t _. append-IsKept r t) rs s (trivial rs) k
    where
      trivial : (xs : List PointInTimeRecord) → All (λ _. Unit {0}) xs
      trivial [] = tt
      trivial (x ∷ xs) = (tt, trivial xs)

  pub empty-IsKept : IsKept empty
  empty-IsKept = record { stored = tt; keyed = tt }

  module _ (by : ReplayVisibility) (now : ℕ) where
    abbrev Later : PointInTimeRecord → Type 0
    Later r = ltb now (visible_at by r) ≡ true

    select-insert :
        (r : PointInTimeRecord) (xs : List PointInTimeRecord) (d : Dict String PointInTimeRecord)
        → verify py r ≡ ok tt
        → Later r
        → select_records py by now (insert (λ (x : PointInTimeRecord). x.record_id) r xs) d
          ≡ select_records py by now xs d
    unfolding select_records select_record insert
    select-insert r [] d v late = rw (v, late)
    select-insert r (x ∷ xs) d v late = elim (Bool-cases (r.record_id ≼ x.record_id)) [
      | inl first ↦ rw first (rw (v, late))
      | inr after ↦ elim (Result-cases (select_record py by now x d)) [
        | inl (d', e) ↦ rw after (rw e (select-insert r xs d' v late))
        | inr (err', e) ↦ rw after (rw e refl)
      ]
    ]

    -- No stored record shares the id of a new one.
    apart :
        (s : PointInTimeLedger) (r : PointInTimeRecord)
        → get s.records r.record_id ≡ none
        → (e : String × PointInTimeRecord)
        → ((e.1.record_id ≡ e.0) × (verify py e.1 ≡ ok tt)) × (get s.records e.0 ≡ some e.1)
        → ((e.1.record_id ≼ r.record_id) && (r.record_id ≼ e.1.record_id)) ≡ false
    apart s r free (k, x) ((own, v), found) =
        ground (arith, text_order.le_antisymm x.record_id r.record_id)

    select-append :
        (r : PointInTimeRecord) (s : PointInTimeLedger)
        → Later r
        → IsKept s
        → select_records py by now (records (append py r s).1) []
          ≡ select_records py by now (records s) []
    unfolding records
    select-append r s late k = elim (append_cases r s) [
      | inl same ↦ rw same refl
      | inr (v, free, e) ↦
          let others = All-values _ s.records (
            All-map _ _ (apart s r free) s.records
              (All-zip _ _ s.records k.stored (All-get s.records k.keyed))) in
          rw e (
            rw (values-put_new s.records r.record_id r free) (
              rw (sort-snoc _ (values s.records) r others) (
                select-insert r (sort (λ (x : PointInTimeRecord). x.record_id) (values s.records))
                  [] v late)))
    ]

-- No look-ahead: facts that become visible after an instant, appended in any number after any
-- others, change nothing of the view as of that instant, by either rule of visibility.
pub no_look_ahead :
    (py : JsonLibrary) (by : ReplayVisibility) (now : ℕ) (old new : List PointInTimeRecord)
    → All (λ r. now < visible_at by r) new
    → visible_records py by (aware now) (append_all py new (append_all py old empty).1).1
      ≡ visible_records py by (aware now) (append_all py old empty).1
unfolding visible_records
no_look_ahead py by now old new late =
    let start = (append_all py old empty).1 in
    let (kept, same) =
      append_all_induction py (λ r. now < visible_at by r)
        (λ s.
          IsKept py s
          × (select_records py by now (records s) [] ≡ select_records py by now (records start) []))
        (λ r s q (k, e). (append-IsKept py r s k, select-append py by now r s (ground arith) k ∙ e))
        new start late (append_all-IsKept py old empty (empty-IsKept py), refl) in
    rw same refl
