-- ===== src/PointInTime/Replays.antt =====
-- A manifest that the clock builds replays to the view that it was built from.
use marketpilot.Base.{
  text_key, text_order, nat_order, pair_order, All, All-get, All-keys, All-map, All-put, All-sort,
  All-values, All-zip, Dict, IsAscending, IsKeyed, IsKeyed-sort, List, String, [], all-of_All,
  arith, aware, contains, contains-keys, eq_iff, equal_self, false, get, get-put, ltb, map, none,
  ok, put, refl, some, sort, sort-IsAscending, sort_sorted, true, values, ℕ, ◌∷◌, ◌≡◌,
}
use marketpilot.PointInTime.Records.{
  JsonLibrary, PointInTimeRecord, ReplayManifest, ReplayManifestEntry, create_manifest, entry_of,
  manifest_digest, verify, verify_hash,
}
use marketpilot.PointInTime.Replay.{
  PointInTimeLedger, append_all, build_manifest, by_logical_key, empty, keys, observed, replay,
  replay_entries, replay_entry, same_record, visible_records, is_complete, select_records, records,
}
use marketpilot.PointInTime.LookAhead.{append_all-IsKept, empty-IsKept}
use marketpilot.PointInTime.View.{IsFiled, IsFiledFrom, kept_table, key_of, IsGood}

abbrev record_key : PointInTimeRecord → String
record_key r = r.logical_key

abbrev Table : Type 0
Table = Dict String PointInTimeRecord

IsAscending-values :
    (d : Table) → All IsFiled d → IsAscending key_of d → IsAscending record_key (values d)
IsAscending-values [] f h = tt
IsAscending-values (e ∷ []) f h = tt
IsAscending-values ((j, r) ∷ (k, q) ∷ d) (fr, (fq, f)) (le, h) =
    (rw (fr, fq) le, IsAscending-values ((k, q) ∷ d) (fq, f) h)

entry_keys :
    (d : Table)
    → All IsFiled d
    → map (λ (e : ReplayManifestEntry). e.logical_key) (map entry_of (values d)) ≡ keys d
entry_keys [] f = refl
entry_keys ((k, r) ∷ d) (own, f) = ground (arith, entry_keys d f)

get-by_logical_key :
    (d e : Table) (k : String)
    → All IsFiled d
    → IsKeyed d
    → get (by_logical_key (values d) e) k ≡ elim (get d k) [ none ↦ get e k | some r ↦ some r ]
unfolding get by_logical_key
get-by_logical_key [] e k f h = refl
get-by_logical_key ((j, r) ∷ d) e k (own, f) (free, h) = ground (
  arith,
  get-by_logical_key d (put e r.logical_key r) k f h,
  get-put e r.logical_key k r,
  eq_iff j k,
  own,
)

All-by_logical_key :
    (P : String × PointInTimeRecord → Type 0) (rs : List PointInTimeRecord) (e : Table)
    → All (λ r. P (r.logical_key, r)) rs
    → All P e
    → All P (by_logical_key rs e)
unfolding by_logical_key
All-by_logical_key P [] e h k = k
All-by_logical_key P (r ∷ rs) e (pr, h) k =
    All-by_logical_key P rs (put e r.logical_key r) h (All-put P e r.logical_key r k pr)

same_record_refl : (r : PointInTimeRecord) → same_record r r ≡ true
unfolding same_record
same_record_refl r = ground (
  arith,
  eq_iff r.record_id r.record_id,
  eq_iff r.logical_key r.logical_key,
  eq_iff r.provider r.provider,
  eq_iff r.provider_version r.provider_version,
  eq_iff r.schema_version r.schema_version,
  eq_iff r.content_hash r.content_hash,
  eq_iff r.canonical_content r.canonical_content,
)

module _ (py : JsonLibrary) (s : PointInTimeLedger) (now : ℕ) (expected : Table) where
  abbrev IsExpected : PointInTimeRecord → Type 0
  IsExpected r =
      (get s.records r.record_id ≡ some r)
      × (verify py r ≡ ok tt)
      × (ltb now r.first_seen_at ≡ false)
      × (get expected r.logical_key ≡ some r)

  replay_entry_ok :
      (r : PointInTimeRecord) → IsExpected r → replay_entry py s now expected (entry_of r) ≡ ok r
  unfolding replay_entry
  replay_entry_ok r (there, v, seen, e) =
      ground (arith, equal_self r.content_hash, equal_self r.logical_key, same_record_refl r)

  replay_entries_ok :
      (rs : List PointInTimeRecord)
      → All IsExpected rs
      → replay_entries py s now expected (map entry_of rs) ≡ ok rs
  unfolding replay_entries
  replay_entries_ok [] h = refl
  replay_entries_ok (r ∷ rs) (hr, h) = rw (replay_entry_ok r hr) (rw (replay_entries_ok rs h) refl)

-- What a kept ledger's table has at a key, sorted.
abbrev IsSound : JsonLibrary → PointInTimeLedger → ℕ → String × PointInTimeRecord → Type 0
IsSound py s now e =
    IsFiled e
    × (get s.records e.1.record_id ≡ some e.1)
    × (verify py e.1 ≡ ok tt)
    × (ltb now e.1.first_seen_at ≡ false)

module _ (py : JsonLibrary) (s : PointInTimeLedger) (now : ℕ) (d : Table)
    (sound : All (IsSound py s now) d) (keyed : IsKeyed d) where
  abbrev expected : Table
  expected = by_logical_key (values d) []

  filed : All IsFiled d
  filed = All-map _ IsFiled (λ e f. f.0) d sound

  found_expected :
      (e : String × PointInTimeRecord)
      → IsFiled e
      → get d e.0 ≡ some e.1
      → get expected e.1.logical_key ≡ some e.1
  found_expected (k, r) own there =
      ground (arith, get-by_logical_key d [] r.logical_key filed keyed)

  as_expected :
      (e : String × PointInTimeRecord)
      → IsSound py s now e × (get d e.0 ≡ some e.1)
      → IsExpected py s now expected e.1
  as_expected e ((own, stored, v, seen), there) = (stored, v, seen, found_expected e own there)

  all_expected : All (IsExpected py s now expected) (values d)
  all_expected = All-values _ d (All-map _ _ as_expected d (All-zip _ _ d sound (All-get d keyed)))

  known_key :
      (e : String × PointInTimeRecord)
      → IsFiled e × (get d e.0 ≡ some e.1)
      → contains e.1.logical_key (keys d) ≡ true
  known_key (k, r) (own, there) = ground (arith, contains-keys d r.logical_key, own)

  get-expected : (k : String) → get expected k ≡ get d k
  unfolding get
  get-expected k = ground (arith, get-by_logical_key d [] k filed keyed)

  kept_key :
      (e : String × PointInTimeRecord) → get d e.0 ≡ some e.1 → contains e.0 (keys expected) ≡ true
  kept_key (k, r) there = ground (arith, contains-keys expected k, get-expected k)

  complete : is_complete (keys d) (keys expected) ≡ true
  complete =
      let there = All-get d keyed in
      let known =
        All-by_logical_key (λ e. contains e.0 (keys d) ≡ true) (values d) []
          (All-values _ d (All-map _ _ known_key d (All-zip _ _ d filed there))) tt in
      rw (all-of_All _ (keys d) (All-keys _ d (All-map _ _ kept_key d there)))
        (all-of_All _ (keys expected) (All-keys _ expected known))

  module _ (ascending : IsAscending key_of d) where
    abbrev manifest : ReplayManifest
    manifest = record {
      as_of = now;
      entries = map entry_of (values d);
      manifest_hash = manifest_digest py now (map entry_of (values d));
    }

    create_manifest_table : create_manifest py (aware now) (values d) ≡ ok manifest
    unfolding create_manifest
    create_manifest_table =
        rw (sort_sorted record_key (values d) (IsAscending-values d filed ascending)) refl

    verify_hash-manifest : verify_hash py manifest ≡ ok tt
    unfolding verify_hash
    verify_hash-manifest = rw (equal_self (manifest_digest py now (map entry_of (values d)))) refl

    replay_table :
        visible_records py observed (aware now) s ≡ ok (values d)
        → (build_manifest py (aware now) s ≡ ok manifest) × (replay py manifest s ≡ ok (values d))
    unfolding build_manifest replay
    replay_table view = (
      rw view create_manifest_table,
      rw verify_hash-manifest (
          rw view (
            rw (replay_entries_ok py s now expected (values d) all_expected)
              (rw (entry_keys d filed) (rw complete refl)))),
    )

IsSound-entry :
    (py : JsonLibrary) (s : PointInTimeLedger) (now : ℕ) (e : String × PointInTimeRecord)
    → IsFiledFrom py observed now (IsGood py observed now s) e
    → IsSound py s now e
IsSound-entry py s now e (own, (stored, v), seen) = (own, stored, v, seen)

view_of_table :
    (py : JsonLibrary) (s : PointInTimeLedger) (now : ℕ) (d : Table)
    → select_records py observed now (records s) [] ≡ ok d
    → visible_records py observed (aware now) s ≡ ok (values (sort key_of d))
unfolding visible_records
view_of_table py s now d e = rw e refl

-- Replay is exact: on any ledger that appends have made, `build_manifest` returns a manifest as of any
-- instant, and replaying that manifest on the ledger returns just the records that are visible then.
pub replay-build_manifest :
    (py : JsonLibrary) (now : ℕ) (old : List PointInTimeRecord)
    → (m : ReplayManifest) × (view : List PointInTimeRecord) × (visible_records py observed
          (aware now)
          (append_all py old empty).1
        ≡ ok view)
      × (build_manifest py (aware now) (append_all py old empty).1 ≡ ok m)
      × (replay py m (append_all py old empty).1 ≡ ok view)
replay-build_manifest py now old =
    let s = (append_all py old empty).1 in
    let kept = append_all-IsKept py old empty (empty-IsKept py) in
    let (d, selected, t) = kept_table py observed now s kept in
    let sound =
      All-sort key_of (IsSound py s now) d (All-map _ _ (IsSound-entry py s now) d t.filed) in
    let view = view_of_table py s now d selected in
    let (built, replayed) =
      replay_table py s now (sort key_of d) sound (IsKeyed-sort d t.keyed)
        (sort-IsAscending key_of d) view in
    (
      manifest py s now (sort key_of d) sound (IsKeyed-sort d t.keyed) (sort-IsAscending key_of d),
      values (sort key_of d),
      view,
      built,
      replayed,
    )
