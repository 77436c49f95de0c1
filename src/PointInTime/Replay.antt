-- ===== src/PointInTime/Replay.antt =====
-- services/replay.py: the ledger in memory, and the clock that replays it as of an instant.
use marketpilot.Base.{
  text_key, nat_order, text_order, pair_order, Bool, Datetime, Dict, Exec, List, Option, String, [],
  all, aware, contains, err, false, get, if◌then◌else◌, ltb, map, nat_eq, none, not, ok, put, some,
  sort, values, ℕ, ◌&&◌, ◌==◌, ◌∷◌, ◌≼◌,
}
use marketpilot.Base.Fallible.{◌>>=◌, ◌>>◌, refuse_if}
use marketpilot.PointInTime.Records.{
  Fallible, JsonLibrary, PointInTimeRecord, ReplayManifest, ReplayManifestEntry, PointInTimeError,
  published_after_first_seen, immutable_collision, manifest_record_missing,
  future_record_in_manifest, manifest_content_mismatch, manifest_key_mismatch,
  not_the_visible_revision, manifest_incomplete, utc, verify, create_manifest, verify_hash,
}

pub data ReplayVisibility : Type 0 where
  observed available : ReplayVisibility

pub record PointInTimeLedger : Type 0 where
  pub records : Dict String PointInTimeRecord

abbrev pub empty : PointInTimeLedger
empty = record { records = [] }

-- `==` of the dataclass, field by field
unfoldable pub same_record : PointInTimeRecord → PointInTimeRecord → Bool
same_record a b =
    (a.record_id == b.record_id)
    && (a.logical_key == b.logical_key)
    && nat_eq a.published_at b.published_at
    && nat_eq a.first_seen_at b.first_seen_at
    && (a.provider == b.provider)
    && (a.provider_version == b.provider_version)
    && (a.schema_version == b.schema_version)
    && (a.content_hash == b.content_hash)
    && (a.canonical_content == b.canonical_content)

abbrev pub is_record : PointInTimeRecord → Option PointInTimeRecord → Bool
is_record r none = false
is_record r (some s) = same_record s r

abbrev pub collides : PointInTimeRecord → Option PointInTimeRecord → Bool
collides r none = false
collides r (some s) = not (same_record s r)

-- `records()`
unfoldable pub records : PointInTimeLedger → List PointInTimeRecord
records s = sort (λ (r : PointInTimeRecord). r.record_id) (values s.records)

-- The instant that gates a record.
abbrev pub visible_at : ReplayVisibility → PointInTimeRecord → ℕ
visible_at observed r = r.first_seen_at
visible_at available r = r.published_at

-- `_revision_order`
abbrev pub revision_order : PointInTimeRecord → ℕ × (ℕ × String)
revision_order r = (r.first_seen_at, (r.published_at, r.record_id))

-- The record of its logical key, if no later revision is there.
unfoldable pub keep_latest :
    PointInTimeRecord → Dict String PointInTimeRecord → Dict String PointInTimeRecord
keep_latest r latest = elim (get latest r.logical_key) [
  | none ↦ put latest r.logical_key r
  | some current ↦
      if revision_order r ≼ revision_order current then latest else put latest r.logical_key r
]

-- `{record.logical_key: record for record in records}`
unfoldable pub by_logical_key :
    List PointInTimeRecord → Dict String PointInTimeRecord → Dict String PointInTimeRecord
by_logical_key [] d = d
by_logical_key (r ∷ rs) d = by_logical_key rs (put d r.logical_key r)

abbrev pub keys : Dict String PointInTimeRecord → List String
keys d = map (λ e. e.0) d

-- Whether the entries name just the keys of the view.
abbrev pub is_complete : List String → List String → Bool
is_complete ks js = all (λ k. contains k js) ks && all (λ j. contains j ks) js

module _ (py : JsonLibrary) where
  -- `append`
  unfoldable pub append : PointInTimeRecord → Exec PointInTimeLedger PointInTimeError (Unit {0})
  unfolding same_record
  append r s = elim (verify py r) [
    | err e ↦ (err e, s)
    | ok _ ↦
        if collides r (get s.records r.record_id)
        then (err (immutable_collision r.record_id), s)
        else (ok tt, record { records = put s.records r.record_id r })
  ]

  -- `append_all`
  unfoldable pub append_all :
      List PointInTimeRecord → Exec PointInTimeLedger PointInTimeError (Unit {0})
  unfolding append
  append_all [] s = (ok tt, s)
  append_all (r ∷ rs) s = elim (append r s).0 [
    | ok _ ↦ append_all rs (append r s).1
    | err e ↦ (err e, (append r s).1)
  ]

  -- One round of the loop of `visible_records`.
  unfoldable pub select_record :
      ReplayVisibility
      → ℕ
      → PointInTimeRecord
      → Dict String PointInTimeRecord
      → Fallible (Dict String PointInTimeRecord)
  unfolding keep_latest
  select_record by now r latest = do
    verify py r
    if ltb now (visible_at by r) then ok latest else do
      refuse_if (ltb r.first_seen_at r.published_at) published_after_first_seen
      ok (keep_latest r latest)

  unfoldable pub select_records :
      ReplayVisibility
      → ℕ
      → List PointInTimeRecord
      → Dict String PointInTimeRecord
      → Fallible (Dict String PointInTimeRecord)
  unfolding select_record
  select_records by now [] latest = ok latest
  select_records by now (r ∷ rs) latest = do
    latest' ← select_record by now r latest
    select_records by now rs latest'

  unfoldable pub visible_records :
      ReplayVisibility → Datetime → PointInTimeLedger → Fallible (List PointInTimeRecord)
  unfolding select_records records
  visible_records by as_of s = do
    now ← utc as_of "as_of"
    latest ← select_records by now (records s) []
    ok (values (sort (λ (e : String × PointInTimeRecord). e.0) latest))

  unfoldable pub build_manifest : Datetime → PointInTimeLedger → Fallible ReplayManifest
  build_manifest as_of s = do
    now ← utc as_of "as_of"
    view ← visible_records observed (aware now) s
    create_manifest py (aware now) view

  -- One round of the loop of `replay`.
  unfoldable pub replay_entry :
      PointInTimeLedger
      → ℕ
      → Dict String PointInTimeRecord
      → ReplayManifestEntry
      → Fallible PointInTimeRecord
  unfolding same_record
  replay_entry s now expected e = elim (get s.records e.record_id) [
    | none ↦ err (manifest_record_missing e.record_id)
    | some r ↦ do
      verify py r
      refuse_if (ltb now r.first_seen_at) (future_record_in_manifest e.record_id)
      refuse_if (not (r.content_hash == e.content_hash)) (manifest_content_mismatch e.record_id)
      refuse_if (not (r.logical_key == e.logical_key)) (manifest_key_mismatch e.record_id)
      refuse_if (not (is_record r (get expected e.logical_key)))
          (not_the_visible_revision e.logical_key)
      ok r
  ]

  unfoldable pub replay_entries :
      PointInTimeLedger
      → ℕ
      → Dict String PointInTimeRecord
      → List ReplayManifestEntry
      → Fallible (List PointInTimeRecord)
  unfolding replay_entry
  replay_entries s now expected [] = ok []
  replay_entries s now expected (e ∷ es) = do
    r ← replay_entry s now expected e
    rs ← replay_entries s now expected es
    ok (r ∷ rs)

  unfoldable pub replay : ReplayManifest → PointInTimeLedger → Fallible (List PointInTimeRecord)
  replay m s = do
    verify_hash py m
    view ← visible_records observed (aware m.as_of) s
    replayed ← replay_entries s m.as_of (by_logical_key view []) m.entries
    refuse_if
        (not (
          is_complete (map (λ (e : ReplayManifestEntry). e.logical_key) m.entries)
            (keys (by_logical_key view []))))
        manifest_incomplete
    ok replayed
