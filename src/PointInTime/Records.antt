-- ===== src/PointInTime/Records.antt =====
-- domain/point_in_time.py: records whose ids are the digests of their content, and manifests.
use marketpilot.Base.{
  text_key, text_order, Datetime, List, Option, Result, String, [], aware, err, is_blank, ltb, map,
  naive, none, not, ok, some, sort, ℕ, ◌==◌, ◌∷◌,
}
use marketpilot.Base.Fallible.{◌>>=◌, ◌>>◌, refuse_if}
use marketpilot.Domain.Snapshot.{
  Json, text, instant, list, object, Items, nil, cons, Fields, field, end, Platform,
  freeze_snapshot,
}

pub data PointInTimeError : Type 0 where
  must_be_timezone_aware : String → PointInTimeError
  must_not_be_blank : String → PointInTimeError
  published_after_first_seen : PointInTimeError
  not_json : PointInTimeError
  not_an_object : PointInTimeError
  content_hash_mismatch : String → PointInTimeError
  record_identity_mismatch : String → PointInTimeError
  manifest_hash_mismatch : PointInTimeError
  immutable_collision : String → PointInTimeError
  manifest_record_missing : String → PointInTimeError
  future_record_in_manifest : String → PointInTimeError
  manifest_content_mismatch : String → PointInTimeError
  manifest_key_mismatch : String → PointInTimeError
  not_the_visible_revision : String → PointInTimeError
  manifest_incomplete : PointInTimeError
  conflicting_batch : String → PointInTimeError

abbrev pub Fallible : Type 0 → Type 0
Fallible A = Result PointInTimeError A

-- The serialiser, the digest, and `json.loads`, where `none` is a `JSONDecodeError`.
pub record JsonLibrary : Type 0 where
  pub platform : Platform
  pub loads : String → Option Json

pub record PointInTimeRecord : Type 0 where
  pub record_id : String
  pub logical_key : String
  pub published_at : ℕ
  pub first_seen_at : ℕ
  pub provider : String
  pub provider_version : String
  pub schema_version : String
  pub content_hash : String
  pub canonical_content : String

-- `_utc`
abbrev pub utc : Datetime → String → Fallible ℕ
utc (naive _) name = err (must_be_timezone_aware name)
utc (aware t) _ = ok t

-- The payload of the record's id.
abbrev pub identity : PointInTimeRecord → Json
identity r = object (
    field "logical_key" (text r.logical_key) (
      field "published_at" (instant r.published_at) (
        field "first_seen_at" (instant r.first_seen_at) (
          field "provider" (text r.provider) (
            field "provider_version" (text r.provider_version) (
              field "schema_version" (text r.schema_version)
                (field "content_hash" (text r.content_hash) end)))))))

-- The keyword arguments of `PointInTimeRecord.create`.
pub record Observation : Type 0 where
  pub logical_key : String
  pub published_at : Datetime
  pub first_seen_at : Datetime
  pub provider : String
  pub provider_version : String
  pub schema_version : String
  pub content : Fields

module _ (py : JsonLibrary) where
  abbrev digest : Json → String
  digest payload = (freeze_snapshot py.platform payload).snapshot_id

  -- The record before its id is known.
  abbrev pub unidentified : Observation → ℕ → ℕ → PointInTimeRecord
  unidentified x published seen = record {
    record_id = "";
    logical_key = x.logical_key;
    published_at = published;
    first_seen_at = seen;
    provider = x.provider;
    provider_version = x.provider_version;
    schema_version = x.schema_version;
    content_hash = digest (object x.content);
    canonical_content = (freeze_snapshot py.platform (object x.content)).canonical_json;
  }

  -- `PointInTimeRecord.create`
  unfoldable pub create : Observation → Fallible PointInTimeRecord
  unfolding freeze_snapshot
  create x = do
    published ← utc x.published_at "published_at"
    seen ← utc x.first_seen_at "first_seen_at"
    refuse_if (ltb seen published) published_after_first_seen
    refuse_if (is_blank x.logical_key) (must_not_be_blank "logical_key")
    refuse_if (is_blank x.provider) (must_not_be_blank "provider")
    refuse_if (is_blank x.provider_version) (must_not_be_blank "provider_version")
    refuse_if (is_blank x.schema_version) (must_not_be_blank "schema_version")
    let r = unidentified x published seen
    ok (record r { record_id = digest (identity r) })

  abbrev as_object : Option Json → Fallible Json
  as_object none = err not_json
  as_object (some (object fs)) = ok (object fs)
  as_object (some _) = err not_an_object

  -- `record.content()`
  unfoldable pub content : PointInTimeRecord → Fallible Json
  content r = as_object (py.loads r.canonical_content)

  -- `record.verify()`
  unfoldable pub verify : PointInTimeRecord → Fallible (Unit {0})
  unfolding content freeze_snapshot
  verify r = do
    refuse_if (ltb r.first_seen_at r.published_at) published_after_first_seen
    value ← content r
    refuse_if (not (digest value == r.content_hash)) (content_hash_mismatch r.record_id)
    refuse_if (not (digest (identity r) == r.record_id)) (record_identity_mismatch r.record_id)

pub record ReplayManifestEntry : Type 0 where
  pub logical_key : String
  pub record_id : String
  pub content_hash : String

pub record ReplayManifest : Type 0 where
  pub as_of : ℕ
  pub entries : List ReplayManifestEntry
  pub manifest_hash : String

abbrev entry_json : ReplayManifestEntry → Json
entry_json e = object (
    field "logical_key" (text e.logical_key)
      (field "record_id" (text e.record_id) (field "content_hash" (text e.content_hash) end)))

abbrev entries_json : List ReplayManifestEntry → Items
entries_json [] = nil
entries_json (e ∷ es) = cons (entry_json e) (entries_json es)

-- `_manifest_digest`
unfoldable pub manifest_digest : JsonLibrary → ℕ → List ReplayManifestEntry → String
unfolding freeze_snapshot
manifest_digest py as_of entries =
    digest py
      (object (field "as_of" (instant as_of) (field "entries" (list (entries_json entries)) end)))

abbrev pub entry_of : PointInTimeRecord → ReplayManifestEntry
entry_of r = record {
  logical_key = r.logical_key;
  record_id = r.record_id;
  content_hash = r.content_hash;
}

-- `ReplayManifest.create`
unfoldable pub create_manifest :
    JsonLibrary → Datetime → List PointInTimeRecord → Fallible ReplayManifest
unfolding manifest_digest
create_manifest py as_of records = do
  now ← utc as_of "as_of"
  let entries = map entry_of (sort (λ (r : PointInTimeRecord). r.logical_key) records)
  ok (record { as_of = now; entries = entries; manifest_hash = manifest_digest py now entries })

-- `manifest.verify_hash()`
unfoldable pub verify_hash : JsonLibrary → ReplayManifest → Fallible (Unit {0})
unfolding manifest_digest
verify_hash py m =
    refuse_if (not (manifest_digest py m.as_of m.entries == m.manifest_hash)) manifest_hash_mismatch
