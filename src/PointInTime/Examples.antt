-- ===== src/PointInTime/Examples.antt =====
-- Two revisions of one release and a batch of each.
use package.text.Mathlib.TextLemmas.{append-nil, nil-append}
use Prim.Native.String.{◌++◌ as text_append}
use marketpilot.Base.{
  text_key, nat_order, text_order, pair_order, List, String, [], arith, aware, first, get, ok, put,
  refl, some, sort, text_le, true, ℕ, ◌==◌, ◌∙◌, ◌∷◌, ◌≡◌, ◌≼◌,
}
use marketpilot.Fixtures.{toy}
use marketpilot.Domain.Snapshot.{end, field, text, object, freeze_snapshot}
use marketpilot.PointInTime.Records.{
  JsonLibrary, Observation, PointInTimeRecord, ReplayManifest, identity, verify,
}
use marketpilot.PointInTime.Replay.{
  append, append_all, build_manifest, empty, observed, replay, revision_order, visible_records,
}
use marketpilot.PointInTime.Batch.{PitBatchLedger, find}
use marketpilot.PointInTime.LookAhead.{no_look_ahead}
use marketpilot.PointInTime.View.{visible_is_latest}
use marketpilot.PointInTime.Replays.{replay-build_manifest}
use marketpilot.PointInTime.Identity.{IsFaithful}
use marketpilot.PointInTime.Batches.{append_batches, batch_is_final}

-- A reader for the stand-in writer: any text is an object of one field.
abbrev library : JsonLibrary
library = record { platform = toy; loads = λ s. some (object (field "" (text s) end)) }

again : (s : String) → text_append "" (text_append s "") ≡ s
again s = nil-append (text_append s "") ∙ append-nil s

faithful : IsFaithful library
faithful = record {
  reads = λ fs. (field "" (text (toy.dumps (object fs))) end, refl, again (toy.dumps (object fs)));
}

-- Revision `c` of the release, published at 10 and seen at `seen`.
abbrev observation : String → ℕ → Observation
observation c seen = record {
  logical_key = "cpi";
  published_at = aware 10;
  first_seen_at = aware seen;
  provider = "bls";
  provider_version = "1";
  schema_version = "1";
  content = field "" (text c) end;
}

abbrev unnamed : String → ℕ → PointInTimeRecord
unnamed c seen = record {
  record_id = "";
  logical_key = "cpi";
  published_at = 10;
  first_seen_at = seen;
  provider = "bls";
  provider_version = "1";
  schema_version = "1";
  content_hash = (freeze_snapshot toy (object (field "" (text c) end))).snapshot_id;
  canonical_content = c;
}

abbrev revision : String → ℕ → PointInTimeRecord
revision c seen = record (unnamed c seen) {
  record_id = (freeze_snapshot toy (identity (unnamed c seen))).snapshot_id;
}

abbrev early : PointInTimeRecord
early = revision "a" 12

abbrev late : PointInTimeRecord
late = revision "b" 20

no_look_ahead_example :
    visible_records library observed
      (aware 15)
      (append_all library (late ∷ []) (append_all library (early ∷ []) empty).1).1
    ≡ visible_records library observed (aware 15) (append_all library (early ∷ []) empty).1
no_look_ahead_example = no_look_ahead library observed 15 (early ∷ []) (late ∷ []) (omega arith)

visible_is_latest_example :
    (view : List PointInTimeRecord) × (r : PointInTimeRecord) × (visible_records library observed
        (aware 30)
        (append_all library (early ∷ late ∷ []) empty).1
      ≡ ok view)
    × (first (λ (y : PointInTimeRecord). y.logical_key == "cpi") view ≡ some r)
    × ((revision_order early ≼ revision_order r) ≡ true)
unfolding append_all append freeze_snapshot get verify put
visible_is_latest_example =
    visible_is_latest library observed 30 (early ∷ late ∷ []) early refl (omega arith)

replay-build_manifest_example :
    (m : ReplayManifest) × (view : List PointInTimeRecord) × (visible_records library observed
        (aware 15)
        (append_all library (early ∷ late ∷ []) empty).1
      ≡ ok view)
    × (build_manifest library (aware 15) (append_all library (early ∷ late ∷ []) empty).1 ≡ ok m)
    × (replay library m (append_all library (early ∷ late ∷ []) empty).1 ≡ ok view)
replay-build_manifest_example = replay-build_manifest library 15 (early ∷ late ∷ [])

-- The view as of an instant between the two revisions has the first one.
between :
    visible_records library observed (aware 15) (append_all library (late ∷ early ∷ []) empty).1
    ≡ ok (early ∷ [])
unfolding append_all append visible_records verify get freeze_snapshot sort put text_le
between = refl

abbrev file : PitBatchLedger
file = record { lines = early ∷ [] }

batch_is_final_example :
    find library "cpi" (append_batches library (late ∷ early ∷ []) file) ≡ ok (some early)
unfolding find verify freeze_snapshot
batch_is_final_example = batch_is_final library "cpi" (late ∷ early ∷ []) file early refl
