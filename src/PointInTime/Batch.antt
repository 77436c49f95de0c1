-- ===== src/PointInTime/Batch.antt =====
-- ingest/pit_ledger.py: the ledger of batches in a file, one record to a line. The file is the list
-- of its records: the JSON of a line is read back as it was written.
use marketpilot.Base.{
  text_key, Datetime, Exec, List, Option, String, [], err, first, if◌then◌else◌, none, ok, some,
  ◌++◌, ◌==◌, ◌∷◌,
}
use marketpilot.Base.Fallible.{◌>>=◌, ◌>>◌}
use marketpilot.PointInTime.Records.{
  Fallible, JsonLibrary, PointInTimeRecord, PointInTimeError, conflicting_batch, verify,
  ReplayManifest, create_manifest,
}
use marketpilot.PointInTime.Replay.{empty, append_all, visible_records, ReplayVisibility}

pub record PitBatchLedger : Type 0 where
  pub lines : List PointInTimeRecord

module _ (py : JsonLibrary) where
  -- The loop of `load`.
  unfoldable pub load_lines : List PointInTimeRecord → Fallible (List PointInTimeRecord)
  load_lines [] = ok []
  load_lines (r ∷ rs) = do verify py r; rest ← load_lines rs; ok (r ∷ rest)

  unfoldable pub load : PitBatchLedger → Fallible (List PointInTimeRecord)
  unfolding load_lines
  load f = load_lines f.lines

  unfoldable pub find : String → PitBatchLedger → Fallible (Option PointInTimeRecord)
  unfolding load
  find key f = do rs ← load f; ok (first (λ (r : PointInTimeRecord). r.logical_key == key) rs)

  abbrev stored :
      PointInTimeRecord
      → Option PointInTimeRecord
      → PitBatchLedger
      → Fallible (Unit {0}) × PitBatchLedger
  stored r none f = (ok tt, record { lines = f.lines ++ r ∷ [] })
  stored r (some old) f =
      if old.record_id == r.record_id
      then (ok tt, f)
      else (err (conflicting_batch r.logical_key), f)

  -- `append`
  unfoldable pub append_batch : PointInTimeRecord → Exec PitBatchLedger PointInTimeError (Unit {0})
  unfolding find
  append_batch r f = elim (do verify py r; find r.logical_key f) [
    | err e ↦ (err e, f)
    | ok existing ↦ stored r existing f
  ]

  -- `emit_manifest`
  unfoldable pub emit_manifest :
      ReplayVisibility → Datetime → PitBatchLedger → Fallible ReplayManifest
  unfolding load visible_records create_manifest
  emit_manifest by as_of f = do
    rs ← load f
    (append_all py rs empty).0
    view ← visible_records py by as_of (append_all py rs empty).1
    create_manifest py as_of view
