-- ===== src/PointInTime/Identity.antt =====
-- What the digests of a record prove.
use marketpilot.Base.{
  text_key, Bool-cases, arith, eq_iff, inl, inr, ok, some, sym, ◌==◌, ◌∙◌, ◌≡◌, ◌⊎◌,
}
use marketpilot.Domain.Snapshot.{Collision, Fields, object, freeze_snapshot}
use marketpilot.PointInTime.Records.{
  JsonLibrary, Observation, PointInTimeRecord, create, identity, verify,
}

-- `json.loads` reads back what `json.dumps` wrote of an object, as an object that is written the same.
pub record IsFaithful (py : JsonLibrary) : Type 0 where
  pub reads :
      (fs : Fields)
      → (gs : Fields) × (py.loads (py.platform.dumps (object fs)) ≡ some (object gs))
        × (py.platform.dumps (object gs) ≡ py.platform.dumps (object fs))

-- Where the reader is faithful to the writer, a record that `create` returns passes `verify`.
verify-create :
    (py : JsonLibrary) (x : Observation) (r : PointInTimeRecord)
    → IsFaithful py
    → create py x ≡ ok r
    → verify py r ≡ ok tt
unfolding create verify
verify-create py x r faithful h =
    let (gs, reads, same) = faithful.reads x.content in
    ground (
      arith,
      reads,
      same,
      eq_iff (freeze_snapshot py.platform (object gs)).snapshot_id r.content_hash,
      eq_iff (freeze_snapshot py.platform (identity r)).snapshot_id r.record_id,
    )

identified :
    (py : JsonLibrary) (r : PointInTimeRecord)
    → verify py r ≡ ok tt
    → (freeze_snapshot py.platform (identity r)).snapshot_id ≡ r.record_id
unfolding verify
identified py r h =
    ground (arith, eq_iff (freeze_snapshot py.platform (identity r)).snapshot_id r.record_id)

-- Two records that verify under one id are written from the same facts (key, times, provider,
-- versions and content hash), or their facts are a collision of the digest.
same_id_same_facts :
    (py : JsonLibrary) (a b : PointInTimeRecord)
    → verify py a ≡ ok tt
    → verify py b ≡ ok tt
    → a.record_id ≡ b.record_id
    → (py.platform.dumps (identity a) ≡ py.platform.dumps (identity b))
      ⊎ Collision py.platform (identity a) (identity b)
same_id_same_facts py a b va vb same =
    elim (Bool-cases (py.platform.dumps (identity a) == py.platform.dumps (identity b))) [
      | inl e ↦ inl ((eq_iff (py.platform.dumps (identity a)) (py.platform.dumps (identity b))).0 e)
      | inr n ↦ inr (record {
        differ = λ e.
            cc (n, (eq_iff (py.platform.dumps (identity a)) (py.platform.dumps (identity b))).1 e);
        meet = identified py a va ∙ same ∙ sym (identified py b vb);
      })
    ]
