-- ===== src/CostLedger.antt =====
-- ingest/cost_ledger.py: every decision of the cost gate, chained by digests. The file is the list
-- of its entries: the JSON of a line is read back as it was written, and a float is its `repr`.
pub mod Integrity
mod Examples
use marketpilot.Base.{
  text_key, Exec, List, Option, Result, String, [], err, last, length, nat_eq, none, not, ok, some,
  ℕ, ◌++◌, ◌+◌, ◌==◌, ◌||◌, ◌∷◌,
}
use marketpilot.Base.Fallible.{◌>>=◌, ◌>>◌, refuse_if}
use marketpilot.Domain.Snapshot.{
  Json, text, number, float, instant, object, end, field, Platform, freeze_snapshot,
}

pub data CostLedgerError : Type 0 where
  chain_is_broken : CostLedgerError
  entry_hash_mismatch : CostLedgerError

pub record CostLedgerEntry : Type 0 where
  pub sequence : ℕ
  pub recorded_at : ℕ
  pub plan_id : String
  pub estimated_usd : String
  pub ceiling_usd : String
  pub decision : String
  pub previous_hash : String
  pub entry_hash : String

-- `GENESIS_HASH`
abbrev pub genesis_hash : String
genesis_hash = "sha256:cost-ledger-genesis"

-- What the digest of an entry covers.
abbrev pub entry_payload : CostLedgerEntry → Json
entry_payload e = object (
    field "sequence" (number e.sequence) (
      field "recorded_at" (instant e.recorded_at) (
        field "plan_id" (text e.plan_id) (
          field "estimated_usd" (float e.estimated_usd) (
            field "ceiling_usd" (float e.ceiling_usd) (
              field "decision" (text e.decision)
                (field "previous_hash" (text e.previous_hash) end)))))))

pub record CostLedger : Type 0 where
  pub lines : List CostLedgerEntry

abbrev pub previous_of : Option CostLedgerEntry → String
previous_of none = genesis_hash
previous_of (some e) = e.entry_hash

module _ (py : Platform) where
  -- The loop of `_verify`, from the entry with this index on.
  unfoldable pub verify_from : ℕ → String → List CostLedgerEntry → Result CostLedgerError (Unit {0})
  unfolding freeze_snapshot
  verify_from index previous [] = ok tt
  verify_from index previous (e ∷ es) = do
    refuse_if (not (nat_eq e.sequence index) || not (e.previous_hash == previous)) chain_is_broken
    refuse_if (not ((freeze_snapshot py (entry_payload e)).snapshot_id == e.entry_hash))
        entry_hash_mismatch
    verify_from (index + 1) e.entry_hash es

  -- `load`
  unfoldable pub load : CostLedger → Result CostLedgerError (List CostLedgerEntry)
  unfolding verify_from
  load f = do verify_from 0 genesis_hash f.lines; ok f.lines

  abbrev unhashed : List CostLedgerEntry → ℕ → String → String → String → String → CostLedgerEntry
  unhashed entries now plan estimated ceiling decision = record {
    sequence = length entries;
    recorded_at = now;
    plan_id = plan;
    estimated_usd = estimated;
    ceiling_usd = ceiling;
    decision = decision;
    previous_hash = previous_of (last entries);
    entry_hash = "";
  }

  abbrev pub next_entry :
      List CostLedgerEntry → ℕ → String → String → String → String → CostLedgerEntry
  next_entry entries now plan estimated ceiling decision =
      let e = unhashed entries now plan estimated ceiling decision in
      record e { entry_hash = (freeze_snapshot py (entry_payload e)).snapshot_id }

  -- `append`, at the time that `datetime.now(UTC)` gives
  unfoldable pub append :
      ℕ → String → String → String → String → Exec CostLedger CostLedgerError CostLedgerEntry
  unfolding load freeze_snapshot
  append now plan estimated ceiling decision f = elim (load f) [
    | err e ↦ (err e, f)
    | ok entries ↦
        let e = next_entry entries now plan estimated ceiling decision in
        (ok e, record { lines = f.lines ++ e ∷ [] })
  ]
