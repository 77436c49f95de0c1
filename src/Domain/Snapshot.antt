-- ===== src/Domain/Snapshot.antt =====
-- domain/snapshot.py: canonical JSON and its digest. `json.dumps` with sorted keys and SHA-256
-- are Python's standard library, hence a parameter.
use Prim.Native.String.{◌++◌ as text_append}
use marketpilot.Base.{ℕ, String, Bool, ◌≡◌, ◌≢◌}

-- The values that the payloads hold. A datetime is its UTC instant.
mutual
  pub data Json : Type 0 where
    null : Json
    flag : Bool → Json
    text : String → Json
    number : ℕ → Json
    -- a float, by its `repr`
    float : String → Json
    instant : ℕ → Json
    -- a `date`, by its ordinal
    day : ℕ → Json
    list : Items → Json
    object : Fields → Json

  pub data Items : Type 0 where
    nil : Items
    cons : Json → Items → Items

  pub data Fields : Type 0 where
    end : Fields
    field : String → Json → Fields → Fields

-- `json.dumps(payload, sort_keys=True, ...)` and `hashlib.sha256(...).hexdigest()`
pub record Platform : Type 0 where
  pub dumps : Json → String
  pub sha256 : String → String

pub record FrozenSnapshot : Type 0 where
  pub snapshot_id : String
  pub canonical_json : String

unfoldable pub freeze_snapshot : Platform → Json → FrozenSnapshot
freeze_snapshot py payload =
    let canonical = py.dumps payload in
    let digest = py.sha256 canonical in
    record { snapshot_id = text_append "sha256:" digest; canonical_json = canonical }

-- Two payloads whose digests meet although their canonical texts differ.
pub record Collision (py : Platform) (a b : Json) : Type 0 where
  pub differ : py.dumps a ≢ py.dumps b
  pub meet : (freeze_snapshot py a).snapshot_id ≡ (freeze_snapshot py b).snapshot_id
