-- ===== src/Landing/Objects.antt =====
-- services/raw_landing.py: what is landed, and ingest/local_landing.py: the local cipher, store, sink
-- and authorizer. A byte string is a text of its bytes. AES-GCM, SHA-256, UTF-8 and `isoformat` are
-- library code, hence parameters; a stored object is read back as it was written.
use marketpilot.Base.{
  text_key, pair_key, Bool, Dict, List, Option, Result, String, [], contains, err, get,
  if◌then◌else◌, nat_eq, none, not, ok, put, some, text_length, ℕ, ◌++◌, ◌==◌, ◌∷◌,
}

pub data LandingOperation : Type 0 where
  write read : LandingOperation

pub record LandingContext : Type 0 where
  pub principal : String
  pub purpose : String
  pub operation : LandingOperation
  pub provider : String
  pub dataset : String

pub record EncryptionEnvelope : Type 0 where
  pub ciphertext : String
  pub key_id : String
  pub algorithm : String
  pub nonce : String

pub record EncryptedLandingObject : Type 0 where
  pub object_key : String
  pub envelope : EncryptionEnvelope
  pub content_type : String
  pub plaintext_sha256 : String

pub record LandingReceipt : Type 0 where
  pub landing_id : String
  pub object_key : String
  pub provider : String
  pub dataset : String
  pub logical_key_hash : String
  pub published_at : ℕ
  pub first_seen_at : ℕ
  pub plaintext_sha256 : String
  pub key_id : String
  pub algorithm : String
  pub content_type : String

pub data LandingError : Type 0 where
  must_be_timezone_aware : String → LandingError
  published_after_first_seen : LandingError
  fields_must_not_be_blank : LandingError
  unsafe_component : LandingError
  access_denied : LandingError
  payload_must_not_be_empty : LandingError
  ciphertext_is_plaintext : LandingError
  envelope_is_incomplete : LandingError
  object_conflict : LandingError
  object_unavailable : LandingError
  metadata_check_failed : LandingError
  payload_check_failed : LandingError
  unknown_landing_key : String → LandingError
  -- `InvalidTag` of the library
  invalid_tag : LandingError
  key_must_be_32_bytes : LandingError

-- `PayloadCipher`. The first argument of `encrypt` is what `os.urandom` draws.
pub record PayloadCipher : Type 0 where
  pub encrypt : String → String → String → EncryptionEnvelope
  pub decrypt : EncryptionEnvelope → String → Result LandingError String

-- `AESGCM(key)`: nonce, text and associated data; `none` is an `InvalidTag`.
pub record AesGcm : Type 0 where
  pub encrypt : String → String → String → String → String
  pub decrypt : String → String → String → String → Option String

abbrev opened : Option String → Result LandingError String
opened none = err invalid_tag
opened (some plaintext) = ok plaintext

abbrev pub local_key_id : String
local_key_id = "local-aesgcm-v1"

abbrev pub local_algorithm : String
local_algorithm = "AES-256-GCM"

-- `LocalAesGcmCipher`, of the bytes of its key file
unfoldable pub local_cipher : AesGcm → String → PayloadCipher
local_cipher aes key = record {
  encrypt = λ draw plaintext associated. record {
    ciphertext = aes.encrypt key draw plaintext associated;
    key_id = local_key_id;
    algorithm = local_algorithm;
    nonce = draw;
  };
  decrypt = λ envelope associated.
      if not (envelope.key_id == local_key_id)
      then err (unknown_landing_key envelope.key_id)
      else opened (aes.decrypt key envelope.nonce envelope.ciphertext associated);
}

unfoldable pub make_local_cipher : AesGcm → String → Result LandingError PayloadCipher
unfolding local_cipher
make_local_cipher aes key =
    if nat_eq (text_length key) 32 then ok (local_cipher aes key) else err key_must_be_32_bytes

-- `FilesystemEncryptedObjectStore` and `JsonlLandingMetadataSink`: the files by their object keys, and
-- the lines of the sink.
pub record Landing : Type 0 where
  pub objects : Dict String EncryptedLandingObject
  pub receipts : List LandingReceipt

abbrev pub empty_landing : Landing
empty_landing = record { objects = []; receipts = [] }

abbrev inserted :
    EncryptedLandingObject
    → Option EncryptedLandingObject
    → Landing
    → EncryptedLandingObject × Landing
inserted value none s = (value, record s { objects = put s.objects value.object_key value })
inserted value (some existing) s = (existing, s)

-- `put_if_absent`
unfoldable pub put_if_absent : EncryptedLandingObject → Landing → EncryptedLandingObject × Landing
put_if_absent value s = inserted value (get s.objects value.object_key) s

-- `JsonlLandingMetadataSink.append`
abbrev pub append_receipt : LandingReceipt → Landing → Landing
append_receipt r s = record s { receipts = s.receipts ++ r ∷ [] }

-- `StaticLandingAuthorizer.authorize`
unfoldable pub static_authorize : List (String × String) → LandingContext → Bool
static_authorize allowed context = contains (context.principal, context.purpose) allowed
