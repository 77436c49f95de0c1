-- ===== src/Landing/Service.antt =====
-- services/raw_landing.py: `class LicensedPayloadLandingService`.
use Prim.Native.Char.{code}
use Prim.Native.String.{◌++◌ as text_append}
use marketpilot.Base.{
  text_key, Bool, Datetime, Exec, List, Option, Result, String, [], any, aware, err, get,
  if◌then◌else◌, is_blank, leb, ltb, naive, nat_eq, none, not, ok, some, true, ℕ, ◌&&◌, ◌==◌, ◌||◌,
  ◌∷◌,
}
use marketpilot.Base.Fallible.{◌>>=◌, ◌>>◌, refuse_if}
use marketpilot.Landing.Objects.{
  EncryptedLandingObject, EncryptionEnvelope, Landing, LandingContext, LandingError,
  LandingOperation, LandingReceipt, PayloadCipher, append_receipt, put_if_absent, access_denied,
  ciphertext_is_plaintext, envelope_is_incomplete, fields_must_not_be_blank, metadata_check_failed,
  must_be_timezone_aware, object_conflict, object_unavailable, payload_check_failed,
  payload_must_not_be_empty, published_after_first_seen, read, unsafe_component, write,
}

-- What the service is made of, and the library functions that it calls.
pub record LandingSetup : Type 0 where
  pub authorize : LandingContext → Bool
  pub cipher : PayloadCipher
  pub sha256 : String → String
  pub encode : String → String
  pub isoformat : ℕ → String

-- The arguments of `land`; `draw` is what the cipher draws.
pub record LandingRequest : Type 0 where
  pub provider : String
  pub dataset : String
  pub logical_key : String
  pub published_at : Datetime
  pub first_seen_at : Datetime
  pub payload : String
  pub content_type : String
  pub principal : String
  pub purpose : String
  pub draw : String

-- `[A-Za-z0-9._-]`
abbrev pub is_safe_char : ℕ → Bool
is_safe_char c =
    leb b'A' c && leb c b'Z'
    || leb b'a' c && leb c b'z'
    || leb b'0' c && leb c b'9'
    || nat_eq c b'.'
    || nat_eq c b'_'
    || nat_eq c b'-'

unfoldable pub all_safe : String → Bool
all_safe String.[] = true
all_safe (String.◌∷◌ c s) = is_safe_char (code c) && all_safe s

-- `safe_component.fullmatch(value)`
abbrev pub is_safe : String → Bool
is_safe s = not (s == "") && all_safe s

abbrev pub concat : List String → String
concat [] = ""
concat (s ∷ []) = s
concat (s ∷ t ∷ ss) = text_append s (concat (t ∷ ss))

abbrev pub object_key_of : String → String → String → String
object_key_of provider dataset landing_id =
    concat ("licensed/" ∷ provider ∷ "/" ∷ dataset ∷ "/" ∷ landing_id ∷ [])

-- `f"marketpilot:{landing_id}:{provider}:{dataset}"`
abbrev pub associated_text : String → String → String → String
associated_text landing_id provider dataset =
    concat ("marketpilot:" ∷ landing_id ∷ ":" ∷ provider ∷ ":" ∷ dataset ∷ [])

-- `_utc`
abbrev pub utc_of : Datetime → String → Result LandingError ℕ
utc_of (naive _) name = err (must_be_timezone_aware name)
utc_of (aware t) name = ok t

abbrev pub context_of : LandingOperation → String → String → String → String → LandingContext
context_of operation principal purpose provider dataset = record {
  principal = principal;
  purpose = purpose;
  operation = operation;
  provider = provider;
  dataset = dataset;
}

unfoldable pub enclosed :
    LandingReceipt → String → EncryptionEnvelope → Result LandingError EncryptedLandingObject
enclosed r plaintext envelope = do
  refuse_if (envelope.ciphertext == "" || envelope.ciphertext == plaintext) ciphertext_is_plaintext
  refuse_if (is_blank envelope.key_id || is_blank envelope.algorithm || envelope.nonce == "")
      envelope_is_incomplete
  ok (record {
    object_key = r.object_key;
    envelope = envelope;
    content_type = r.content_type;
    plaintext_sha256 = r.plaintext_sha256;
  })

abbrev pub conflicts : LandingReceipt → EncryptedLandingObject → Bool
conflicts r o =
    not (o.object_key == r.object_key)
    || not (o.plaintext_sha256 == r.plaintext_sha256)
    || not (o.content_type == r.content_type)

abbrev pub receipt_of : LandingReceipt → EncryptedLandingObject → LandingReceipt
receipt_of r o = record r { key_id = o.envelope.key_id; algorithm = o.envelope.algorithm }

-- `land` from the test for a conflict on
unfoldable pub receive :
    LandingReceipt → EncryptedLandingObject → Exec Landing LandingError LandingReceipt
receive r o s =
    if conflicts r o
    then (err object_conflict, s)
    else (ok (receipt_of r o), append_receipt (receipt_of r o) s)

unfoldable pub insert_fresh :
    LandingReceipt
    → Result LandingError EncryptedLandingObject
    → Exec Landing LandingError LandingReceipt
unfolding receive put_if_absent
insert_fresh r (err e) s = (err e, s)
insert_fresh r (ok o) s = receive r (put_if_absent o s).0 (put_if_absent o s).1

module _ (c : LandingSetup) where
  -- The receipt before the envelope is known.
  unfoldable pub draft_receipt : LandingRequest → ℕ → ℕ → LandingReceipt
  draft_receipt q published seen =
      let plaintext_hash = c.sha256 q.payload in
      let logical_key_hash = c.sha256 (c.encode q.logical_key) in
      let identity = concat (
        q.provider
        ∷ "|"
        ∷ q.dataset
        ∷ "|"
        ∷ logical_key_hash
        ∷ "|"
        ∷ c.isoformat seen
        ∷ "|"
        ∷ plaintext_hash
        ∷ []) in
      let landing_id = c.sha256 (c.encode identity) in
      record {
        landing_id = landing_id;
        object_key = object_key_of q.provider q.dataset landing_id;
        provider = q.provider;
        dataset = q.dataset;
        logical_key_hash = logical_key_hash;
        published_at = published;
        first_seen_at = seen;
        plaintext_sha256 = plaintext_hash;
        key_id = "";
        algorithm = "";
        content_type = q.content_type;
      }

  -- The checks of `land` on its fields, up to the names of the object
  unfoldable pub prepare_fields : LandingRequest → ℕ → ℕ → Result LandingError LandingReceipt
  unfolding draft_receipt
  prepare_fields q published seen = do
    refuse_if
        (any is_blank
          (q.provider ∷ q.dataset ∷ q.logical_key ∷ q.content_type ∷ q.principal ∷ q.purpose ∷ []))
        fields_must_not_be_blank
    refuse_if (not (is_safe q.provider) || not (is_safe q.dataset)) unsafe_component
    refuse_if (not (c.authorize (context_of write q.principal q.purpose q.provider q.dataset)))
        access_denied
    refuse_if (q.payload == "") payload_must_not_be_empty
    ok (draft_receipt q published seen)

  unfoldable pub prepare : LandingRequest → Result LandingError LandingReceipt
  unfolding prepare_fields
  prepare q = do
    published ← utc_of q.published_at "published_at"
    seen ← utc_of q.first_seen_at "first_seen_at"
    refuse_if (ltb seen published) published_after_first_seen
    prepare_fields q published seen

  abbrev pub associated_of : LandingReceipt → String
  associated_of r = c.encode (associated_text r.landing_id r.provider r.dataset)

  -- The object of a fresh landing, after the tests of its envelope.
  unfoldable pub candidate :
      LandingRequest → LandingReceipt → Result LandingError EncryptedLandingObject
  unfolding enclosed
  candidate q r = enclosed r q.payload (c.cipher.encrypt q.draw q.payload (associated_of r))

  -- `land` from the look into the store on
  unfoldable pub place :
      LandingRequest
      → LandingReceipt
      → Option EncryptedLandingObject
      → Exec Landing LandingError LandingReceipt
  unfolding insert_fresh candidate
  place q r none s = insert_fresh r (candidate q r) s
  place q r (some existing) s = receive r existing s

  unfoldable pub land_prepared :
      LandingRequest → Result LandingError LandingReceipt → Exec Landing LandingError LandingReceipt
  unfolding place
  land_prepared q (err e) s = (err e, s)
  land_prepared q (ok r) s = place q r (get s.objects r.object_key) s

  unfoldable pub land : LandingRequest → Exec Landing LandingError LandingReceipt
  unfolding prepare land_prepared
  land q s = land_prepared q (prepare q) s

  unfoldable pub checked_read :
      LandingReceipt → Option EncryptedLandingObject → Result LandingError String
  checked_read r none = err object_unavailable
  checked_read r (some o) = do
    refuse_if
        (not (o.object_key == r.object_key)
          || not (o.plaintext_sha256 == r.plaintext_sha256)
          || not (o.content_type == r.content_type)
          || not (o.envelope.key_id == r.key_id)
          || not (o.envelope.algorithm == r.algorithm))
        metadata_check_failed
    plaintext ← c.cipher.decrypt o.envelope (associated_of r)
    refuse_if (not (c.sha256 plaintext == r.plaintext_sha256)) payload_check_failed
    ok plaintext

  -- `read_authorized`
  unfoldable pub read_authorized :
      LandingReceipt → String → String → Landing → Result LandingError String
  unfolding checked_read
  read_authorized r principal purpose s = do
    refuse_if (not (c.authorize (context_of read principal purpose r.provider r.dataset)))
        access_denied
    checked_read r (get s.objects r.object_key)
