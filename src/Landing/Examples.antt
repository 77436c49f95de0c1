-- ===== src/Landing/Examples.antt =====
-- Two payloads of one provider, sealed by the local cipher over a stand-in for AES-GCM.
use Prim.Native.Char.{Char}
use marketpilot.Base.{
  text_key, List, Option, String, [], aware, err, get, none, ok, refl, some, true, ◌++◌, ◌∷◌, ◌≡◌,
  ◌⊎◌, is_blank, put,
}
use marketpilot.Landing.Objects.{
  AesGcm, LandingError, LandingReceipt, PayloadCipher, EncryptedLandingObject, empty_landing, write,
  local_algorithm, local_cipher, local_key_id, static_authorize,
}
use marketpilot.Landing.Service.{
  LandingRequest, LandingSetup, context_of, land, read_authorized, all_safe,
}
use marketpilot.Landing.Sealed.{IsCipher, land_all}
use marketpilot.Landing.ReadBack.{land_reads_back, landing_is_atomic}

abbrev mark : Char
mark = "#"

abbrev without_mark : String → Option String
without_mark String.[] = none
without_mark (String.◌∷◌ c s) = some s

abbrev stand_in : AesGcm
stand_in = record {
  encrypt = λ key nonce plaintext associated. String.◌∷◌ mark plaintext;
  decrypt = λ key nonce ciphertext associated. without_mark ciphertext;
}

abbrev cipher : PayloadCipher
cipher = local_cipher stand_in "k"

opens : IsCipher cipher
unfolding IsCipher local_cipher
opens = λ draw payload associated. refl

abbrev setup : LandingSetup
setup = record {
  authorize = static_authorize (("ingest", "replay") ∷ []);
  cipher = cipher;
  sha256 = λ s. s;
  encode = λ s. s;
  isoformat = λ n. "t";
}

abbrev request : String → LandingRequest
request payload = record {
  provider = "databento";
  dataset = "GLBX";
  logical_key = "ES";
  published_at = aware 1;
  first_seen_at = aware 2;
  payload = payload;
  content_type = "text/csv";
  principal = "ingest";
  purpose = "replay";
  draw = "n";
}

abbrev receipt : LandingReceipt
receipt = record {
  landing_id = "databento|GLBX|ES|t|b";
  object_key = "licensed/databento/GLBX/databento|GLBX|ES|t|b";
  provider = "databento";
  dataset = "GLBX";
  logical_key_hash = "ES";
  published_at = 1;
  first_seen_at = 2;
  plaintext_sha256 = "b";
  key_id = local_key_id;
  algorithm = local_algorithm;
  content_type = "text/csv";
}

abbrev one : String → List LandingRequest
one payload = request payload ∷ []

land_reads_back_example :
    (payload : String) × (read_authorized setup receipt "ingest" "replay" (
        land_all setup
          (one "c")
          (land setup (request "b") (land_all setup (one "a") empty_landing)).1)
      ≡ ok payload)
    × (payload ≡ "b")
unfolding land land_all static_authorize is_blank all_safe get local_cipher put
land_reads_back_example =
    land_reads_back setup opens (one "a") (request "b") (one "c") receipt "ingest" "replay" refl
      refl

landing_is_atomic_example :
    ((e : LandingError) × (land setup (request "") empty_landing ≡ (err e, empty_landing)))
    ⊎ ((t : LandingReceipt) × ((land setup (request "") empty_landing).0 ≡ ok t)
        × ((land setup (request "") empty_landing).1.receipts ≡ empty_landing.receipts ++ t ∷ [])
        × (setup.authorize (context_of write "ingest" "replay" "databento" "GLBX") ≡ true)
        × ((key : String) (o : EncryptedLandingObject)
            → get empty_landing.objects key ≡ some o
            → get (land setup (request "") empty_landing).1.objects key ≡ some o))
landing_is_atomic_example = landing_is_atomic setup (request "") empty_landing
