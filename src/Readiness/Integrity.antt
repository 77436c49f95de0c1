-- ===== src/Readiness/Integrity.antt =====
-- The ledger of shadow sessions is what its last digest says.
use marketpilot.Base.{
  text_key, Bool, List, Option, String, [], ap, arith, eq_iff, false, inl, inr, length, none, ok,
  refl, some, subst, suc, sym, zero, ℕ, ◌+◌, ◌∙◌, ◌∷◌, ◌≡◌, ◌⊎◌,
}
use marketpilot.Domain.Snapshot.{
  Platform, Json, null, flag, text, number, instant, day, list, object, Items, nil, cons, Fields,
  end, field,
}
use marketpilot.Domain.Chain.{Chain, IsClash, IsLinked, chain_determined, head}
use marketpilot.Readiness.Evidence.{text_or_null}
use marketpilot.Readiness.Ledger.{
  ShadowLedger, ShadowLedgerEntry, ShadowSession, entry_payload, entry_hash_of, load, session_json,
  texts, verify_from,
}

-- Reading the fields of a dumped session back.
abbrev value_at : ℕ → Fields → Json
value_at n end = null
value_at zero (field k v rest) = v
value_at (suc n) (field k v rest) = value_at n rest

abbrev text_of : Json → String
text_of (text s) = s
text_of _ = ""

abbrev number_of : Json → ℕ
number_of (number n) = n
number_of (instant n) = n
number_of (day n) = n
number_of _ = 0

abbrev flag_of : Json → Bool
flag_of (flag b) = b
flag_of _ = false

abbrev option_of : Json → Option String
option_of (text s) = some s
option_of _ = none

abbrev items_of : Items → List String
items_of nil = []
items_of (cons j js) = text_of j ∷ items_of js

abbrev texts_of : Json → List String
texts_of (list js) = items_of js
texts_of _ = []

abbrev session_of : Json → ShadowSession
session_of (object j) = record {
  session_id = text_of (value_at 0 j);
  trading_date = number_of (value_at 1 j);
  started_at = number_of (value_at 2 j);
  ended_at = number_of (value_at 3 j);
  environment = text_of (value_at 4 j);
  readiness_manifest_sha256 = text_of (value_at 5 j);
  capability_report_ids = texts_of (value_at 6 j);
  exact_es_contract = option_of (value_at 7 j);
  code_version = text_of (value_at 8 j);
  rules_version = text_of (value_at 9 j);
  model_version = text_of (value_at 10 j);
  audit_export_sha256 = text_of (value_at 11 j);
  operator_review_id = text_of (value_at 12 j);
  decision_count = number_of (value_at 13 j);
  no_trade_count = number_of (value_at 14 j);
  wait_count = number_of (value_at 15 j);
  audit_integrity_passed = flag_of (value_at 16 j);
  source_degradation_drill_passed = flag_of (value_at 17 j);
  recovery_drill_passed = flag_of (value_at 18 j);
  source_degradation_evidence_sha256 = option_of (value_at 19 j);
  recovery_evidence_sha256 = option_of (value_at 20 j);
  incident_ids = texts_of (value_at 21 j);
}
session_of j = record {
  session_id = "";
  trading_date = 0;
  started_at = 0;
  ended_at = 0;
  environment = "";
  readiness_manifest_sha256 = "";
  capability_report_ids = [];
  exact_es_contract = none;
  code_version = "";
  rules_version = "";
  model_version = "";
  audit_export_sha256 = "";
  operator_review_id = "";
  decision_count = 0;
  no_trade_count = 0;
  wait_count = 0;
  audit_integrity_passed = false;
  source_degradation_drill_passed = false;
  recovery_drill_passed = false;
  source_degradation_evidence_sha256 = none;
  recovery_evidence_sha256 = none;
  incident_ids = [];
}

items_of-texts : (ss : List String) → items_of (texts ss) ≡ ss
items_of-texts [] = refl
items_of-texts (s ∷ ss) = cc (items_of-texts ss)

option_of-text_or_null : (s : Option String) → option_of (text_or_null s) ≡ s
option_of-text_or_null none = refl
option_of-text_or_null (some s) = refl

session_of-session_json : (x : ShadowSession) → session_of (session_json x) ≡ x
session_of-session_json x = simp (items_of-texts, option_of-text_or_null)

session_json_inj : (x y : ShadowSession) → session_json x ≡ session_json y → x ≡ y
session_json_inj x y h =
    sym (session_of-session_json x) ∙ ap session_of h ∙ session_of-session_json y

pub determined :
    (x y : ShadowLedgerEntry)
    → entry_payload x ≡ entry_payload y
    → x.entry_hash ≡ y.entry_hash
    → x ≡ y
determined x y p h = cc (session_json_inj x.session y.session (cc))

abbrev pub shadow_chain : Chain ShadowLedgerEntry
shadow_chain = record {
  previous = λ e. e.previous_hash;
  hash = λ e. e.entry_hash;
  payload = entry_payload;
  determined = determined;
}

module _ (py : Platform) where
  verify_from-IsLinked :
      (n : ℕ) (p : String) (ids : List String) (es : List ShadowLedgerEntry)
      → verify_from py n p ids es ≡ ok tt
      → IsLinked py shadow_chain p es
  unfolding verify_from
  verify_from-IsLinked n p ids [] h = tt
  verify_from-IsLinked n p ids (e ∷ es) h = ground (
    arith,
    verify_from-IsLinked (n + 1) e.entry_hash (e.session.session_id ∷ ids) es,
    eq_iff e.previous_hash p,
    eq_iff e.entry_hash (entry_hash_of py e),
  )

  load-IsLinked :
      (f : ShadowLedger) (es : List ShadowLedgerEntry)
      → load py f ≡ ok es
      → IsLinked py shadow_chain "GENESIS" f.lines × (es ≡ f.lines)
  unfolding load
  load-IsLinked f es h = (verify_from-IsLinked 1 "GENESIS" [] f.lines (ground arith), ground arith)

-- Tamper evidence: two shadow ledgers that load, with the same number of sessions and the same digest
-- in the last entry, are the same entry by entry, or at some place the two files have entries whose
-- payloads differ and yet have the same digest.
shadow_tamper_evident :
    (py : Platform) (f g : ShadowLedger) (xs ys : List ShadowLedgerEntry)
    → load py f ≡ ok xs
    → load py g ≡ ok ys
    → length xs ≡ length ys
    → head py shadow_chain "GENESIS" xs ≡ head py shadow_chain "GENESIS" ys
    → (f ≡ g) ⊎ IsClash py shadow_chain xs ys
shadow_tamper_evident py f g xs ys lf lg n h =
    let (vf, ef) = load-IsLinked py f xs lf in
    let (vg, eg) = load-IsLinked py g ys lg in
    elim (chain_determined py shadow_chain "GENESIS" "GENESIS" xs ys
      (subst (IsLinked py shadow_chain "GENESIS") (sym ef) vf)
      (subst (IsLinked py shadow_chain "GENESIS") (sym eg) vg) n h) [
        | inl (_, same) ↦ inl (ap (λ l. record { lines = l }) (sym ef ∙ same ∙ eg))
        | inr clash ↦ inr clash
      ]
