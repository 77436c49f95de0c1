-- ===== src/CostLedger/Integrity.antt =====
-- The ledger is what its last digest says, and goes on.
use marketpilot.Base.{
  text_key, List, String, [], ap, arith, eq_iff, inl, inr, last, length, none, ok, refl, some,
  subst, sym, ℕ, ◌++◌, ◌+◌, ◌∙◌, ◌∷◌, ◌≡◌, ◌⊎◌,
}
use marketpilot.Domain.Snapshot.{Platform, freeze_snapshot}
use marketpilot.Domain.Chain.{Chain, IsClash, IsLinked, chain_determined, head}
use marketpilot.CostLedger.{
  CostLedger, CostLedgerEntry, append, entry_payload, genesis_hash, load, next_entry, verify_from,
  previous_of,
}

pub determined :
    (x y : CostLedgerEntry)
    → entry_payload x ≡ entry_payload y
    → x.entry_hash ≡ y.entry_hash
    → x ≡ y
determined x y p h = cc

abbrev pub cost_chain : Chain CostLedgerEntry
cost_chain = record {
  previous = λ e. e.previous_hash;
  hash = λ e. e.entry_hash;
  payload = entry_payload;
  determined = determined;
}

module _ (py : Platform) where
  verify_from-IsLinked :
      (n : ℕ) (p : String) (es : List CostLedgerEntry)
      → verify_from py n p es ≡ ok tt
      → IsLinked py cost_chain p es
  unfolding verify_from
  verify_from-IsLinked n p [] h = tt
  verify_from-IsLinked n p (e ∷ es) h = ground (
    arith,
    verify_from-IsLinked (n + 1) e.entry_hash es,
    eq_iff e.previous_hash p,
    eq_iff (freeze_snapshot py (entry_payload e)).snapshot_id e.entry_hash,
  )

  verify_from-snoc :
      (n : ℕ) (p : String) (es : List CostLedgerEntry) (x : CostLedgerEntry)
      → verify_from py n p es ≡ ok tt
      → x.sequence ≡ n + length es
      → x.previous_hash ≡ head py cost_chain p es
      → (freeze_snapshot py (entry_payload x)).snapshot_id ≡ x.entry_hash
      → verify_from py n p (es ++ x ∷ []) ≡ ok tt
  unfolding verify_from
  verify_from-snoc n p [] x h s q d = ground (
    arith,
    eq_iff x.previous_hash p,
    eq_iff (freeze_snapshot py (entry_payload x)).snapshot_id x.entry_hash,
  )
  verify_from-snoc n p (e ∷ es) x h s q d =
      ground (arith, verify_from-snoc (n + 1) e.entry_hash es x)

  head-last_cons :
      (p q : String) (e : CostLedgerEntry) (es : List CostLedgerEntry)
      → head py cost_chain p (e ∷ es) ≡ elim (last (e ∷ es)) [ none ↦ q | some d ↦ d.entry_hash ]
  head-last_cons p q e [] = refl
  head-last_cons p q e (d ∷ es) = head-last_cons e.entry_hash q d es

  head-last :
      (es : List CostLedgerEntry) → previous_of (last es) ≡ head py cost_chain genesis_hash es
  head-last [] = refl
  head-last (e ∷ es) = sym (head-last_cons genesis_hash genesis_hash e es)

  verified_load :
      (f : CostLedger) → verify_from py 0 genesis_hash f.lines ≡ ok tt → load py f ≡ ok f.lines
  unfolding load
  verified_load f h = rw h refl

  load-eq :
      (f : CostLedger) (es : List CostLedgerEntry)
      → load py f ≡ ok es
      → (verify_from py 0 genesis_hash f.lines ≡ ok tt) × (es ≡ f.lines)
  unfolding load
  load-eq f es h = ground arith

-- Tamper evidence: two files that load, with the same number of entries and the same digest in the
-- last one, are the same entry by entry, or at some place the two files have entries whose payloads
-- differ and yet have the same digest.
pub cost_tamper_evident :
    (py : Platform) (f g : CostLedger) (xs ys : List CostLedgerEntry)
    → load py f ≡ ok xs
    → load py g ≡ ok ys
    → length xs ≡ length ys
    → head py cost_chain genesis_hash xs ≡ head py cost_chain genesis_hash ys
    → (f ≡ g) ⊎ IsClash py cost_chain xs ys
cost_tamper_evident py f g xs ys lf lg n h =
    let (vf, ef) = load-eq py f xs lf in
    let (vg, eg) = load-eq py g ys lg in
    elim (chain_determined py cost_chain genesis_hash genesis_hash xs ys
      (subst (IsLinked py cost_chain genesis_hash) (sym ef)
        (verify_from-IsLinked py 0 genesis_hash f.lines vf))
      (subst (IsLinked py cost_chain genesis_hash) (sym eg)
        (verify_from-IsLinked py 0 genesis_hash g.lines vg))
      n h) [
        | inl (_, same) ↦ inl (ap (λ l. record { lines = l }) (sym ef ∙ same ∙ eg))
        | inr clash ↦ inr clash
      ]

-- An append on a file that loads returns an entry, and the file then loads, as the entries that were
-- there with that entry behind them.
load-append :
    (py : Platform) (f : CostLedger) (xs : List CostLedgerEntry) (now : ℕ)
    (plan estimated ceiling decision : String)
    → load py f ≡ ok xs
    → (e : CostLedgerEntry) × ((append py now plan estimated ceiling decision f).0 ≡ ok e)
      × (load py (append py now plan estimated ceiling decision f).1 ≡ ok (xs ++ e ∷ []))
unfolding append
load-append py f xs now plan estimated ceiling decision h =
    let (v, same) = load-eq py f xs h in
    let e = next_entry py xs now plan estimated ceiling decision in
    let longer =
      verify_from-snoc py 0 genesis_hash f.lines e v (ap length same ∙ omega arith)
        (head-last py xs ∙ ap (head py cost_chain genesis_hash) same) refl in
    let after : (append py now plan estimated ceiling decision f).1
        ≡ record { lines = f.lines ++ e ∷ [] } =
      rw (h, append) refl in
    (
      e,
      rw (h, append) refl,
      subst (λ g. load py g ≡ ok (xs ++ e ∷ [])) (sym after)
          (verified_load py (record { lines = f.lines ++ e ∷ [] }) longer
            ∙ ap (λ l. ok (l ++ e ∷ [])) (sym same)),
    )
