-- ===== src/ExitRules/Hindsight.antt =====
-- validation/exit_rules.py: an early exit reads no quote after it.
use marketpilot.Base.{
  text_key, All, All-map, Dict, List, Option, Result, String, [], ap, arith, aware, err,
  if◌then◌else◌, inl, inr, leb, ltb, minutes, nat_eq, none, not, ok, put, refl, some, suc, sym,
  zero, ℕ, ◌++◌, ◌+◌, ◌-◌, ◌<◌, ◌∙◌, ◌∷◌, ◌≡◌, ◌≢◌, ◌≤◌, ◌⊎◌,
}
use marketpilot.Base.Fallible.{bind_same, bound, ok-injective, refuse_if_passed, ◌>>=◌}
use marketpilot.ExitRules.Condor.{
  ExitError, Market, OptionQuote, Prices, latest_from, latest_quotes, finite, settle_condor,
}
use marketpilot.ExitRules.Simulate.{
  ExitOutcome, ExitReason, ExitRule, ExitRuleKind, hold, profit_target, stop_loss, time_exit,
  legs_of, Legs, Position, at_expiry, close_at, close_cost, close_if, closed, expiry, make_outcome,
  minute_exit, or_later, session_close_et, simulate_exit, trigger,
}
use marketpilot.ExitRules.Reference.{
  minutes_left, reference_watch, first_exit, reference_exit, simulate_exit_lem,
}

latest_from-append :
    {W : Type 0} (t : ℕ) (before later : List (OptionQuote W)) (d : Dict String (OptionQuote W))
    → All (λ (q : OptionQuote W). t < q.ts) later
    → latest_from t (before ++ later) d ≡ latest_from t before d
unfolding latest_from
latest_from-append t [] [] d h = refl
latest_from-append t [] (q ∷ qs) d h = ground (arith, h)
latest_from-append t (b ∷ before) later d h =
    ap (λ x. if ltb t b.ts then d else x) (latest_from-append t before later (put d b.symbol b) h)

nothing_is_no_outcome :
    {W : Type 0} (o : ExitOutcome W)
    → Path (Result ExitError (Option (ExitOutcome W))) (ok none) (ok (some o))
    → ⊥
nothing_is_no_outcome o h = ground (arith, h)

or_later-cases :
    {W : Type 0} (r : Result ExitError (Option (ExitOutcome W)))
    (later : Result ExitError (ExitOutcome W)) (o : ExitOutcome W)
    → or_later r later ≡ ok o
    → (r ≡ ok (some o)) ⊎ ((r ≡ ok none) × (later ≡ ok o))
or_later-cases (err e) later o h = ground (arith, h)
or_later-cases (ok (some x)) later o h = inl (ap (λ y. ok (some y)) (ok-injective h))
or_later-cases (ok none) later o h = inr (refl, h)

some-injective : {A : Type 0} {x y : A} → some x ≡ some y → x ≡ y
some-injective h = ground (arith, h)

module _ {W : Type 0} (f : Prices W) where
  closed_facts :
      (entry : ℕ) (reason : ExitReason) (cost credit : W) (minute : ℕ) (o : ExitOutcome W)
      → closed f entry reason cost credit minute ≡ ok o
      → (o.exit_ts ≡ minute) × (o.reason ≡ reason)
  unfolding make_outcome
  closed_facts entry reason cost credit minute o h =
      let pnl = bound (finite f (f.subtract credit cost) "pnl") _ o h in
      let a = refuse_if_passed (not (f.is_finite cost)) _ _ o pnl.2 in
      let b = refuse_if_passed (not (f.is_finite pnl.0)) _ _ o a.1 in
      let c = refuse_if_passed (not (f.is_finite (f.minutes_of (minute - entry)))) _ _ o b.1 in
      let d = refuse_if_passed (f.lt (f.minutes_of (minute - entry)) f.zero) _ _ o c.1 in
      (ap (λ x. x.exit_ts) (sym (ok-injective d.1)), ap (λ x. x.reason) (sym (ok-injective d.1)))

-- The position on other quotes
abbrev pub with_quotes : {W : Type 0} → Position W → List (OptionQuote W) → Position W
with_quotes p quotes = record p { chain = record p.chain { quotes = quotes } }

module _ {W : Type 0} (f : Prices W) (m : Market) (p : Position W) (rule : ExitRule W)
    (entry close : ℕ) where
  at_expiry_reason :
      (o : ExitOutcome W) → at_expiry f m p rule entry close ≡ ok o → o.reason ≡ expiry
  unfolding at_expiry
  at_expiry_reason o h =
      let loss = bound (settle_condor f p.strikes p.close_price) _ o h in
      (closed_facts f entry expiry loss.0 p.fill.credit close o loss.2).1

  close_if_ts :
      (minute : ℕ) (cost : W) (reason : Option ExitReason) (o : ExitOutcome W)
      → close_if f m p rule entry close minute cost reason ≡ ok (some o)
      → o.exit_ts ≡ minute
  unfolding close_if
  close_if_ts minute cost none o h = absurd (nothing_is_no_outcome o h)
  close_if_ts minute cost (some reason) o h =
      let made = bound (closed f entry reason cost p.fill.credit minute) _ (some o) h in
      let same = some-injective (ok-injective made.2) in
      sym (ap (λ x. x.exit_ts) same)
      ∙ (closed_facts f entry reason cost p.fill.credit minute made.0 made.1).0

  close_at_ts :
      (minute : ℕ) (cost : Option W) (o : ExitOutcome W)
      → close_at f m p rule entry close minute cost ≡ ok (some o)
      → o.exit_ts ≡ minute
  unfolding close_at
  close_at_ts minute none o h = absurd (nothing_is_no_outcome o h)
  close_at_ts minute (some cost) o h =
      close_if_ts minute cost (trigger f m p rule entry close minute cost) o h

  minute_exit_ts :
      (legs : Legs) (minute : ℕ) (d : Dict String (OptionQuote W)) (o : ExitOutcome W)
      → minute_exit f m p rule entry close legs minute d ≡ ok (some o)
      → o.exit_ts ≡ minute
  unfolding minute_exit
  minute_exit_ts legs minute d o h =
      let cost = bound (close_cost f legs d) _ (some o) h in close_at_ts minute cost.0 o cost.2

  close_if_same :
      (qs : List (OptionQuote W)) (minute : ℕ) (cost : W) (reason : Option ExitReason)
      → close_if f m (with_quotes p qs) rule entry close minute cost reason
        ≡ close_if f m p rule entry close minute cost reason
  unfolding close_if
  close_if_same qs minute cost none = refl
  close_if_same qs minute cost (some reason) = refl

  close_at_same :
      (qs : List (OptionQuote W)) (minute : ℕ) (cost : Option W)
      → close_at f m (with_quotes p qs) rule entry close minute cost
        ≡ close_at f m p rule entry close minute cost
  unfolding close_at trigger
  close_at_same qs minute none = refl
  close_at_same qs minute (some cost) =
      close_if_same qs minute cost (trigger f m p rule entry close minute cost)

  minute_exit_same :
      (qs : List (OptionQuote W)) (legs : Legs) (minute : ℕ) (d : Dict String (OptionQuote W))
      → minute_exit f m (with_quotes p qs) rule entry close legs minute d
        ≡ minute_exit f m p rule entry close legs minute d
  unfolding minute_exit
  minute_exit_same qs legs minute d = bind_same (close_cost f legs d) _ _ (close_at_same qs minute)

  -- An early exit is at one of the minutes that were searched.
  first_exit_ts :
      (legs : Legs) (n minute : ℕ) (o : ExitOutcome W)
      → first_exit f m p rule entry close legs n minute ≡ ok o
      → o.reason ≢ expiry
      → minute ≤ o.exit_ts
  unfolding first_exit
  first_exit_ts legs zero minute o h early = absurd (early (at_expiry_reason o h))
  first_exit_ts legs (suc n) minute o h early =
      elim (or_later-cases
        (minute_exit f m p rule entry close legs minute (latest_quotes p.chain.quotes minute)) _ o
        h) [
          | inl x ↦
              ground (arith, minute_exit_ts legs minute (latest_quotes p.chain.quotes minute) o x)
          | inr (x, rest) ↦ omega (arith, first_exit_ts legs n (minute + minutes 1) o rest early)
        ]

  first_exit_same :
      (before a b : List (OptionQuote W)) (legs : Legs) (n minute : ℕ) (o : ExitOutcome W)
      → p.chain.quotes ≡ before ++ a
      → first_exit f m p rule entry close legs n minute ≡ ok o
      → o.reason ≢ expiry
      → All (λ (q : OptionQuote W). o.exit_ts < q.ts) a
      → All (λ (q : OptionQuote W). o.exit_ts < q.ts) b
      → first_exit f m (with_quotes p (before ++ b)) rule entry close legs n minute ≡ ok o
  unfolding first_exit
  first_exit_same before a b legs zero minute o q h early ha hb =
      absurd (early (at_expiry_reason o h))
  first_exit_same before a b legs (suc n) minute o q h early ha hb =
      let reached = first_exit_ts legs (suc n) minute o h early in
      let seen =
        λ (t : List (OptionQuote W)) (ht : All (λ (q : OptionQuote W). o.exit_ts < q.ts) t).
          latest_from-append minute before t []
            (All-map _ _ (λ x lt. omega (arith, lt, reached)) t ht) in
      let now = seen b hb ∙ sym (seen a ha) ∙ ap (λ qs. latest_quotes qs minute) (sym q) in
      let here =
        minute_exit_same (before ++ b) legs minute (latest_quotes (before ++ b) minute)
        ∙ ap (minute_exit f m p rule entry close legs minute) now in
      let later =
        first_exit f m (with_quotes p (before ++ b)) rule entry close legs n (minute + minutes 1) in
      elim (or_later-cases
        (minute_exit f m p rule entry close legs minute (latest_quotes p.chain.quotes minute)) _ o
        h) [
          | inl x ↦ ap (λ r. or_later r later) (here ∙ x)
          | inr (x, rest) ↦
              ap (λ r. or_later r later) (here ∙ x)
              ∙ first_exit_same before a b legs n (minute + minutes 1) o q rest early ha hb
        ]

  module _ (before a b : List (OptionQuote W)) (o : ExitOutcome W)
      (q : p.chain.quotes ≡ before ++ a) (early : o.reason ≢ expiry)
      (ha : All (λ (q : OptionQuote W). o.exit_ts < q.ts) a)
      (hb : All (λ (q : OptionQuote W). o.exit_ts < q.ts) b) where
    watch_same :
        reference_watch f m p rule entry close ≡ ok o
        → reference_watch f m (with_quotes p (before ++ b)) rule entry close ≡ ok o
    unfolding reference_watch
    watch_same h =
        let legs = bound (legs_of m p.chain.day p.strikes) _ o h in
        ap
          (λ r. r >>= λ l.
            first_exit f m (with_quotes p (before ++ b)) rule entry close l
              (minutes_left f m p rule entry close) (entry + minutes 1))
          legs.1
        ∙ first_exit_same before a b legs.0 (minutes_left f m p rule entry close)
            (entry + minutes 1) o q legs.2 early ha hb

    reference_same :
        (kind : ExitRuleKind)
        → reference_exit f m p rule entry close kind ≡ ok o
        → reference_exit f m (with_quotes p (before ++ b)) rule entry close kind ≡ ok o
    reference_same hold h = absurd (early (at_expiry_reason o h))
    reference_same profit_target h = watch_same h
    reference_same stop_loss h = watch_same h
    reference_same time_exit h = watch_same h

simulated :
    {W : Type 0} (f : Prices W) (m : Market) (p : Position W) (rule : ExitRule W) (entry : ℕ)
    (o : ExitOutcome W)
    → simulate_exit f m p (aware entry) rule ≡ ok o
    → (m.date_of entry ≡ p.chain.day) × (entry < m.combine p.chain.day session_close_et)
unfolding simulate_exit
simulated f m p rule entry o h =
    let day = refuse_if_passed (not (nat_eq (m.date_of entry) p.chain.day)) _ _ o h in
    let open_still =
      refuse_if_passed (leb (m.combine p.chain.day session_close_et) entry) _ _ o day.1 in
    (ground (arith, day.0), ground (arith, open_still.0))

-- An early exit needs no hindsight: where a rule closes a position before it expires, the quotes after
-- the exit may be replaced by any others, and the outcome is the same.
pub no_hindsight :
    {W : Type 0} (f : Prices W) (m : Market) (p : Position W) (rule : ExitRule W) (entry : ℕ)
    (before a b : List (OptionQuote W)) (o : ExitOutcome W)
    → p.chain.quotes ≡ before ++ a
    → simulate_exit f m p (aware entry) rule ≡ ok o
    → o.reason ≢ expiry
    → All (λ (q : OptionQuote W). o.exit_ts < q.ts) a
    → All (λ (q : OptionQuote W). o.exit_ts < q.ts) b
    → simulate_exit f m (with_quotes p (before ++ b)) (aware entry) rule ≡ ok o
no_hindsight f m p rule entry before a b o q h early ha hb =
    let (day, open_still) = simulated f m p rule entry o h in
    let close = m.combine p.chain.day session_close_et in
    simulate_exit_lem f m (with_quotes p (before ++ b)) rule entry day open_still
    ∙ reference_same f m p rule entry close before a b o q early ha hb rule.kind
        (sym (simulate_exit_lem f m p rule entry day open_still) ∙ h)
