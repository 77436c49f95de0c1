-- ===== src/ExitRules/Reference.antt =====
-- validation/exit_rules.py: the loop with its moving pointer against a search that prices each minute
-- anew by `_latest_quotes_at_or_before`.
use marketpilot.Base.{
  text_key, Dict, List, Result, String, [], arith, aware, le→leb, lt→leb, minutes, nat_eq, put,
  refl, suc, true, zero, ℕ, ◌*◌, ◌+◌, ◌-◌, ◌/◌, ◌<◌, ◌∙◌, ◌∷◌, ◌≡◌, ◌≤◌,
}
use marketpilot.Base.Fallible.{bind_same, ◌>>=◌}
use marketpilot.ExitRules.Condor.{
  ExitError, Market, OptionQuote, Prices, latest_from, latest_quotes,
}
use marketpilot.ExitRules.Simulate.{
  ExitOutcome, ExitRule, ExitRuleKind, Legs, Position, advance, at_expiry, by_kind, exit_loop,
  legs_of, minute_exit, or_later, session_close_et, simulate_exit, watch, hold, profit_target,
  stop_loss, time_exit,
}

same_day : (a b : ℕ) → a ≡ b → nat_eq a b ≡ true
same_day a b h = ground (arith, h)

module _ {W : Type 0} where
  -- The running dictionary at a minute is the one that is built anew, ...
  advance-latest_from :
      (minute : ℕ) (qs : List (OptionQuote W)) (d : Dict String (OptionQuote W))
      → (advance minute qs d).1 ≡ latest_from minute qs d
  unfolding advance latest_from
  advance-latest_from minute [] d = refl
  advance-latest_from minute (q ∷ qs) d =
      ground (arith, advance-latest_from minute qs (put d q.symbol q))

  -- ... and what is left gives the same later dictionaries.
  latest_from-advance :
      (minute later : ℕ) (qs : List (OptionQuote W)) (d : Dict String (OptionQuote W))
      → minute ≤ later
      → latest_from later (advance minute qs d).0 (advance minute qs d).1 ≡ latest_from later qs d
  unfolding advance latest_from
  latest_from-advance minute later [] d h = refl
  latest_from-advance minute later (q ∷ qs) d h =
      ground (arith, h, latest_from-advance minute later qs (put d q.symbol q) h)

module _ {W : Type 0} (f : Prices W) (m : Market) (p : Position W) (rule : ExitRule W)
    (entry close : ℕ) where
  -- The first of `n` minutes at which the rule closes the position, each priced by the latest quotes at
  -- or before it; otherwise the expiry.
  unfoldable pub first_exit : Legs → ℕ → ℕ → Result ExitError (ExitOutcome W)
  unfolding minute_exit at_expiry latest_from
  first_exit legs zero minute = at_expiry f m p rule entry close
  first_exit legs (suc n) minute =
      let later = first_exit legs n (minute + minutes 1) in
      or_later
        (minute_exit f m p rule entry close legs minute (latest_quotes p.chain.quotes minute)) later

  exit_loop-first_exit :
      (legs : Legs) (fuel n minute : ℕ) (qs : List (OptionQuote W))
      (d : Dict String (OptionQuote W))
      → n < fuel
      → close < minute + minutes 1 * n
      → minute + minutes 1 * n ≤ close + minutes 1
      → ((later : ℕ) → minute ≤ later → latest_from later qs d ≡ latest_quotes p.chain.quotes later)
      → exit_loop f m p rule entry close legs fuel minute qs d ≡ first_exit legs n minute
  unfolding exit_loop first_exit
  exit_loop-first_exit legs zero n minute qs d h lo hi same = ground (arith, h)
  exit_loop-first_exit legs (suc fuel) zero minute qs d h lo hi same = ground (arith, lo)
  exit_loop-first_exit legs (suc fuel) (suc n) minute qs d h lo hi same =
      let next = advance minute qs d in
      let same_next = λ (later : ℕ) (le : minute + minutes 1 ≤ later).
        latest_from-advance minute later qs d (ground (arith, le))
        ∙ same later (ground (arith, le)) in
      let rest =
        exit_loop-first_exit legs fuel n (minute + minutes 1) next.0 next.1 (omega (arith, h))
          (omega (arith, lo)) (omega (arith, hi)) same_next in
      let here = advance-latest_from minute qs d ∙ same minute (omega arith) in
      rw (le→leb minute close (omega (arith, hi))) (cc (here, rest))

  -- The number of whole minutes up to the close.
  abbrev pub minutes_left : ℕ
  minutes_left = (close - entry) / minutes 1

  unfoldable pub reference_watch : Result ExitError (ExitOutcome W)
  unfolding legs_of first_exit
  reference_watch = do
    legs ← legs_of m p.chain.day p.strikes
    first_exit legs minutes_left (entry + minutes 1)

  watch-reference_watch : entry < close → watch f m p rule entry close ≡ reference_watch
  unfolding watch reference_watch
  watch-reference_watch h = bind_same (legs_of m p.chain.day p.strikes) _ _ (λ legs.
      exit_loop-first_exit legs (suc (suc minutes_left)) minutes_left (entry + minutes 1)
        p.chain.quotes [] (omega arith) (omega (arith, h)) (omega (arith, h)) (λ later le. refl))

  -- Held to expiry, or watched minute by minute.
  abbrev pub reference_exit : ExitRuleKind → Result ExitError (ExitOutcome W)
  reference_exit kind = elim kind [ hold ↦ at_expiry f m p rule entry close | _ ↦ reference_watch ]

  by_kind-reference_exit :
      (kind : ExitRuleKind)
      → entry < close
      → by_kind f m p rule entry close kind ≡ reference_exit kind
  unfolding by_kind
  by_kind-reference_exit hold h = refl
  by_kind-reference_exit profit_target h = watch-reference_watch h
  by_kind-reference_exit stop_loss h = watch-reference_watch h
  by_kind-reference_exit time_exit h = watch-reference_watch h

-- The simulation, with its quote pointer that only moves on, closes a position as the plain search
-- does: held positions settle at expiry, and others close at the first minute after the entry, and not
-- after the close of the session, at which the rule fires on the latest quotes at or before that
-- minute; where none does, they settle at expiry. The loop always ends.
pub simulate_exit_lem :
    {W : Type 0} (f : Prices W) (m : Market) (p : Position W) (rule : ExitRule W) (entry : ℕ)
    → m.date_of entry ≡ p.chain.day
    → entry < m.combine p.chain.day session_close_et
    → simulate_exit f m p (aware entry) rule
      ≡ reference_exit f m p rule entry (m.combine p.chain.day session_close_et) rule.kind
unfolding simulate_exit
simulate_exit_lem f m p rule entry d h =
    let close = m.combine p.chain.day session_close_et in
    rw (same_day (m.date_of entry) p.chain.day d)
      (rw (lt→leb entry close h) (by_kind-reference_exit f m p rule entry close rule.kind h))
