-- ===== src/ExitRules/Simulate.antt =====
-- validation/exit_rules.py: the rules, and `simulate_exit` with its loop over the minutes.
use marketpilot.Base.{
  text_key, Bool, Datetime, Dict, List, Option, Result, String, [], err, get, if◌then◌else◌, leb,
  minutes, nat_eq, none, not, ok, put, some, suc, zero, ℕ, ◌&&◌, ◌*◌, ◌+◌, ◌-◌, ◌/◌, ◌∷◌,
}
use marketpilot.Base.Fallible.{◌>>=◌, ◌>>◌, refuse_if}
use marketpilot.ExitRules.Condor.{
  ChainDay, CondorFill, ExitError, IronCondorStrikes, Market, OptionQuote, Prices, buy_price,
  finite, osi_symbol, sell_price, settle_condor, utc_of, entry_not_before_close,
  entry_not_on_chain_day, holding_must_not_be_negative, must_be_finite, out_of_fuel,
  profit_fraction_out_of_range, stop_multiple_must_be_positive,
}

pub data ExitRuleKind : Type 0 where
  hold profit_target stop_loss time_exit : ExitRuleKind

pub data ExitReason : Type 0 where
  at_profit_target at_stop_loss at_time_exit expiry : ExitReason

-- `SESSION_CLOSE_ET`, a time by its microseconds
abbrev pub session_close_et : ℕ
session_close_et = minutes (16 * 60)

pub record ExitRule (W : Type 0) : Type 0 where
  pub kind : ExitRuleKind
  pub profit_fraction : W
  pub stop_multiple : W
  pub time_exit_et : ℕ

pub record ExitOutcome (W : Type 0) : Type 0 where
  pub exit_ts : ℕ
  pub reason : ExitReason
  pub exit_cost : W
  pub pnl : W
  pub holding_minutes : W

-- The symbols of the four legs.
pub record Legs : Type 0 where
  pub short_put : String
  pub long_put : String
  pub short_call : String
  pub long_call : String

-- The inner loop of the quotes, up to a minute: those that are left, and the latest by symbol.
unfoldable pub advance :
    {W : Type 0}
    → ℕ
    → List (OptionQuote W)
    → Dict String (OptionQuote W)
    → List (OptionQuote W) × Dict String (OptionQuote W)
advance minute [] latest = ([], latest)
advance minute (q ∷ qs) latest =
    let rest = advance minute qs (put latest q.symbol q) in
    if leb q.ts minute then rest else (q ∷ qs, latest)

unfoldable pub legs_of : {W : Type 0} → Market → ℕ → IronCondorStrikes W → Result ExitError Legs
unfolding osi_symbol
legs_of m day strikes = do
  short_put ← osi_symbol m day "P" strikes.short_put
  long_put ← osi_symbol m day "P" strikes.long_put
  short_call ← osi_symbol m day "C" strikes.short_call
  long_call ← osi_symbol m day "C" strikes.long_call
  ok (record {
    short_put = short_put;
    long_put = long_put;
    short_call = short_call;
    long_call = long_call;
  })

module _ {W : Type 0} (f : Prices W) where
  -- `ExitRule.__post_init__`
  unfoldable pub check_rule : ExitRule W → Result ExitError (Unit {0})
  check_rule r = do
    refuse_if (not (f.is_finite r.profit_fraction)) (must_be_finite "profit_fraction")
    refuse_if (not (f.lt f.zero r.profit_fraction && f.le r.profit_fraction f.one))
        profit_fraction_out_of_range
    refuse_if (not (f.is_finite r.stop_multiple)) (must_be_finite "stop_multiple")
    refuse_if (f.le r.stop_multiple f.zero) stop_multiple_must_be_positive

  -- `ExitOutcome.__post_init__`
  unfoldable pub make_outcome : ExitOutcome W → Result ExitError (ExitOutcome W)
  make_outcome o = do
    refuse_if (not (f.is_finite o.exit_cost)) (must_be_finite "exit_cost")
    refuse_if (not (f.is_finite o.pnl)) (must_be_finite "pnl")
    refuse_if (not (f.is_finite o.holding_minutes)) (must_be_finite "holding_minutes")
    refuse_if (f.lt o.holding_minutes f.zero) holding_must_not_be_negative
    ok o

  abbrev cost_of : Option W → Option W → Option W → Option W → Result ExitError (Option W)
  cost_of (some short_put) (some short_call) (some long_put) (some long_call) = do
    cost ←
        finite f (f.subtract (f.subtract (f.add short_put short_call) long_put) long_call)
          "exit_cost"
    ok (some cost)
  cost_of _ _ _ _ = ok none

  -- `_close_cost`
  unfoldable pub close_cost : Legs → Dict String (OptionQuote W) → Result ExitError (Option W)
  unfolding buy_price sell_price
  close_cost legs latest =
      cost_of (buy_price f (get latest legs.short_put)) (buy_price f (get latest legs.short_call))
        (sell_price f (get latest legs.long_put)) (sell_price f (get latest legs.long_call))

  abbrev pub closed : ℕ → ExitReason → W → W → ℕ → Result ExitError (ExitOutcome W)
  closed entry reason cost credit minute = do
    pnl ← finite f (f.subtract credit cost) "pnl"
    make_outcome (record {
      exit_ts = minute;
      reason = reason;
      exit_cost = cost;
      pnl = pnl;
      holding_minutes = f.minutes_of (minute - entry);
    })

-- The arguments of `simulate_exit` but for the entry and the rule.
pub record Position (W : Type 0) : Type 0 where
  pub chain : ChainDay W
  pub fill : CondorFill W
  pub strikes : IronCondorStrikes W
  pub close_price : W

abbrev fired : ExitReason → Bool → Option ExitReason
fired reason b = if b then some reason else none

-- What is returned, or the outcome of the minutes that follow.
abbrev pub or_later :
    {W : Type 0}
    → Result ExitError (Option (ExitOutcome W))
    → Result ExitError (ExitOutcome W)
    → Result ExitError (ExitOutcome W)
or_later (err e) later = err e
or_later (ok (some o)) later = ok o
or_later (ok none) later = later

module _ {W : Type 0} (f : Prices W) (m : Market) (p : Position W) (rule : ExitRule W)
    (entry close : ℕ) where
  -- `expiry()`
  unfoldable pub at_expiry : Result ExitError (ExitOutcome W)
  unfolding settle_condor make_outcome
  at_expiry = do
    loss ← settle_condor f p.strikes p.close_price
    closed f entry expiry loss p.fill.credit close

  -- The reason to close at a minute with a cost, if there is one.
  unfoldable pub trigger : ℕ → W → Option ExitReason
  trigger minute cost = elim rule.kind [
    | hold ↦ none
    | profit_target ↦
        fired at_profit_target
          (f.le cost (f.multiply p.fill.credit (f.subtract f.one rule.profit_fraction)))
    | stop_loss ↦
        fired at_stop_loss (f.le (f.multiply p.fill.credit (f.add f.one rule.stop_multiple)) cost)
    | time_exit ↦ fired at_time_exit (leb (m.combine p.chain.day rule.time_exit_et) minute)
  ]

  unfoldable pub close_if : ℕ → W → Option ExitReason → Result ExitError (Option (ExitOutcome W))
  unfolding make_outcome
  close_if minute cost none = ok none
  close_if minute cost (some reason) = do
    o ← closed f entry reason cost p.fill.credit minute
    ok (some o)

  unfoldable pub close_at : ℕ → Option W → Result ExitError (Option (ExitOutcome W))
  unfolding close_if trigger
  close_at minute none = ok none
  close_at minute (some cost) = close_if minute cost (trigger minute cost)

  -- The body of the loop, once the quotes are in.
  unfoldable pub minute_exit :
      Legs → ℕ → Dict String (OptionQuote W) → Result ExitError (Option (ExitOutcome W))
  unfolding close_cost close_at
  minute_exit legs minute latest = close_cost f legs latest >>= close_at minute

  unfoldable pub exit_loop :
      Legs
      → ℕ
      → ℕ
      → List (OptionQuote W)
      → Dict String (OptionQuote W)
      → Result ExitError (ExitOutcome W)
  unfolding advance minute_exit at_expiry
  exit_loop legs zero minute quotes latest = err out_of_fuel
  exit_loop legs (suc fuel) minute quotes latest =
      let next = advance minute quotes latest in
      let later = exit_loop legs fuel (minute + minutes 1) next.0 next.1 in
      if leb minute close then or_later (minute_exit legs minute next.1) later else at_expiry

  unfoldable pub watch : Result ExitError (ExitOutcome W)
  unfolding legs_of exit_loop
  watch = do
    legs ← legs_of m p.chain.day p.strikes
    exit_loop legs (suc (suc ((close - entry) / minutes 1))) (entry + minutes 1) p.chain.quotes []

  unfoldable pub by_kind : ExitRuleKind → Result ExitError (ExitOutcome W)
  unfolding watch at_expiry
  by_kind hold = at_expiry
  by_kind _ = watch

module _ {W : Type 0} (f : Prices W) (m : Market) where
  unfoldable pub simulate_exit :
      Position W → Datetime → ExitRule W → Result ExitError (ExitOutcome W)
  unfolding by_kind
  simulate_exit p entry rule = do
    entry_ts ← utc_of entry "entry"
    refuse_if (not (nat_eq (m.date_of entry_ts) p.chain.day)) entry_not_on_chain_day
    let close_ts = m.combine p.chain.day session_close_et
    refuse_if (leb close_ts entry_ts) entry_not_before_close
    by_kind f m p rule entry_ts close_ts rule.kind
