-- ===== src/ExitRules/Condor.antt =====
-- validation/condor_economics.py and features/day_structure.py: quotes, symbols, the fill of an iron
-- condor and its settlement. A float is of the parameter `Prices`; strikes are at least 0.
use Prim.Native.String.{◌++◌ as text_append}
use marketpilot.Base.{
  text_key, Bool, Datetime, Dict, List, Option, Result, String, [], aware, err, false, get,
  if◌then◌else◌, leb, ltb, naive, nat_eq, none, not, ok, put, some, text_length, ℕ, ◌*◌, ◌-◌, ◌||◌,
  ◌∷◌,
}
use marketpilot.Base.Fallible.{◌>>=◌, ◌>>◌, refuse_if}

-- What the code does with a float.
pub record Prices (W : Type 0) : Type 0 where
  pub zero : W
  pub one : W
  pub lt : W → W → Bool
  pub le : W → W → Bool
  -- `math.isfinite`
  pub is_finite : W → Bool
  pub add : W → W → W
  pub subtract : W → W → W
  pub multiply : W → W → W
  -- `math.isclose(a, b, rel_tol=0.0, abs_tol=1e-9)`
  pub is_close : W → W → Bool
  pub of_int : ℕ → W
  -- `timedelta.total_seconds() / 60.0`
  pub minutes_of : ℕ → W

-- The zone of New York, and the formats of dates and strikes.
pub record Market : Type 0 where
  -- the ordinal of the date of an instant in New York
  pub date_of : ℕ → ℕ
  -- `datetime.combine(day, time, tzinfo=ET).astimezone(UTC)`
  pub combine : ℕ → ℕ → ℕ
  -- `f"{day:%y%m%d}"`
  pub yymmdd : ℕ → String
  -- `f"{n:08d}"`
  pub eight_digits : ℕ → String

pub data ExitError : Type 0 where
  must_be_finite : String → ExitError
  must_be_timezone_aware : String → ExitError
  strike_must_be_positive : ExitError
  malformed_symbol : String → ExitError
  close_must_be_positive : ExitError
  wings_must_be_symmetric : ExitError
  price_must_not_be_negative : String → ExitError
  credit_mismatch : ExitError
  profit_fraction_out_of_range : ExitError
  stop_multiple_must_be_positive : ExitError
  entry_not_on_chain_day : ExitError
  entry_not_before_close : ExitError
  holding_must_not_be_negative : ExitError
  out_of_fuel : ExitError

pub record OptionQuote (W : Type 0) : Type 0 where
  pub ts : ℕ
  pub symbol : String
  pub bid : Option W
  pub ask : Option W
  pub bid_size : ℕ
  pub ask_size : ℕ

pub record IronCondorStrikes (W : Type 0) : Type 0 where
  pub short_put : ℕ
  pub long_put : ℕ
  pub short_call : ℕ
  pub long_call : ℕ
  pub put_distance : W
  pub call_distance : W

-- Its minute bars are not read here.
pub record ChainDay (W : Type 0) : Type 0 where
  pub day : ℕ
  pub quotes : List (OptionQuote W)

pub record CondorFill (W : Type 0) : Type 0 where
  pub filled_at : ℕ
  pub strikes : IronCondorStrikes W
  pub short_put_price : W
  pub long_put_price : W
  pub short_call_price : W
  pub long_call_price : W
  pub credit : W

-- `osi_symbol`
unfoldable pub osi_symbol : Market → ℕ → String → ℕ → Result ExitError String
osi_symbol m day right strike = do
  refuse_if (leb strike 0) strike_must_be_positive
  let symbol =
      text_append "SPXW  "
        (text_append (m.yymmdd day) (text_append right (m.eight_digits (strike * 1000))))
  refuse_if (not (nat_eq (text_length symbol) 21)) (malformed_symbol symbol)
  ok symbol

-- `_utc`
abbrev pub utc_of : Datetime → String → Result ExitError ℕ
utc_of (naive _) name = err (must_be_timezone_aware name)
utc_of (aware t) name = ok t

-- The loop of `_latest_quotes_at_or_before`, from a dictionary on
unfoldable pub latest_from :
    {W : Type 0}
    → ℕ
    → List (OptionQuote W)
    → Dict String (OptionQuote W)
    → Dict String (OptionQuote W)
latest_from moment [] latest = latest
latest_from moment (q ∷ qs) latest =
    let rest = latest_from moment qs (put latest q.symbol q) in
    if ltb moment q.ts then latest else rest

-- `_latest_quotes_at_or_before`
abbrev pub latest_quotes : {W : Type 0} → List (OptionQuote W) → ℕ → Dict String (OptionQuote W)
latest_quotes quotes moment = latest_from moment quotes []

module _ {W : Type 0} (f : Prices W) where
  abbrev pub finite : W → String → Result ExitError W
  finite x name = refuse_if (not (f.is_finite x)) (must_be_finite name) >> ok x

  -- `max(a, b)` and `min(a, b)`
  abbrev pub larger : W → W → W
  larger a b = if f.lt a b then b else a

  abbrev pub smaller : W → W → W
  smaller a b = if f.lt b a then b else a

  abbrev crossed : Option W → Option W → Bool
  crossed (some bid) (some ask) = f.lt ask bid
  crossed _ _ = false

  abbrev has_premium : Option W → Bool
  has_premium none = false
  has_premium (some bid) = not (f.le bid f.zero)

  -- `_sell_price`
  unfoldable pub sell_price : Option (OptionQuote W) → Option W
  sell_price none = none
  sell_price (some q) = if not (has_premium q.bid) || crossed q.bid q.ask then none else q.bid

  -- `_buy_price`
  unfoldable pub buy_price : Option (OptionQuote W) → Option W
  buy_price none = none
  buy_price (some q) = if crossed q.bid q.ask then none else q.ask

  -- `CondorFill.__post_init__`
  unfoldable pub make_fill : CondorFill W → Result ExitError (CondorFill W)
  make_fill x = do
    refuse_if (not (f.is_finite x.short_put_price)) (must_be_finite "short_put_price")
    refuse_if (f.lt x.short_put_price f.zero) (price_must_not_be_negative "short_put_price")
    refuse_if (not (f.is_finite x.long_put_price)) (must_be_finite "long_put_price")
    refuse_if (f.lt x.long_put_price f.zero) (price_must_not_be_negative "long_put_price")
    refuse_if (not (f.is_finite x.short_call_price)) (must_be_finite "short_call_price")
    refuse_if (f.lt x.short_call_price f.zero) (price_must_not_be_negative "short_call_price")
    refuse_if (not (f.is_finite x.long_call_price)) (must_be_finite "long_call_price")
    refuse_if (f.lt x.long_call_price f.zero) (price_must_not_be_negative "long_call_price")
    refuse_if (not (f.is_finite x.credit)) (must_be_finite "credit")
    refuse_if
        (not (
          f.is_close x.credit (
            f.subtract (f.subtract (f.add x.short_put_price x.short_call_price) x.long_put_price)
              x.long_call_price)))
        credit_mismatch
    ok x

  abbrev filled :
      ℕ
      → IronCondorStrikes W
      → Option W
      → Option W
      → Option W
      → Option W
      → Result ExitError (Option (CondorFill W))
  filled moment strikes (some short_put) (some long_put) (some short_call) (some long_call) = do
    credit ←
        finite (f.subtract (f.subtract (f.add short_put short_call) long_put) long_call) "credit"
    fill ← make_fill (record {
      filled_at = moment;
      strikes = strikes;
      short_put_price = short_put;
      long_put_price = long_put;
      short_call_price = short_call;
      long_call_price = long_call;
      credit = credit;
    })
    ok (some fill)
  filled moment strikes _ _ _ _ = ok none

  -- `price_condor`
  unfoldable pub price_condor :
      Market
      → ChainDay W
      → Datetime
      → IronCondorStrikes W
      → Result ExitError (Option (CondorFill W))
  unfolding osi_symbol latest_from sell_price buy_price make_fill
  price_condor m chain entry strikes = do
    moment ← utc_of entry "entry"
    let latest = latest_quotes chain.quotes moment
    short_put ← osi_symbol m chain.day "P" strikes.short_put
    long_put ← osi_symbol m chain.day "P" strikes.long_put
    short_call ← osi_symbol m chain.day "C" strikes.short_call
    long_call ← osi_symbol m chain.day "C" strikes.long_call
    filled moment strikes (sell_price (get latest short_put)) (buy_price (get latest long_put))
        (sell_price (get latest short_call)) (buy_price (get latest long_call))

  -- `settle_condor`
  unfoldable pub settle_condor : IronCondorStrikes W → W → Result ExitError W
  settle_condor k close_price = do
    close ← finite close_price "close_price"
    refuse_if (f.le close f.zero) close_must_be_positive
    let wing = k.short_put - k.long_put
    refuse_if (leb wing 0 || not (nat_eq (k.long_call - k.short_call) wing)) wings_must_be_symmetric
    let short_put_loss = larger f.zero (f.subtract (f.of_int k.short_put) close)
    let short_call_loss = larger f.zero (f.subtract close (f.of_int k.short_call))
    let recovery =
        f.add (larger f.zero (f.subtract (f.of_int k.long_put) close))
          (larger f.zero (f.subtract close (f.of_int k.long_call)))
    let loss = f.subtract (f.add short_put_loss short_call_loss) recovery
    finite (smaller (larger loss f.zero) (f.of_int wing)) "settlement_loss"
