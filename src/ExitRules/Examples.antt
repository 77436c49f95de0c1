-- ===== src/ExitRules/Examples.antt =====
-- A position that is stopped out two minutes before the close; a price is a natural number.
use marketpilot.Base.{
  text_key, nat_order, List, String, [], arith, aware, get, if◌then◌else◌, leb, ltb, minutes,
  nat_eq, ok, put, refl, some, true, ℕ, ◌*◌, ◌++◌, ◌+◌, ◌-◌, ◌/◌, ◌∷◌, ◌≡◌,
}
use marketpilot.ExitRules.Condor.{CondorFill, IronCondorStrikes, Market, OptionQuote, Prices}
use marketpilot.ExitRules.Simulate.{
  ExitOutcome, ExitRule, Position, at_stop_loss, session_close_et, simulate_exit, stop_loss,
}
use marketpilot.ExitRules.Reference.{reference_exit, simulate_exit_lem}
use marketpilot.ExitRules.Hindsight.{no_hindsight, with_quotes}

abbrev points : Prices ℕ
points = record {
  zero = 0;
  one = 1;
  lt = ltb;
  le = leb;
  is_finite = λ x. true;
  add = λ a b. a + b;
  subtract = λ a b. a - b;
  multiply = λ a b. a * b;
  is_close = nat_eq;
  of_int = λ n. n;
  minutes_of = λ n. n / minutes 1;
}

abbrev day_length : ℕ
day_length = minutes (24 * 60)

abbrev digits : ℕ → String
digits n =
    if nat_eq n 95000
    then "00095000"
    else if nat_eq n 100000
    then "00100000"
    else if nat_eq n 110000
    then "00110000"
    else "00115000"

abbrev market : Market
market = record {
  date_of = λ t. t / day_length;
  combine = λ day time. day_length * day + time;
  yymmdd = λ day. "260102";
  eight_digits = digits;
}

abbrev entry : ℕ
entry = day_length + minutes (15 * 60 + 57)

abbrev strikes : IronCondorStrikes ℕ
strikes = record {
  short_put = 100;
  long_put = 95;
  short_call = 110;
  long_call = 115;
  put_distance = 5;
  call_distance = 5;
}

abbrev fill : CondorFill ℕ
fill = record {
  filled_at = entry;
  strikes = strikes;
  short_put_price = 2;
  long_put_price = 1;
  short_call_price = 2;
  long_call_price = 1;
  credit = 2;
}

abbrev quote : ℕ → String → ℕ → ℕ → OptionQuote ℕ
quote ts symbol bid ask = record {
  ts = ts;
  symbol = symbol;
  bid = some bid;
  ask = some ask;
  bid_size = 1;
  ask_size = 1;
}

-- The quotes of one minute: short legs at an ask of `n`, long legs at a bid of 1.
abbrev quotes_at : ℕ → ℕ → List (OptionQuote ℕ)
quotes_at ts n =
    quote ts "SPXW  260102P00100000" 2 n
    ∷ quote ts "SPXW  260102C00110000" 2 n
    ∷ quote ts "SPXW  260102P00095000" 1 2
    ∷ quote ts "SPXW  260102C00115000" 1 2
    ∷ []

abbrev position : Position ℕ
position = record {
  chain = record {
    day = 1;
    quotes = quotes_at (entry + minutes 1) 3 ++ quotes_at (entry + minutes 2) 2;
  };
  fill = fill;
  strikes = strikes;
  close_price = 105;
}

abbrev rule : ExitRule ℕ
rule = record {
  kind = stop_loss;
  profit_fraction = 1;
  stop_multiple = 1;
  time_exit_et = minutes (15 * 60);
}

abbrev stopped : ExitOutcome ℕ
stopped = record {
  exit_ts = entry + minutes 1;
  reason = at_stop_loss;
  exit_cost = 4;
  pnl = 0;
  holding_minutes = 1;
}

simulate_exit_lem_example :
    simulate_exit points market position (aware entry) rule
    ≡ reference_exit points market position rule entry (market.combine 1 session_close_et) stop_loss
simulate_exit_lem_example = simulate_exit_lem points market position rule entry refl (ground arith)

stopped_run : simulate_exit points market position (aware entry) rule ≡ ok stopped
unfolding simulate_exit get put
stopped_run = refl

no_hindsight_example :
    simulate_exit points market
      (with_quotes position (quotes_at (entry + minutes 1) 3 ++ quotes_at (entry + minutes 3) 9))
      (aware entry)
      rule
    ≡ ok stopped
no_hindsight_example =
    no_hindsight points market position rule entry (quotes_at (entry + minutes 1) 3)
      (quotes_at (entry + minutes 2) 2) (quotes_at (entry + minutes 3) 9) stopped refl stopped_run
      (λ h. ground (arith, h)) (ground arith) (ground arith)
