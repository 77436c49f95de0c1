-- ===== src/Calendar/Equity.antt =====
-- domain/trading_calendar.py: `EquityCalendarConfig` and `USEquityCalendar`, and ingest/calendar.py.
-- A date is its ordinal, a time the microseconds since midnight, and an instant with the zone of
-- New York its date and time.
use marketpilot.Base.{
  text_key, nat_key, Bool, Dict, List, Option, Result, String, [], any, contains, err, false, first,
  get, if◌then◌else◌, is_some, leb, ltb, map, minutes, none, not, ok, put, seconds, some, suc, true,
  values, zero, ℕ, ◌%◌, ◌&&◌, ◌*◌, ◌+◌, ◌-◌, ◌==◌, ◌||◌, ◌∷◌,
}
use marketpilot.Base.Fallible.{◌>>=◌, ◌>>◌, refuse_if}

pub data TradingDayStatus : Type 0 where
  trading_day weekend holiday unverified : TradingDayStatus

pub data CalendarError : Type 0 where
  timezone_must_be_new_york : CalendarError
  range_is_reversed : CalendarError
  holiday_outside_range : CalendarError
  early_close_outside_range : CalendarError
  holiday_and_early_close : CalendarError
  weekend_configured : CalendarError
  early_close_not_early : CalendarError
  closed_date_outside_range : CalendarError
  instant_must_be_timezone_aware : CalendarError
  start_after_end : CalendarError
  -- `OverflowError`, of a date after date.max
  date_out_of_range : CalendarError
  -- `KeyError` and `ValueError` of a file
  missing_key : String → CalendarError
  not_a_date : String → CalendarError
  not_a_time : String → CalendarError

-- `day.weekday()`: 0 is a Monday
abbrev pub weekday : ℕ → ℕ
weekday day = (day + 6) % 7

-- `time(hour, minute)`
abbrev pub clock_time : ℕ → ℕ → ℕ
clock_time hour minute = minutes (60 * hour + minute)

pub record EquityCalendarConfig : Type 0 where
  pub verified_from : ℕ
  pub verified_through : ℕ
  pub holidays : List ℕ
  pub early_closes : Dict ℕ ℕ
  pub timezone : String

abbrev pub is_outside : ℕ → ℕ → ℕ → Bool
is_outside first final day = ltb day first || ltb final day

abbrev pub early_days : EquityCalendarConfig → List ℕ
early_days c = map (λ (e : ℕ × ℕ). e.0) c.early_closes

abbrev pub is_weekend : ℕ → Bool
is_weekend day = leb 5 (weekday day)

-- `EquityCalendarConfig.__post_init__`
unfoldable pub check_equity : EquityCalendarConfig → Result CalendarError (Unit {0})
check_equity c = do
  refuse_if (not (c.timezone == "America/New_York")) timezone_must_be_new_york
  refuse_if (ltb c.verified_through c.verified_from) range_is_reversed
  refuse_if (any (is_outside c.verified_from c.verified_through) c.holidays) holiday_outside_range
  refuse_if (any (is_outside c.verified_from c.verified_through) (early_days c))
      early_close_outside_range
  refuse_if (any (λ day. contains day c.holidays) (early_days c)) holiday_and_early_close
  refuse_if (any is_weekend c.holidays || any is_weekend (early_days c)) weekend_configured
  refuse_if (any (λ close. leb (clock_time 16 0) close) (values c.early_closes))
      early_close_not_early

pub record LocalTime : Type 0 where
  pub day : ℕ
  pub clock : ℕ

-- `_at`
abbrev pub local_at : ℕ → ℕ → LocalTime
local_at day clock = record { day = day; clock = clock }

pub record EquitySession : Type 0 where
  pub session_date : ℕ
  pub status : TradingDayStatus
  pub opens_at : Option LocalTime
  pub preopen_cutoff_at : Option LocalTime
  pub closes_at : Option LocalTime
  pub anchor_at : Option LocalTime
  pub is_early_close : Bool

abbrev pub is_trading : TradingDayStatus → Bool
is_trading trading_day = true
is_trading _ = false

-- `EquitySession.permits_trading`
abbrev pub permits_trading : EquitySession → Bool
permits_trading s = is_trading s.status

-- `day_status`, with `_in_verified_range`
unfoldable pub day_status : EquityCalendarConfig → ℕ → TradingDayStatus
day_status c day =
    if leb 5 (weekday day)
    then weekend
    else if not (leb c.verified_from day && leb day c.verified_through)
    then unverified
    else if contains day c.holidays
    then holiday
    else trading_day

abbrev pub closed_session : ℕ → TradingDayStatus → EquitySession
closed_session day status = record {
  session_date = day;
  status = status;
  opens_at = none;
  preopen_cutoff_at = none;
  closes_at = none;
  anchor_at = none;
  is_early_close = false;
}

-- `early_closes.get(session_date, regular_close)`
abbrev pub close_or : Option ℕ → ℕ
close_or none = clock_time 16 0
close_or (some close) = close

abbrev pub open_session : EquityCalendarConfig → ℕ → EquitySession
open_session c day =
    let close = close_or (get c.early_closes day) in
    record {
      session_date = day;
      status = trading_day;
      opens_at = some (local_at day (clock_time 9 30));
      preopen_cutoff_at = some (local_at day (clock_time 9 29 + seconds 59));
      closes_at = some (local_at day close);
      anchor_at = some (local_at day close);
      is_early_close = is_some (get c.early_closes day);
    }

unfoldable pub equity_session : EquityCalendarConfig → ℕ → EquitySession
unfolding day_status
equity_session c day =
    if is_trading (day_status c day)
    then open_session c day
    else closed_session day (day_status c day)

-- `date.max.toordinal()`
abbrev pub max_date : ℕ
max_date = 3652059

-- The loop of `trading_days`, with the days up to the end still to come. After the last day too the
-- date moves on by one.
unfoldable pub days_from : EquityCalendarConfig → ℕ → ℕ → Result CalendarError (List ℕ)
unfolding day_status
days_from c zero current = ok []
days_from c (suc n) current = do
  refuse_if (leb max_date current) date_out_of_range
  rest ← days_from c n (current + 1)
  ok (if is_trading (day_status c current) then current ∷ rest else rest)

unfoldable pub trading_days : EquityCalendarConfig → ℕ → ℕ → Result CalendarError (List ℕ)
unfolding days_from
trading_days c start end = do
  refuse_if (ltb end start) start_after_end
  days_from c (end + 1 - start) start

-- What `tomllib.loads` reads of a calendar, and the two readers of ISO texts.
pub record RawCalendar : Type 0 where
  pub verified_from : Option String
  pub verified_through : Option String
  pub holidays : List String
  pub early_closes : List (Option String × Option String)

pub record IsoReader : Type 0 where
  pub read_date : String → Option ℕ
  pub read_time : String → Option ℕ

module _ (iso : IsoReader) where
  abbrev the_key : String → Option String → Result CalendarError String
  the_key key none = err (missing_key key)
  the_key key (some s) = ok s

  abbrev as_date : String → Option ℕ → Result CalendarError ℕ
  as_date s none = err (not_a_date s)
  as_date s (some day) = ok day

  abbrev as_time : String → Option ℕ → Result CalendarError ℕ
  as_time s none = err (not_a_time s)
  as_time s (some clock) = ok clock

  unfoldable pub read_dates : List String → Result CalendarError (List ℕ)
  read_dates [] = ok []
  read_dates (s ∷ ss) = do day ← as_date s (iso.read_date s); days ← read_dates ss; ok (day ∷ days)

  -- The comprehension of early closes: a later entry of a date takes the earlier one's place.
  unfoldable pub read_closes :
      List (Option String × Option String) → Dict ℕ ℕ → Result CalendarError (Dict ℕ ℕ)
  read_closes [] d = ok d
  read_closes ((date_key, time_key) ∷ rest) d = do
    date_text ← the_key "session_date" date_key
    day ← as_date date_text (iso.read_date date_text)
    time_text ← the_key "closes_at" time_key
    clock ← as_time time_text (iso.read_time time_text)
    read_closes rest (put d day clock)

  unfoldable pub load_equity_calendar : RawCalendar → Result CalendarError EquityCalendarConfig
  unfolding read_dates read_closes check_equity
  load_equity_calendar raw = do
    closes ← read_closes raw.early_closes []
    from_text ← the_key "verified_from" raw.verified_from
    first ← as_date from_text (iso.read_date from_text)
    through_text ← the_key "verified_through" raw.verified_through
    final ← as_date through_text (iso.read_date through_text)
    holidays ← read_dates raw.holidays
    let config : EquityCalendarConfig = record {
      verified_from = first;
      verified_through = final;
      holidays = holidays;
      early_closes = closes;
      timezone = "America/New_York";
    }
    check_equity config
    ok config
