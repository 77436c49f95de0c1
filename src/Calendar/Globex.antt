-- ===== src/Calendar/Globex.antt =====
-- domain/trading_calendar.py: the Globex configuration and session clock.
use marketpilot.Base.{
  text_key, nat_key, Datetime, List, Result, String, any, aware, contains, err, if◌then◌else◌, leb,
  ltb, naive, nat_eq, not, ok, ℕ, ◌&&◌, ◌==◌, ◌||◌,
}
use marketpilot.Base.Fallible.{◌>>◌, refuse_if}
use marketpilot.Calendar.Equity.{
  CalendarError, LocalTime, clock_time, is_outside, weekday, closed_date_outside_range,
  instant_must_be_timezone_aware, range_is_reversed, timezone_must_be_new_york,
}

pub data SessionState : Type 0 where
  opened closed maintenance unverified : SessionState

pub record GlobexCalendarConfig : Type 0 where
  pub verified_from : ℕ
  pub verified_through : ℕ
  pub closed_dates : List ℕ
  pub timezone : String

-- `GlobexCalendarConfig.__post_init__`
unfoldable pub check_globex : GlobexCalendarConfig → Result CalendarError (Unit {0})
check_globex c = do
  refuse_if (not (c.timezone == "America/New_York")) timezone_must_be_new_york
  refuse_if (ltb c.verified_through c.verified_from) range_is_reversed
  refuse_if (any (is_outside c.verified_from c.verified_through) c.closed_dates)
      closed_date_outside_range

-- `state_at` from the local day and time on
unfoldable pub local_state : GlobexCalendarConfig → LocalTime → SessionState
local_state c local =
    if ltb local.day c.verified_from || ltb c.verified_through local.day
    then unverified
    else if contains local.day c.closed_dates
    then closed
    else if nat_eq (weekday local.day) 5
        || (nat_eq (weekday local.day) 4 && leb (clock_time 17 0) local.clock)
    then closed
    else if nat_eq (weekday local.day) 6 && ltb local.clock (clock_time 18 0)
    then closed
    else if leb (clock_time 17 0) local.clock && ltb local.clock (clock_time 18 0)
    then maintenance
    else opened

-- `state_at`; the day and time in New York of an instant are those of `zoneinfo`
unfoldable pub state_at :
    (ℕ → LocalTime) → GlobexCalendarConfig → Datetime → Result CalendarError SessionState
unfolding local_state
state_at new_york c (naive t) = err instant_must_be_timezone_aware
state_at new_york c (aware t) = ok (local_state c (new_york t))
