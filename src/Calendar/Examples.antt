-- ===== src/Calendar/Examples.antt =====
-- The first week of July 2026: Friday the third is a holiday, Thursday closes early.
use marketpilot.Base.{
  text_key, nat_key, List, [], arith, contains, if◌then◌else◌, ltb, ok, refl, true, ℕ, ◌+◌, ◌||◌,
  ◌↔◌, ◌∷◌, ◌≡◌, ◌≤◌,
}
use marketpilot.Calendar.{
  EquityCalendarConfig, GlobexCalendarConfig, LocalTime, SessionState, check_equity, clock_time,
  local_at, local_state, trading_days,
}
use marketpilot.Calendar.Days.{IsRising, IsTradingDay, trading_days_exactly}
use marketpilot.Calendar.Week.{local_state-weekly_state, week_time, weekly_state}

-- Monday, 29 June 2026
abbrev monday : ℕ
monday = 739796

abbrev equity : EquityCalendarConfig
equity = record {
  verified_from = monday;
  verified_through = monday + 30;
  holidays = (monday + 4) ∷ [];
  early_closes = (monday + 3, clock_time 13 0) ∷ [];
  timezone = "America/New_York";
}

week_run :
    trading_days equity monday (monday + 7)
    ≡ ok (monday ∷ (monday + 1) ∷ (monday + 2) ∷ (monday + 3) ∷ (monday + 7) ∷ [])
unfolding trading_days
week_run = refl

equity_checked : check_equity equity ≡ ok tt
unfolding check_equity
equity_checked = refl

trading_days_exactly_example :
    (ds : List ℕ) × (trading_days equity monday (monday + 7) ≡ ok ds)
    × IsRising ds
    × ((d : ℕ) → (contains d ds ≡ true) ↔ ((monday ≤ d) × (d ≤ monday + 7) × IsTradingDay equity d))
trading_days_exactly_example =
    trading_days_exactly equity monday (monday + 7) (omega arith) (omega arith)

abbrev globex : GlobexCalendarConfig
globex = record {
  verified_from = monday;
  verified_through = monday + 30;
  closed_dates = (monday + 4) ∷ [];
  timezone = "America/New_York";
}

abbrev monday_break : LocalTime
monday_break = local_at monday (clock_time 17 30)

local_state-weekly_state_example : local_state globex monday_break ≡ (
    if ltb monday monday || ltb (monday + 30) monday
    then SessionState.unverified
    else if contains monday ((monday + 4) ∷ [])
    then SessionState.closed
    else weekly_state (week_time monday_break))
local_state-weekly_state_example = local_state-weekly_state globex monday_break (omega arith)
