-- ===== src/Calendar/Week.antt =====
-- The clock of the week.
use marketpilot.Base.{
  text_key, nat_key, arith, contains, if◌then◌else◌, leb, ltb, ℕ, ◌%◌, ◌&&◌, ◌*◌, ◌+◌, ◌<◌, ◌||◌,
  ◌≡◌,
}
use marketpilot.Calendar.Equity.{LocalTime, clock_time, weekday}
use marketpilot.Calendar.Globex.{
  GlobexCalendarConfig, SessionState, closed, local_state, maintenance, opened, unverified,
}

abbrev pub day_length : ℕ
day_length = clock_time 24 0

-- The time since the beginning of Sunday.
abbrev pub week_time : LocalTime → ℕ
week_time local = ((weekday local.day + 1) % 7) * day_length + local.clock

-- The week of Globex: trading from Sunday 18:00 until Friday 17:00, with a daily break at 17:00.
abbrev pub weekly_state : ℕ → SessionState
weekly_state u =
    if ltb u (clock_time 18 0) || leb (5 * day_length + clock_time 17 0) u
    then closed
    else if leb (clock_time 17 0) (u % day_length) && ltb (u % day_length) (clock_time 18 0)
    then maintenance
    else opened

-- At a time of day before midnight the clock shows unverified outside the verified range, closed on
-- a configured closed date, and else what the week's schedule says of the time since Sunday began.
pub local_state-weekly_state :
    (c : GlobexCalendarConfig) (local : LocalTime)
    → local.clock < day_length
    → local_state c local ≡ (
        if ltb local.day c.verified_from || ltb c.verified_through local.day
        then unverified
        else if contains local.day c.closed_dates
        then closed
        else weekly_state (week_time local))
unfolding local_state
local_state-weekly_state c local h = ground (arith, h)
