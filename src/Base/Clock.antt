-- ===== src/Base/Clock.antt =====
-- Python's `datetime`: microseconds since datetime.min. An aware value is the UTC instant that it
-- names, since comparison, difference and `astimezone(UTC)` read nothing else of it.
use Prim.Native.Nat.{ℕ, ◌*◌}
use mathlib.Core.Option.{Option, none, some}
use marketpilot.Base.Tests.{if◌then◌else◌, leb}

pub data Datetime : Type 0 where
  naive : ℕ → Datetime
  aware : ℕ → Datetime

-- `timedelta.max`, one microsecond under a thousand million days
abbrev pub greatest_timedelta : ℕ
greatest_timedelta = 86399999999999999999

-- `timedelta(seconds=...)` for a length that is not negative: nothing for an OverflowError
unfoldable pub timedelta : ℕ → Option ℕ
timedelta length = if leb length greatest_timedelta then some length else none

-- `timedelta(microseconds=n)` for n at least 0
abbrev pub microseconds : ℕ → ℕ
microseconds n = n

abbrev pub milliseconds : ℕ → ℕ
milliseconds n = 1000 * n

abbrev pub seconds : ℕ → ℕ
seconds n = 1000000 * n

abbrev pub minutes : ℕ → ℕ
minutes n = 60000000 * n
