-- ===== src/Calendar/Days.antt =====
-- The trading days of a window, and the session of a day.
use marketpilot.Base.{
  text_key, nat_key, All, All-map, Bool-cases, Dict, List, Option-cases, [], any, arith, contains,
  false, get, inl, inr, leb, ltb, nat_eq, ok, refl, some, subst, suc, true, values, zero, ℕ, ◌&&◌,
  ◌+◌, ◌-◌, ◌<◌, ◌↔◌, ◌∙◌, ◌∷◌, ◌≡◌, ◌≤◌,
}
use marketpilot.Calendar.Equity.{
  EquityCalendarConfig, EquitySession, check_equity, clock_time, day_status, days_from,
  equity_session, is_trading, open_session, local_at, max_date, permits_trading, trading_days,
  weekday,
}

-- A weekday of the verified range that is no holiday.
pub record IsTradingDay (c : EquityCalendarConfig) (d : ℕ) : Type 0 where
  pub is_weekday : weekday d < 5
  pub from_verified : c.verified_from ≤ d
  pub to_verified : d ≤ c.verified_through
  pub no_holiday : contains d c.holidays ≡ false

status_iff :
    (c : EquityCalendarConfig) (d : ℕ) → (is_trading (day_status c d) ≡ true) ↔ IsTradingDay c d
unfolding day_status
status_iff c d = (
  λ h. record {
    is_weekday = ground (arith, h);
    from_verified = ground (arith, h);
    to_verified = ground (arith, h);
    no_holiday = ground (arith, h);
  },
  λ t. ground (arith, t.no_holiday, t.is_weekday),
)

abbrev pub IsRising : List ℕ → Type 0
IsRising [] = Unit
IsRising (d ∷ ds) = All (λ e. d < e) ds × IsRising ds

-- The days of a loop.
record IsListing (c : EquityCalendarConfig) (n current : ℕ) (ds : List ℕ) : Type 0 where
  found : days_from c n current ≡ ok ds
  later : All (λ d. current ≤ d) ds
  rising : IsRising ds
  held :
      (d : ℕ)
      → contains d ds ≡ (leb current d && (ltb d (current + n) && is_trading (day_status c d)))

all_later : (m : ℕ) (ds : List ℕ) → All (λ d. m + 1 ≤ d) ds → All (λ d. m ≤ d) ds
all_later m ds h = All-map _ _ (λ d k. omega (arith, k)) ds h

held_now :
    (c : EquityCalendarConfig) (n current d : ℕ) (ds : List ℕ)
    → is_trading (day_status c current) ≡ true
    → contains d ds
      ≡ (leb (current + 1) d && (ltb d ((current + 1) + n) && is_trading (day_status c d)))
    → contains d (current ∷ ds)
      ≡ (leb current d && (ltb d (current + suc n) && is_trading (day_status c d)))
held_now c n current d ds trades h = elim (Bool-cases (nat_eq d current)) [
  | inl e ↦
      let same : current ≡ d = ground (arith, e) in
      let now : is_trading (day_status c d) ≡ true =
        subst (λ x. is_trading (day_status c x) ≡ true) same trades in
      ground (arith, e, now)
  | inr e ↦ rw e (h ∙ ground (arith, e))
]

held_later :
    (c : EquityCalendarConfig) (n current d : ℕ) (ds : List ℕ)
    → is_trading (day_status c current) ≡ false
    → contains d ds
      ≡ (leb (current + 1) d && (ltb d ((current + 1) + n) && is_trading (day_status c d)))
    → contains d ds ≡ (leb current d && (ltb d (current + suc n) && is_trading (day_status c d)))
held_later c n current d ds idle h = elim (Bool-cases (nat_eq d current)) [
  | inl e ↦
      let same : current ≡ d = ground (arith, e) in
      let now : is_trading (day_status c d) ≡ false =
        subst (λ x. is_trading (day_status c x) ≡ false) same idle in
      h ∙ ground (arith, e, now)
  | inr e ↦ h ∙ ground (arith, e)
]

days_from-IsListing :
    (c : EquityCalendarConfig) (n current : ℕ)
    → current + n ≤ max_date
    → (ds : List ℕ) × IsListing c n current ds
unfolding days_from
days_from-IsListing c zero current h =
    ([], record { found = refl; later = tt; rising = tt; held = λ d. ground arith })
days_from-IsListing c (suc n) current h =
    let (ds, rest) = days_from-IsListing c n (current + 1) (ground (arith, h)) in
    elim (Bool-cases (is_trading (day_status c current))) [
      | inl trades ↦ (
        current ∷ ds,
        record {
          found = ground (arith, rest.found, trades, h);
          later = (ground arith, all_later current ds rest.later);
          rising = (All-map _ _ (λ d k. omega (arith, k)) ds rest.later, rest.rising);
          held = λ d. held_now c n current d ds trades (rest.held d);
        },
      )
      | inr idle ↦ (
        ds,
        record {
          found = ground (arith, rest.found, idle, h);
          later = all_later current ds rest.later;
          rising = rest.rising;
          held = λ d. held_later c n current d ds idle (rest.held d);
        },
      )
    ]

-- A window whose end is before the last date gives exactly its trading days, in ascending order.
pub trading_days_exactly :
    (c : EquityCalendarConfig) (start end : ℕ)
    → start ≤ end
    → end < max_date
    → (ds : List ℕ) × (trading_days c start end ≡ ok ds)
      × IsRising ds
      × ((d : ℕ) → (contains d ds ≡ true) ↔ ((start ≤ d) × (d ≤ end) × IsTradingDay c d))
unfolding trading_days
trading_days_exactly c start end h k =
    let (ds, days) = days_from-IsListing c (end + 1 - start) start (ground (arith, h, k)) in
    (
      ds,
      ground (arith, days.found, h),
      days.rising,
      λ d. (
        λ there.
            let held = days.held d in
            (
              ground (arith, held, there),
              ground (arith, held, there, h),
              (status_iff c d).0 (ground (arith, held, there)),
            ),
        λ (from, to, trades).
            let now = (status_iff c d).1 trades in
            let held = days.held d in ground (arith, held, now, h, from, to),
      ),
    )

-- A session of a trading day.
pub record IsSession (c : EquityCalendarConfig) (s : EquitySession) : Type 0 where
  pub opens : s.opens_at ≡ some (local_at s.session_date (clock_time 9 30))
  pub closing :
      (close : ℕ) × (s.closes_at ≡ some (local_at s.session_date close))
      × (s.anchor_at ≡ some (local_at s.session_date close))
      × (close ≤ clock_time 16 0)
      × ((s.is_early_close ≡ true) ↔ (close < clock_time 16 0))

early_close_is_early :
    (d : Dict ℕ ℕ) (day close : ℕ)
    → any (λ t. leb (clock_time 16 0) t) (values d) ≡ false
    → get d day ≡ some close
    → close < clock_time 16 0
unfolding get
early_close_is_early [] day close h q = cc q
early_close_is_early ((j, t) ∷ d) day close h q =
    ground (arith, early_close_is_early d day close, h, q)

checked_closes :
    (c : EquityCalendarConfig)
    → check_equity c ≡ ok tt
    → any (λ t. leb (clock_time 16 0) t) (values c.early_closes) ≡ false
unfolding check_equity
checked_closes c h = ground (arith, h)

open_session-IsSession :
    (c : EquityCalendarConfig) (d : ℕ) → check_equity c ≡ ok tt → IsSession c (open_session c d)
open_session-IsSession c d h = elim (Option-cases (get c.early_closes d)) [
  | inl regular ↦ record {
    opens = refl;
    closing = (
      clock_time 16 0,
      rw regular refl,
      rw regular refl,
      ground arith,
      rw regular (λ k. cc k, λ k. absurd (omega (arith, k))),
    );
  }
  | inr (close, early) ↦
      let before = early_close_is_early c.early_closes d close (checked_closes c h) early in
      record {
        opens = refl;
        closing = (
          close,
          rw early refl,
          rw early refl,
          ground (arith, before),
          rw early (λ _. before, λ _. refl),
        );
      }
]

-- Of a configuration that its constructor accepts, a session permits trading exactly on a trading
-- day, and then opens at 9:30 of its date, and closes and is anchored at one time, 16:00 or, exactly
-- where it is marked as an early close, an earlier one.
equity_session_exactly :
    (c : EquityCalendarConfig) (d : ℕ)
    → check_equity c ≡ ok tt
    → ((permits_trading (equity_session c d) ≡ true) ↔ IsTradingDay c d)
      × (permits_trading (equity_session c d) ≡ true → IsSession c (equity_session c d))
unfolding equity_session
equity_session_exactly c d h = elim (Bool-cases (is_trading (day_status c d))) [
  | inl trades ↦
      rw trades ((λ _. (status_iff c d).0 trades, λ _. refl), λ _. open_session-IsSession c d h)
  | inr idle ↦ rw idle ((λ k. cc k, λ t. cc ((status_iff c d).1 t, idle)), λ k. cc k)
]
