-- ===== src/Server/History/Window.antt =====
-- How many days of trades the thread asks for.
use stock_trading_bot_server.Prelude.{
  ℕ, zero, suc, ◌+◌, ◌-◌, ◌*◌, ◌/◌, ◌≤◌, ◌<◌, ◌≡◌, refl, arith, ltb, if◌then◌else◌,
}
use stock_trading_bot_server.Clock.{Tm}
use stock_trading_bot_server.Server.History.{is_leap, days_in_month, mktime, start_time}

-- A day that the calendar has.
abbrev pub IsDate : Tm → Type 0
IsDate t =
    (t.tm_mon < 12) × (1 ≤ t.tm_mday) × (t.tm_mday ≤ days_in_month (t.tm_year + 1900) t.tm_mon)

days_before_month : ℕ → ℕ → ℕ
days_before_month y zero = 0
days_before_month y (suc m) = days_before_month y m + days_in_month y m

days_before_year : ℕ → ℕ
days_before_year y = let p = y - 1 in p * 365 + p / 4 - p / 100 + p / 400

-- The number of the day, where 0001-01-01 is 1.
pub ordinal_of : ℕ → ℕ → ℕ → ℕ
ordinal_of y m d = days_before_year y + days_before_month y m + d

abbrev pub ordinal : Tm → ℕ
ordinal t = ordinal_of (t.tm_year + 1900) t.tm_mon t.tm_mday

abbrev leap_day : ℕ → ℕ
leap_day y = if is_leap y then 1 else 0

-- The year and the month after.
year_step : (y : ℕ) → 1 ≤ y → days_before_year (y + 1) ≡ days_before_year y + 365 + leap_day y
unfolding days_before_year is_leap
year_step y h = ground arith

month_common :
    (y z m : ℕ)
    → days_before_month y m + (if ltb 1 m then leap_day z else 0)
      ≡ days_before_month z m + (if ltb 1 m then leap_day y else 0)
unfolding days_before_month days_in_month
month_common y z zero = refl
month_common y z (suc m) = ground (arith, month_common y z m)

year_length : (y : ℕ) → days_before_month y 12 ≡ 365 + leap_day y
unfolding days_before_month days_in_month
year_length y = ground arith

month_step : (y m : ℕ) → days_before_month y (m + 1) ≡ days_before_month y m + days_in_month y m
unfolding days_before_month
month_step y m = let e : m + 1 ≡ suc m = omega arith in rw e refl

december : (y m : ℕ) → m ≡ 11 → days_before_month y m + days_in_month y m ≡ 365 + leap_day y
december y m e = rw e (omega (arith, month_step y 11, year_length y))

days_bounds : (y m : ℕ) → (28 ≤ days_in_month y m) × (days_in_month y m ≤ 31)
unfolding days_in_month
days_bounds y m = ground arith

next_month :
    (y m d : ℕ)
    → days_in_month y m ≤ d
    → ordinal_of y (m + 1) (d - days_in_month y m) ≡ ordinal_of y m d
unfolding ordinal_of
next_month y m d h = omega (arith, month_step y m)

next_year :
    (y m d : ℕ)
    → 1 ≤ y
    → m ≡ 11
    → days_in_month y m ≤ d
    → ordinal_of (y + 1) 0 (d - days_in_month y m) ≡ ordinal_of y m d
unfolding ordinal_of days_before_month
next_year y m d a e h = omega (arith, december y m e, year_step y a)

-- `mktime` gives a day that the calendar has, and the same day by number.
module _ (t : Tm) (a : t.tm_mon < 12) (b : 1 ≤ t.tm_mday)
    (c : t.tm_mday ≤ days_in_month (t.tm_year + 1900) t.tm_mon + 4) where
  mktime-IsDate : IsDate (mktime t)
  unfolding mktime
  mktime-IsDate =
      ground
        (arith, days_bounds (t.tm_year + 1900) (t.tm_mon + 1), days_bounds (t.tm_year + 1 + 1900) 0)

  ordinal-mktime : ordinal (mktime t) ≡ ordinal t
  unfolding mktime
  ordinal-mktime =
      let y = t.tm_year + 1900 in
      let shift : t.tm_year + 1 + 1900 ≡ y + 1 = omega arith in
      ground (arith, next_month y t.tm_mon t.tm_mday, next_year y t.tm_mon t.tm_mday, shift)

-- The same day of the month a year before, and the day after it.
year_before :
    (z m d : ℕ)
    → 1 ≤ z
    → (ordinal_of z m (d + 1) + 364 ≤ ordinal_of (z + 1) m d)
      × (ordinal_of (z + 1) m d ≤ ordinal_of z m (d + 1) + 365)
unfolding ordinal_of
year_before z m d h = ground (arith, year_step z h, month_common (z + 1) z m)

-- For every day that the calendar has, the thread asks for the trades from a day that the calendar has
-- too, 29 February included, and that lies 364 or 365 days before: a year of trades, both days
-- counted.
pub start_time-window :
    (t : Tm)
    → IsDate t
    → 1 ≤ t.tm_year
    → IsDate (start_time t)
      × (ordinal (start_time t) + 364 ≤ ordinal t)
      × (ordinal t ≤ ordinal (start_time t) + 365)
unfolding start_time
start_time-window t (a, b, c) h =
    let y = t.tm_year + 1900 in
    let z = t.tm_year - 1 + 1900 in
    let same : z + 1 ≡ y = omega arith in
    let u : Tm = record t { tm_year = t.tm_year - 1; tm_mday = t.tm_mday + 1 } in
    let fits : t.tm_mday + 1 ≤ days_in_month z t.tm_mon + 4 =
      omega (arith, days_bounds y t.tm_mon, days_bounds z t.tm_mon) in
    let e : ordinal (mktime u) ≡ ordinal_of z t.tm_mon (t.tm_mday + 1) =
      ordinal-mktime u a (omega arith) fits in
    let (low, high) = year_before z t.tm_mon t.tm_mday (omega arith) in
    let f : ordinal t ≡ ordinal_of (z + 1) t.tm_mon t.tm_mday = rw same refl in
    (mktime-IsDate u a (omega arith) fits, rw (e, f) low, rw (e, f) high)
