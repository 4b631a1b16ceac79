-- ===== src/Cron/Calendar.antt =====
-- Naive datetimes to the minute, as src/istos/queue/cron.py uses them: a time is the number of minutes
-- since the start of the year 2000, a Saturday.
use istos.Prelude.{
  ℕ, zero, suc, ◌+◌, ◌-◌, ◌*◌, ◌/◌, ◌%◌, ◌≤◌, ◌≡◌, Bool, ◌&&◌, ◌||◌, not, ltb, if◌then◌else◌,
  number_key, ◌==◌, arith, ap, ◌∙◌,
}

pub record Date : Type 0 where
  pub year : ℕ
  pub month : ℕ
  pub day : ℕ

unfoldable pub is_leap : ℕ → Bool
is_leap y = y % 4 == 0 && (not (y % 100 == 0) || y % 400 == 0)

unfoldable pub days_in_month : ℕ → ℕ → ℕ
unfolding is_leap
days_in_month y m =
    if m == 2
    then (if is_leap y then 29 else 28)
    else if m == 4 || m == 6 || m == 9 || m == 11
    then 30
    else 31

unfoldable pub next_date : Date → Date
next_date d =
    if ltb d.day (days_in_month d.year d.month)
    then record d { day = d.day + 1 }
    else if d.month == 12
    then record { year = d.year + 1; month = 1; day = 1 }
    else record { year = d.year; month = d.month + 1; day = 1 }

-- The date of a day, counted from the first day of 2000.
unfoldable pub date_of : ℕ → Date
unfolding next_date
date_of zero = record { year = 2000; month = 1; day = 1 }
date_of (suc n) = next_date (date_of n)

abbrev pub day_of : ℕ → ℕ
day_of t = t / 1440

abbrev pub hour_of : ℕ → ℕ
hour_of t = t % 1440 / 60

abbrev pub minute_of : ℕ → ℕ
minute_of t = t % 60

-- `t.weekday()`, with Monday 0.
abbrev pub weekday : ℕ → ℕ
weekday n = (n + 5) % 7

-- The first minute of a day.
abbrev pub midnight : ℕ → ℕ
midnight n = n * 1440

-- `t.replace(hour=hour, minute=minute)`
abbrev pub at_clock : ℕ → ℕ → ℕ → ℕ
at_clock t hour minute = midnight (day_of t) + hour * 60 + minute

-- The day `t.replace(year=year, month=month, day=1)` of the month after that of the day.
unfoldable pub next_month : ℕ → ℕ
next_month n = n + (days_in_month (date_of n).year (date_of n).month + 1 - (date_of n).day)

days-pos : (y m : ℕ) → 1 ≤ days_in_month y m
unfolding days_in_month is_leap
days-pos y m = ground arith

pub date_in_month :
    (n : ℕ)
    → (1 ≤ (date_of n).day) × ((date_of n).day ≤ days_in_month (date_of n).year (date_of n).month)
unfolding date_of next_date
date_in_month zero = (omega arith, unfold days_in_month is_leap in omega arith)
date_in_month (suc n) = ground (
  arith,
  date_in_month n,
  days-pos ((date_of n).year + 1) 1,
  days-pos (date_of n).year ((date_of n).month + 1),
)

within_month :
    (d : Date) (k : ℕ)
    → d.day + suc k ≤ days_in_month d.year d.month
    → next_date (record d { day = d.day + k }) ≡ record d { day = d.day + suc k }
unfolding next_date
within_month d k h = ground (arith, h)

-- Within a month the day alone goes up.
pub same_month :
    (n k : ℕ)
    → (date_of n).day + k ≤ days_in_month (date_of n).year (date_of n).month
    → date_of (n + k) ≡ record (date_of n) { day = (date_of n).day + k }
unfolding date_of
same_month n zero h = ground arith
same_month n (suc k) h =
    let on : n + suc k ≡ suc (n + k) = omega arith in
    ap date_of on ∙ ap next_date (same_month n k (omega (arith, h))) ∙ within_month (date_of n) k h

after_month :
    (d : Date)
    → next_date (record d { day = days_in_month d.year d.month }) ≡ (
        if d.month == 12
        then record { year = d.year + 1; month = 1; day = 1 }
        else record { year = d.year; month = d.month + 1; day = 1 })
unfolding next_date
after_month d = ground arith

-- The day after the last of a month is the first of the next.
pub next_month-date :
    (n : ℕ)
    → date_of (next_month n) ≡ (
        if (date_of n).month == 12
        then record { year = (date_of n).year + 1; month = 1; day = 1 }
        else record { year = (date_of n).year; month = (date_of n).month + 1; day = 1 })
unfolding next_month date_of
next_month-date n =
    let long = days_in_month (date_of n).year (date_of n).month in
    let left = long - (date_of n).day in
    let here : next_month n ≡ suc (n + left) = omega (arith, date_in_month n) in
    let end : (date_of n).day + left ≡ long = omega (arith, date_in_month n) in
    let last = same_month n left (omega (arith, date_in_month n)) in
    ap date_of here
    ∙ ap next_date (last ∙ ap (λ (k : ℕ). record (date_of n) { day = k }) end)
    ∙ after_month (date_of n)
