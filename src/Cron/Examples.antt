-- ===== src/Cron/Examples.antt =====
-- Cron schedules on concrete expressions (src/istos/queue/cron.py).
use istos.Prelude.{
  true, false, ℕ, ◌+◌, ◌*◌, ◌-◌, ◌≡◌, refl, Option, none, some, [], ◌∷◌, String, ℤ, pos,
  if◌then◌else◌, ◌&&◌, leb,
}
use Prim.Native.Char.{code}
use istos.Cron.Calendar.{date_of, days_in_month}
use istos.Cron.Field.{progression, parse_field}
use istos.Cron.Next.{
  CronSchedule, day_matches, parse, fires_at, search_from, eight_years, next_after,
}
use istos.Cron.Scan.{every_minute, next_after-eq}

-- `int` on the decimal texts, as an argument for the tests.
abbrev digits : ℕ → String → Option ℤ
digits n String.[] = some (pos n)
digits n (String.◌∷◌ c s) =
    let rest = digits (n * 10 + (code c - b'0')) s in
    if leb b'0' (code c) && leb (code c) b'9' then rest else none

abbrev int_of : String → Option ℤ
int_of s = digits 0 s

every_fifth : parse_field int_of "5-20/5,*/30,7" 0 59 ≡ some (5 ∷ 10 ∷ 15 ∷ 20 ∷ 0 ∷ 30 ∷ 7 ∷ [])
unfolding parse_field
every_fifth = refl

abbrev quarter_hours : CronSchedule
quarter_hours = record {
  minute = 0 ∷ 15 ∷ 30 ∷ 45 ∷ [];
  hour = 9 ∷ [];
  dom = progression 1 1 31;
  month = progression 1 1 12;
  dow = 1 ∷ 2 ∷ 3 ∷ 4 ∷ 5 ∷ [];
  dom_restricted = false;
  dow_restricted = true;
}

quarters_parse : parse int_of ("*/15" ∷ "9" ∷ "*" ∷ "*" ∷ "1-5" ∷ []) ≡ some quarter_hours
unfolding parse parse_field
quarters_parse = refl

-- From 9:50 of Saturday, January 1, 2000, to 9:00 of the Monday, in three turns.
on_monday : search_from quarter_hours 10000 4 590 ≡ fires_at 3420
unfolding search_from progression date_of day_matches days_in_month
on_monday = refl

next_after-eq_example : next_after quarter_hours 589 ≡ every_minute quarter_hours eight_years 590
next_after-eq_example =
    next_after-eq int_of ("*/15" ∷ "9" ∷ "*" ∷ "*" ∷ "1-5" ∷ []) quarter_hours 589 quarters_parse
