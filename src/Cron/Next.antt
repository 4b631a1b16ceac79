-- ===== src/Cron/Next.antt =====
-- `CronSchedule` (src/istos/queue/cron.py): its constructor, `_matches`, `_day_matches` and
-- `next_after`.
use istos.Prelude.{
  ◌>>=◌, ℕ, zero, suc, ◌+◌, ◌%◌, Bool, true, false, ◌&&◌, ◌||◌, not, Option, none, some, List, [],
  ◌∷◌, ◌++◌, String, ltb, leb, if◌then◌else◌, number_key, text_key, ◌==◌, keep_if, ℤ,
}
use istos.Cron.Calendar.{
  date_of, day_of, hour_of, minute_of, weekday, midnight, at_clock, next_month,
}
use istos.Cron.Field.{among, parse_field}

pub record CronSchedule : Type 0 where
  pub minute : List ℕ
  pub hour : List ℕ
  pub dom : List ℕ
  pub month : List ℕ
  pub dow : List ℕ
  pub dom_restricted : Bool
  pub dow_restricted : Bool

-- `if 7 in dow: dow.discard(7); dow.add(0)`
unfoldable pub sunday_zero : List ℕ → List ℕ
sunday_zero dow = if among 7 dow then keep_if (λ d. not (d == 7)) dow ++ 0 ∷ [] else dow

-- The constructor, on the fields that `expr.split()` gives.
unfoldable pub parse : (String → Option ℤ) → List String → Option CronSchedule
unfolding sunday_zero
parse int_of (a ∷ b ∷ c ∷ d ∷ e ∷ []) = do
  minute ← parse_field int_of a 0 59
  hour ← parse_field int_of b 0 23
  dom ← parse_field int_of c 1 31
  month ← parse_field int_of d 1 12
  dow ← parse_field int_of e 0 7
  some (record {
    minute = minute;
    hour = hour;
    dom = dom;
    month = month;
    dow = sunday_zero dow;
    dom_restricted = not (c == "*");
    dow_restricted = not (e == "*");
  })
parse int_of fields = none

-- `_day_matches`, on the day of a time.
unfoldable pub day_matches : CronSchedule → ℕ → Bool
day_matches c n =
    let dom_ok = among (date_of n).day c.dom in
    let dow_ok = among ((weekday n + 1) % 7) c.dow in
    if c.dom_restricted && c.dow_restricted then dom_ok || dow_ok else dom_ok && dow_ok

-- `_matches`
unfoldable pub matches : CronSchedule → ℕ → Bool
unfolding day_matches
matches c t =
    if not (among (minute_of t) c.minute)
      || not (among (hour_of t) c.hour)
      || not (among (date_of (day_of t)).month c.month)
    then false
    else day_matches c (day_of t)

-- `sorted` on a set.
unfoldable pub put : ℕ → List ℕ → List ℕ
put x [] = x ∷ []
put x (y ∷ ys) = let rest = put x ys in if leb x y then x ∷ y ∷ ys else y ∷ rest

unfoldable pub in_order : List ℕ → List ℕ
unfolding put
in_order [] = []
in_order (x ∷ xs) = put x (in_order xs)

unfoldable pub first : List ℕ → Option ℕ
first [] = none
first (x ∷ xs) = some x

-- How a turn of the loop ends: it returns `t`, goes on from a later time, or, if it takes the
-- first of no values, raises IndexError.
pub data TurnEnd : Type 0 where
  returns : TurnEnd
  goes_to : ℕ → TurnEnd
  index_error : TurnEnd

unfoldable pub hop : Option ℕ → (ℕ → ℕ) → TurnEnd
hop none f = index_error
hop (some v) f = goes_to (f v)

unfoldable pub hour_turn : CronSchedule → ℕ → Option ℕ → TurnEnd
unfolding hop
hour_turn c t (some h) = hop (first (in_order c.minute)) (λ m. at_clock t h m)
hour_turn c t none = elim (first (in_order c.hour)) [
  | none ↦ index_error
  | some h ↦ hop (first (in_order c.minute)) (λ m. at_clock (t + 1440) h m)
]

unfoldable pub minute_turn : CronSchedule → ℕ → Option ℕ → TurnEnd
unfolding hop
minute_turn c t (some m) = goes_to (at_clock t (hour_of t) m)
minute_turn c t none = hop (first (in_order c.minute)) (λ m. at_clock t (hour_of t) m + 60)

unfoldable pub turn : CronSchedule → ℕ → TurnEnd
unfolding hour_turn minute_turn in_order first
turn c t =
    if not (among (date_of (day_of t)).month c.month)
    then goes_to (midnight (next_month (day_of t)))
    else if not (day_matches c (day_of t))
    then goes_to (midnight (day_of t + 1))
    else if not (among (hour_of t) c.hour)
    then hour_turn c t (first (keep_if (λ h. ltb (hour_of t) h) (in_order c.hour)))
    else if not (among (minute_of t) c.minute)
    then minute_turn c t (first (keep_if (λ m. ltb (minute_of t) m) (in_order c.minute)))
    else returns

-- How the search ends: with a time, with CronError, with IndexError, or out of turns.
pub data Firing : Type 0 where
  fires_at : ℕ → Firing
  no_match : Firing
  raises_index : Firing
  stuck : Firing

-- `while t < horizon`, with a bound on its turns.
unfoldable pub search_from : CronSchedule → ℕ → ℕ → ℕ → Firing
unfolding turn
search_from c horizon zero t = if ltb t horizon then stuck else no_match
search_from c horizon (suc fuel) t = elim (ltb t horizon) [
  | false ↦ no_match
  | true ↦ elim (turn c t) [
    | returns ↦ fires_at t
    | goes_to t' ↦ search_from c horizon fuel t'
    | index_error ↦ raises_index
  ]
]

-- 366 * 8 days
abbrev pub eight_years : ℕ
eight_years = 4216320

-- The minute after `after`, and eight years from there.
unfoldable pub next_after : CronSchedule → ℕ → Firing
next_after c after = search_from c (after + 1 + eight_years) eight_years (after + 1)
