-- ===== src/RateLimit/Examples.antt =====
-- Tests of the token buckets (src/istos/middleware/ratelimit.py), and their theorems at a schedule.
use istos.Prelude.{◌+◌, ◌-◌, ◌*◌, ◌≤◌, ◌≡◌, ◌≢◌, ◌<◌, refl, [], ◌∷◌, arith, text_key}
use istos.Dict
use istos.RateLimit.{
  Limits, Buckets, admitted, limited, call, charge, evict, level_of, round_half, retry_after,
}
use istos.RateLimit.Level.{level, level-evict}
use istos.RateLimit.Wait.{refused_waits}
use istos.RateLimit.Window.{Calls, after, admissions, passes, Between, Others, admissions_bounded}

-- One token in two ticks, two at once.
abbrev limits : Limits
limits = record { refill = 1; cost = 2; burst = 4; idle = 60; second = 2 }

abbrev schedule : Calls
schedule = ("a", 0) ∷ ("b", 0) ∷ ("a", 0) ∷ ("a", 0) ∷ ("a", 1) ∷ ("a", 2) ∷ []

-- The burst, and one more once its grains are back.
three : admissions limits "a" schedule Dict.empty ≡ 3
unfolding admissions passes call charge evict level_of Dict.get Dict.set Dict.items Dict.empty
three = refl

admissions_bounded_example : admissions limits "a" schedule Dict.empty * 2 ≤ 4 + (2 - 0) * 1
admissions_bounded_example =
    admissions_bounded limits "a" 0 2 schedule Dict.empty (unfold Between in omega arith)

abbrev spent_bucket : Buckets
spent_bucket = Dict.set Dict.empty "a" (record { tokens = 1; last = 0 })

level-evict_example :
    level limits "a" 100 (evict limits 90 spent_bucket) ≡ level limits "a" 100 spent_bucket
level-evict_example = level-evict limits 90 100 "a" spent_bucket (omega arith)

-- A token short by one tick of half a second.
refused : (call limits "a" 0 spent_bucket).1 ≡ limited 500
unfolding call charge retry_after round_half evict level_of Dict.get Dict.set Dict.items Dict.empty
refused = refl

refused_waits_example :
    let next =
      (call limits "a" 2 (after limits (("b", 1) ∷ []) (call limits "a" 0 spent_bucket).0)).1 in
    ((2 * 500 + 1) * 2 ≤ 2000 * (2 - 0) → next ≡ admitted)
    × (2000 * (2 - 0) + 2 < (2 * 500) * 2 → next ≢ admitted)
refused_waits_example =
    refused_waits limits "a" 0 2 500 (("b", 1) ∷ []) spent_bucket (omega arith) (omega arith)
      (omega arith) refused (unfold Between in omega arith) (unfold Others in (refl, tt))

-- At three tokens in a second, with a clock of thousandths, an empty bucket is told to wait for 0.333
-- seconds, and a call that does so is refused again.
abbrev thirds : Limits
thirds = record { refill = 3; cost = 1000; burst = 3000; idle = 60000; second = 1000 }

abbrev empty_bucket : Buckets
empty_bucket = Dict.set Dict.empty "a" (record { tokens = 0; last = 0 })

told_too_early :
    ((call thirds "a" 0 empty_bucket).1 ≡ limited 333)
    × ((call thirds "a" 333 (call thirds "a" 0 empty_bucket).0).1 ≡ limited 0)
unfolding call charge retry_after round_half evict level_of Dict.get Dict.set Dict.items Dict.empty
told_too_early = (refl, refl)
