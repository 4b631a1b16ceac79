-- ===== src/Cron/Scan.antt =====
-- `next_after` (src/istos/queue/cron.py) against a test of every minute.
use istos.Prelude.{
  ℕ, zero, suc, ◌+◌, ◌-◌, ◌≤◌, ◌<◌, ◌≡◌, refl, sym, ap, ◌∙◌, inl, inr, true, false, Option, some,
  List, String, ltb, leb, if◌then◌else◌, number_key, arith, Bool-cases, ℤ,
}
use istos.Cron.Next.{
  CronSchedule, matches, TurnEnd, returns, goes_to, index_error, turn, Firing, fires_at, no_match,
  raises_index, search_from, eight_years, next_after, parse,
}
use istos.Cron.Turns.{NoMatch, IsSound, IsProper, turn-IsSound}
use istos.Cron.Proper.{parse-IsProper}

-- Every one of the next `n` minutes in turn.
unfoldable pub every_minute : CronSchedule → ℕ → ℕ → Firing
every_minute c zero t = no_match
every_minute c (suc n) t =
    let later = every_minute c n (t + 1) in if matches c t then fires_at t else later

module _ (c : CronSchedule) where
  every_minute-skip :
      (n k t : ℕ) → NoMatch c t (t + k) → every_minute c (k + n) t ≡ every_minute c n (t + k)
  unfolding every_minute
  every_minute-skip n zero t h =
      let none_less : 0 + n ≡ n = omega arith in
      let here : t ≡ t + 0 = omega arith in
      ap (λ x. every_minute c x t) none_less ∙ ap (every_minute c n) here
  every_minute-skip n (suc k) t h =
      let more : suc k + n ≡ suc (k + n) = omega arith in
      let there : t + 1 + k ≡ t + suc k = omega arith in
      ap (λ x. every_minute c x t) more
      ∙ ground (arith, h t (omega arith) (omega arith))
      ∙ every_minute-skip n k (t + 1)
          (λ u low below. h u (omega (arith, low)) (omega (arith, below)))
      ∙ ap (every_minute c n) there

  every_minute-none : (n t : ℕ) → NoMatch c t (t + n) → every_minute c n t ≡ no_match
  unfolding every_minute
  every_minute-none zero t h = refl
  every_minute-none (suc n) t h = ground (
    arith,
    h t (omega arith) (omega arith),
    every_minute-none n (t + 1) (λ u low below. h u (omega (arith, low)) (omega (arith, below))),
  )

  past_horizon : (horizon fuel t : ℕ) → horizon ≤ t → search_from c horizon fuel t ≡ no_match
  unfolding search_from
  past_horizon horizon zero t h = ground arith
  past_horizon horizon (suc fuel) t h =
      let over : ltb t horizon ≡ false = ground arith in rw (search_from, over) refl

  every_minute-at : (n t : ℕ) → matches c t ≡ true → every_minute c (suc n) t ≡ fires_at t
  unfolding every_minute
  every_minute-at n t h = rw (h) refl

  jump-eq :
      (fuel t t' n : ℕ)
      → t < t'
      → NoMatch c t t'
      → ((k : ℕ) → t' + k ≡ t + n → search_from c (t + n) fuel t' ≡ every_minute c k t')
      → search_from c (t + n) fuel t' ≡ every_minute c n t
  jump-eq fuel t t' n on gap later = elim (Bool-cases (leb t' (t + n))) [
    | inl within ↦
        let k = t + n - t' in
        let hop : t + (t' - t) ≡ t' = omega (arith, on) in
        let all : (t' - t) + k ≡ n = ground (arith, on, within) in
        later k (ground (arith, within))
        ∙ ap (every_minute c k) (sym hop)
        ∙ sym (every_minute-skip k (t' - t) t (λ u low below. gap u low (omega (arith, below, on))))
        ∙ ap (λ x. every_minute c x t) all
    | inr beyond ↦
        past_horizon (t + n) fuel t' (ground (arith, beyond))
        ∙ sym (every_minute-none n t (λ u low below. gap u low (ground (arith, below, beyond))))
  ]

  module _ (p : IsProper c) where
    search-eq : (fuel t n : ℕ) → n ≤ fuel → search_from c (t + n) fuel t ≡ every_minute c n t
    unfolding search_from every_minute
    search-eq zero t n h =
        let done : n ≡ 0 = omega (arith, h) in
        past_horizon (t + n) 0 t (omega (arith, h)) ∙ ap (λ x. every_minute c x t) (sym done)
    search-eq (suc fuel) t zero h = past_horizon (t + 0) (suc fuel) t (omega arith)
    search-eq (suc fuel) t (suc n) h =
        let inside : ltb t (t + suc n) ≡ true = ground arith in
        rw (search_from, inside)
          (go (turn c t) (turn-IsSound c p t) (λ t' k same small.
            ap (λ x. search_from c x fuel t') (sym same) ∙ search-eq fuel t' k small))
      where
        go :
            (x : TurnEnd)
            → IsSound c t x
            → ((t' k : ℕ)
                → t' + k ≡ t + suc n
                → k ≤ fuel
                → search_from c (t + suc n) fuel t' ≡ every_minute c k t')
            → (elim x as (λ y. Firing) [
              | returns ↦ fires_at t
              | goes_to t' ↦ search_from c (t + suc n) fuel t'
              | index_error ↦ raises_index
            ])
              ≡ every_minute c (suc n) t
        go returns sound later = sym (every_minute-at n t sound)
        go (goes_to t') sound later =
            jump-eq fuel t t' (suc n) sound.0 sound.1
              (λ k same. later t' k same (omega (arith, same, h, sound.0)))
        go index_error sound later = absurd sound

-- For every schedule that the constructor of CronSchedule gives, whatever `int` does with a text, and
-- every time, next_after, which jumps by months, days, hours and minutes, ends as the test of each of
-- the minutes of the eight years after that time in turn: with the first that matches, or with CronError
-- if none does; so it ends within as many turns as there are minutes, never with IndexError, and skips no
-- firing.
pub next_after-eq :
    (int_of : String → Option ℤ) (fields : List String) (c : CronSchedule) (after : ℕ)
    → parse int_of fields ≡ some c
    → next_after c after ≡ every_minute c eight_years (after + 1)
unfolding next_after
next_after-eq int_of fields c after h =
    search-eq c (parse-IsProper int_of fields h) eight_years (after + 1) eight_years
      (itself eight_years)
  where
    itself : (n : ℕ) → n ≤ n
    itself n = omega arith
