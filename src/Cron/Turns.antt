-- ===== src/Cron/Turns.antt =====
-- The turns of `next_after` (src/istos/queue/cron.py) go forward and skip no time that matches.
use istos.Prelude.{
  ℕ, suc, ◌+◌, ◌-◌, ◌/◌, ◌≤◌, ◌<◌, ◌≡◌, refl, sym, ap, subst, ◌∙◌, inl, inr, true, false, Option,
  none, some, List, ltb, number_key, ◌==◌, keep_if, arith, Bool-cases,
}
use istos.Cron.Calendar.{
  Date, date_of, day_of, hour_of, minute_of, midnight, at_clock, next_month, date_in_month,
  same_month,
}
use istos.Cron.Field.{among}
use istos.Cron.Next.{
  CronSchedule, day_matches, matches, in_order, first, TurnEnd, returns, goes_to, index_error, hop,
  hour_turn, minute_turn, turn,
}
use istos.Cron.Skips.{
  Lacks, among-in_order, in_order-IsAscending, first-Lacks, above-Lacks, none-Lacks,
}

-- No time matches from the first on, up to the second.
abbrev pub NoMatch : CronSchedule → ℕ → ℕ → Type 0
NoMatch c a b = (u : ℕ) → a ≤ u → u < b → matches c u ≡ false

abbrev pub IsSound : CronSchedule → ℕ → TurnEnd → Type 0
IsSound c t returns = matches c t ≡ true
IsSound c t (goes_to t') = (t < t') × NoMatch c t t'
IsSound c t index_error = ⊥

wrong_minute :
    (c : CronSchedule) (u : ℕ) → among (minute_of u) c.minute ≡ false → matches c u ≡ false
unfolding matches
wrong_minute c u h = rw (h) refl

wrong_hour : (c : CronSchedule) (u : ℕ) → among (hour_of u) c.hour ≡ false → matches c u ≡ false
unfolding matches
wrong_hour c u h = rw (h) (ground arith)

wrong_month :
    (c : CronSchedule) (u : ℕ)
    → among (date_of (day_of u)).month c.month ≡ false
    → matches c u ≡ false
unfolding matches
wrong_month c u h = rw (h) (ground arith)

wrong_day : (c : CronSchedule) (u : ℕ) → day_matches c (day_of u) ≡ false → matches c u ≡ false
unfolding matches
wrong_day c u h = rw (h) (ground arith)

lacks : (l : List ℕ) (a b w : ℕ) → Lacks (in_order l) a b → a ≤ w → w < b → among w l ≡ false
lacks l a b w h low below = sym (among-in_order w l) ∙ h w low below

month-IsSound :
    (c : CronSchedule) (t : ℕ)
    → among (date_of (day_of t)).month c.month ≡ false
    → IsSound c t (goes_to (midnight (next_month (day_of t))))
unfolding next_month
month-IsSound c t h = (
  omega (arith, date_in_month (day_of t)),
  λ u low below.
      let k = day_of u - day_of t in
      let on : day_of t + k ≡ day_of u = omega (arith, low) in
      let within = same_month (day_of t) k (omega (arith, low, below, date_in_month (day_of t))) in
      wrong_month c u (
        subst (λ n. among (date_of n).month c.month ≡ false) on
          (ap (λ (d : Date). among d.month c.month) within ∙ h)),
)

day-IsSound :
    (c : CronSchedule) (t : ℕ)
    → day_matches c (day_of t) ≡ false
    → IsSound c t (goes_to (midnight (day_of t + 1)))
day-IsSound c t h = (
  omega arith,
  λ u low below.
      let same : day_of t ≡ day_of u = omega (arith, low, below) in
      wrong_day c u (subst (λ n. day_matches c n ≡ false) same h),
)

-- The fields of a schedule that is parsed have values, and in their ranges.
pub record IsProper (c : CronSchedule) : Type 0 where
  pub minutes : (w : ℕ) → among w c.minute ≡ true → w < 60
  pub hours : (w : ℕ) → among w c.hour ≡ true → w < 24
  pub some_minute : (m : ℕ) × (first (in_order c.minute) ≡ some m)
  pub some_hour : (h : ℕ) × (first (in_order c.hour) ≡ some h)

module _ (c : CronSchedule) (p : IsProper c) where
  first_minute :
      (m : ℕ) → first (in_order c.minute) ≡ some m → (m < 60) × Lacks (in_order c.minute) 0 m
  first_minute m e =
      let (there, gap) = first-Lacks (in_order c.minute) m (in_order-IsAscending c.minute) e in
      (p.minutes m (sym (among-in_order m c.minute) ∙ there), gap)

  first_hour : (h : ℕ) → first (in_order c.hour) ≡ some h → (h < 24) × Lacks (in_order c.hour) 0 h
  first_hour h e =
      let (there, gap) = first-Lacks (in_order c.hour) h (in_order-IsAscending c.hour) e in
      (p.hours h (sym (among-in_order h c.hour) ∙ there), gap)

  later_hour-IsSound :
      (t h m : ℕ)
      → among (hour_of t) c.hour ≡ false
      → first (keep_if (λ x. ltb (hour_of t) x) (in_order c.hour)) ≡ some h
      → first (in_order c.minute) ≡ some m
      → IsSound c t (goes_to (at_clock t h m))
  later_hour-IsSound t h m out e f =
      let (over, there, gap) =
        above-Lacks (hour_of t) (in_order c.hour) h (in_order-IsAscending c.hour) e in
      let top = p.hours h (sym (among-in_order h c.hour) ∙ there) in
      let (small, minutes) = first_minute m f in
      (
        omega (arith, over),
        λ u low below. elim (Bool-cases (hour_of u == hour_of t)) [
          | inl same ↦
              let is : hour_of t ≡ hour_of u = ground (arith, same) in
              wrong_hour c u (subst (λ n. among n c.hour ≡ false) is out)
          | inr differs ↦ elim (Bool-cases (ltb (hour_of u) h)) [
            | inl before ↦ wrong_hour c u (
                lacks c.hour (suc (hour_of t)) h (hour_of u) gap
                  (ground (arith, low, below, differs, top, small)) (ground (arith, before)))
            | inr reached ↦ wrong_minute c u (
                lacks c.minute 0 m (minute_of u) minutes (omega arith)
                  (ground (arith, low, below, reached, top, small)))
          ]
        ],
      )

  next_day-IsSound :
      (t h m : ℕ)
      → among (hour_of t) c.hour ≡ false
      → first (keep_if (λ x. ltb (hour_of t) x) (in_order c.hour)) ≡ none
      → first (in_order c.hour) ≡ some h
      → first (in_order c.minute) ≡ some m
      → IsSound c t (goes_to (at_clock (t + 1440) h m))
  next_day-IsSound t h m out e g f =
      let after = none-Lacks (hour_of t) (in_order c.hour) e in
      let (top, hours) = first_hour h g in
      let (small, minutes) = first_minute m f in
      (
        omega arith,
        λ u low below. elim (Bool-cases (day_of u == day_of t)) [
          | inl today ↦ elim (Bool-cases (hour_of u == hour_of t)) [
            | inl same ↦
                let is : hour_of t ≡ hour_of u = ground (arith, same) in
                wrong_hour c u (subst (λ n. among n c.hour ≡ false) is out)
            | inr differs ↦ wrong_hour c u (
                sym (among-in_order (hour_of u) c.hour)
                ∙ after (hour_of u) (ground (arith, low, differs, today)))
          ]
          | inr tomorrow ↦ elim (Bool-cases (ltb (hour_of u) h)) [
            | inl before ↦
                wrong_hour c u
                  (lacks c.hour 0 h (hour_of u) hours (omega arith) (ground (arith, before)))
            | inr reached ↦ wrong_minute c u (
                lacks c.minute 0 m (minute_of u) minutes (omega arith)
                  (ground (arith, low, below, reached, tomorrow, top, small)))
          ]
        ],
      )

  later_minute-IsSound :
      (t m : ℕ)
      → among (minute_of t) c.minute ≡ false
      → first (keep_if (λ x. ltb (minute_of t) x) (in_order c.minute)) ≡ some m
      → IsSound c t (goes_to (at_clock t (hour_of t) m))
  later_minute-IsSound t m out e =
      let (over, there, gap) =
        above-Lacks (minute_of t) (in_order c.minute) m (in_order-IsAscending c.minute) e in
      let top = p.minutes m (sym (among-in_order m c.minute) ∙ there) in
      (
        omega (arith, over),
        λ u low below. elim (Bool-cases (minute_of u == minute_of t)) [
          | inl same ↦
              let is : minute_of t ≡ minute_of u = ground (arith, same) in
              wrong_minute c u (subst (λ n. among n c.minute ≡ false) is out)
          | inr differs ↦ wrong_minute c u (
              lacks c.minute (suc (minute_of t)) m (minute_of u) gap
                (ground (arith, low, below, differs, top)) (ground (arith, low, below, top)))
        ],
      )

  next_hour-IsSound :
      (t m : ℕ)
      → among (minute_of t) c.minute ≡ false
      → first (keep_if (λ x. ltb (minute_of t) x) (in_order c.minute)) ≡ none
      → first (in_order c.minute) ≡ some m
      → IsSound c t (goes_to (at_clock t (hour_of t) m + 60))
  next_hour-IsSound t m out e f =
      let after = none-Lacks (minute_of t) (in_order c.minute) e in
      let (small, minutes) = first_minute m f in
      (
        omega arith,
        λ u low below. elim (Bool-cases (u / 60 == t / 60)) [
          | inl same_hour ↦ elim (Bool-cases (minute_of u == minute_of t)) [
            | inl same ↦
                let is : minute_of t ≡ minute_of u = ground (arith, same) in
                wrong_minute c u (subst (λ n. among n c.minute ≡ false) is out)
            | inr differs ↦ wrong_minute c u (
                sym (among-in_order (minute_of u) c.minute)
                ∙ after (minute_of u) (ground (arith, low, differs, same_hour)))
          ]
          | inr later ↦ wrong_minute c u (
              lacks c.minute 0 m (minute_of u) minutes (omega arith)
                (ground (arith, low, below, later, small)))
        ],
      )

  hour_turn-IsSound :
      (t : ℕ) (o : Option ℕ)
      → among (hour_of t) c.hour ≡ false
      → first (keep_if (λ x. ltb (hour_of t) x) (in_order c.hour)) ≡ o
      → IsSound c t (hour_turn c t o)
  unfolding hour_turn hop
  hour_turn-IsSound t (some h) out e =
      let (m, f) = p.some_minute in rw (hour_turn, f) (later_hour-IsSound t h m out e f)
  hour_turn-IsSound t none out e =
      let (m, f) = p.some_minute in
      let (h, g) = p.some_hour in rw (hour_turn, g, f) (next_day-IsSound t h m out e g f)

  minute_turn-IsSound :
      (t : ℕ) (o : Option ℕ)
      → among (minute_of t) c.minute ≡ false
      → first (keep_if (λ x. ltb (minute_of t) x) (in_order c.minute)) ≡ o
      → IsSound c t (minute_turn c t o)
  unfolding minute_turn hop
  minute_turn-IsSound t (some m) out e = later_minute-IsSound t m out e
  minute_turn-IsSound t none out e =
      let (m, f) = p.some_minute in rw (minute_turn, f) (next_hour-IsSound t m out e f)

  found-IsSound :
      (t : ℕ)
      → among (date_of (day_of t)).month c.month ≡ true
      → day_matches c (day_of t) ≡ true
      → among (hour_of t) c.hour ≡ true
      → among (minute_of t) c.minute ≡ true
      → matches c t ≡ true
  unfolding matches
  found-IsSound t month day hour minute = rw (minute, hour, month) day

  pub turn-IsSound : (t : ℕ) → IsSound c t (turn c t)
  unfolding turn
  turn-IsSound t = elim (Bool-cases (among (date_of (day_of t)).month c.month)) [
    | inr month ↦ rw (month) (month-IsSound c t month)
    | inl month ↦ elim (Bool-cases (day_matches c (day_of t))) [
      | inr day ↦ rw (month, day) (day-IsSound c t day)
      | inl day ↦ elim (Bool-cases (among (hour_of t) c.hour)) [
        | inr hour ↦ rw (month, day, hour) (hour_turn-IsSound t _ hour refl)
        | inl hour ↦ elim (Bool-cases (among (minute_of t) c.minute)) [
          | inr minute ↦ rw (month, day, hour, minute) (minute_turn-IsSound t _ minute refl)
          | inl minute ↦ rw (month, day, hour, minute) (found-IsSound t month day hour minute)
        ]
      ]
    ]
  ]
