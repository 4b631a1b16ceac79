-- ===== src/Cron/Proper.antt =====
-- The fields of a schedule that parses are within their ranges (src/istos/queue/cron.py).
use istos.Prelude.{
  >>=-eq-some, ℕ, zero, suc, ◌+◌, ◌-◌, ◌*◌, ◌/◌, ◌≤◌, ◌≡◌, refl, sym, ap, subst, ◌∙◌, inl, inr,
  true, false, ◌&&◌, ◌||◌, Option, none, some, List, [], ◌∷◌, ◌++◌, String, leb, if◌then◌else◌,
  number_key, text_key, ◌==◌, arith, Bool-cases, ℤ, pos, negsuc,
}
use mathlib.Core.Option.{some-injective}
use Prim.Native.Char.{code}
use istos.Cron.Field.{
  among, begin_part, parts_of, cut, progression, checked, parse_range, parse_base, parse_stepped,
  parse_parts, parse_field,
}
use istos.Cron.Next.{CronSchedule, in_order, first, parse}
use istos.Cron.Skips.{among-in_order}
use istos.Cron.Turns.{IsProper}

-- There is a value, and all are within the bounds.
abbrev pub IsField : ℕ → ℕ → List ℕ → Type 0
IsField lo hi values =
    ((x : ℕ) × (among x values ≡ true)) × ((w : ℕ) → among w values ≡ true → (lo ≤ w) × (w ≤ hi))

progression-bounds :
    (n start step last : ℕ)
    → start + step * n ≤ last
    → (w : ℕ) → among w (progression start step (suc n)) ≡ true
    → (start ≤ w) × (w ≤ last)
unfolding progression
progression-bounds zero start step last h w m = ground (arith, m)
progression-bounds (suc n) start step last h w m = elim (Bool-cases (start == w)) [
  | inl same ↦ ground (arith, same, h)
  | inr differs ↦
      let rest : (start + step ≤ w) × (w ≤ last) =
        progression-bounds n (start + step) step last (grind (arith, h)) w
          (ground (arith, m, differs)) in
      omega (arith, rest)
]

checked-IsField :
    (lo hi : ℕ) (step start last : ℤ) (values : List ℕ)
    → checked lo hi step start last ≡ some values
    → IsField lo hi values
unfolding checked
checked-IsField lo hi (negsuc s) start last values h = absurd (ground (arith, h))
checked-IsField lo hi (pos s) (negsuc a) last values h = absurd (ground (arith, h))
checked-IsField lo hi (pos s) (pos a) (negsuc b) values h = absurd (ground (arith, h))
checked-IsField lo hi (pos s) (pos a) (pos b) values h =
    elim (Bool-cases (leb 1 s && leb lo a && leb b hi && leb a b)) [
      | inl fine ↦
          let same : progression a s (suc ((b - a) / s)) ≡ values = ground (arith, h, fine) in
          subst (IsField lo hi) same (
            (a, unfold progression in ground arith),
            λ w m.
                let (low, top) = progression-bounds ((b - a) / s) a s b (grind (arith, fine)) w m in
                (ground (arith, low, fine), ground (arith, top, fine)),
          )
      | inr bad ↦ absurd (ground (arith, h, bad))
    ]

among-append : (w : ℕ) (xs ys : List ℕ) → among w (xs ++ ys) ≡ (among w xs || among w ys)
among-append w [] ys = refl
among-append w (x ∷ xs) ys = rw (among-append w xs ys) (ground arith)

append-IsField :
    (lo hi : ℕ) (xs ys : List ℕ)
    → IsField lo hi xs
    → ((w : ℕ) → among w ys ≡ true → (lo ≤ w) × (w ≤ hi))
    → IsField lo hi (xs ++ ys)
append-IsField lo hi xs ys ((x, there), small) others = (
  (x, rw (among-append x xs ys, there) refl),
  λ w m. elim (Bool-cases (among w xs)) [
    | inl left ↦ small w left
    | inr right ↦ others w (ground (arith, m, right, among-append w xs ys))
  ],
)

some_part :
    (text : String) → (part : String) × (parts : List String) × (parts_of text ≡ part ∷ parts)
unfolding parts_of begin_part
some_part String.[] = (String.[], [], refl)
some_part (String.◌∷◌ c s) = elim (Bool-cases (code c == b',')) [
  | inl comma ↦ (String.[], parts_of s, rw (comma) refl)
  | inr letter ↦
      let (part, parts, e) = some_part s in (String.◌∷◌ c part, parts, rw (letter, e) refl)
]

module _ (int_of : String → Option ℤ) (lo hi : ℕ) where
  range-IsField :
      (step : ℤ) (o : Option (String × String)) (base : String) {values : List ℕ}
      → parse_range int_of lo hi step o base ≡ some values
      → IsField lo hi values
  unfolding parse_range
  range-IsField step none base h =
      let (value, e, rest) = >>=-eq-some (int_of base) _ h in
      checked-IsField lo hi step value value _ rest
  range-IsField step (some (a, b)) base h =
      let (start, e, more) = >>=-eq-some (int_of a) _ h in
      let (last, f, rest) = >>=-eq-some (int_of b) _ more in
      checked-IsField lo hi step start last _ rest

  base-IsField :
      (step : ℤ) (base : String) {values : List ℕ}
      → parse_base int_of lo hi step base ≡ some values
      → IsField lo hi values
  unfolding parse_base
  base-IsField step base {values} h = elim (Bool-cases (base == "*")) [
    | inl star ↦ checked-IsField lo hi step (pos lo) (pos hi) _ (
        subst
          (λ b.
            (if b
              then checked lo hi step (pos lo) (pos hi)
              else parse_range int_of lo hi step (cut b'-' base) base)
            ≡ some values)
          star h)
    | inr other ↦ range-IsField step (cut b'-' base) base (
        subst
          (λ b.
            (if b
              then checked lo hi step (pos lo) (pos hi)
              else parse_range int_of lo hi step (cut b'-' base) base)
            ≡ some values)
          other h)
  ]

  stepped-IsField :
      (o : Option (String × String)) (part : String) {values : List ℕ}
      → parse_stepped int_of lo hi o part ≡ some values
      → IsField lo hi values
  unfolding parse_stepped
  stepped-IsField none part h = base-IsField (pos 1) part h
  stepped-IsField (some (base, s)) part h =
      let (step, e, rest) = >>=-eq-some (int_of s) _ h in base-IsField step base rest

  parts-bounds :
      (parts : List String) {values : List ℕ}
      → parse_parts int_of lo hi parts ≡ some values
      → (w : ℕ) → among w values ≡ true
      → (lo ≤ w) × (w ≤ hi)
  unfolding parse_parts
  parts-bounds [] {values} h w m =
      let none_there : [] ≡ values = cc in
      let there : false ≡ true = ap (among w) none_there ∙ m in absurd (ground (arith, there))
  parts-bounds (part ∷ parts) {values} h w m =
      let (xs, e, more) = >>=-eq-some (parse_stepped int_of lo hi (cut b'/' part) part) _ h in
      let (ys, f, rest) = >>=-eq-some (parse_parts int_of lo hi parts) _ more in
      let same : xs ++ ys ≡ values = cc in
      (append-IsField lo hi xs ys (stepped-IsField (cut b'/' part) part e)
          (λ v there. parts-bounds parts f v there)).1
        w (subst (λ l. among w l ≡ true) (sym same) m)

  parts-IsField :
      (part : String) (parts : List String) {values : List ℕ}
      → parse_parts int_of lo hi (part ∷ parts) ≡ some values
      → IsField lo hi values
  unfolding parse_parts
  parts-IsField part parts {values} h =
      let (xs, e, more) = >>=-eq-some (parse_stepped int_of lo hi (cut b'/' part) part) _ h in
      let (ys, f, rest) = >>=-eq-some (parse_parts int_of lo hi parts) _ more in
      let same : xs ++ ys ≡ values = cc in
      subst (IsField lo hi) same
        (append-IsField lo hi xs ys (stepped-IsField (cut b'/' part) part e) (parts-bounds parts f))

  pub parse_field-IsField :
      (text : String) {values : List ℕ}
      → parse_field int_of text lo hi ≡ some values
      → IsField lo hi values
  unfolding parse_field
  parse_field-IsField text {values} h =
      let (part, parts, e) = some_part text in
      parts-IsField part parts (subst (λ l. parse_parts int_of lo hi l ≡ some values) e h)

sorted-first : (l : List ℕ) (x : ℕ) → among x l ≡ true → (m : ℕ) × (first (in_order l) ≡ some m)
unfolding first
sorted-first l x h = some_first (in_order l) (among-in_order x l ∙ h)
  where
    some_first : (k : List ℕ) → among x k ≡ true → (m : ℕ) × (first k ≡ some m)
    some_first [] there = absurd (ground (arith, there))
    some_first (y ∷ ys) there = (y, refl)

pub parse-IsProper :
    (int_of : String → Option ℤ) (fields : List String) {c : CronSchedule}
    → parse int_of fields ≡ some c
    → IsProper c
unfolding parse
parse-IsProper int_of (a ∷ b ∷ d ∷ e ∷ f ∷ []) {c} h =
    let (minute, is_minute, h1) = >>=-eq-some (parse_field int_of a 0 59) _ h in
    let (hour, is_hour, h2) = >>=-eq-some (parse_field int_of b 0 23) _ h1 in
    let (dom, is_dom, h3) = >>=-eq-some (parse_field int_of d 1 31) _ h2 in
    let (month, is_month, h4) = >>=-eq-some (parse_field int_of e 1 12) _ h3 in
    let (dow, is_dow, h5) = >>=-eq-some (parse_field int_of f 0 7) _ h4 in
    let ((m, m_there), minutes) = parse_field-IsField int_of 0 59 a is_minute in
    let ((x, x_there), hours) = parse_field-IsField int_of 0 23 b is_hour in
    subst IsProper (some-injective _ _ h5) (record {
      minutes = λ w there. omega (arith, minutes w there);
      hours = λ w there. omega (arith, hours w there);
      some_minute = sorted-first minute m m_there;
      some_hour = sorted-first hour x x_there;
    })
parse-IsProper int_of [] h = absurd (ground (arith, h))
parse-IsProper int_of (a ∷ []) h = absurd (ground (arith, h))
parse-IsProper int_of (a ∷ b ∷ []) h = absurd (ground (arith, h))
parse-IsProper int_of (a ∷ b ∷ d ∷ []) h = absurd (ground (arith, h))
parse-IsProper int_of (a ∷ b ∷ d ∷ e ∷ []) h = absurd (ground (arith, h))
parse-IsProper int_of (a ∷ b ∷ d ∷ e ∷ f ∷ g ∷ l) h = absurd (ground (arith, h))
