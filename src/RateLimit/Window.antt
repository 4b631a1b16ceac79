-- ===== src/RateLimit/Window.antt =====
-- What the limiter admits over a schedule of calls by many keys, on a clock that does not go back.
use istos.Prelude.{
  ℕ, ◌+◌, ◌-◌, ◌*◌, ◌≤◌, ◌≡◌, refl, inl, inr, false, some, List, [], ◌∷◌, String, ltb,
  if◌then◌else◌, arith, text_key, ◌==◌, Bool-cases, Option-cases,
}
use istos.Dict
use istos.Dict.{Dict, get-set}
use istos.RateLimit.{
  Limits, Bucket, Buckets, evict, level_of, Verdict, admitted, limited, charge, call, retry_after,
}
use istos.RateLimit.Level.{level, grows, level-evict}

-- The calls of a schedule in their order: the key and the time of each.
abbrev pub Calls : Type 0
Calls = List (String × ℕ)

unfoldable pub after : Limits → Calls → Buckets → Buckets
after l [] bs = bs
after l (c ∷ cs) bs = after l cs (call l c.0 c.1 bs).0

unfoldable pub passes : Verdict → ℕ
passes admitted = 1
passes (limited m) = 0

unfoldable pub admissions : Limits → String → Calls → Buckets → ℕ
unfolding passes
admissions l key [] bs = 0
admissions l key (c ∷ cs) bs =
    let out = call l c.0 c.1 bs in
    let rest = admissions l key cs out.0 in if c.0 == key then passes out.1 + rest else rest

-- The calls come between two times, none before the one ahead of it.
unfoldable pub Between : ℕ → ℕ → Calls → Type 0
Between from to [] = from ≤ to
Between from to (c ∷ cs) = (from ≤ c.1) × Between c.1 to cs

unfoldable pub Others : String → Calls → Type 0
Others key [] = Unit
Others key (c ∷ cs) = ((c.0 == key) ≡ false) × Others key cs

abbrev pub verdict_of : Limits → ℕ → Verdict
verdict_of l tokens = if ltb tokens l.cost then limited (retry_after l tokens) else admitted

pub call-verdict :
    (l : Limits) (key : String) (now : ℕ) (bs : Buckets)
    → (call l key now bs).1 ≡ verdict_of l (level l key now bs)
unfolding call charge
call-verdict l key now bs = ground (arith, level-evict l now now key bs (omega arith))

-- What the caller's bucket keeps, and what the other keys find.
charge-get :
    (l : Limits) (k : String) (now x : ℕ) (bs : Buckets) (key : String)
    → Dict.get (charge l k now x bs).0 key ≡ (
        if k == key
        then some (record { tokens = if ltb x l.cost then x else x - l.cost; last = now })
        else Dict.get bs key)
unfolding charge
charge-get l k now x bs key = elim (Bool-cases (ltb x l.cost)) [
  | inl e ↦ rw (e) (get-set bs k key (record { tokens = x; last = now }))
  | inr e ↦ rw (e) (get-set bs k key (record { tokens = x - l.cost; last = now }))
]

pub call-left :
    (l : Limits) (key : String) (now : ℕ) (bs : Buckets)
    → let x = level l key now bs in
      Dict.get (call l key now bs).0 key
      ≡ some (record { tokens = if ltb x l.cost then x else x - l.cost; last = now })
unfolding call
call-left l key now bs =
    let kept = evict l now bs in
    ground (
      arith,
      level-evict l now now key bs (omega arith),
      charge-get l key now (level l key now kept) kept key,
      text_key.same_iff key key,
    )

call-other :
    (l : Limits) (key k : String) (now later : ℕ) (bs : Buckets)
    → now ≤ later
    → (k == key) ≡ false
    → level l key later (call l k now bs).0 ≡ level l key later bs
unfolding call
call-other l key k now later bs le other =
    let kept = evict l now bs in
    ground (
      arith,
      level-evict l now later key bs le,
      charge-get l k now (level l k now kept) kept key,
      other,
    )

sooner : (r a b : ℕ) (o : Bucket) → a ≤ b → (b - o.last) * r ≤ (a - o.last) * r + (b - a) * r
sooner r a b o le =
    let d : b - o.last ≤ (a - o.last) + (b - a) = omega arith in
    grind (arith, grows r (b - o.last) ((a - o.last) + (b - a)) 0)

-- A level rises no faster than the refill, and never above the burst.
level-rises :
    (l : Limits) (key : String) (now later : ℕ) (bs : Buckets)
    → now ≤ later
    → (level l key later bs ≤ level l key now bs + (later - now) * l.refill)
      × (level l key now bs ≤ l.burst)
unfolding level_of
level-rises l key now later bs le = elim (Option-cases (Dict.get bs key)) [
  | inl e ↦ ground (arith, e)
  | inr (b, e) ↦ ground (arith, e, sooner l.refill now later b le)
]

-- A call takes what it admits from its own key, and nothing from another one.
call-takes :
    (l : Limits) (key k : String) (now : ℕ) (bs : Buckets)
    → let out = call l k now bs in
      (if k == key then passes out.1 * l.cost else 0) + level l key now out.0 ≤ level l key now bs
unfolding passes level_of
call-takes l key k now bs = elim (Bool-cases (k == key)) [
  | inl same ↦
      let eq = text_key.same_iff k key in
      ground (arith, call-verdict l key now bs, call-left l key now bs, same, eq)
  | inr other ↦ ground (arith, call-other l key k now now bs (omega arith) other, other)
]

joins : (r a b c : ℕ) → a ≤ b → b ≤ c → (b - a) * r + (c - b) * r ≤ (c - a) * r
joins r a b c h k = grind arith

-- A call on its own: its cost and the level after it, against the level some time before.
call-spends :
    (l : Limits) (key k : String) (from now : ℕ) (bs : Buckets)
    → from ≤ now
    → let out = call l k now bs in
      (if k == key then passes out.1 * l.cost else 0) + level l key now out.0
      ≤ level l key from bs + (now - from) * l.refill
call-spends l key k from now bs le =
    omega (arith, call-takes l key k now bs, (level-rises l key from now bs le).0)

Between-le : (from to : ℕ) (cs : Calls) → Between from to cs → from ≤ to
unfolding Between
Between-le from to [] w = w
Between-le from to (c ∷ cs) w = omega (arith, Between-le c.1 to cs w.1, w.0)

times_sum : (a b c : ℕ) → (a + b) * c ≡ a * c + b * c
times_sum a b c = grind arith

spent :
    (l : Limits) (key : String) (from to : ℕ) (cs : Calls) (bs : Buckets)
    → Between from to cs
    → admissions l key cs bs * l.cost ≤ level l key from bs + (to - from) * l.refill
unfolding admissions Between
spent l key from to [] bs w = omega arith
spent l key from to (c ∷ cs) bs w =
    let out = call l c.0 c.1 bs in
    let rest = spent l key c.1 to cs out.0 w.1 in
    let first = call-spends l key c.0 from c.1 bs w.0 in
    let time = joins l.refill from c.1 to w.0 (Between-le c.1 to cs w.1) in
    ground (arith, rest, first, time, times_sum (passes out.1) (admissions l key cs out.0) l.cost)

-- From any state of the limiter and over any schedule of calls of any keys, what a key is admitted
-- costs no more than one burst and the refill of the time that passes.
pub admissions_bounded :
    (l : Limits) (key : String) (from to : ℕ) (cs : Calls) (bs : Buckets)
    → Between from to cs
    → admissions l key cs bs * l.cost ≤ l.burst + (to - from) * l.refill
admissions_bounded l key from to cs bs within =
    omega
      (arith, spent l key from to cs bs within, (level-rises l key from from bs (omega arith)).1)

pub level-Others :
    (l : Limits) (key : String) (from to : ℕ) (cs : Calls) (bs : Buckets)
    → Between from to cs
    → Others key cs
    → level l key to (after l cs bs) ≡ level l key to bs
unfolding after Between Others
level-Others l key from to [] bs w o = refl
level-Others l key from to (c ∷ cs) bs w o =
    let first = call-other l key c.0 c.1 to bs (Between-le c.1 to cs w.1) o.0 in
    let rest = level-Others l key c.1 to cs (call l c.0 c.1 bs).0 w.1 o.1 in cc
