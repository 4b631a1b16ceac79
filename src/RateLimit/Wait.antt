-- ===== src/RateLimit/Wait.antt =====
-- How good the wait is that a refusal of src/istos/middleware/ratelimit.py names.
use istos.Prelude.{
  Bool-cases, ◌||◌, ◌&&◌, inl, inr, ℕ, suc, ◌+◌, ◌-◌, ◌*◌, ◌/◌, ◌%◌, ◌≤◌, ◌<◌, ◌≡◌, ◌≢◌, sym,
  String, arith, text_key, number_key, ◌==◌, ltb,
}
use istos.RateLimit.{Limits, Buckets, level_of, admitted, limited, call, round_half, retry_after}
use istos.RateLimit.Level.{level}
use istos.RateLimit.Window.{Calls, after, Between, Others, call-verdict, call-left, level-Others}

div-mod : (a b : ℕ) → 0 < b → (a ≡ a / b * b + a % b) × (a % b < b)
div-mod a b pos = grind arith

suc_times : (k b : ℕ) → suc k * b ≡ k * b + b
suc_times k b = grind arith

-- Rounding misses by half at most.
round_half-near :
    (a b : ℕ)
    → 0 < b
    → (2 * a ≤ 2 * (round_half a b * b) + b) × (2 * (round_half a b * b) ≤ 2 * a + b)
unfolding round_half
round_half-near a b pos =
    let k = a / b in
    let r = a % b in
    let d = div-mod a b pos in
    elim (Bool-cases (ltb (2 * r) b || 2 * r == b && k % 2 == 0)) [
      | inl down ↦ rw (down) (ground (arith, d, down))
      | inr up ↦ rw (up) (ground (arith, d, up, suc_times k b))
    ]

-- What a refused key lacks, and how it fares after a wait without calls of its own.
refused-level :
    (l : Limits) (key : String) (now later m : ℕ) (cs : Calls) (bs : Buckets)
    → l.cost ≤ l.burst
    → (call l key now bs).1 ≡ limited m
    → Between now later cs
    → Others key cs
    → let x = level l key now bs in
      (x < l.cost)
      × (m ≡ retry_after l x)
      × (l.cost ≤ x + (later - now) * l.refill
          → (call l key later (after l cs (call l key now bs).0)).1 ≡ admitted)
      × (x + (later - now) * l.refill < l.cost
          → (call l key later (after l cs (call l key now bs).0)).1 ≢ admitted)
unfolding level_of
refused-level l key now later m cs bs fits refused within other =
    let out = (call l key now bs).0 in
    let v = call-verdict l key now bs in
    let w = call-verdict l key later (after l cs out) in
    let k = level-Others l key now later cs out within other in
    let left = call-left l key now bs in
    (
      ground (arith, v, refused),
      ground (arith, v, refused),
      λ enough. ground (arith, v, w, k, left, enough, refused),
      λ few h. ground (arith, v, w, k, left, few, refused, h),
    )

times_le : (a b c : ℕ) → a ≤ b → a * c ≤ b * c
times_le a b c h = grind arith

times_lt : (a b c : ℕ) → 0 < c → a < b → a * c < b * c
times_lt a b c pos h = grind arith

product-pos : (a b : ℕ) → 0 < a → 0 < b → 0 < a * b
product-pos a b p q = grind arith

enough :
    (c x r s q wait : ℕ)
    → 2 * ((c - x) * 1000) ≤ 2 * (q * (r * s)) + r * s
    → (2 * q + 1) * s ≤ 2000 * wait
    → c ≤ x + wait * r
enough c x r s q wait near waits =
    let scaled : ((2 * q + 1) * s) * r ≤ (2000 * wait) * r =
      times_le ((2 * q + 1) * s) (2000 * wait) r waits in
    let same : ((2 * q + 1) * s) * r ≡ 2 * (q * (r * s)) + r * s = grind arith in
    let total : (2000 * wait) * r ≡ 2000 * (wait * r) = grind arith in
    omega (arith, near, scaled, same, total)

too_few :
    (c x r s q wait : ℕ)
    → 0 < r
    → x < c
    → 2 * (q * (r * s)) ≤ 2 * ((c - x) * 1000) + r * s
    → 2000 * wait + s < (2 * q) * s
    → x + wait * r < c
too_few c x r s q wait pos lacks near waits =
    let scaled : (2000 * wait + s) * r < ((2 * q) * s) * r =
      times_lt (2000 * wait + s) ((2 * q) * s) r pos waits in
    let same : ((2 * q) * s) * r ≡ 2 * (q * (r * s)) = grind arith in
    let total : (2000 * wait + s) * r ≡ 2000 * (wait * r) + r * s = grind arith in
    omega (arith, near, scaled, same, total, lacks)

-- The wait that a refusal names is right up to half a thousandth of a second. If a key was refused and
-- told to come back in `m` thousandths, and the burst is a token at least, then at its next call it
-- is let through if it has waited half a thousandth longer than that, and not let through if it has
-- waited more than half a thousandth less, whatever other keys do in between.
pub refused_waits :
    (l : Limits) (key : String) (now later m : ℕ) (cs : Calls) (bs : Buckets)
    → l.cost ≤ l.burst
    → 0 < l.refill
    → 0 < l.second
    → (call l key now bs).1 ≡ limited m
    → Between now later cs
    → Others key cs
    → let next = (call l key later (after l cs (call l key now bs).0)).1 in
      ((2 * m + 1) * l.second ≤ 2000 * (later - now) → next ≡ admitted)
      × (2000 * (later - now) + l.second < (2 * m) * l.second → next ≢ admitted)
unfolding retry_after
refused_waits l key now later m cs bs fits fills ticks refused within other =
    let x = level l key now bs in
    let (lacks, named, passes, fails) =
      refused-level l key now later m cs bs fits refused within other in
    let near =
      round_half-near ((l.cost - x) * 1000) (l.refill * l.second)
        (product-pos l.refill l.second fills ticks) in
    let near' = rw (sym named) at near in
    (
      λ waits. passes (enough l.cost x l.refill l.second m (later - now) near'.0 waits),
      λ early. fails (too_few l.cost x l.refill l.second m (later - now) fills lacks near'.1 early),
    )
