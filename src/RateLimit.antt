-- ===== src/RateLimit.antt =====
-- The token buckets of src/istos/middleware/ratelimit.py. A bucket is measured in grains: `cost`
-- grains are one token and `refill` grains come back in a clock tick, so `refill / cost` is the
-- source's `rate / per` and every level is exact. A second has `second` ticks; `refill`, `cost` and
-- `second` are above 0, as the constructor demands of `rate` and `per`. The clock is monotonic.
pub mod Level
pub mod Window
pub mod Wait
mod Examples
use istos.Prelude.{
  ℕ, ◌+◌, ◌-◌, ◌*◌, ◌≤◌, Bool, true, false, ◌&&◌, Option, none, some, List, [], ◌∷◌, String, min,
  ltb, leb, if◌then◌else◌, suc, ◌/◌, ◌%◌, ◌||◌, ◌==◌, number_key, keep_if, text_key, length,
}
use istos.Dict
use istos.Dict.{Dict}

pub record Limits : Type 0 where
  pub refill : ℕ
  pub cost : ℕ
  pub burst : ℕ
  pub idle : ℕ
  pub second : ℕ

pub record Bucket : Type 0 where
  pub tokens : ℕ
  pub last : ℕ

abbrev pub Buckets : Type 0
Buckets = Dict String Bucket

-- A bucket's tokens with what has come back since, not capped.
abbrev pub refilled : Limits → ℕ → Bucket → ℕ
refilled l now b = b.tokens + (now - b.last) * l.refill

unfoldable pub is_stale : Limits → ℕ → Option Bucket → Bool
is_stale l now none = false
is_stale l now (some b) = leb l.idle (now - b.last) && leb l.burst (refilled l now b)

-- `_evict`: from 1024 buckets on, those that would be full by now go.
unfoldable pub evict : Limits → ℕ → Buckets → Buckets
unfolding is_stale
evict l now bs =
    if ltb (length (Dict.items bs)) 1024
    then bs
    else Dict.remove_all (keep_if (λ k. is_stale l now (Dict.get bs k)) (Dict.keys bs)) bs

-- `self._buckets.get(key, (self.burst, now))`, refilled up to the burst.
unfoldable pub level_of : Limits → ℕ → Option Bucket → ℕ
level_of l now none = l.burst
level_of l now (some b) = min l.burst (refilled l now b)

-- `round` of a quotient: the nearest number, the even one of two.
unfoldable pub round_half : ℕ → ℕ → ℕ
round_half a b =
    if ltb (2 * (a % b)) b || 2 * (a % b) == b && a / b % 2 == 0 then a / b else suc (a / b)

-- `round((1.0 - tokens) * (self.per / self.rate), 3)`, in thousandths of a second.
unfoldable pub retry_after : Limits → ℕ → ℕ
unfolding round_half
retry_after l tokens = round_half ((l.cost - tokens) * 1000) (l.refill * l.second)

-- The request goes on, or RateLimitError with its `retry_after`.
pub data Verdict : Type 0 where
  admitted : Verdict
  limited : ℕ → Verdict

unfoldable pub charge : Limits → String → ℕ → ℕ → Buckets → Buckets × Verdict
unfolding retry_after
charge l key now tokens bs =
    if ltb tokens l.cost
    then (Dict.set bs key (record { tokens = tokens; last = now }), limited (retry_after l tokens))
    else (Dict.set bs key (record { tokens = tokens - l.cost; last = now }), admitted)

-- `__call__`, up to the call of the handler.
unfoldable pub call : Limits → String → ℕ → Buckets → Buckets × Verdict
unfolding charge
call l key now bs =
    let kept = evict l now bs in charge l key now (level_of l now (Dict.get kept key)) kept
