-- ===== src/RateLimit/Level.antt =====
-- A key's level is all that the limiter remembers of it: an absent bucket is a full one, so neither
-- eviction nor the calls of other keys change what a key may do.
use istos.Prelude.{
  ℕ, ◌-◌, ◌*◌, ◌≤◌, ◌≡◌, refl, inl, inr, true, Option, none, some, String, arith, keep_if, text_key,
  Option-cases,
}
use istos.Dict
use istos.Dict.{Dict, get-set, get-remove_all, contains, contains-keep_if, contains-keys}
use istos.RateLimit.{Limits, Bucket, Buckets, is_stale, evict, level_of}

-- What a call of the key would find at a time.
abbrev pub level : Limits → String → ℕ → Buckets → ℕ
level l key now bs = level_of l now (Dict.get bs key)

pub grows : (r a b c : ℕ) → a ≤ b → (a - c) * r ≤ (b - c) * r
grows r a b c h = grind arith

stale-full :
    (l : Limits) (now later : ℕ) (o : Option Bucket)
    → now ≤ later
    → is_stale l now o ≡ true
    → level_of l later o ≡ l.burst
unfolding is_stale level_of
stale-full l now later none le h = refl
stale-full l now later (some b) le h = ground (arith, grows l.refill now later b.last le)

-- Eviction changes no key's level, then or later.
pub level-evict :
    (l : Limits) (now later : ℕ) (key : String) (bs : Buckets)
    → now ≤ later
    → level l key later (evict l now bs) ≡ level l key later bs
unfolding evict level_of
level-evict l now later key bs le =
    let stale = λ (k : String). is_stale l now (Dict.get bs k) in
    elim (Option-cases (Dict.get bs key)) [
      | inl e ↦ ground (arith, get-remove_all (keep_if stale (Dict.keys bs)) bs key, e)
      | inr (b, e) ↦ ground (
        arith,
        get-remove_all (keep_if stale (Dict.keys bs)) bs key,
        contains-keep_if stale (Dict.keys bs) key,
        contains-keys bs key,
        stale-full l now later (Dict.get bs key) le,
        e,
      )
    ]
