-- ===== src/Role/Backoff.antt =====
-- The random factor of a delay: `delay *= 1.0 + random.uniform(-jitter, jitter)` in `_backoff` of
-- src/istos/queue/role.py and in src/istos/retry.py. The jitter is in millionths, and so is the factor,
-- so that it is exact; `draw` is what `random.uniform` gives.
use istos.Prelude.{ℕ, suc, ◌+◌, ◌-◌, ◌≤◌, arith, ℤ, pos, negsuc, pos_part, neg_part}

abbrev pub million : ℕ
million = 1000000

-- `1.0 + draw` in millionths, not below 0.
unfoldable pub factor : ℤ → ℕ
factor (pos n) = million + n
factor (negsuc n) = million - suc n

-- What `random.uniform(-j, j)` may give.
abbrev pub Drawn : ℕ → ℤ → Type 0
Drawn j draw = (pos_part draw ≤ j) × (neg_part draw ≤ j)

pub factor-le :
    (j : ℕ) (draw : ℤ) → Drawn j draw → (factor draw ≤ million + j) × (million ≤ factor draw + j)
unfolding factor
factor-le j (pos n) d = omega arith
factor-le j (negsuc n) d = omega arith
