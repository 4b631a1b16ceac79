-- ===== src/Retry.antt =====
-- `execute_with_retry` of src/istos/retry.py. What the function does at each call is the parameter
-- `func`, by the number of the attempt, and `draw` what `random.uniform` gives then. Durations are
-- in clock ticks, the jitter in millionths; a wait is an exact fraction.
pub mod Calls
mod Examples
use istos.Prelude.{
  ℕ, zero, suc, ◌+◌, ◌-◌, ◌*◌, ◌^◌, ◌≤◌, ◌≡◌, Bool, true, false, ◌&&◌, not, Option, none, some,
  List, [], ◌∷◌, ltb, leb, if◌then◌else◌, number_key, ◌==◌, ℤ, pos, negsuc,
}
use istos.Errors.{Failure, is_retryable}
use istos.Role.Backoff.{million, factor}

-- `backoff_factor` is `growth / scale`. `on_failure` may itself raise.
pub record RetryPolicy : Type 0 where
  pub max_retries : ℕ
  pub delay : ℕ
  pub growth : ℕ
  pub scale : ℕ
  pub max_delay : ℕ
  pub jitter : ℕ
  pub on_failure : Option (Failure → Option Failure)

pub data Attempt {ℓ} (V : Type ℓ) : Type ℓ where
  returned : V → Attempt V
  raised : Failure → Attempt V

-- `part / whole` ticks.
pub record Wait : Type 0 where
  pub part : ℕ
  pub whole : ℕ

-- `delay * backoff_factor ** attempt`, at most `max_delay` if that is set.
unfoldable pub capped : RetryPolicy → ℕ → Wait
capped p attempt =
    let part = p.delay * p.growth ^ attempt in
    let whole = p.scale ^ attempt in
    if ltb 0 p.max_delay && ltb (p.max_delay * whole) part
    then record { part = p.max_delay; whole = 1 }
    else record { part = part; whole = whole }

unfoldable pub wait_for : RetryPolicy → ℕ → ℤ → Wait
unfolding capped factor
wait_for p attempt draw =
    let w = capped p attempt in
    if p.jitter == 0 then w else record { part = w.part * factor draw; whole = w.whole * million }

-- How a run ends, how often it called the function, how long it slept, and what the hook was given.
pub record Execution {ℓ} (V : Type ℓ) : Type ℓ where
  pub outcome : Attempt V
  pub calls : ℕ
  pub waits : List Wait
  pub hooked : Option Failure

unfoldable pub give_up {ℓ} : {V : Type ℓ} → RetryPolicy → Failure → Execution V
give_up p e = elim (p.on_failure) [
  | none ↦ record { outcome = raised e; calls = 1; waits = []; hooked = none }
  | some hook ↦ record {
    outcome = elim (hook e) [ none ↦ raised e | some f ↦ raised f ];
    calls = 1;
    waits = [];
    hooked = some e;
  }
]

unfoldable pub slept {ℓ} : {V : Type ℓ} → Wait → Execution V → Execution V
slept w x = record x { calls = suc x.calls; waits = w ∷ x.waits }

module _ {ℓ} {V : Type ℓ} (func : ℕ → Attempt V) (draw : ℕ → ℤ) (p : RetryPolicy) where
  -- The loop from an attempt on, with the retries that are left.
  unfoldable pub attempts_from : ℕ → ℕ → Execution V
  unfolding give_up slept
  attempts_from attempt zero = elim (func attempt) [
    | returned v ↦ record { outcome = returned v; calls = 1; waits = []; hooked = none }
    | raised e ↦ give_up p e
  ]
  attempts_from attempt (suc left) =
      let rest = attempts_from (suc attempt) left in
      elim (func attempt) [
        | returned v ↦ record { outcome = returned v; calls = 1; waits = []; hooked = none }
        | raised e ↦
            if is_retryable e then slept (wait_for p attempt (draw attempt)) rest else give_up p e
      ]

  unfoldable pub execute_with_retry : Execution V
  unfolding attempts_from
  execute_with_retry = attempts_from 0 p.max_retries
