-- ===== src/Retry/Examples.antt =====
-- A test of the retries (src/istos/retry.py), and their theorems at a function that fails twice.
use istos.Prelude.{ℕ, zero, suc, ◌≡◌, refl, none, ℤ, pos}
use istos.Json.{null, text}
use istos.Errors.{application, other, rate_limit, construct, new_error, is_retryable, by_status}
use istos.Retry.{
  RetryPolicy, Attempt, returned, raised, give_up, slept, wait_for, capped, attempts_from,
  execute_with_retry,
}
use istos.Role.Backoff.{factor}

abbrev policy : RetryPolicy
policy = record {
  max_retries = 4;
  delay = 500;
  growth = 2;
  scale = 1;
  max_delay = 60000;
  jitter = 100000;
  on_failure = none;
}

-- A transport fault, a rate limit, then the answer.
abbrev third_time : ℕ → Attempt ℕ
third_time zero = raised (other "timeout")
third_time (suc zero) = raised (application (construct rate_limit (text "slow down") null null))
third_time (suc (suc n)) = returned 7

abbrev no_draw : ℕ → ℤ
no_draw n = pos 0

three_calls : (execute_with_retry third_time no_draw policy).calls ≡ 3
unfolding execute_with_retry attempts_from give_up slept wait_for capped factor construct new_error
    is_retryable by_status
three_calls = refl

answered : (execute_with_retry third_time no_draw policy).outcome ≡ returned 7
unfolding execute_with_retry attempts_from give_up slept wait_for capped factor construct new_error
    is_retryable by_status
answered = refl
