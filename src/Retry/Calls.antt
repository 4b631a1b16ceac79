-- ===== src/Retry/Calls.antt =====
-- How often a retried function is called, and what the caller gets.
use istos.Prelude.{
  ℕ, suc, ◌+◌, ◌-◌, ◌*◌, ◌≤◌, ◌<◌, ◌≡◌, refl, ◌⊎◌, inl, inr, Bool, true, false, Option, none, some,
  [], arith, number_key, ◌==◌, ℤ, length, Bool-cases, subst,
}
use istos.Errors.{Failure, is_retryable}
use istos.Retry.{
  RetryPolicy, Attempt, returned, raised, capped, wait_for, Execution, give_up, slept,
  attempts_from,
}
use istos.Role.Backoff.{million, factor, Drawn, factor-le}

-- The attempt calls for another one.
unfoldable pub asks_again {ℓ} : {V : Type ℓ} → Attempt V → Bool
asks_again (returned v) = false
asks_again (raised e) = is_retryable e

-- What the caller gets of the last attempt: its value, or its exception once the hook has had it.
unfoldable pub final {ℓ} : {V : Type ℓ} → RetryPolicy → Attempt V → Execution V
unfolding give_up
final p (returned v) = record { outcome = returned v; calls = 1; waits = []; hooked = none }
final p (raised e) = give_up p e

-- What the caller gets of the last attempt, and what the hook has had: a value is passed on and the
-- hook has nothing; an exception is raised if there is no hook, and else the hook has it and it is
-- raised after that, unless the hook raises another one.
abbrev pub Result {ℓ} : {V : Type ℓ} → RetryPolicy → Attempt V → Attempt V → Option Failure → Type ℓ
Result p (returned v) outcome hooked = (outcome ≡ returned v) × (hooked ≡ none)
Result p (raised e) outcome hooked =
    (p.on_failure ≡ none → (outcome ≡ raised e) × (hooked ≡ none))
    × ((hook : Failure → Option Failure)
        → p.on_failure ≡ some hook
        → (hooked ≡ some e)
          × (hook e ≡ none → outcome ≡ raised e)
          × ((f : Failure) → hook e ≡ some f → outcome ≡ raised f))

module _ {ℓ} {V : Type ℓ} (func : ℕ → Attempt V) (draw : ℕ → ℤ) (p : RetryPolicy) where
  -- A run from one attempt on that ends with another.
  pub record EndsWith (first left last : ℕ) : Type ℓ where
    pub order : (first ≤ last) × (last ≤ first + left)
    pub before : (i : ℕ) → first ≤ i → i < last → asks_again (func i) ≡ true
    pub stops : (asks_again (func last) ≡ false) ⊎ (last ≡ first + left)
    pub calls : (attempts_from func draw p first left).calls ≡ suc (last - first)
    pub slept_between : length (attempts_from func draw p first left).waits ≡ last - first
    pub outcome : (attempts_from func draw p first left).outcome ≡ (final p (func last)).outcome
    pub hooked : (attempts_from func draw p first left).hooked ≡ (final p (func last)).hooked

  again :
      (first left : ℕ) (o : Attempt V)
      → func first ≡ o
      → asks_again o ≡ true
      → attempts_from func draw p first (suc left)
        ≡ slept (wait_for p first (draw first)) (attempts_from func draw p (suc first) left)
  unfolding attempts_from asks_again
  again first left (returned v) e h = absurd (ground (arith, h))
  again first left (raised f) e h = rw (attempts_from, e, h) refl

  goes_on :
      (first left last : ℕ)
      → asks_again (func first) ≡ true
      → EndsWith (suc first) left last
      → EndsWith first (suc left) last
  unfolding slept
  goes_on first left last asks x =
      let e = again first left (func first) refl asks in
      let o = x.order in
      record {
        order = (omega (arith, o.0), omega (arith, o.1));
        before = λ i ge lt. elim (first-or first i ge) [
          | inl here ↦ subst (λ (k : ℕ). asks_again (func k) ≡ true) here asks
          | inr more ↦ x.before i more lt
        ];
        stops = ground (arith, x.stops);
        calls = rw (e) (omega (arith, x.calls, o.0));
        slept_between = rw (e) (omega (arith, x.slept_between, o.0));
        outcome = rw (e) x.outcome;
        hooked = rw (e) x.hooked;
      }
    where
      first-or : (a i : ℕ) → a ≤ i → (a ≡ i) ⊎ (suc a ≤ i)
      first-or a i h = ground arith

times_le : (a b c : ℕ) → a ≤ b → a * c ≤ b * c
times_le a b c h = grind arith

capped-le :
    (p : RetryPolicy) (attempt : ℕ)
    → 0 < p.max_delay
    → (capped p attempt).part ≤ p.max_delay * (capped p attempt).whole
unfolding capped
capped-le p attempt set = ground arith

jittered_le : (a b f w m j : ℕ) → a ≤ b * w → f ≤ m + j → (a * f) * m ≤ (b * (m + j)) * (w * m)
jittered_le a b f w m j h k =
    let first : a * f ≤ (b * w) * (m + j) =
      grind (arith, times_le a (b * w) f h, times_le f (m + j) (b * w) k) in
    grind (arith, times_le (a * f) ((b * w) * (m + j)) m first)

plain_le : (a b w m j : ℕ) → a ≤ b * w → a * m ≤ (b * (m + j)) * w
plain_le a b w m j h = grind (arith, times_le a (b * w) m h)

-- A retry never sleeps longer than the maximum delay with the jitter on top, if a maximum is set.
wait_for-le :
    (p : RetryPolicy) (attempt : ℕ) (draw : ℤ)
    → 0 < p.max_delay
    → Drawn p.jitter draw
    → (wait_for p attempt draw).part * million
      ≤ (p.max_delay * (million + p.jitter)) * (wait_for p attempt draw).whole
unfolding wait_for
wait_for-le p attempt draw set drawn =
    let c = capped-le p attempt set in
    let f = (factor-le p.jitter draw drawn).0 in
    elim (Bool-cases (p.jitter == 0)) [
      | inl e ↦ ground (
        arith,
        e,
        plain_le (capped p attempt).part p.max_delay (capped p attempt).whole million p.jitter c,
      )
      | inr e ↦ ground (
        arith,
        e,
        jittered_le (capped p attempt).part p.max_delay (factor draw) (capped p attempt).whole
            million p.jitter c f,
      )
    ]
