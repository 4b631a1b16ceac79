-- ===== src/Ledger/Calls.antt =====
-- The calls of exactly-once handlers (`__call__`, `_claim`, `_release` and the end of `_invoke` in
-- src/istos/primitives/handler.py) on one ledger in memory. A call is in steps, between which other
-- calls run: it claims its key, and later its handler returns or fails.
use istos.Prelude.{ℕ, suc, ◌-◌, some, List, [], ◌∷◌, String, ltb, if◌then◌else◌, text_key, ◌==◌}
use istos.Ledger.{
  Claim, claimed, in_flight, finished, Storage, put, log, claim_processed, release_claim,
  mark_processed,
}

-- By key: the executions that are on, and the results of those that have returned, in any call.
pub record World (V : Type 0) : Type 0 where
  pub storage : Storage V
  pub running : String → ℕ
  pub completed : String → List V

-- `returns` has the result, and the metadata for the log under the handler's prefix.
pub data Step (V : Type 0) : Type 0 where
  begins : String → ℕ → ℕ → ℕ → Step V
  returns : String → V → String → V → ℕ → Step V
  fails : String → Step V

unfoldable pub more : String → (String → ℕ) → String → ℕ
more key n k = if key == k then suc (n k) else n k

unfoldable pub fewer : String → (String → ℕ) → String → ℕ
fewer key n k = if key == k then n k - 1 else n k

module _ {V : Type 0} where
  unfoldable pub with_result : String → V → (String → List V) → String → List V
  with_result key v c k = if key == k then v ∷ c k else c k

  -- The call goes on to the handler, raises ConflictError, or returns the cached result.
  unfoldable pub begun : String → World V → Storage V → Claim V → World V
  begun key w s claimed = record w { storage = s; running = more key w.running }
  begun key w s in_flight = record w { storage = s }
  begun key w s (finished v) = record w { storage = s }

  unfoldable pub begin : String → ℕ → ℕ → ℕ → World V → World V × Claim V
  unfolding begun
  begin key now again lease_s w =
      let (s, claim) = claim_processed key now again lease_s w.storage in
      (begun key w s claim, claim)

  unfoldable pub record_outcome : String → V → String → V → ℕ → Storage V → Storage V
  record_outcome key result prefix metadata now s =
      mark_processed key result (log prefix metadata (some key) now (put prefix metadata s))

  -- Only an execution that is on can return or fail.
  unfoldable pub step : World V → Step V → World V
  unfolding record_outcome
  step w (begins key now again lease_s) = (begin key now again lease_s w).0
  step w (returns key result prefix metadata now) =
      if ltb 0 (w.running key)
      then record {
        storage = record_outcome key result prefix metadata now w.storage;
        running = fewer key w.running;
        completed = with_result key result w.completed;
      }
      else w
  step w (fails key) =
      if ltb 0 (w.running key)
      then record w { storage = release_claim key w.storage; running = fewer key w.running }
      else w

  unfoldable pub run : World V → List (Step V) → World V
  run w [] = w
  run w (x ∷ xs) = run (step w x) xs
