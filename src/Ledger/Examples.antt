-- ===== src/Ledger/Examples.antt =====
-- A duplicate of a call while it runs and after it (src/istos/primitives/handler.py), and the theorems
-- of exactly-once execution at schedules of three calls.
use istos.Prelude.{ℕ, ◌+◌, ◌≤◌, ◌≡◌, refl, some, List, [], ◌∷◌, text_key, arith, length}
use istos.Dict
use istos.Ledger.{
  done, check_processed, in_flight, finished, claim_found, claim_processed, put, log,
  mark_processed,
}
use istos.Ledger.Calls.{
  World, Step, begins, returns, fails, more, fewer, with_result, begun, begin, record_outcome, step,
  run,
}
use istos.Ledger.Final.{first_result_wins}
use istos.Ledger.Once.{Punctual, AllPunctual, exactly_once}

abbrev start : World ℕ
start = record {
  storage = record { store = Dict.empty; event_log = Dict.empty; processed = Dict.empty };
  running = λ k. 0;
  completed = λ k. [];
}

-- The second call comes while the first is on.
abbrev calls : List (Step ℕ)
calls = begins "pay" 0 0 300 ∷ begins "pay" 10 10 300 ∷ returns "pay" 7 "prefix" 1 20 ∷ []

conflict : (begin "pay" 10 10 300 (step start (begins "pay" 0 0 300))).1 ≡ in_flight
unfolding step begin begun claim_processed claim_found more Dict.get Dict.set Dict.empty
conflict = refl

replayed : (begin "pay" 30 30 300 (run start calls)).1 ≡ finished 7
unfolding run step begin begun claim_processed claim_found record_outcome put log mark_processed
    more fewer with_result Dict.get Dict.set Dict.empty
replayed = refl

exactly_once_example :
    ((run start calls).running "pay" + length ((run start calls).completed "pay") ≤ 1)
    × ((v : ℕ)
        → (begin "pay" 30 30 300 (run start calls)).1 ≡ finished v
        → (run start calls).completed "pay" ≡ v ∷ [])
exactly_once_example =
    exactly_once calls start "pay" 30 30 300 (λ k. Dict.get-empty k) (λ k. refl) (λ k. refl)
      punctual
  where
    punctual : AllPunctual start calls
    punctual =
        unfold AllPunctual Punctual step begin begun claim_processed claim_found more Dict.get
          Dict.set Dict.empty in
        (λ t e le. refl, (λ t e le. absurd (ground (arith, e, le)), (tt, tt)))

-- The ledger once the call has returned, and a late failure of another execution of the key.
abbrev paid : World ℕ
paid = record {
  storage = record {
    store = Dict.empty;
    event_log = Dict.empty;
    processed = Dict.set Dict.empty "pay" (done 7);
  };
  running = λ k. 1;
  completed = λ k. [];
}

paid_done : Dict.get paid.storage.processed "pay" ≡ some (done 7)
unfolding Dict.get Dict.set Dict.empty
paid_done = refl

abbrev late : List (Step ℕ)
late = fails "pay" ∷ begins "pay" 500 500 300 ∷ returns "pay" 8 "prefix" 1 510 ∷ []

first_result_wins_example :
    (check_processed "pay" (run paid late).storage ≡ some 7)
    × ((begin "pay" 600 600 300 (run paid late)).1 ≡ finished 7)
first_result_wins_example = first_result_wins late paid "pay" 7 600 600 300 paid_done
