-- ===== src/Ledger/Final.antt =====
-- A finished key stays finished, whatever is done to the ledger after it.
use istos.Prelude.{
  ℕ, ◌+◌, ◌≡◌, refl, false, Option, none, some, List, [], ◌∷◌, String, ltb, text_key, ◌==◌, arith,
  Bool-cases, inl, inr,
}
use istos.Dict
use istos.Dict.{get-set}
use istos.Ledger.{
  Record, claimed_until, done, Claim, claimed, in_flight, finished, Storage, is_done, claim_found,
  claim_processed, release_claim, check_processed,
}
use istos.Ledger.Calls.{World, Step, begins, returns, fails, begun, begin, step, run}
use istos.Ledger.Once.{release-get, outcome-get}

module _ {V : Type 0} where
  abbrev IsDone : Storage V → String → V → Type 0
  IsDone s k v = Dict.get s.processed k ≡ some (done v)

  another :
      (s : Storage V) (key k : String) (v : V)
      → IsDone s k v
      → is_done (Dict.get s.processed key) ≡ false
      → (key == k) ≡ false
  unfolding is_done
  another s key k v final open_still = ground (arith, final, open_still, text_key.same_iff key k)

  claimed-IsDone :
      (s : Storage V) (key k : String) (until : ℕ) (v : V)
      → IsDone s k v
      → is_done (Dict.get s.processed key) ≡ false
      → Dict.get (Dict.set s.processed key (claimed_until until)) k ≡ some (done v)
  claimed-IsDone s key k until v final open_still =
      rw (get-set s.processed key k (claimed_until until), another s key k v final open_still) final

  claim-IsDone :
      (s : Storage V) (key k : String) (now until : ℕ) (v : V) (o : Option (Record V))
      → Dict.get s.processed key ≡ o
      → IsDone s k v
      → IsDone (claim_found key now until o s).0 k v
  unfolding claim_found is_done
  claim-IsDone s key k now until v none e final = claimed-IsDone s key k until v final (rw (e) refl)
  claim-IsDone s key k now until v (some (done r)) e final = final
  claim-IsDone s key k now until v (some (claimed_until t)) e final =
      elim (Bool-cases (ltb now t)) [
        | inl held ↦ rw (held) final
        | inr lapsed ↦ rw (lapsed) (claimed-IsDone s key k until v final (rw (e) refl))
      ]

  begun-storage :
      (key : String) (w : World V) (s : Storage V) (c : Claim V) → (begun key w s c).storage ≡ s
  unfolding begun
  begun-storage key w s claimed = refl
  begun-storage key w s in_flight = refl
  begun-storage key w s (finished v) = refl

  step-IsDone :
      (w : World V) (x : Step V) (k : String) (v : V)
      → IsDone w.storage k v
      → IsDone (step w x).storage k v
  unfolding step begin claim_processed release_claim is_done
  step-IsDone w (begins key now again lease_s) k v final =
      let out =
        claim_found key now (again + lease_s) (Dict.get w.storage.processed key) w.storage in
      rw (begun-storage key w out.0 out.1) (
        claim-IsDone w.storage key k now (again + lease_s) v (Dict.get w.storage.processed key) refl
          final)
  step-IsDone w (returns key r prefix m now) k v final = elim (Bool-cases (ltb 0 (w.running key))) [
    | inr off ↦ rw (off) final
    | inl on ↦ ground (arith, on, final, outcome-get key k r prefix m now w.storage)
  ]
  step-IsDone w (fails key) k v final = elim (Bool-cases (ltb 0 (w.running key))) [
    | inr off ↦ rw (off) final
    | inl on ↦ ground (
      arith,
      on,
      final,
      text_key.same_iff key k,
      release-get key k w.storage (Dict.get w.storage.processed key) refl,
    )
  ]

  run-IsDone :
      (xs : List (Step V)) (w : World V) (k : String) (v : V)
      → IsDone w.storage k v
      → IsDone (run w xs).storage k v
  unfolding run
  run-IsDone [] w k v final = final
  run-IsDone (x ∷ xs) w k v final = run-IsDone xs (step w x) k v (step-IsDone w x k v final)

  -- Once a key is done, every later schedule of calls leaves its result: it is what a check finds,
  -- and every further call of the key gets it, at any time and under any lease.
  pub first_result_wins :
      (xs : List (Step V)) (w : World V) (key : String) (v : V) (now again lease_s : ℕ)
      → Dict.get w.storage.processed key ≡ some (done v)
      → (check_processed key (run w xs).storage ≡ some v)
        × ((begin key now again lease_s (run w xs)).1 ≡ finished v)
  unfolding check_processed begin claim_processed claim_found
  first_result_wins xs w key v now again lease_s final =
      let still = run-IsDone xs w key v final in
      (rw (check_processed, still) refl, rw (begin, claim_processed, still) refl)
