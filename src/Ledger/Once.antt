-- ===== src/Ledger/Once.antt =====
-- Exactly-once execution: one execution at a time, one completed execution, one result.
use istos.Prelude.{
  ℕ, ◌+◌, ◌-◌, ◌≤◌, ◌<◌, ◌≡◌, refl, inl, inr, true, false, Option, none, some, List, [], ◌∷◌,
  String, ltb, if◌then◌else◌, text_key, ◌==◌, arith, length, Bool-cases, subst, ap,
}
use istos.Dict
use istos.Dict.{Dict, get-set, get-remove}
use istos.Ledger.{
  Record, claimed_until, done, finished, Storage, is_done, put, log, claim_found, claim_processed,
  release_found, release_claim, mark_processed,
}
use istos.Ledger.Calls.{
  World, Step, begins, returns, fails, more, fewer, with_result, begun, begin, record_outcome, step,
  run,
}

same_key : (key : String) → (key == key) ≡ true
same_key key = (text_key.same_iff key key).1 refl

at_key : (key k : String) (P : String → Type 0) → P key → ((key == k) ≡ false → P k) → P k
at_key key k P here there = elim (Bool-cases (key == k)) [
  | inl same ↦ subst P ((text_key.same_iff key k).0 same) here
  | inr other ↦ there other
]

module _ {V : Type 0} where
  -- What the ledger knows of a key against what has happened under it.
  unfoldable pub Consistent : Option (Record V) → ℕ → List V → Type 0
  Consistent none n c = (n ≡ 0) × (c ≡ [])
  Consistent (some (claimed_until t)) n c = (n ≤ 1) × (c ≡ [])
  Consistent (some (done v)) n c = (n ≡ 0) × (c ≡ v ∷ [])

  abbrev pub IsOnce : World V → Type 0
  IsOnce w =
      (k : String) → Consistent (Dict.get w.storage.processed k) (w.running k) (w.completed k)

  -- A call finds a lapsed lease only after the execution that held it has ended.
  unfoldable pub Punctual : World V → Step V → Type 0
  Punctual w (begins key now again lease_s) =
      (t : ℕ)
      → Dict.get w.storage.processed key ≡ some (claimed_until t)
      → t ≤ now
      → w.running key ≡ 0
  Punctual w (returns key result prefix metadata now) = Unit
  Punctual w (fails key) = Unit

  unfoldable pub AllPunctual : World V → List (Step V) → Type 0
  AllPunctual w [] = Unit
  AllPunctual w (x ∷ xs) = Punctual w x × AllPunctual (step w x) xs

  claimed_now :
      (key k : String) (until : ℕ) (s : Storage V)
      → Dict.get (Dict.set s.processed key (claimed_until until)) k
        ≡ (if key == k then some (claimed_until until) else Dict.get s.processed k)
  claimed_now key k until s = get-set s.processed key k (claimed_until until)

  -- A claim that is granted starts the first execution of its key that is on.
  granted :
      (w : World V) (key : String) (until : ℕ) (k : String)
      → IsOnce w
      → w.running key ≡ 0
      → w.completed key ≡ []
      → Consistent
          (Dict.get (Dict.set w.storage.processed key (claimed_until until)) k)
          (more key w.running k)
          (w.completed k)
  unfolding more Consistent
  granted w key until k h idle fresh =
      at_key key k
        (λ j.
          Consistent (Dict.get (Dict.set w.storage.processed key (claimed_until until)) j)
            (more key w.running j) (w.completed j))
        (rw (claimed_now key key until w.storage, same_key key) (omega (arith, idle), fresh))
        λ other. rw (claimed_now key k until w.storage, other) (h k)

  begin_found :
      (w : World V) (key : String) (now until : ℕ) (o : Option (Record V)) (k : String)
      → Dict.get w.storage.processed key ≡ o
      → ((t : ℕ) → o ≡ some (claimed_until t) → t ≤ now → w.running key ≡ 0)
      → IsOnce w
      → let out = claim_found key now until o w.storage in
        let v = begun key w out.0 out.1 in
        Consistent (Dict.get v.storage.processed k) (v.running k) (v.completed k)
  unfolding begun claim_found Consistent
  begin_found w key now until none k e p h =
      let here = subst (λ o. Consistent o (w.running key) (w.completed key)) e (h key) in
      granted w key until k h here.0 here.1
  begin_found w key now until (some (done r)) k e p h = h k
  begin_found w key now until (some (claimed_until t)) k e p h =
      let here = subst (λ o. Consistent o (w.running key) (w.completed key)) e (h key) in
      elim (Bool-cases (ltb now t)) [
        | inl held ↦ rw (held) (h k)
        | inr lapsed ↦ rw (lapsed) (granted w key until k h (p t refl (ground arith)) here.1)
      ]

  -- What each step makes of the ledger's record of a key.
  pub release-get :
      (key k : String) (s : Storage V) (o : Option (Record V))
      → Dict.get s.processed key ≡ o
      → Dict.get (release_found key o s).processed k
        ≡ (if key == k then (if is_done o then o else none) else Dict.get s.processed k)
  unfolding release_found is_done
  release-get key k s none e = ground (arith, e, text_key.same_iff key k)
  release-get key k s (some (done v)) e = ground (arith, e, text_key.same_iff key k)
  release-get key k s (some (claimed_until t)) e = get-remove s.processed key k

  log-processed :
      (key : String) (value : V) (id : Option String) (now : ℕ) (s : Storage V)
      → (log key value id now s).processed ≡ s.processed
  unfolding log
  log-processed key value id now s = ground arith

  mark-get :
      (key k : String) (result : V) (s : Storage V)
      → Dict.get (mark_processed key result s).processed k ≡ (
          if key == k
          then (if is_done (Dict.get s.processed k)
              then Dict.get s.processed k
              else some (done result))
          else Dict.get s.processed k)
  unfolding mark_processed
  mark-get key k result s =
      ground (arith, get-set s.processed key k (done result), text_key.same_iff key k)

  pub outcome-get :
      (key k : String) (result : V) (prefix : String) (metadata : V) (now : ℕ) (s : Storage V)
      → Dict.get (record_outcome key result prefix metadata now s).processed k ≡ (
          if key == k
          then (if is_done (Dict.get s.processed k)
              then Dict.get s.processed k
              else some (done result))
          else Dict.get s.processed k)
  unfolding record_outcome put
  outcome-get key k result prefix metadata now s =
      let logs = log prefix metadata (some key) now (put prefix metadata s) in
      let same : logs.processed ≡ s.processed =
        log-processed prefix metadata (some key) now (put prefix metadata s) in
      subst
        (λ (d : Dict String (Record V)). Dict.get (mark_processed key result logs).processed k ≡ (
          if key == k
          then (if is_done (Dict.get d k) then Dict.get d k else some (done result))
          else Dict.get d k))
        same (mark-get key k result logs)

  release-Consistent :
      (w : World V) (key k : String) (o : Option (Record V))
      → Dict.get w.storage.processed key ≡ o
      → 0 < w.running key
      → IsOnce w
      → Consistent
          (Dict.get (release_found key o w.storage).processed k)
          (fewer key w.running k)
          (w.completed k)
  unfolding fewer Consistent is_done
  release-Consistent w key k o e on h =
      let here = subst (λ o. Consistent o (w.running key) (w.completed key)) e (h key) in
      at_key key k
        (λ j.
          Consistent (Dict.get (release_found key o w.storage).processed j) (fewer key w.running j)
            (w.completed j))
        (rw (release-get key key w.storage o e, same_key key) (cleared o here))
        λ other. rw (release-get key k w.storage o e, other) (h k)
    where
      cleared :
          (o : Option (Record V))
          → Consistent o (w.running key) (w.completed key)
          → Consistent (if is_done o then o else none) (w.running key - 1) (w.completed key)
      cleared none c = absurd (omega (arith, c.0, on))
      cleared (some (done v)) c = absurd (omega (arith, c.0, on))
      cleared (some (claimed_until t)) c = (omega (arith, c.0), c.1)

  outcome-Consistent :
      (w : World V) (key : String) (r : V) (prefix : String) (m : V) (now : ℕ) (k : String)
      → 0 < w.running key
      → IsOnce w
      → Consistent
          (Dict.get (record_outcome key r prefix m now w.storage).processed k)
          (fewer key w.running k)
          (with_result key r w.completed k)
  unfolding fewer with_result Consistent is_done
  outcome-Consistent w key r prefix m now k on h =
      at_key key k
        (λ j.
          Consistent (Dict.get (record_outcome key r prefix m now w.storage).processed j)
            (fewer key w.running j) (with_result key r w.completed j))
        (rw (outcome-get key key r prefix m now w.storage, same_key key)
          (settled (Dict.get w.storage.processed key) (h key)))
        λ other. rw (outcome-get key k r prefix m now w.storage, other) (h k)
    where
      settled :
          (o : Option (Record V))
          → Consistent o (w.running key) (w.completed key)
          → Consistent
              (if is_done o then o else some (done r))
              (w.running key - 1)
              (r ∷ w.completed key)
      settled none c = absurd (omega (arith, c.0, on))
      settled (some (done v)) c = absurd (omega (arith, c.0, on))
      settled (some (claimed_until t)) c = (omega (arith, c.0), ap (λ (l : List V). r ∷ l) c.1)

  step-IsOnce : (w : World V) (x : Step V) → Punctual w x → IsOnce w → IsOnce (step w x)
  unfolding step begin claim_processed release_claim Punctual
  step-IsOnce w (begins key now again lease_s) p h k =
      begin_found w key now (again + lease_s) (Dict.get w.storage.processed key) k refl p h
  step-IsOnce w (returns key r prefix m now) p h k = elim (Bool-cases (ltb 0 (w.running key))) [
    | inl on ↦ rw (on) (outcome-Consistent w key r prefix m now k (ground arith) h)
    | inr off ↦ rw (off) (h k)
  ]
  step-IsOnce w (fails key) p h k = elim (Bool-cases (ltb 0 (w.running key))) [
    | inl on ↦
        rw (on)
          (release-Consistent w key k (Dict.get w.storage.processed key) refl (ground arith) h)
    | inr off ↦ rw (off) (h k)
  ]

  run-IsOnce : (xs : List (Step V)) (w : World V) → AllPunctual w xs → IsOnce w → IsOnce (run w xs)
  unfolding run AllPunctual
  run-IsOnce [] w p h = h
  run-IsOnce (x ∷ xs) w p h = run-IsOnce xs (step w x) p.1 (step-IsOnce w x p.0 h)

  at_most_once :
      (o : Option (Record V)) (n : ℕ) (c : List V)
      → Consistent o n c
      → (n + length c ≤ 1) × ((v : V) → o ≡ some (done v) → c ≡ v ∷ [])
  unfolding Consistent
  at_most_once none n c h = (rw (h.1) (omega (arith, h.0)), λ v e. absurd (ground (arith, e)))
  at_most_once (some (claimed_until t)) n c h =
      (rw (h.1) (omega (arith, h.0)), λ v e. absurd (ground (arith, e)))
  at_most_once (some (done r)) n c h =
      (rw (h.1) (omega (arith, h.0)), λ v e. ground (arith, e, h.1))

  cached :
      (key : String) (now until : ℕ) (v : V) (o : Option (Record V)) (s : Storage V)
      → (claim_found key now until o s).1 ≡ finished v
      → o ≡ some (done v)
  unfolding claim_found
  cached key now until v none s e = absurd (ground (arith, e))
  cached key now until v (some (done r)) s e = ground (arith, e)
  cached key now until v (some (claimed_until t)) s e = absurd (ground (arith, e))

  -- On a ledger that starts with nothing claimed, and over any interleaving of calls in which a
  -- lapsed lease is found only once the execution that held it has ended, the executions of a key
  -- that are on and those that have returned are together at most one, and a call that gets a
  -- cached result gets the result of the execution that has returned.
  pub exactly_once :
      (xs : List (Step V)) (w : World V) (key : String) (now again lease_s : ℕ)
      → ((k : String) → Dict.get w.storage.processed k ≡ none)
      → ((k : String) → w.running k ≡ 0)
      → ((k : String) → w.completed k ≡ [])
      → AllPunctual w xs
      → ((run w xs).running key + length ((run w xs).completed key) ≤ 1)
        × ((v : V)
            → (begin key now again lease_s (run w xs)).1 ≡ finished v
            → (run w xs).completed key ≡ v ∷ [])
  unfolding begin claim_processed Consistent
  exactly_once xs w key now again lease_s free idle fresh p =
      let h = run-IsOnce xs w p (λ k. rw (free k) (idle k, fresh k)) key in
      let once =
        at_most_once (Dict.get (run w xs).storage.processed key) ((run w xs).running key)
          ((run w xs).completed key) h in
      (
        once.0,
        λ v e. once.1 v (
            cached key now (again + lease_s) v (Dict.get (run w xs).storage.processed key)
              (run w xs).storage e),
      )
