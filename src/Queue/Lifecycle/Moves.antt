-- ===== src/Queue/Lifecycle/Moves.antt =====
-- The moves of one job, and dictionaries whose jobs have only moved.
use istos.Prelude.{
  suc, ◌+◌, String, ℕ, ◌≤◌, ◌<◌, ◌≡◌, inl, inr, Option, some, number_key, arith, nat_beq_iff,
  Bool-cases, ◌==◌,
}
use istos.Dict
use istos.Dict.{Dict, get-set, get-remove}
use istos.Queue.Job.{JobState, JobRecord, Bytes}

-- A waiting job is leased once its time has come, and its delivery counted; a leased one is finished, is
-- retried or buried by its worker according to the attempts used up, or loses its lease, when it waits
-- again if it has attempts left, and is dead if not.
pub data Move : JobRecord → JobRecord → Type 0 where
  leases :
      (now lease_s : ℕ) (r : JobRecord)
      → r.state ≡ JobState.ready
      → r.not_before ≤ now
      → Move r (record r {
        state = JobState.leased;
        attempts = suc r.attempts;
        lease_until = now + lease_s;
      })
  finishes :
      (result : Option Bytes) (now : ℕ) (r : JobRecord)
      → r.state ≡ JobState.leased
      → Move r
          (record r { state = JobState.done; result = result; completed_at = now; lease_until = 0 })
  retries :
      (error : Option String) (due : ℕ) (r : JobRecord)
      → r.state ≡ JobState.leased
      → r.attempts < r.max_attempts
      → Move r (record r {
        last_error = error;
        state = JobState.ready;
        lease_until = 0;
        not_before = due;
      })
  buries :
      (error : Option String) (now : ℕ) (r : JobRecord)
      → r.state ≡ JobState.leased
      → r.max_attempts ≤ r.attempts
      → Move r (record r { last_error = error; state = JobState.dead; completed_at = now })
  loses :
      (now : ℕ) (r : JobRecord)
      → r.state ≡ JobState.leased
      → r.lease_until ≤ now
      → r.attempts < r.max_attempts
      → Move r (record r { state = JobState.ready; lease_until = 0; not_before = 0 })
  expires :
      (error : Option String) (now : ℕ) (r : JobRecord)
      → r.state ≡ JobState.leased
      → r.lease_until ≤ now
      → r.max_attempts ≤ r.attempts
      → Move r (record r { state = JobState.dead; completed_at = now; last_error = error })

pub data Moves (r : JobRecord) : JobRecord → Type 0 where
  stay : Moves r r
  go : {t u : JobRecord} → Moves r t → Move t u → Moves r u

pub Moves-trans : {r t u : JobRecord} → Moves r t → Moves t u → Moves r u
Moves-trans p stay = p
Moves-trans p (go q m) = go (Moves-trans p q) m

-- Every job of the second dictionary is a job of the first that has moved.
pub record Evolves (old new : Dict ℕ JobRecord) : Type 0 where
  pub origin :
      (k : ℕ) (u : JobRecord)
      → Dict.get new k ≡ some u
      → (r : JobRecord) × (Dict.get old k ≡ some r) × Moves r u

pub Evolves-refl : (d : Dict ℕ JobRecord) → Evolves d d
Evolves-refl d = record { origin = λ k u e. (u, e, stay) }

pub Evolves-trans : {a b c : Dict ℕ JobRecord} → Evolves a b → Evolves b c → Evolves a c
Evolves-trans p q = record {
  origin = λ k u e.
      let y = q.origin k u e in let x = p.origin k y.0 y.1 in (x.0, x.1, Moves-trans x.2 y.2);
}

pub remove-Evolves : (d : Dict ℕ JobRecord) (i : ℕ) → Evolves d (Dict.remove d i)
remove-Evolves d i = record { origin = λ k u e. (u, ground (arith, get-remove d i k), stay) }

moved_at :
    (d : Dict ℕ JobRecord) (i : ℕ) (r t : JobRecord) (k : ℕ) (u : JobRecord)
    → Dict.get d i ≡ some r
    → Move r t
    → Dict.get (Dict.set d i t) k ≡ some u
    → (x : JobRecord) × (Dict.get d k ≡ some x) × Moves x u
moved_at d i r t k u found m e = elim (Bool-cases (i == k)) [
  | inl same ↦ (r, ground (arith, nat_beq_iff i k), go_to (ground (arith, get-set d i k t)))
  | inr other ↦ (u, ground (arith, get-set d i k t), stay)
]
  where
    go_to : t ≡ u → Moves r u
    go_to p = rw (← p) (go stay m)

pub set-Evolves :
    (d : Dict ℕ JobRecord) (i : ℕ) (r t : JobRecord)
    → Dict.get d i ≡ some r
    → Move r t
    → Evolves d (Dict.set d i t)
set-Evolves d i r t found m = record { origin = λ k u e. moved_at d i r t k u found m e }
