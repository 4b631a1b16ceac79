-- ===== src/Queue/Lifecycle/Run.antt =====
-- Whole schedules of a queue's operations (src/istos/queue/store.py), seen by one job.
use istos.Prelude.{
  ℕ, suc, ◌≡◌, ◌≢◌, ◌⊎◌, inl, inr, some, List, [], ◌∷◌, number_key, arith, nat_beq_iff, Bool-cases,
  ◌==◌,
}
use istos.Dict
use istos.Dict.{Dict, get-set}
use istos.Queue.Job.{JobRecord}
use istos.Queue.State.{QueueStore, offer_ready}
use istos.Queue.Store.{Enqueue, add, new_job}
use istos.Queue.Schedule.{Op, adds, claims, acks, nacks, sweeps, loads, step, run}
use istos.Queue.Lifecycle.Moves.{Moves, Moves-trans, stay}
use istos.Queue.Lifecycle.Steps.{claim-Evolves, ack-Evolves, nack-Evolves, sweep-Evolves}

-- The operation is no recovery from storage, which puts what it reads in place of what is there.
abbrev pub IsNoLoad : Op → Type 0
IsNoLoad (loads now) = ⊥
IsNoLoad _ = Unit {0}

abbrev pub AllNoLoad : List Op → Type 0
AllNoLoad [] = Unit {0}
AllNoLoad (op ∷ ops) = IsNoLoad op × AllNoLoad ops

-- A job that an `add` has just filed.
abbrev pub IsNew : QueueStore → Op → ℕ → JobRecord → Type 0
IsNew s (adds q) k u = (k ≡ q.fresh_id) × (u ≡ new_job q (suc s.seq))
IsNew s _ k u = ⊥

pub jobs-add :
    (q : Enqueue) (s : QueueStore)
    → (add q s).0.jobs ≡ Dict.set s.jobs q.fresh_id (new_job q (suc s.seq))
unfolding add offer_ready
jobs-add q s = ground arith

pub step-Moves :
    (s : QueueStore) (op : Op) (k : ℕ) (u : JobRecord)
    → IsNoLoad op
    → Dict.get (step s op).jobs k ≡ some u
    → IsNew s op k u ⊎ ((r : JobRecord) × (Dict.get s.jobs k ≡ some r) × Moves r u)
unfolding step
step-Moves s (adds q) k u no_load e =
    let e' = rw jobs-add at e in
    elim (Bool-cases (q.fresh_id == k)) [
      | inl same ↦ inl (
          ground
            (arith, nat_beq_iff q.fresh_id k, get-set s.jobs q.fresh_id k (new_job q (suc s.seq))))
      | inr other ↦
          inr (u, ground (arith, get-set s.jobs q.fresh_id k (new_job q (suc s.seq))), stay)
    ]
step-Moves s (claims now lease_s) k u no_load e = inr ((claim-Evolves now lease_s s).origin k u e)
step-Moves s (acks i result attempt now) k u no_load e =
    inr ((ack-Evolves i now result attempt s).origin k u e)
step-Moves s (nacks i n) k u no_load e = inr ((nack-Evolves i n s).origin k u e)
step-Moves s (sweeps now) k u no_load e = inr ((sweep-Evolves now s).origin k u e)
step-Moves s (loads now) k u no_load e = absurd no_load

-- The operation files no new job under the id.
abbrev pub Spares : ℕ → Op → Type 0
Spares k (adds q) = k ≢ q.fresh_id
Spares k _ = Unit {0}

abbrev pub AllSpare : ℕ → List Op → Type 0
AllSpare k [] = Unit {0}
AllSpare k (op ∷ ops) = Spares k op × IsNoLoad op × AllSpare k ops

pub new-Spares :
    (s : QueueStore) (op : Op) (k : ℕ) (u : JobRecord) → Spares k op → IsNew s op k u → ⊥
new-Spares s (adds q) k u spares h = spares h.0
new-Spares s (claims now lease_s) k u spares h = h
new-Spares s _ k u spares h = h

-- What is found under an id after a schedule that files nothing under it was there before.
pub run-Moves :
    (ops : List Op) (s : QueueStore) (k : ℕ) (u : JobRecord)
    → AllSpare k ops
    → Dict.get (run s ops).jobs k ≡ some u
    → (r : JobRecord) × (Dict.get s.jobs k ≡ some r) × Moves r u
unfolding run
run-Moves [] s k u spares e = (u, e, stay)
run-Moves (op ∷ ops) s k u spares e =
    let later = run-Moves ops (step s op) k u spares.2 e in
    elim (step-Moves s op k later.0 spares.1 later.1) [
      | inl new ↦ absurd (new-Spares s op k later.0 spares.0 new)
      | inr old ↦ (old.0, old.1, Moves-trans old.2 later.2)
    ]
