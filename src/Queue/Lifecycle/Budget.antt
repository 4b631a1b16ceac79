-- ===== src/Queue/Lifecycle/Budget.antt =====
-- The attempts that a job has had, as `QueueStore` (src/istos/queue/store.py) counts them.
use istos.Prelude.{ℕ, ◌≤◌, ◌<◌, ◌≡◌, inl, inr, some, List, [], ◌∷◌, number_key, arith}
use istos.Dict
use istos.Queue.Job.{JobState, JobRecord}
use istos.Queue.State.{QueueStore}
use istos.Queue.Store.{new_job}
use istos.Queue.Schedule.{Op, adds, claims, acks, nacks, sweeps, loads, step, run}
use istos.Queue.Lifecycle.Moves.{
  Move, Moves, stay, go, leases, finishes, retries, buries, loses, expires,
}
use istos.Queue.Lifecycle.Run.{IsNoLoad, AllNoLoad, IsNew, step-Moves}

-- A waiting job has an attempt left, and no job has had more attempts than it may have.
pub record Budget (r : JobRecord) : Type 0 where
  pub left : r.state ≡ JobState.ready → r.attempts < r.max_attempts
  pub spent : r.attempts ≤ r.max_attempts

Move-Budget : {r u : JobRecord} → Move r u → Budget r → Budget u
Move-Budget (leases now lease_s r waits due) b = ground (arith, b.left waits)
Move-Budget (finishes result now r held) b = ground arith
Move-Budget (retries error due r held more) b = ground arith
Move-Budget (buries error now r held last) b = ground arith
Move-Budget (loses now r held late left) b = ground arith
Move-Budget (expires error now r held late spent) b = ground arith

pub Moves-Budget : {r u : JobRecord} → Moves r u → Budget r → Budget u
Moves-Budget stay b = b
Moves-Budget (go p m) b = Move-Budget m (Moves-Budget p b)

-- An `add` lets the job be delivered at least once.
abbrev pub Allows : Op → Type 0
Allows (adds q) = 0 < q.max_attempts
Allows _ = Unit {0}

abbrev pub AllAllow : List Op → Type 0
AllAllow [] = Unit {0}
AllAllow (op ∷ ops) = Allows op × AllAllow ops

abbrev pub InBudget : QueueStore → Type 0
InBudget s = (k : ℕ) (r : JobRecord) → Dict.get s.jobs k ≡ some r → Budget r

new-Budget :
    (s : QueueStore) (op : Op) (k : ℕ) (u : JobRecord) → Allows op → IsNew s op k u → Budget u
unfolding new_job
new-Budget s (adds q) k u allows new = rw new.1 (ground arith)
new-Budget s (claims now lease_s) k u allows new = absurd new
new-Budget s (acks i result attempt now) k u allows new = absurd new
new-Budget s (nacks i n) k u allows new = absurd new
new-Budget s (sweeps now) k u allows new = absurd new
new-Budget s (loads now) k u allows new = absurd new

step-InBudget :
    (s : QueueStore) (op : Op) → IsNoLoad op → Allows op → InBudget s → InBudget (step s op)
step-InBudget s op no_load allows b k u e = elim (step-Moves s op k u no_load e) [
  | inl new ↦ new-Budget s op k u allows new
  | inr old ↦ Moves-Budget old.2 (b k old.0 old.1)
]

-- Whatever the schedule of operations, without a recovery and with every added job allowed at least
-- one attempt, the counters stay within the maximum.
pub run-InBudget :
    (ops : List Op) (s : QueueStore)
    → AllNoLoad ops
    → AllAllow ops
    → InBudget s
    → InBudget (run s ops)
unfolding run
run-InBudget [] s no_loads allow b = b
run-InBudget (op ∷ ops) s no_loads allow b =
    run-InBudget ops (step s op) no_loads.1 allow.1 (step-InBudget s op no_loads.0 allow.0 b)
