-- ===== src/Queue/Live/Claims.antt =====
-- `claim` and the invariant: what its loop throws away is never the entry of an eligible job.
use istos.Prelude.{
  ℕ, ◌≤◌, ◌≡◌, refl, ◌⊎◌, Option, none, some, In, List, [], ◌∷◌, number_key, arith, Option-cases,
}
use istos.Dict
use istos.Dict.{Dict, get-set}
use istos.Heap.{In-push_self, In-push_old}
use istos.Queue.Job.{JobState, JobRecord, ReadyEntry, ready_entry, ready_order, timed_order}
use istos.Queue.State.{QueueStore, mature_delayed, reclaim_leases}
use istos.Queue.Store.{next_eligible, hand_out, lease, refresh, claim}
use istos.Queue.Live.Loops.{lease_entry}
use istos.Queue.Live.Defs.{
  IsLive, IsLive-later, mature_delayed-IsLive, reclaim_leases-IsLive, write_jobs-IsLive,
}

module _ (now : ℕ) (jobs : Dict ℕ JobRecord) where
  -- What the loop hands over stands in the dictionary, and passes the test.
  pub next_eligible-found :
      (entries : List ReadyEntry) (k : ℕ) (r : JobRecord)
      → (next_eligible now jobs entries).0 ≡ some (k, r)
      → (Dict.get jobs k ≡ some r) × (r.state ≡ JobState.ready) × (r.not_before ≤ now)
  unfolding next_eligible
  next_eligible-found [] k r h = absurd (cc)
  next_eligible-found (e ∷ rest) k r h =
      ground (arith, Option-cases (Dict.get jobs e.id), next_eligible-found rest k r)

  -- An eligible job with an entry is handed over, or keeps the entry.
  pub next_eligible-keeps :
      (entries : List ReadyEntry) (k : ℕ) (r : JobRecord)
      → Dict.get jobs k ≡ some r
      → r.id ≡ k
      → r.state ≡ JobState.ready
      → r.not_before ≤ now
      → In (ready_entry r) entries
      → In (ready_entry r) (next_eligible now jobs entries).1
        ⊎ ((next_eligible now jobs entries).0 ≡ some (k, r))
  unfolding next_eligible
  next_eligible-keeps [] k r found own waits due m = absurd m
  next_eligible-keeps (e ∷ rest) k r found own waits due m =
      ground
        (arith, Option-cases (Dict.get jobs e.id), next_eligible-keeps rest k r found own waits due)

pub refresh-IsLive : (now : ℕ) (s : QueueStore) → IsLive now s → IsLive now (refresh now s)
unfolding refresh
refresh-IsLive now s live =
    write_jobs-IsLive now (reclaim_leases now (mature_delayed now s)).1
      (reclaim_leases now (mature_delayed now s)).0
      (reclaim_leases-IsLive now (mature_delayed now s) (mature_delayed-IsLive now s live))

hand_out-IsLive :
    (now lease_s : ℕ) (s : QueueStore) (entries : List ReadyEntry) (found : Option (ℕ × JobRecord))
    → IsLive now s
    → (next_eligible now s.jobs s.ready) ≡ (found, entries)
    → IsLive now (hand_out now lease_s (record s { ready = entries }) found).0
unfolding hand_out
hand_out-IsLive now lease_s s entries none live e k r here =
    ground (arith, live k r, next_eligible-keeps now s.jobs s.ready k r)
hand_out-IsLive now lease_s s entries (some (job_id, rec)) live e k r here = ground (
  arith,
  live k r,
  live job_id rec,
  next_eligible-keeps now s.jobs s.ready k r,
  next_eligible-found now s.jobs s.ready job_id rec,
  get-set s.jobs job_id k (lease now lease_s rec),
  In-push_self (lease_entry (lease now lease_s rec)) s.leases,
  In-push_old (lease_entry (lease now lease_s rec)) (lease_entry r) s.leases,
)

pub claim-IsLive :
    (clock now lease_s : ℕ) (s : QueueStore)
    → clock ≤ now
    → IsLive clock s
    → IsLive now (claim now lease_s s).0
unfolding claim
claim-IsLive clock now lease_s s le live =
    let fresh = refresh now s in
    let popped = next_eligible now fresh.jobs fresh.ready in
    hand_out-IsLive now lease_s fresh popped.1 popped.0
      (refresh-IsLive now s (IsLive-later clock now s le live)) refl
