-- ===== src/Queue/Live/Defs.antt =====
-- What it means that a store tracks all its jobs at a time, and the steps that keep it.
use istos.Prelude.{ℕ, ◌≤◌, ◌≡◌, ◌⊎◌, List, [], ◌∷◌, number_key, arith}
use istos.Dict
use istos.Dict.{Dict, get-set, get-remove}
use istos.Heap
use istos.Heap.{In-push_self, In-push_old}
use istos.Queue.Job.{JobState, JobRecord, ready_entry, ready_order, timed_order}
use istos.Queue.State.{
  QueueStore, mature_delayed, reclaim_leases, offer_ready, write_job, write_jobs, forget,
}
use istos.Queue.Live.Loops.{
  Live, Live-later, mature_loop-Live, reclaim_loop-Live, delayed_entry, lease_entry,
}

abbrev pub IsLive : ℕ → QueueStore → Type 0
IsLive clock s = Live clock s.jobs s.ready s.delayed s.leases

pub IsLive-later : (clock now : ℕ) (s : QueueStore) → clock ≤ now → IsLive clock s → IsLive now s
IsLive-later clock now s le live = Live-later clock now s.jobs s.ready s.delayed s.leases le live

pub mature_delayed-IsLive :
    (now : ℕ) (s : QueueStore) → IsLive now s → IsLive now (mature_delayed now s)
unfolding mature_delayed
mature_delayed-IsLive now s live = mature_loop-Live now s.jobs s.delayed s.leases s.ready live

pub reclaim_leases-IsLive :
    (now : ℕ) (s : QueueStore) → IsLive now s → IsLive now (reclaim_leases now s).0
unfolding reclaim_leases
reclaim_leases-IsLive now s live =
    reclaim_loop-Live now s.leases s.delayed
      (record { jobs = s.jobs; ready = s.ready; changed = [] }) live

pub write_jobs-IsLive :
    (clock : ℕ) (recs : List JobRecord) (s : QueueStore)
    → IsLive clock s
    → IsLive clock (write_jobs recs s)
unfolding write_jobs
write_jobs-IsLive clock [] s live = live
write_jobs-IsLive clock (rec ∷ recs) s live = write_jobs-IsLive clock recs (write_job rec s) live

pub forget-IsLive :
    (clock job_id : ℕ) (s : QueueStore) → IsLive clock s → IsLive clock (forget job_id s)
unfolding forget
forget-IsLive clock job_id s live k r found = ground (arith, live k r, get-remove s.jobs job_id k)

-- A job that is filed and offered is tracked, whatever was under its id before.
pub offer_ready-IsLive :
    (clock now : ℕ) (rec : JobRecord) (s : QueueStore)
    → clock ≤ now
    → rec.state ≡ JobState.ready
    → IsLive clock s
    → IsLive now (offer_ready now rec (record s { jobs = Dict.set s.jobs rec.id rec }))
unfolding offer_ready
offer_ready-IsLive clock now rec s le waits live k r found = ground (
  arith,
  live k r,
  get-set s.jobs rec.id k rec,
  In-push_self (ready_entry rec) s.ready,
  In-push_old (ready_entry rec) (ready_entry r) s.ready,
  In-push_self (delayed_entry rec) s.delayed,
  In-push_old (delayed_entry rec) (delayed_entry r) s.delayed,
)

-- A job that is filed under a lease is tracked, provided that its lease is pushed.
pub lease-IsLive :
    (clock : ℕ) (rec : JobRecord) (s : QueueStore)
    → rec.state ≡ JobState.leased
    → IsLive clock s
    → IsLive clock (record s {
      jobs = Dict.set s.jobs rec.id rec;
      leases = Heap.push (lease_entry rec) s.leases;
    })
lease-IsLive clock rec s held live k r found = ground (
  arith,
  live k r,
  get-set s.jobs rec.id k rec,
  In-push_self (lease_entry rec) s.leases,
  In-push_old (lease_entry rec) (lease_entry r) s.leases,
)

-- A job that is done or dead needs no entry.
pub settle-IsLive :
    (clock : ℕ) (rec : JobRecord) (s : QueueStore)
    → (rec.state ≡ JobState.done) ⊎ (rec.state ≡ JobState.dead)
    → IsLive clock s
    → IsLive clock (record s { jobs = Dict.set s.jobs rec.id rec })
settle-IsLive clock rec s settled live k r found =
    ground (arith, live k r, get-set s.jobs rec.id k rec)
