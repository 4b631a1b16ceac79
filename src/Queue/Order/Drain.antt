-- ===== src/Queue/Order/Drain.antt =====
-- What `_mature_delayed` and `_reclaim_leases` (src/istos/queue/store.py) leave behind: nothing
-- that is due. The loops stop at the first entry that is not, and the heaps are sorted.
use istos.Prelude.{
  ℕ, ◌≤◌, ◌<◌, ◌≡◌, refl, ◌⊎◌, inl, inr, Option, none, some, In, List, [], ◌∷◌, number_key,
  nat_beq_iff, arith, Bool-cases, leb,
}
use istos.Dict
use istos.Dict.{Dict, get-set}
use istos.Heap.{IsSorted, head_least}
use istos.Queue.Job.{
  JobState, JobRecord, ReadyEntry, TimedEntry, timed_order, ready_order, timed_le,
}
use istos.Queue.State.{
  QueueStore, matured, mature_loop, mature_delayed, Reclaim, reclaim_one, reclaim_loop,
  reclaim_leases, lease_lost, write_jobs, write_job,
}
use istos.Queue.Store.{refresh}
use istos.Queue.Order.Sorted.{IsOrdered}

due_least :
    (e x : TimedEntry) (rest : List TimedEntry)
    → IsSorted (e ∷ rest)
    → In x (e ∷ rest)
    → e.due ≤ x.due
unfolding timed_le
due_least e x rest s m = ground (arith, head_least e x rest s m)

mature_loop-late :
    (now : ℕ) (jobs : Dict ℕ JobRecord) (delayed : List TimedEntry) (ready : List ReadyEntry)
    (x : TimedEntry)
    → IsSorted delayed
    → In x (mature_loop now jobs delayed ready).0
    → now < x.due
unfolding mature_loop
mature_loop-late now jobs [] ready x s m = absurd m
mature_loop-late now jobs (e ∷ rest) ready x s m = ground (
  arith,
  mature_loop-late now jobs rest (matured now (Dict.get jobs e.id) ready) x s.1,
  due_least e x rest s,
)

reclaim_loop-late :
    (now : ℕ) (leases : List TimedEntry) (r : Reclaim) (x : TimedEntry)
    → IsSorted leases
    → In x (reclaim_loop now leases r).0
    → now < x.due
unfolding reclaim_loop
reclaim_loop-late now [] r x s m = absurd m
reclaim_loop-late now (e ∷ rest) r x s m = ground (
  arith,
  reclaim_loop-late now rest (reclaim_one now e.id (Dict.get r.jobs e.id) r) x s.1,
  due_least e x rest s,
)

-- A job keeps its record, or loses its lease.
abbrev Either : ℕ → Dict ℕ JobRecord → ℕ → JobRecord → Type 0
Either now jobs k r =
    (Dict.get jobs k ≡ some r)
    ⊎ ((r.state ≡ JobState.leased)
        × (Dict.get jobs k ≡ some (lease_lost now r))
        × (r.lease_until ≤ now))

reclaim_one-Either :
    (now i : ℕ) (o : Option JobRecord) (x : Reclaim) (k : ℕ) (r : JobRecord)
    → Dict.get x.jobs i ≡ o
    → Dict.get x.jobs k ≡ some r
    → Either now (reclaim_one now i o x).jobs k r
unfolding reclaim_one
reclaim_one-Either now i none x k r e found = inl found
reclaim_one-Either now i (some rec) x k r e found =
    ground (arith, get-set x.jobs i k (lease_lost now rec), nat_beq_iff i k)

lost-not-leased : (now : ℕ) (r : JobRecord) → (lease_lost now r).state ≡ JobState.leased → ⊥
unfolding lease_lost
lost-not-leased now r h = ground arith

reclaim_loop-Either :
    (now : ℕ) (leases : List TimedEntry) (x : Reclaim) (k : ℕ) (r : JobRecord)
    → Dict.get x.jobs k ≡ some r
    → Either now (reclaim_loop now leases x).1.jobs k r
unfolding reclaim_loop
reclaim_loop-Either now [] x k r found = inl found
reclaim_loop-Either now (e ∷ rest) x k r found = elim (Bool-cases (leb e.due now)) [
  | inr early ↦ rw early (inl found)
  | inl due ↦ rw due (elim (reclaim_one-Either now e.id (Dict.get x.jobs e.id) x k r refl found) [
    | inl same ↦
        reclaim_loop-Either now rest (reclaim_one now e.id (Dict.get x.jobs e.id) x) k r same
    | inr lost ↦
        elim (reclaim_loop-Either now rest (reclaim_one now e.id (Dict.get x.jobs e.id) x) k
          (lease_lost now r) lost.1) [
            | inl kept ↦ inr (lost.0, kept, lost.2)
            | inr twice ↦ absurd (lost-not-leased now r twice.0)
          ]
  ])
]

heaps-write_jobs :
    (recs : List JobRecord) (s : QueueStore)
    → ((write_jobs recs s).jobs ≡ s.jobs)
      × ((write_jobs recs s).ready ≡ s.ready)
      × ((write_jobs recs s).delayed ≡ s.delayed)
      × ((write_jobs recs s).leases ≡ s.leases)
unfolding write_jobs
heaps-write_jobs [] s = (refl, refl, refl, refl)
heaps-write_jobs (rec ∷ recs) s = heaps-write_jobs recs (write_job rec s)

module _ (now : ℕ) (s : QueueStore) (h : IsOrdered s) where
  -- After the first lines of `claim` no delayed entry is due,
  pub refresh-delayed : (x : TimedEntry) → In x (refresh now s).delayed → now < x.due
  unfolding refresh mature_delayed reclaim_leases
  refresh-delayed x m = mature_loop-late now s.jobs s.delayed s.ready x h.delayed (
      rw
        (heaps-write_jobs (reclaim_leases now (mature_delayed now s)).1
          (reclaim_leases now (mature_delayed now s)).0).2
        at m)

  -- and no lease has run out.
  pub refresh-leases : (x : TimedEntry) → In x (refresh now s).leases → now < x.due
  unfolding refresh mature_delayed reclaim_leases
  refresh-leases x m =
      reclaim_loop-late now s.leases
        (record { jobs = s.jobs; ready = (mature_delayed now s).ready; changed = [] }) x h.leases
        (rw
          (heaps-write_jobs (reclaim_leases now (mature_delayed now s)).1
            (reclaim_leases now (mature_delayed now s)).0).3
          at m)

pub refresh-Either :
    (now : ℕ) (s : QueueStore) (k : ℕ) (r : JobRecord)
    → Dict.get s.jobs k ≡ some r
    → (Dict.get (refresh now s).jobs k ≡ some r)
      ⊎ ((r.state ≡ JobState.leased)
          × (Dict.get (refresh now s).jobs k ≡ some (lease_lost now r))
          × (r.lease_until ≤ now))
unfolding refresh reclaim_leases mature_delayed
refresh-Either now s k r found =
    rw
      (heaps-write_jobs (reclaim_leases now (mature_delayed now s)).1
        (reclaim_leases now (mature_delayed now s)).0).0
      (reclaim_loop-Either now s.leases
        (record { jobs = s.jobs; ready = (mature_delayed now s).ready; changed = [] }) k r found)

pub reclaimed-Either :
    (now : ℕ) (s : QueueStore) (k : ℕ) (r : JobRecord)
    → Dict.get s.jobs k ≡ some r
    → (Dict.get (write_jobs (reclaim_leases now s).1 (reclaim_leases now s).0).jobs k ≡ some r)
      ⊎ ((r.state ≡ JobState.leased)
          × (Dict.get (write_jobs (reclaim_leases now s).1 (reclaim_leases now s).0).jobs k
              ≡ some (lease_lost now r))
          × (r.lease_until ≤ now))
unfolding reclaim_leases
reclaimed-Either now s k r found =
    rw (heaps-write_jobs (reclaim_leases now s).1 (reclaim_leases now s).0).0 (
      reclaim_loop-Either now s.leases (record { jobs = s.jobs; ready = s.ready; changed = [] }) k r
        found)
