-- ===== src/Queue/Order/Sorted.antt =====
-- The heaps of a `QueueStore` (src/istos/queue/store.py) are heaps after every operation.
use istos.Prelude.{
  ℕ, ◌≡◌, inl, inr, Option, none, some, List, [], ◌∷◌, number_key, arith, Bool-cases, leb, ltb,
}
use istos.Dict
use istos.Dict.{Dict}
use istos.Heap.{IsSorted, push-IsSorted}
use istos.Queue.Job.{JobRecord, ReadyEntry, TimedEntry, ready_entry, ready_order, timed_order}
use istos.Queue.State.{
  QueueStore, matured, mature_loop, mature_delayed, Reclaim, reclaim_one, reclaim_loop,
  reclaim_leases, offer_ready, write_jobs, write_job,
}
use istos.Queue.Store.{next_eligible}

pub record IsOrdered (s : QueueStore) : Type 0 where
  pub ready : IsSorted s.ready
  pub delayed : IsSorted s.delayed
  pub leases : IsSorted s.leases
  pub done : IsSorted s.done

matured-IsSorted :
    (now : ℕ) (o : Option JobRecord) (ready : List ReadyEntry)
    → IsSorted ready
    → IsSorted (matured now o ready)
unfolding matured
matured-IsSorted now none ready h = h
matured-IsSorted now (some rec) ready h = ground (arith, push-IsSorted (ready_entry rec) ready h)

pub mature_loop-IsSorted :
    (now : ℕ) (jobs : Dict ℕ JobRecord) (delayed : List TimedEntry) (ready : List ReadyEntry)
    → IsSorted delayed
    → IsSorted ready
    → IsSorted (mature_loop now jobs delayed ready).0
      × IsSorted (mature_loop now jobs delayed ready).1
unfolding mature_loop
mature_loop-IsSorted now jobs [] ready d h = (tt, h)
mature_loop-IsSorted now jobs (e ∷ rest) ready d h = elim (Bool-cases (leb e.due now)) [
  | inl due ↦ rw due (
      mature_loop-IsSorted now jobs rest (matured now (Dict.get jobs e.id) ready) d.1
        (matured-IsSorted now (Dict.get jobs e.id) ready h))
  | inr early ↦ rw early (d, h)
]

reclaim_one-IsSorted :
    (now i : ℕ) (o : Option JobRecord) (x : Reclaim)
    → IsSorted x.ready
    → IsSorted (reclaim_one now i o x).ready
unfolding reclaim_one
reclaim_one-IsSorted now i none x h = h
reclaim_one-IsSorted now i (some rec) x h =
    ground (arith, push-IsSorted (ready_entry rec) x.ready h)

pub reclaim_loop-IsSorted :
    (now : ℕ) (leases : List TimedEntry) (x : Reclaim)
    → IsSorted leases
    → IsSorted x.ready
    → IsSorted (reclaim_loop now leases x).0 × IsSorted (reclaim_loop now leases x).1.ready
unfolding reclaim_loop
reclaim_loop-IsSorted now [] x l h = (tt, h)
reclaim_loop-IsSorted now (e ∷ rest) x l h = elim (Bool-cases (leb e.due now)) [
  | inl due ↦ rw due (
      reclaim_loop-IsSorted now rest (reclaim_one now e.id (Dict.get x.jobs e.id) x) l.1
        (reclaim_one-IsSorted now e.id (Dict.get x.jobs e.id) x h))
  | inr early ↦ rw early (l, h)
]

-- What is dropped from the front of a heap leaves a heap.
pub next_eligible-IsSorted :
    (now : ℕ) (jobs : Dict ℕ JobRecord) (entries : List ReadyEntry)
    → IsSorted entries
    → IsSorted (next_eligible now jobs entries).1
unfolding next_eligible
next_eligible-IsSorted now jobs [] h = h
next_eligible-IsSorted now jobs (e ∷ rest) h =
    ground (arith, next_eligible-IsSorted now jobs rest h.1)

pub mature_delayed-IsOrdered :
    (now : ℕ) (s : QueueStore) → IsOrdered s → IsOrdered (mature_delayed now s)
unfolding mature_delayed
mature_delayed-IsOrdered now s h =
    let p = mature_loop-IsSorted now s.jobs s.delayed s.ready h.delayed h.ready in
    record { ready = p.1; delayed = p.0; leases = h.leases; done = h.done }

pub reclaim_leases-IsOrdered :
    (now : ℕ) (s : QueueStore) → IsOrdered s → IsOrdered (reclaim_leases now s).0
unfolding reclaim_leases
reclaim_leases-IsOrdered now s h =
    let p =
      reclaim_loop-IsSorted now s.leases (record { jobs = s.jobs; ready = s.ready; changed = [] })
        h.leases h.ready in
    record { ready = p.1; delayed = h.delayed; leases = p.0; done = h.done }

pub write_jobs-IsOrdered :
    (recs : List JobRecord) (s : QueueStore) → IsOrdered s → IsOrdered (write_jobs recs s)
unfolding write_jobs
write_jobs-IsOrdered [] s h = h
write_jobs-IsOrdered (rec ∷ recs) s h =
    write_jobs-IsOrdered recs (write_job rec s)
      (record { ready = h.ready; delayed = h.delayed; leases = h.leases; done = h.done })

pub offer_ready-IsOrdered :
    (now : ℕ) (rec : JobRecord) (s : QueueStore) → IsOrdered s → IsOrdered (offer_ready now rec s)
unfolding offer_ready
offer_ready-IsOrdered now rec s h =
    let ready = push-IsSorted (ready_entry rec) s.ready h.ready in
    let delayed =
      push-IsSorted (record { due = rec.not_before; id = rec.id }) s.delayed h.delayed in
    elim (Bool-cases (ltb now rec.not_before)) [
      | inl later ↦
          rw later (record { ready = h.ready; delayed = delayed; leases = h.leases; done = h.done })
      | inr soon ↦
          rw soon (record { ready = ready; delayed = h.delayed; leases = h.leases; done = h.done })
    ]

pub same_heaps :
    (s t : QueueStore)
    → t.ready ≡ s.ready
    → t.delayed ≡ s.delayed
    → t.leases ≡ s.leases
    → t.done ≡ s.done
    → IsOrdered s
    → IsOrdered t
same_heaps s t r d l e h = record {
  ready = rw r h.ready;
  delayed = rw d h.delayed;
  leases = rw l h.leases;
  done = rw e h.done;
}
