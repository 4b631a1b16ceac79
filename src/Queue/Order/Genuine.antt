-- ===== src/Queue/Order/Genuine.antt =====
-- The entries of the ready heap are those of the jobs that they name: the priority and the sequence
-- number of a job never change, so a stale entry of a job is still the entry of that job.
use istos.Prelude.{
  ℕ, ◌≡◌, refl, inl, inr, Option, none, some, In, List, [], ◌∷◌, number_key, nat_beq_iff, arith,
  Bool-cases, leb,
}
use istos.Dict
use istos.Dict.{Dict, get-set, get-remove}
use istos.Heap
use istos.Heap.{In-push-cases}
use istos.Queue.Job.{JobRecord, ReadyEntry, TimedEntry, ready_entry, ready_order}
use istos.Queue.State.{
  QueueStore, matured, mature_loop, mature_delayed, Reclaim, reclaim_one, reclaim_loop,
  reclaim_leases, lease_lost, write_jobs, write_job,
}
use istos.Queue.Store.{refresh}

-- Each job is filed under its id, and each ready entry of a job is that job's.
pub record Genuine (jobs : Dict ℕ JobRecord) (ready : List ReadyEntry) : Type 0 where
  pub own : (k : ℕ) (r : JobRecord) → Dict.get jobs k ≡ some r → r.id ≡ k
  pub entry :
      (e : ReadyEntry) (r : JobRecord)
      → In e ready
      → Dict.get jobs e.id ≡ some r
      → e ≡ ready_entry r

push-Genuine :
    (jobs : Dict ℕ JobRecord) (ready : List ReadyEntry) (i : ℕ) (rec : JobRecord)
    → Dict.get jobs i ≡ some rec
    → Genuine jobs ready
    → Genuine jobs (Heap.push (ready_entry rec) ready)
push-Genuine jobs ready i rec found g = record {
  own = g.own;
  entry = λ e r m here.
      ground (arith, In-push-cases (ready_entry rec) e ready, g.entry e r, g.own i rec found);
}

-- A new record of a job with its id, priority and sequence number.
set-Genuine :
    (jobs : Dict ℕ JobRecord) (ready : List ReadyEntry) (i : ℕ) (rec new : JobRecord)
    → Dict.get jobs i ≡ some rec
    → ready_entry new ≡ ready_entry rec
    → Genuine jobs ready
    → Genuine (Dict.set jobs i new) ready
set-Genuine jobs ready i rec new found same g = record {
  own = λ k r here.
      ground (arith, get-set jobs i k new, g.own k r, g.own i rec found, nat_beq_iff i k);
  entry = λ e r m here.
      ground (arith, get-set jobs i e.id new, g.entry e r m, g.entry e rec m, nat_beq_iff i e.id);
}

pub tail-Genuine :
    (jobs : Dict ℕ JobRecord) (e : ReadyEntry) (rest : List ReadyEntry)
    → Genuine jobs (e ∷ rest)
    → Genuine jobs rest
tail-Genuine jobs e rest g = record { own = g.own; entry = λ x r m. g.entry x r (inr m) }

matured-Genuine :
    (now i : ℕ) (jobs : Dict ℕ JobRecord) (o : Option JobRecord) (ready : List ReadyEntry)
    → Dict.get jobs i ≡ o
    → Genuine jobs ready
    → Genuine jobs (matured now o ready)
unfolding matured
matured-Genuine now i jobs none ready e g = g
matured-Genuine now i jobs (some rec) ready e g = ground (arith, push-Genuine jobs ready i rec e g)

mature_loop-Genuine :
    (now : ℕ) (jobs : Dict ℕ JobRecord) (delayed : List TimedEntry) (ready : List ReadyEntry)
    → Genuine jobs ready
    → Genuine jobs (mature_loop now jobs delayed ready).1
unfolding mature_loop
mature_loop-Genuine now jobs [] ready g = g
mature_loop-Genuine now jobs (e ∷ rest) ready g = elim (Bool-cases (leb e.due now)) [
  | inl due ↦ rw due (
      mature_loop-Genuine now jobs rest (matured now (Dict.get jobs e.id) ready)
        (matured-Genuine now e.id jobs (Dict.get jobs e.id) ready refl g))
  | inr early ↦ rw early g
]

pub entry-lease_lost :
    (now : ℕ) (rec : JobRecord) → ready_entry (lease_lost now rec) ≡ ready_entry rec
unfolding lease_lost
entry-lease_lost now rec = ground arith

reclaim_one-Genuine :
    (now i : ℕ) (o : Option JobRecord) (x : Reclaim)
    → Dict.get x.jobs i ≡ o
    → Genuine x.jobs x.ready
    → Genuine (reclaim_one now i o x).jobs (reclaim_one now i o x).ready
unfolding reclaim_one
reclaim_one-Genuine now i none x e g = g
reclaim_one-Genuine now i (some rec) x e g =
    let set =
      set-Genuine x.jobs x.ready i rec (lease_lost now rec) e (entry-lease_lost now rec) g in
    let pushed =
      set-Genuine x.jobs (Heap.push (ready_entry rec) x.ready) i rec (lease_lost now rec) e
        (entry-lease_lost now rec) (push-Genuine x.jobs x.ready i rec e g) in
    ground (arith, set, pushed, g)

reclaim_loop-Genuine :
    (now : ℕ) (leases : List TimedEntry) (x : Reclaim)
    → Genuine x.jobs x.ready
    → Genuine (reclaim_loop now leases x).1.jobs (reclaim_loop now leases x).1.ready
unfolding reclaim_loop
reclaim_loop-Genuine now [] x g = g
reclaim_loop-Genuine now (e ∷ rest) x g = elim (Bool-cases (leb e.due now)) [
  | inl due ↦ rw due (
      reclaim_loop-Genuine now rest (reclaim_one now e.id (Dict.get x.jobs e.id) x)
        (reclaim_one-Genuine now e.id (Dict.get x.jobs e.id) x refl g))
  | inr early ↦ rw early g
]

write_jobs-Genuine :
    (recs : List JobRecord) (s : QueueStore)
    → Genuine s.jobs s.ready
    → Genuine (write_jobs recs s).jobs (write_jobs recs s).ready
unfolding write_jobs
write_jobs-Genuine [] s g = g
write_jobs-Genuine (rec ∷ recs) s g = write_jobs-Genuine recs (write_job rec s) g

pub refresh-Genuine :
    (now : ℕ) (s : QueueStore)
    → Genuine s.jobs s.ready
    → Genuine (refresh now s).jobs (refresh now s).ready
unfolding refresh mature_delayed reclaim_leases
refresh-Genuine now s g =
    write_jobs-Genuine (reclaim_leases now (mature_delayed now s)).1
      (reclaim_leases now (mature_delayed now s)).0
      (reclaim_loop-Genuine now s.leases
        (record { jobs = s.jobs; ready = (mature_delayed now s).ready; changed = [] })
        (mature_loop-Genuine now s.jobs s.delayed s.ready g))
