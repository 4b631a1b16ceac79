-- ===== src/Queue/Live/Purges.antt =====
-- The other operations of `QueueStore` keep every job tracked: `add`, `ack`, `nack`, `sweep`, `load`.
use istos.Prelude.{
  ℕ, suc, ◌≤◌, ◌≡◌, refl, inl, inr, Option, none, some, List, [], ◌∷◌, number_key, arith,
  Bool-cases, leb, max, map, keep_if,
}
use istos.Dict
use istos.Dict.{Dict, get-set}
use istos.Queue.Job.{JobState, JobRecord, TimedEntry, Bytes}
use istos.Queue.Disk.{Disk, next_fault}
use istos.Queue.State.{QueueStore, forget, reclaim_leases, add_id}
use istos.Queue.Store.{
  Enqueue, add, new_job, ack, ack_found, finished, holds_lease, Nack, nack, nack_found, nack_held,
  retried, dead_lettered,
}
use istos.Queue.Upkeep.{
  dead_expired, drop_result, purge_done, forget_all, purge_dead, sweep, load, load_from, load_jobs,
  restore, into_heap, purge_chords, or_empty,
}
use istos.Queue.Live.Defs.{
  IsLive, IsLive-later, forget-IsLive, offer_ready-IsLive, settle-IsLive, lease-IsLive,
  reclaim_leases-IsLive, write_jobs-IsLive,
}

pub add-IsLive :
    (clock : ℕ) (q : Enqueue) (s : QueueStore)
    → clock ≤ q.offered
    → IsLive clock s
    → IsLive q.offered (add q s).0
unfolding add
add-IsLive clock q s le live =
    offer_ready-IsLive clock q.offered (new_job q (suc s.seq))
      (record s { seq = suc s.seq; ids = add_id q.fresh_id s.ids }) le refl live

pub ack-IsLive :
    (clock job_id now : ℕ) (result : Option Bytes) (attempt : Option ℕ) (s : QueueStore)
    → IsLive clock s
    → IsLive clock (ack job_id result attempt now s).0
unfolding ack
ack-IsLive clock job_id now result attempt s live = held (Dict.get s.jobs job_id) refl
  where
    held :
        (o : Option JobRecord)
        → Dict.get s.jobs job_id ≡ o
        → IsLive clock (ack_found job_id o result attempt now s).0
    held none e = live
    held (some rec) e = λ k r found. ground (
      arith,
      live k r,
      live job_id rec e,
      get-set s.jobs job_id k (finished result now rec),
      forget-IsLive clock job_id s live k r,
    )

-- What `nack` writes under a job's id is tracked, on both branches.
nack_held-IsLive :
    (clock job_id : ℕ) (n : Nack) (rec : JobRecord) (s : QueueStore)
    → clock ≤ n.offered
    → rec.id ≡ job_id
    → IsLive clock s
    → IsLive n.offered (nack_held job_id n rec s).0
unfolding nack_held
nack_held-IsLive clock job_id n rec s le own live =
    elim (Bool-cases (leb rec.max_attempts rec.attempts)) [
      | inl last ↦
          rw (last, ← own)
            (settle-IsLive n.offered (dead_lettered n rec) s (inr refl)
              (IsLive-later clock n.offered s le live))
      | inr more ↦
          rw (more, ← own) (offer_ready-IsLive clock n.offered (retried n rec) s le refl live)
    ]

pub nack-IsLive :
    (clock job_id : ℕ) (n : Nack) (s : QueueStore)
    → clock ≤ n.offered
    → IsLive clock s
    → IsLive n.offered (nack job_id n s).0
unfolding nack
nack-IsLive clock job_id n s le live = held (Dict.get s.jobs job_id) refl
  where
    later : IsLive n.offered s
    later = IsLive-later clock n.offered s le live

    held :
        (o : Option JobRecord)
        → Dict.get s.jobs job_id ≡ o
        → IsLive n.offered (nack_found job_id o n s).0
    held none e = later
    held (some rec) e = elim (Bool-cases (holds_lease n.attempt rec)) [
      | inl holds ↦
          rw (holds, nack_found)
            (nack_held-IsLive clock job_id n rec s le (live job_id rec e).0 live)
      | inr lost ↦ rw (lost, nack_found) later
    ]

forget_all-IsLive :
    (clock : ℕ) (l : List ℕ) (s : QueueStore) → IsLive clock s → IsLive clock (forget_all l s)
unfolding forget_all
forget_all-IsLive clock [] s live = live
forget_all-IsLive clock (i ∷ l) s live =
    forget_all-IsLive clock l (forget i s) (forget-IsLive clock i s live)

drop_result-IsLive :
    (clock now job_id : ℕ) (o : Option JobRecord) (s : QueueStore)
    → IsLive clock s
    → IsLive clock (drop_result now job_id o s)
unfolding drop_result
drop_result-IsLive clock now job_id none s live = live
drop_result-IsLive clock now job_id (some rec) s live =
    λ k r found. ground (arith, live k r, forget-IsLive clock job_id s live k r)

purge_done-IsLive :
    (clock now : ℕ) (entries : List TimedEntry) (s : QueueStore)
    → IsLive clock s
    → IsLive clock (purge_done now entries s)
unfolding purge_done
purge_done-IsLive clock now [] s live = live
purge_done-IsLive clock now (e ∷ rest) s live = elim (Bool-cases (leb e.due now)) [
  | inl due ↦ rw due (
      purge_done-IsLive clock now rest (drop_result now e.id (Dict.get s.jobs e.id) s)
        (drop_result-IsLive clock now e.id (Dict.get s.jobs e.id) s live))
  | inr early ↦ rw early live
]

purge_dead-IsLive :
    (clock now : ℕ) (ttl : Option ℕ) (s : QueueStore)
    → IsLive clock s
    → IsLive clock (purge_dead now ttl s)
unfolding purge_dead
purge_dead-IsLive clock now none s live = live
purge_dead-IsLive clock now (some ttl) s live =
    forget_all-IsLive clock
      (map (λ e. e.0) (keep_if (λ e. dead_expired now ttl e.1) (Dict.items s.jobs))) s live

purge_chords-IsLive :
    (clock now : ℕ) (ttl : Option ℕ) (s : QueueStore)
    → IsLive clock s
    → IsLive clock (purge_chords now ttl s)
unfolding purge_chords
purge_chords-IsLive clock now none s live = live
purge_chords-IsLive clock now (some ttl) s live = live

pub sweep-IsLive :
    (clock now : ℕ) (s : QueueStore) → clock ≤ now → IsLive clock s → IsLive now (sweep now s).0
unfolding sweep
sweep-IsLive clock now s le live = purge_chords-IsLive now now s.chord_ttl_s _ (
    purge_dead-IsLive now now s.dead_letter_ttl_s _ (
      purge_done-IsLive now now _ _ (
        write_jobs-IsLive now (reclaim_leases now s).1 (reclaim_leases now s).0
          (reclaim_leases-IsLive now s (IsLive-later clock now s le live)))))

into_heap-IsLive :
    (now : ℕ) (rec : JobRecord) (state : JobState) (s : QueueStore)
    → rec.state ≡ state
    → IsLive now s
    → IsLive now (into_heap now rec state (record s { jobs = Dict.set s.jobs rec.id rec }))
unfolding into_heap
into_heap-IsLive now rec JobState.ready s e live =
    offer_ready-IsLive now now rec s (omega arith) e live
into_heap-IsLive now rec JobState.leased s e live = lease-IsLive now rec s e live
into_heap-IsLive now rec JobState.done s e live = settle-IsLive now rec s (inl e) live
into_heap-IsLive now rec JobState.dead s e live = settle-IsLive now rec s (inr e) live

restore-IsLive :
    (now : ℕ) (o : Option JobRecord) (s : QueueStore) → IsLive now s → IsLive now (restore now o s)
unfolding restore
restore-IsLive now none s live = live
restore-IsLive now (some rec) s live =
    into_heap-IsLive now rec rec.state
      (record s { ids = add_id rec.id s.ids; seq = max s.seq rec.seq }) refl live

load_jobs-IsLive :
    (now : ℕ) (l : List ℕ) (d : Disk) (s : QueueStore)
    → IsLive now s
    → IsLive now (load_jobs now l d s)
unfolding load_jobs
load_jobs-IsLive now [] d s live = live
load_jobs-IsLive now (i ∷ l) d s live = elim (Bool-cases (next_fault d).0) [
  | inl raised ↦ rw raised live
  | inr read ↦ rw read (
      load_jobs-IsLive now l (next_fault d).1 (restore now (Dict.get d.cells i) s)
        (restore-IsLive now (Dict.get d.cells i) s live))
]

load_from-IsLive :
    (now : ℕ) (o : Option Disk) (s : QueueStore) → IsLive now s → IsLive now (load_from now o s)
unfolding load_from
load_from-IsLive now none s live = live
load_from-IsLive now (some d) s live = elim (Bool-cases (next_fault d).0) [
  | inl raised ↦ rw raised live
  | inr read ↦ rw read (load_jobs-IsLive now (or_empty d.index) (next_fault d).1 s live)
]

pub load-IsLive :
    (clock now : ℕ) (s : QueueStore) → clock ≤ now → IsLive clock s → IsLive now (load now s)
unfolding load
load-IsLive clock now s le live =
    load_from-IsLive now s.storage s (IsLive-later clock now s le live)
