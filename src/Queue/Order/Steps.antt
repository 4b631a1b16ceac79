-- ===== src/Queue/Order/Steps.antt =====
-- Every operation of `QueueStore` (src/istos/queue/store.py) keeps the heaps sorted.
use istos.Prelude.{
  ℕ, suc, ◌+◌, refl, inl, inr, ◌&&◌, Option, none, some, List, [], ◌∷◌, number_key, Bool-cases, leb,
  max, map, keep_if,
}
use istos.Dict
use istos.Dict.{Dict}
use istos.Heap
use istos.Heap.{IsSorted, push-IsSorted}
use istos.Queue.Job.{JobState, JobRecord, TimedEntry, timed_order, ready_order, Bytes, state_beq}
use istos.Queue.Disk.{Disk, next_fault}
use istos.Queue.State.{
  QueueStore, Config, init, mature_delayed, reclaim_leases, write_jobs, forget, add_id,
}
use istos.Queue.Store.{
  Enqueue, add, new_job, next_eligible, hand_out, refresh, claim, ack, ack_found, ack_held,
  holds_lease, Nack, nack, nack_found, nack_held, retried,
}
use istos.Queue.Upkeep.{
  drop_result, purge_done, forget_all, purge_dead, purge_chords, sweep, dead_expired, into_heap,
  restore, load_jobs, load_from, load, or_empty,
}
use istos.Queue.Schedule.{Op, adds, claims, acks, nacks, sweeps, loads, step, run}
use istos.Queue.Order.Sorted.{
  IsOrdered, next_eligible-IsSorted, mature_delayed-IsOrdered, reclaim_leases-IsOrdered,
  write_jobs-IsOrdered, offer_ready-IsOrdered, same_heaps,
}

-- The done heap alone is pushed to.
push_done-IsOrdered :
    (e : TimedEntry) (s : QueueStore)
    → IsOrdered s
    → IsOrdered (record s { done = Heap.push e s.done })
push_done-IsOrdered e s h = record {
  ready = h.ready;
  delayed = h.delayed;
  leases = h.leases;
  done = push-IsSorted e s.done h.done;
}

push_leases-IsOrdered :
    (e : TimedEntry) (s : QueueStore)
    → IsOrdered s
    → IsOrdered (record s { leases = Heap.push e s.leases })
push_leases-IsOrdered e s h = record {
  ready = h.ready;
  delayed = h.delayed;
  leases = push-IsSorted e s.leases h.leases;
  done = h.done;
}

add-IsOrdered : (q : Enqueue) (s : QueueStore) → IsOrdered s → IsOrdered (add q s).0
unfolding add
add-IsOrdered q s h =
    let filed : QueueStore = record s {
      seq = suc s.seq;
      jobs = Dict.set s.jobs q.fresh_id (new_job q (suc s.seq));
      ids = add_id q.fresh_id s.ids;
    } in
    let offered =
      offer_ready-IsOrdered q.offered (new_job q (suc s.seq)) filed
        (same_heaps s filed refl refl refl refl h) in
    record {
      ready = offered.ready;
      delayed = offered.delayed;
      leases = offered.leases;
      done = offered.done;
    }

pub refresh-IsOrdered : (now : ℕ) (s : QueueStore) → IsOrdered s → IsOrdered (refresh now s)
unfolding refresh
refresh-IsOrdered now s h =
    write_jobs-IsOrdered (reclaim_leases now (mature_delayed now s)).1
      (reclaim_leases now (mature_delayed now s)).0
      (reclaim_leases-IsOrdered now (mature_delayed now s) (mature_delayed-IsOrdered now s h))

hand_out-IsOrdered :
    (now lease_s : ℕ) (s : QueueStore) (found : Option (ℕ × JobRecord))
    → IsOrdered s
    → IsOrdered (hand_out now lease_s s found).0
unfolding hand_out
hand_out-IsOrdered now lease_s s none h = h
hand_out-IsOrdered now lease_s s (some (i, rec)) h =
    let pushed = push_leases-IsOrdered (record { due = now + lease_s; id = rec.id }) s h in
    record {
      ready = pushed.ready;
      delayed = pushed.delayed;
      leases = pushed.leases;
      done = pushed.done;
    }

claim-IsOrdered :
    (now lease_s : ℕ) (s : QueueStore) → IsOrdered s → IsOrdered (claim now lease_s s).0
unfolding claim
claim-IsOrdered now lease_s s h =
    let fresh = refresh now s in
    let k = refresh-IsOrdered now s h in
    let popped = next_eligible now fresh.jobs fresh.ready in
    hand_out-IsOrdered now lease_s (record fresh { ready = popped.1 }) popped.0
      (record {
        ready = next_eligible-IsSorted now fresh.jobs fresh.ready k.ready;
        delayed = k.delayed;
        leases = k.leases;
        done = k.done;
      })

ack_held-IsOrdered :
    (i now : ℕ) (result : Option Bytes) (rec : JobRecord) (s : QueueStore)
    → IsOrdered s
    → IsOrdered (ack_held i result now rec s)
unfolding ack_held
ack_held-IsOrdered i now result rec s h = elim (Bool-cases s.keep_results) [
  | inl keeps ↦
      let pushed = push_done-IsOrdered (record { due = now + s.result_ttl_s; id = rec.id }) s h in
      rw keeps (record {
        ready = pushed.ready;
        delayed = pushed.delayed;
        leases = pushed.leases;
        done = pushed.done;
      })
  | inr drops ↦
      rw drops (record { ready = h.ready; delayed = h.delayed; leases = h.leases; done = h.done })
]

ack_found-IsOrdered :
    (i now : ℕ) (o : Option JobRecord) (result : Option Bytes) (attempt : Option ℕ) (s : QueueStore)
    → IsOrdered s
    → IsOrdered (ack_found i o result attempt now s).0
unfolding ack_found
ack_found-IsOrdered i now none result attempt s h = h
ack_found-IsOrdered i now (some rec) result attempt s h =
    elim (Bool-cases (holds_lease attempt rec)) [
      | inl holds ↦ rw holds (ack_held-IsOrdered i now result rec s h)
      | inr lost ↦ rw lost h
    ]

nack_held-IsOrdered :
    (i : ℕ) (n : Nack) (rec : JobRecord) (s : QueueStore)
    → IsOrdered s
    → IsOrdered (nack_held i n rec s).0
unfolding nack_held
nack_held-IsOrdered i n rec s h = elim (Bool-cases (leb rec.max_attempts rec.attempts)) [
  | inl last ↦
      rw last (record { ready = h.ready; delayed = h.delayed; leases = h.leases; done = h.done })
  | inr more ↦
      let filed : QueueStore = record s { jobs = Dict.set s.jobs i (retried n rec) } in
      let offered =
        offer_ready-IsOrdered n.offered (retried n rec) filed
          (same_heaps s filed refl refl refl refl h) in
      rw more (record {
        ready = offered.ready;
        delayed = offered.delayed;
        leases = offered.leases;
        done = offered.done;
      })
]

nack_found-IsOrdered :
    (i : ℕ) (o : Option JobRecord) (n : Nack) (s : QueueStore)
    → IsOrdered s
    → IsOrdered (nack_found i o n s).0
unfolding nack_found
nack_found-IsOrdered i none n s h = h
nack_found-IsOrdered i (some rec) n s h = elim (Bool-cases (holds_lease n.attempt rec)) [
  | inl holds ↦ rw holds (nack_held-IsOrdered i n rec s h)
  | inr lost ↦ rw lost h
]

forget_all-IsOrdered : (l : List ℕ) (s : QueueStore) → IsOrdered s → IsOrdered (forget_all l s)
unfolding forget_all forget
forget_all-IsOrdered [] s h = h
forget_all-IsOrdered (i ∷ l) s h =
    forget_all-IsOrdered l (forget i s) (same_heaps s (forget i s) refl refl refl refl h)

drop_result-IsOrdered :
    (now i : ℕ) (o : Option JobRecord) (s : QueueStore)
    → IsOrdered s
    → IsOrdered (drop_result now i o s)
unfolding drop_result forget
drop_result-IsOrdered now i none s h = h
drop_result-IsOrdered now i (some rec) s h =
    elim (Bool-cases
      (state_beq rec.state JobState.done && leb (rec.completed_at + s.result_ttl_s) now)) [
        | inl stale ↦ rw stale (same_heaps s (forget i s) refl refl refl refl h)
        | inr fresh ↦ rw fresh h
      ]

purge_done-IsOrdered :
    (now : ℕ) (entries : List TimedEntry) (s : QueueStore)
    → IsSorted entries
    → IsOrdered s
    → IsOrdered (purge_done now entries s)
unfolding purge_done
purge_done-IsOrdered now [] s e h = record {
  ready = h.ready;
  delayed = h.delayed;
  leases = h.leases;
  done = tt;
}
purge_done-IsOrdered now (x ∷ rest) s e h = elim (Bool-cases (leb x.due now)) [
  | inl due ↦ rw due (
      purge_done-IsOrdered now rest (drop_result now x.id (Dict.get s.jobs x.id) s) e.1
        (drop_result-IsOrdered now x.id (Dict.get s.jobs x.id) s h))
  | inr early ↦
      rw early (record { ready = h.ready; delayed = h.delayed; leases = h.leases; done = e })
]

purge_dead-IsOrdered :
    (now : ℕ) (ttl : Option ℕ) (s : QueueStore) → IsOrdered s → IsOrdered (purge_dead now ttl s)
unfolding purge_dead
purge_dead-IsOrdered now none s h = h
purge_dead-IsOrdered now (some ttl) s h =
    forget_all-IsOrdered
      (map (λ e. e.0) (keep_if (λ e. dead_expired now ttl e.1) (Dict.items s.jobs))) s h

purge_chords-IsOrdered :
    (now : ℕ) (ttl : Option ℕ) (s : QueueStore) → IsOrdered s → IsOrdered (purge_chords now ttl s)
unfolding purge_chords
purge_chords-IsOrdered now none s h = h
purge_chords-IsOrdered now (some ttl) s h = record {
  ready = h.ready;
  delayed = h.delayed;
  leases = h.leases;
  done = h.done;
}

sweep-IsOrdered : (now : ℕ) (s : QueueStore) → IsOrdered s → IsOrdered (sweep now s).0
unfolding sweep
sweep-IsOrdered now s h =
    let back = reclaim_leases now s in
    let written = write_jobs back.1 back.0 in
    let k = write_jobs-IsOrdered back.1 back.0 (reclaim_leases-IsOrdered now s h) in
    let purged = purge_done now written.done written in
    purge_chords-IsOrdered now s.chord_ttl_s (purge_dead now s.dead_letter_ttl_s purged) (
      purge_dead-IsOrdered now s.dead_letter_ttl_s purged
        (purge_done-IsOrdered now written.done written k.done k))

into_heap-IsOrdered :
    (now : ℕ) (rec : JobRecord) (state : JobState) (s : QueueStore)
    → IsOrdered s
    → IsOrdered (into_heap now rec state s)
unfolding into_heap
into_heap-IsOrdered now rec JobState.ready s h = offer_ready-IsOrdered now rec s h
into_heap-IsOrdered now rec JobState.leased s h = push_leases-IsOrdered _ s h
into_heap-IsOrdered now rec JobState.done s h = push_done-IsOrdered _ s h
into_heap-IsOrdered now rec JobState.dead s h = h

restore-IsOrdered :
    (now : ℕ) (o : Option JobRecord) (s : QueueStore) → IsOrdered s → IsOrdered (restore now o s)
unfolding restore
restore-IsOrdered now none s h = h
restore-IsOrdered now (some rec) s h =
    let filed : QueueStore = record s {
      jobs = Dict.set s.jobs rec.id rec;
      ids = add_id rec.id s.ids;
      seq = max s.seq rec.seq;
    } in
    into_heap-IsOrdered now rec rec.state filed (same_heaps s filed refl refl refl refl h)

load_jobs-IsOrdered :
    (now : ℕ) (l : List ℕ) (d : Disk) (s : QueueStore)
    → IsOrdered s
    → IsOrdered (load_jobs now l d s)
unfolding load_jobs
load_jobs-IsOrdered now [] d s h = record {
  ready = h.ready;
  delayed = h.delayed;
  leases = h.leases;
  done = h.done;
}
load_jobs-IsOrdered now (i ∷ l) d s h = elim (Bool-cases (next_fault d).0) [
  | inl raised ↦
      rw raised (record { ready = h.ready; delayed = h.delayed; leases = h.leases; done = h.done })
  | inr read ↦ rw read (
      load_jobs-IsOrdered now l (next_fault d).1 (restore now (Dict.get d.cells i) s)
        (restore-IsOrdered now (Dict.get d.cells i) s h))
]

load_from-IsOrdered :
    (now : ℕ) (o : Option Disk) (s : QueueStore) → IsOrdered s → IsOrdered (load_from now o s)
unfolding load_from
load_from-IsOrdered now none s h = h
load_from-IsOrdered now (some d) s h = elim (Bool-cases (next_fault d).0) [
  | inl raised ↦
      rw raised (record { ready = h.ready; delayed = h.delayed; leases = h.leases; done = h.done })
  | inr read ↦ rw read (load_jobs-IsOrdered now (or_empty d.index) (next_fault d).1 s h)
]

step-IsOrdered : (s : QueueStore) (op : Op) → IsOrdered s → IsOrdered (step s op)
unfolding step ack nack load
step-IsOrdered s (adds q) h = add-IsOrdered q s h
step-IsOrdered s (claims now lease_s) h = claim-IsOrdered now lease_s s h
step-IsOrdered s (acks i result attempt now) h = ack_found-IsOrdered i now _ result attempt s h
step-IsOrdered s (nacks i n) h = nack_found-IsOrdered i _ n s h
step-IsOrdered s (sweeps now) h = sweep-IsOrdered now s h
step-IsOrdered s (loads now) h = load_from-IsOrdered now s.storage s h

pub run-IsOrdered : (ops : List Op) (s : QueueStore) → IsOrdered s → IsOrdered (run s ops)
unfolding run
run-IsOrdered [] s h = h
run-IsOrdered (op ∷ ops) s h = run-IsOrdered ops (step s op) (step-IsOrdered s op h)

pub init-IsOrdered : (c : Config) (storage : Option Disk) → IsOrdered (init c storage)
unfolding init
init-IsOrdered c storage = record { ready = tt; delayed = tt; leases = tt; done = tt }
