-- ===== src/Queue/Store.antt =====
-- The operations of `QueueStore` (src/istos/queue/store.py) on jobs. Each reading of the clock is
-- an argument, in the order in which the source reads it.
use istos.Prelude.{
  ℕ, suc, zero, ◌+◌, Bool, true, false, ◌&&◌, Option, none, some, List, [], ◌∷◌, String, leb,
  if◌then◌else◌, number_key, text_key, ◌==◌, ℤ, pos, negsuc,
}
use istos.Dict
use istos.Dict.{Dict}
use istos.Heap
use istos.Queue.Job.{JobState, JobRecord, ReadyEntry, ready_order, timed_order, state_beq, Bytes}
use istos.Queue.State.{
  QueueStore, add_id, offer_ready, mature_delayed, reclaim_leases, write_job, write_jobs,
  write_index, forget,
}

-- `now + delay if delay > 0 else 0.0`
unfoldable pub due_after : ℕ → ℤ → ℕ
due_after now (pos zero) = 0
due_after now (pos (suc n)) = now + suc n
due_after now (negsuc n) = 0

-- The arguments of `add`, and what it reads outside the store: the id that uuid4 gives and the
-- clock, for the due time, for `enqueued_at` and in `_offer_ready`.
pub record Enqueue : Type 0 where
  pub body : Bytes
  pub max_attempts : ℕ
  pub priority : ℤ
  pub delay_s : ℤ
  pub wf : Option String
  pub correlation_id : Option String
  pub traceparent : Option String
  pub fresh_id : ℕ
  pub now : ℕ
  pub created : ℕ
  pub offered : ℕ

unfoldable pub new_job : Enqueue → ℕ → JobRecord
unfolding due_after
new_job q seq = record {
  id = q.fresh_id;
  body = q.body;
  state = JobState.ready;
  attempts = 0;
  max_attempts = q.max_attempts;
  enqueued_at = q.created;
  lease_until = 0;
  not_before = due_after q.now q.delay_s;
  priority = q.priority;
  seq = seq;
  last_error = none;
  result = none;
  completed_at = 0;
  wf = q.wf;
  correlation_id = q.correlation_id;
  traceparent = q.traceparent;
}

unfoldable pub add : Enqueue → QueueStore → QueueStore × ℕ
unfolding new_job write_job write_index
add q s =
    let rec = new_job q (suc s.seq) in
    let filed : QueueStore = record s {
      seq = suc s.seq;
      jobs = Dict.set s.jobs rec.id rec;
      ids = add_id rec.id s.ids;
    } in
    (write_index (write_job rec (offer_ready q.offered rec filed)), rec.id)

-- The test on the entry popped in `claim`: the rest are tombstones.
unfoldable pub eligible : ℕ → Option JobRecord → Bool
eligible now none = false
eligible now (some rec) = state_beq rec.state JobState.ready && leb rec.not_before now

found_at : ℕ → Option JobRecord → Option (ℕ × JobRecord)
found_at job_id none = none
found_at job_id (some rec) = some (job_id, rec)

-- `while self._ready`: pop until an entry is eligible.
unfoldable pub next_eligible :
    ℕ → Dict ℕ JobRecord → List ReadyEntry → Option (ℕ × JobRecord) × List ReadyEntry
unfolding eligible found_at
next_eligible now jobs [] = (none, [])
next_eligible now jobs (e ∷ rest) =
    let popped = next_eligible now jobs rest in
    if eligible now (Dict.get jobs e.id) then (found_at e.id (Dict.get jobs e.id), rest) else popped

unfoldable pub lease : ℕ → ℕ → JobRecord → JobRecord
lease now lease_s rec = record rec {
  state = JobState.leased;
  attempts = suc rec.attempts;
  lease_until = now + lease_s;
}

unfoldable pub hand_out :
    ℕ → ℕ → QueueStore → Option (ℕ × JobRecord) → QueueStore × Option JobRecord
unfolding lease write_job
hand_out now lease_s s none = (s, none)
hand_out now lease_s s (some (job_id, rec)) =
    let taken = lease now lease_s rec in
    (
      write_job taken (record s {
        jobs = Dict.set s.jobs job_id taken;
        leases = Heap.push (record { due = taken.lease_until; id = taken.id }) s.leases;
      }),
      some taken,
    )

-- The first lines of `claim`: delayed jobs mature and lost leases come back.
unfoldable pub refresh : ℕ → QueueStore → QueueStore
refresh now s =
    let (reclaimed, changed) = reclaim_leases now (mature_delayed now s) in
    write_jobs changed reclaimed

unfoldable pub claim : ℕ → ℕ → QueueStore → QueueStore × Option JobRecord
unfolding next_eligible hand_out refresh
claim now lease_s s =
    let fresh = refresh now s in
    let (found, rest) = next_eligible now fresh.jobs fresh.ready in
    hand_out now lease_s (record fresh { ready = rest }) found

-- `_holds_lease`: the token is absent, or the attempt number of the delivery that is out.
unfoldable pub holds_lease : Option ℕ → JobRecord → Bool
holds_lease none rec = state_beq rec.state JobState.leased
holds_lease (some attempt) rec = state_beq rec.state JobState.leased && rec.attempts == attempt

unfoldable pub finished : Option Bytes → ℕ → JobRecord → JobRecord
finished result now rec = record rec {
  state = JobState.done;
  result = result;
  completed_at = now;
  lease_until = 0;
}

unfoldable pub ack_held : ℕ → Option Bytes → ℕ → JobRecord → QueueStore → QueueStore
unfolding finished write_job forget
ack_held job_id result now rec s =
    if s.keep_results
    then write_job (finished result now rec) (record s {
      jobs = Dict.set s.jobs job_id (finished result now rec);
      done = Heap.push (record { due = now + s.result_ttl_s; id = rec.id }) s.done;
    })
    else forget job_id s

unfoldable pub ack_found :
    ℕ → Option JobRecord → Option Bytes → Option ℕ → ℕ → QueueStore → QueueStore × Bool
unfolding ack_held holds_lease
ack_found job_id none result attempt now s = (s, false)
ack_found job_id (some rec) result attempt now s =
    if holds_lease attempt rec then (ack_held job_id result now rec s, true) else (s, false)

unfoldable pub ack : ℕ → Option Bytes → Option ℕ → ℕ → QueueStore → QueueStore × Bool
unfolding ack_found
ack job_id result attempt now s = ack_found job_id (Dict.get s.jobs job_id) result attempt now s

pub data Disposition : Type 0 where
  requeued buried : Disposition

-- `now` is the clock for `completed_at` or for the due time, `offered` the one of `_offer_ready`.
pub record Nack : Type 0 where
  pub error : Option String
  pub retry_delay_s : ℤ
  pub attempt : Option ℕ
  pub now : ℕ
  pub offered : ℕ

unfoldable pub dead_lettered : Nack → JobRecord → JobRecord
dead_lettered n rec = record rec {
  last_error = n.error;
  state = JobState.dead;
  completed_at = n.now;
}

unfoldable pub retried : Nack → JobRecord → JobRecord
unfolding due_after
retried n rec = record rec {
  last_error = n.error;
  state = JobState.ready;
  lease_until = 0;
  not_before = due_after n.now n.retry_delay_s;
}

unfoldable pub nack_held : ℕ → Nack → JobRecord → QueueStore → QueueStore × Disposition
unfolding dead_lettered retried write_job
nack_held job_id n rec s =
    if leb rec.max_attempts rec.attempts
    then (
      write_job (dead_lettered n rec)
          (record s { jobs = Dict.set s.jobs job_id (dead_lettered n rec) }),
      buried,
    )
    else (
      write_job (retried n rec) (
          offer_ready n.offered (retried n rec)
            (record s { jobs = Dict.set s.jobs job_id (retried n rec) })),
      requeued,
    )

unfoldable pub nack_found :
    ℕ → Option JobRecord → Nack → QueueStore → QueueStore × Option Disposition
unfolding nack_held holds_lease
nack_found job_id none n s = (s, none)
nack_found job_id (some rec) n s =
    let (after, disposition) = nack_held job_id n rec s in
    if holds_lease n.attempt rec then (after, some disposition) else (s, none)

unfoldable pub nack : ℕ → Nack → QueueStore → QueueStore × Option Disposition
unfolding nack_found
nack job_id n s = nack_found job_id (Dict.get s.jobs job_id) n s
