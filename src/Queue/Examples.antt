-- ===== src/Queue/Examples.antt =====
-- Tests of the queue's operations (src/istos/queue/store.py), and its theorems at concrete stores.
use istos.Prelude.{
  ℕ, ◌+◌, ◌≤◌, ◌≡◌, ◌≢◌, inr, refl, ◌⊎◌, true, false, none, some, List, [], ◌∷◌, number_key,
  text_key, arith, ℤ, pos, ◌<◌, Option, String, In, length, get_elem?,
}
use istos.Dict
use istos.Dict.{Dict}
use istos.Heap
use istos.Queue.Job.{JobState, JobRecord, ready_le, timed_le}
use istos.Queue.Disk.{Disk}
use istos.Queue.State.{
  QueueStore, Config, init, offer_ready, mature_delayed, reclaim_leases, write_jobs,
}
use istos.Queue.Store.{Enqueue, add, new_job, claim, ack, Nack, nack, lease, refresh}
use istos.Queue.Schedule.{Op, adds, claims, acks, sweeps, step, run}
use istos.Queue.Live.Defs.{IsLive}
use istos.Queue.Live.Loops.{Tracked}
use istos.Queue.Live.Run.{run-IsLive, init-IsLive}
use istos.Queue.Live.Kept.{Acked, no_job_lost}
use istos.Queue.Lifecycle.Moves.{Moves}
use istos.Queue.Lifecycle.Delivered.{deliveries, delivered_within}
use istos.Queue.Lifecycle.Fencing.{ack_accepts_current, ack_once, stale_refused}
use istos.Queue.Order.Sorted.{IsOrdered}
use istos.Queue.Order.Steps.{run-IsOrdered, init-IsOrdered}
use istos.Queue.Order.Genuine.{Genuine}
use istos.Queue.Chord.{waiting, complete, report}
use istos.Queue.Chord.Barrier.{member, reports, barrier_fires, one_member_refires}
use istos.Queue.Order.Serving.{Serves, claim-Serves}

abbrev config : Config
config = record {
  keep_results = true;
  result_ttl_s = 3600;
  dead_letter_ttl_s = some 604800;
  chord_ttl_s = some 86400;
}

abbrev empty_disk : Disk
empty_disk = record { cells = Dict.empty; index = none; faults = [] }

abbrev start : QueueStore
start = init config (some empty_disk)

abbrev request : ℕ → ℤ → ℤ → Enqueue
request id priority delay = record {
  body = 123 ∷ 125 ∷ [];
  max_attempts = 2;
  priority = priority;
  delay_s = delay;
  wf = none;
  correlation_id = none;
  traceparent = none;
  fresh_id = id;
  now = 100;
  created = 100;
  offered = 100;
}

-- Two jobs, the second with the higher priority and due at once.
abbrev two_jobs : List Op
two_jobs = adds (request 7 (pos 0) (pos 0)) ∷ adds (request 8 (pos 5) (pos 0)) ∷ []

abbrev job : ℕ → JobRecord
job id = new_job (request id (pos 0) (pos 0)) 1

two_jobs-IsLive : IsLive 100 (run start two_jobs)
two_jobs-IsLive = run-IsLive two_jobs 0 start (omega arith) (init-IsLive config (some empty_disk) 0)

two_jobs-IsOrdered : IsOrdered (run start two_jobs)
two_jobs-IsOrdered = run-IsOrdered two_jobs start (init-IsOrdered config (some empty_disk))

filed : Dict.get (run start two_jobs).jobs 7 ≡ some (job 7)
unfolding run step add new_job init offer_ready Dict.get Dict.set Heap.push ready_le
filed = refl

-- A queue that keeps its dead letters, and the life of a job in it: a lease that is lost, and a second
-- one, while another job is filed and acknowledged.
abbrev keeping : QueueStore
keeping = init (record config { dead_letter_ttl_s = none }) (some empty_disk)

abbrev life : List Op
life =
    claims 100 30
    ∷ adds (request 8 (pos 5) (pos 0))
    ∷ sweeps 140
    ∷ claims 141 30
    ∷ acks 8 none (some 1) 142
    ∷ claims 143 30
    ∷ []

abbrev one_job : List Op
one_job = adds (request 7 (pos 0) (pos 0)) ∷ []

one_job-IsLive : IsLive 100 (run keeping one_job)
one_job-IsLive =
    run-IsLive one_job 0 keeping (omega arith)
      (init-IsLive (record config { dead_letter_ttl_s = none }) (some empty_disk) 0)

no_job_lost_example :
    let s = run (run keeping one_job) life in
    Acked 7 (run keeping one_job) life
    ⊎ ((u : JobRecord) × (Dict.get s.jobs 7 ≡ some u)
        × (u.wf ≡ none)
        × (u.state ≢ JobState.done)
        × Tracked 143 s.ready s.delayed s.leases 7 u)
unfolding new_job
no_job_lost_example =
    no_job_lost life 100 (run keeping one_job) 7 none (ground arith) one_job-IsLive
      (unfold run step add init offer_ready in refl) (ground arith)
      (job 7, filed, refl, λ e. absurd (ground (arith, e)))
  where
    filed : Dict.get (run keeping one_job).jobs 7 ≡ some (job 7)
    filed =
        unfold run step add new_job init offer_ready Dict.get Dict.set Heap.push ready_le in refl

abbrev best : JobRecord
best = new_job (request 8 (pos 5) (pos 0)) 2

-- The store after the better job has been handed out, and the list that a test has to unfold.
leased_store : QueueStore
unfolding run step add new_job init offer_ready claim ack nack Dict.get Dict.set Dict.items
    Heap.push ready_le timed_le refresh mature_delayed reclaim_leases write_jobs lease
leased_store =
    run start
      (adds (request 7 (pos 0) (pos 0)) ∷ adds (request 8 (pos 5) (pos 0)) ∷ claims 101 30 ∷ [])

claimed : (claim 101 30 (run start two_jobs)).1 ≡ some (lease 101 30 best)
unfolding leased_store
claimed = refl

held : Dict.get leased_store.jobs 8 ≡ some (lease 101 30 best)
unfolding leased_store
held = refl

two_jobs-Genuine : Genuine (run start two_jobs).jobs (run start two_jobs).ready
unfolding leased_store
two_jobs-Genuine = record {
  own = λ k r here. (two_jobs-IsLive k r here).0;
  entry = λ e r m here. ground arith;
}

claim-Serves_example : Serves 101 30 (run start two_jobs).jobs (claim 101 30 (run start two_jobs)).1
claim-Serves_example =
    claim-Serves 100 101 30 (run start two_jobs) (omega arith) two_jobs-IsLive two_jobs-IsOrdered
      two_jobs-Genuine

-- The second job is handed out, loses its lease, and is handed out for the last time.
abbrev deliveries_twice : List Op
deliveries_twice = claims 101 30 ∷ claims 140 30 ∷ claims 200 30 ∷ []

delivered_within_example : deliveries 8 deliveries_twice (run start two_jobs) + best.attempts ≤ 2
unfolding new_job
delivered_within_example =
    delivered_within 8 deliveries_twice (run start two_jobs) best (ground arith)
      (λ k r found. (two_jobs-IsLive k r found).0) there
      (record { left = λ waits. omega arith; spent = omega arith })
  where
    there : Dict.get (run start two_jobs).jobs 8 ≡ some best
    there =
        unfold run step add new_job init offer_ready Dict.get Dict.set Heap.push ready_le in refl

-- Another job is filed while the worker runs.
abbrev meanwhile : List Op
meanwhile = adds (request 9 (pos 0) (pos 0)) ∷ []

ack_accepts_current_example :
    Dict.get (run leased_store meanwhile).jobs 8 ≡ some (lease 101 30 best)
unfolding leased_store
ack_accepts_current_example =
    ack_accepts_current meanwhile leased_store 8 102 (lease 101 30 best) none refl refl
      (omega arith) refl

ack_once_example :
    (ack 8 none none 104 (run (ack 8 none (some 1) 103 leased_store).0 meanwhile)).1 ≡ false
unfolding leased_store
ack_once_example =
    ack_once meanwhile leased_store 8 103 104 none none (some 1) none (ground arith) refl

abbrev failure : ℕ → Nack
failure attempt = record {
  error = some "boom";
  retry_delay_s = pos 10;
  attempt = some attempt;
  now = 103;
  offered = 103;
}

stale_refused_example :
    (ack 8 none (some 0) 103 leased_store ≡ (leased_store, false))
    × (nack 8 (failure 0) leased_store ≡ (leased_store, none))
stale_refused_example =
    stale_refused 8 103 (some 0) none (failure 0) leased_store refl
      λ rec found. inr (unfold leased_store in ground (arith, found))

abbrev three : ℕ
three = 3

-- The results of a chord of three, the last of the first two reports first.
abbrev two_reports : List (ℕ × Option String)
two_reports = (0, some "a") ∷ (2, some "c") ∷ []

barrier_fires_example :
    let out =
      report "chord" 10 (member 3 (1, some "b")) (reports "chord" 10 3 two_reports Dict.empty) in
    (three < 3 → out.1 ≡ waiting)
    × (three ≡ 3
        → (rs : List (Option String)) × (out.1 ≡ complete rs)
          × (length rs ≡ 3)
          × ((i : ℕ) (r : Option String)
              → In (i, r) ((1, some "b") ∷ two_reports)
              → get_elem? rs i ≡ some r)
          × (Dict.get out.0 "chord" ≡ none))
barrier_fires_example =
    barrier_fires "chord" 10 3 (1, some "b") two_reports Dict.empty (Dict.get-empty "chord")
      (
        omega arith,
        λ r q. ground (arith, q),
        (omega arith, λ r q. ground (arith, q), (omega arith, λ r q. q, tt)),
      )

one_member_refires_example :
    let first = report "chord" 10 (member 1 (0, some "a")) Dict.empty in
    (first.1 ≡ complete (some "a" ∷ []))
    × ((report "chord" 20 (member 1 (0, some "b")) first.0).1 ≡ complete (some "b" ∷ []))
one_member_refires_example =
    one_member_refires "chord" 10 20 (some "a") (some "b") Dict.empty (Dict.get-empty "chord")
