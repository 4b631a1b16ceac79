-- ===== src/Queue/Upkeep.antt =====
-- The sweep, the recovery from storage and the reads of `QueueStore` (src/istos/queue/store.py).
use istos.Prelude.{
  ℕ, ◌+◌, max, Bool, ◌&&◌, not, Option, none, some, List, [], ◌∷◌, String, leb, if◌then◌else◌,
  number_key, text_key, ◌==◌, keep_if, map, length,
}
use istos.Dict
use istos.Dict.{Dict}
use istos.Heap
use istos.Queue.Job.{JobState, JobRecord, TimedEntry, timed_order, state_beq, Bytes}
use istos.Queue.Disk.{Disk, next_fault}
use istos.Queue.State.{QueueStore, Chord, add_id, offer_ready, reclaim_leases, write_jobs, forget}

-- One entry popped from the heap of results.
unfoldable pub drop_result : ℕ → ℕ → Option JobRecord → QueueStore → QueueStore
drop_result now job_id none s = s
drop_result now job_id (some rec) s =
    if state_beq rec.state JobState.done && leb (rec.completed_at + s.result_ttl_s) now
    then forget job_id s
    else s

unfoldable pub purge_done : ℕ → List TimedEntry → QueueStore → QueueStore
unfolding drop_result
purge_done now [] s = record s { done = [] }
purge_done now (e ∷ rest) s =
    let popped = purge_done now rest (drop_result now e.id (Dict.get s.jobs e.id) s) in
    if leb e.due now then popped else record s { done = e ∷ rest }

unfoldable pub dead_expired : ℕ → ℕ → JobRecord → Bool
dead_expired now ttl rec =
    state_beq rec.state JobState.dead
    && not (rec.completed_at == 0)
    && leb (rec.completed_at + ttl) now

unfoldable pub forget_all : List ℕ → QueueStore → QueueStore
forget_all [] s = s
forget_all (i ∷ l) s = forget_all l (forget i s)

unfoldable pub purge_dead : ℕ → Option ℕ → QueueStore → QueueStore
unfolding dead_expired forget_all
purge_dead now none s = s
purge_dead now (some ttl) s =
    forget_all (map (λ e. e.0) (keep_if (λ e. dead_expired now ttl e.1) (Dict.items s.jobs))) s

drop_chords : List String → Dict String Chord → Dict String Chord
drop_chords [] chords = chords
drop_chords (i ∷ l) chords = drop_chords l (Dict.remove chords i)

unfoldable pub purge_chords : ℕ → Option ℕ → QueueStore → QueueStore
unfolding drop_chords
purge_chords now none s = s
purge_chords now (some ttl) s = record s {
  chords =
      drop_chords
        (map (λ e. e.0) (keep_if (λ e. leb (e.1.created_at + ttl) now) (Dict.items s.chords)))
        s.chords;
}

-- `sweep`: lost leases come back, old results, dead letters and chords go. It returns how many
-- leases came back.
unfoldable pub sweep : ℕ → QueueStore → QueueStore × ℕ
unfolding purge_done purge_dead purge_chords
sweep now s =
    let (reclaimed, changed) = reclaim_leases now s in
    let written = write_jobs changed reclaimed in
    let purged = purge_done now written.done written in
    let buried = purge_dead now s.dead_letter_ttl_s purged in
    (purge_chords now s.chord_ttl_s buried, length changed)

-- One record of `load`: into memory, and into the heap that its state calls for.
unfoldable pub into_heap : ℕ → JobRecord → JobState → QueueStore → QueueStore
into_heap now rec JobState.ready s = offer_ready now rec s
into_heap now rec JobState.leased s = record s {
  leases = Heap.push (record { due = rec.lease_until; id = rec.id }) s.leases;
}
into_heap now rec JobState.done s = record s {
  done = Heap.push (record { due = rec.completed_at + s.result_ttl_s; id = rec.id }) s.done;
}
into_heap now rec JobState.dead s = s

unfoldable pub restore : ℕ → Option JobRecord → QueueStore → QueueStore
unfolding into_heap
restore now none s = s
restore now (some rec) s = into_heap now rec rec.state (record s {
  jobs = Dict.set s.jobs rec.id rec;
  ids = add_id rec.id s.ids;
  seq = max s.seq rec.seq;
})

-- The loop of `load`. A read that raises ends it with what has been restored so far.
unfoldable pub load_jobs : ℕ → List ℕ → Disk → QueueStore → QueueStore
unfolding restore
load_jobs now [] d s = record s { storage = some d }
load_jobs now (i ∷ l) d s =
    let rest = load_jobs now l (next_fault d).1 (restore now (Dict.get d.cells i) s) in
    if (next_fault d).0 then record s { storage = some (next_fault d).1 } else rest

abbrev pub or_empty : Option (List ℕ) → List ℕ
or_empty none = []
or_empty (some l) = l

unfoldable pub load_from : ℕ → Option Disk → QueueStore → QueueStore
unfolding load_jobs
load_from now none s = s
load_from now (some d) s =
    if (next_fault d).0
    then record s { storage = some (next_fault d).1 }
    else load_jobs now (or_empty d.index) (next_fault d).1 s

-- `load`; `now` is the reading of the clock in `_offer_ready`.
unfoldable pub load : ℕ → QueueStore → QueueStore
unfolding load_from
load now s = load_from now s.storage s

-- `result`: the state, `none` for "unknown", and the retained bytes.
unfoldable pub result : ℕ → QueueStore → Option JobState × Option Bytes
result job_id s = elim (Dict.get s.jobs job_id) [
  | none ↦ (none, none)
  | some rec ↦ (some rec.state, rec.result)
]

unfoldable pub dead_letters : QueueStore → List JobRecord
dead_letters s = keep_if (λ rec. state_beq rec.state JobState.dead) (Dict.values s.jobs)

-- `stats`: how many jobs are in each state.
unfoldable pub stats : QueueStore → JobState → ℕ
stats s state = length (keep_if (λ rec. state_beq rec.state state) (Dict.values s.jobs))
