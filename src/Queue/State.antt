-- ===== src/Queue/State.antt =====
-- The fields of `QueueStore` (src/istos/queue/store.py), its heap bookkeeping and its writes to
-- storage. `asyncio.Lock` makes each operation one step, so an operation is a function from the
-- state before it to the state after it. A method that mutates a `JobRecord` in place is a write
-- of the new record under the key it was found at.
use istos.Prelude.{
  ℕ, Bool, true, false, ◌&&◌, not, Option, none, some, List, [], ◌∷◌, ◌++◌, String, ltb, leb,
  if◌then◌else◌, number_key, ◌==◌, keep_if,
}
use istos.Dict
use istos.Dict.{Dict}
use istos.Heap
use istos.Queue.Job.{
  JobState, JobRecord, ReadyEntry, TimedEntry, ready_entry, ready_order, timed_order, state_beq,
  or_text,
}
use istos.Queue.Disk.{Disk, attempt}

pub record Config : Type 0 where
  pub keep_results : Bool
  pub result_ttl_s : ℕ
  pub dead_letter_ttl_s : Option ℕ
  pub chord_ttl_s : Option ℕ

-- One barrier of `_chords`. Results are in member order, `none` for a member without one.
pub record Chord : Type 0 where
  pub size : ℕ
  pub results : List (Option String)
  pub reported : List ℕ
  pub fired : Bool
  pub created_at : ℕ

pub record QueueStore : Type 0 where
  pub config : Config
  pub open config use *
  pub jobs : Dict ℕ JobRecord
  pub ids : List ℕ
  pub ready : List ReadyEntry
  pub delayed : List TimedEntry
  pub leases : List TimedEntry
  pub done : List TimedEntry
  pub chords : Dict String Chord
  pub seq : ℕ
  pub storage : Option Disk

unfoldable pub init : Config → Option Disk → QueueStore
unfolding Dict.empty
init c storage = record {
  config = c;
  jobs = Dict.empty;
  ids = [];
  ready = [];
  delayed = [];
  leases = [];
  done = [];
  chords = Dict.empty;
  seq = 0;
  storage = storage;
}

-- `_ids` is a Python set: adding a member that is there changes nothing.
unfoldable pub has : ℕ → List ℕ → Bool
has i [] = false
has i (j ∷ l) = if j == i then true else has i l

unfoldable pub add_id : ℕ → List ℕ → List ℕ
unfolding has
add_id i l = if has i l then l else l ++ i ∷ []

-- `_offer_ready`; `now` is its reading of the clock.
unfoldable pub offer_ready : ℕ → JobRecord → QueueStore → QueueStore
offer_ready now rec s =
    if ltb now rec.not_before
    then record s { delayed = Heap.push (record { due = rec.not_before; id = rec.id }) s.delayed }
    else record s { ready = Heap.push (ready_entry rec) s.ready }

-- What one entry popped from the delayed heap adds to the ready heap.
unfoldable pub matured : ℕ → Option JobRecord → List ReadyEntry → List ReadyEntry
matured now none ready = ready
matured now (some rec) ready =
    if state_beq rec.state JobState.ready && leb rec.not_before now
    then Heap.push (ready_entry rec) ready
    else ready

-- The loop of `_mature_delayed`: the delayed heap, then the ready heap.
unfoldable pub mature_loop :
    ℕ → Dict ℕ JobRecord → List TimedEntry → List ReadyEntry → List TimedEntry × List ReadyEntry
unfolding matured
mature_loop now jobs [] ready = ([], ready)
mature_loop now jobs (e ∷ rest) ready =
    let popped = mature_loop now jobs rest (matured now (Dict.get jobs e.id) ready) in
    if leb e.due now then popped else (e ∷ rest, ready)

unfoldable pub mature_delayed : ℕ → QueueStore → QueueStore
unfolding mature_loop
mature_delayed now s =
    let (delayed, ready) = mature_loop now s.jobs s.delayed s.ready in
    record s { delayed = delayed; ready = ready }

-- What `_reclaim_leases` changes beside the lease heap, and the records that it returns.
pub record Reclaim : Type 0 where
  pub jobs : Dict ℕ JobRecord
  pub ready : List ReadyEntry
  pub changed : List JobRecord

unfoldable pub lease_lost : ℕ → JobRecord → JobRecord
lease_lost now rec =
    if leb rec.max_attempts rec.attempts
    then record rec {
      state = JobState.dead;
      completed_at = now;
      last_error = or_text rec.last_error "lease expired";
    }
    else record rec { state = JobState.ready; lease_until = 0; not_before = 0 }

-- One entry popped from the lease heap. A stale one is skipped.
unfoldable pub reclaim_one : ℕ → ℕ → Option JobRecord → Reclaim → Reclaim
unfolding lease_lost
reclaim_one now job_id none r = r
reclaim_one now job_id (some rec) r =
    if not (state_beq rec.state JobState.leased)
    then r
    else if ltb now rec.lease_until
    then r
    else record {
      jobs = Dict.set r.jobs job_id (lease_lost now rec);
      ready =
          if leb rec.max_attempts rec.attempts
          then r.ready
          else Heap.push (ready_entry rec) r.ready;
      changed = r.changed ++ lease_lost now rec ∷ [];
    }

unfoldable pub reclaim_loop : ℕ → List TimedEntry → Reclaim → List TimedEntry × Reclaim
unfolding reclaim_one
reclaim_loop now [] r = ([], r)
reclaim_loop now (e ∷ rest) r =
    let popped = reclaim_loop now rest (reclaim_one now e.id (Dict.get r.jobs e.id) r) in
    if leb e.due now then popped else (e ∷ rest, r)

-- `_reclaim_leases`: the new state, and the changed records.
unfoldable pub reclaim_leases : ℕ → QueueStore → QueueStore × List JobRecord
unfolding reclaim_loop
reclaim_leases now s =
    let (leases, r) =
      reclaim_loop now s.leases (record { jobs = s.jobs; ready = s.ready; changed = [] }) in
    (record s { leases = leases; jobs = r.jobs; ready = r.ready }, r.changed)

-- `if self._storage is None: return`, then one access under `try`.
unfoldable pub on_disk : (Disk → Disk) → Option Disk → Option Disk
on_disk f none = none
on_disk f (some d) = some (attempt f d)

unfoldable pub write_job : JobRecord → QueueStore → QueueStore
unfolding on_disk
write_job rec s = record s {
  storage = on_disk (λ d. record d { cells = Dict.set d.cells rec.id rec }) s.storage;
}

unfoldable pub write_jobs : List JobRecord → QueueStore → QueueStore
unfolding write_job
write_jobs [] s = s
write_jobs (rec ∷ recs) s = write_jobs recs (write_job rec s)

unfoldable pub write_index : QueueStore → QueueStore
unfolding on_disk
write_index s = record s { storage = on_disk (λ d. record d { index = some s.ids }) s.storage }

-- `_forget`: out of memory, out of the index, and off the storage.
unfoldable pub forget : ℕ → QueueStore → QueueStore
unfolding write_index on_disk
forget job_id s = write_index (record s {
  jobs = Dict.remove s.jobs job_id;
  ids = keep_if (λ i. not (i == job_id)) s.ids;
  storage = on_disk (λ d. record d { cells = Dict.remove d.cells job_id }) s.storage;
})
