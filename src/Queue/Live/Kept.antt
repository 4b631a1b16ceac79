-- ===== src/Queue/Live/Kept.antt =====
-- A job that a queue has accepted is not lost (`QueueStore` of src/istos/queue/store.py).
use istos.Prelude.{
  ℕ, ◌≡◌, ◌≢◌, ◌⊎◌, inl, inr, true, none, some, Option, String, List, [], ◌∷◌, ◌++◌, number_key, ap,
  ◌∙◌, subst, suc, arith, nat_beq_iff,
}
use istos.Dict
use istos.Dict.{get-set}
use istos.Queue.Job.{JobState, JobRecord, Bytes}
use istos.Queue.State.{QueueStore, Config}
use istos.Queue.Store.{Enqueue, add, new_job, ack}
use istos.Queue.Schedule.{
  Op, adds, claims, acks, nacks, sweeps, loads, step, run, InOrder, last_reading,
}
use istos.Queue.Live.Loops.{Tracked}
use istos.Queue.Live.Defs.{IsLive}
use istos.Queue.Live.Run.{run-IsLive}
use istos.Queue.Lifecycle.Run.{AllSpare, Spares, IsNoLoad, jobs-add}
use istos.Queue.Lifecycle.Lasting.{IsOpen, claim-Lasting, nack-Lasting, sweep-Lasting, ack-Lasting}
use istos.Worker.Mesh.Settings.{config-add, config-claim, config-ack, config-nack, config-sweep}

add-IsOpen :
    (q : Enqueue) (s : QueueStore) (k : ℕ) (wf : Option String)
    → k ≢ q.fresh_id
    → IsOpen s.jobs k wf
    → IsOpen (add q s).0.jobs k wf
add-IsOpen q s k wf spares (u, e, same, unfinished) = (
  u,
  rw (jobs-add q s) (
      ground (
        arith,
        get-set s.jobs q.fresh_id k (new_job q (suc s.seq)),
        nat_beq_iff q.fresh_id k,
        e,
        spares,
      )),
  same,
  unfinished,
)

step-config : (s : QueueStore) (op : Op) → IsNoLoad op → (step s op).config ≡ s.config
unfolding step
step-config s (adds q) no_load = config-add q s
step-config s (claims now lease_s) no_load = config-claim now lease_s s
step-config s (acks i result attempt now) no_load = config-ack i now result attempt s
step-config s (nacks i n) no_load = config-nack i n s
step-config s (sweeps now) no_load = config-sweep now s
step-config s (loads now) no_load = absurd no_load

-- Somewhere in a schedule an ack of the job is accepted.
abbrev pub Acked : ℕ → QueueStore → List Op → Type 0
Acked k s ops =
    (earlier : List Op) × (later : List Op) × (result : Option Bytes) × (attempt : Option ℕ)
    × (now : ℕ) × (ops ≡ earlier ++ acks k result attempt now ∷ later)
    × ((ack k result attempt now (run s earlier)).1 ≡ true)

Acked-later :
    (k : ℕ) (s : QueueStore) (op : Op) (ops : List Op)
    → Acked k (step s op) ops
    → Acked k s (op ∷ ops)
unfolding run
Acked-later k s op ops (earlier, later, result, attempt, now, is, accepted) =
    (op ∷ earlier, later, result, attempt, now, ap (λ l. op ∷ l) is, accepted)

step-IsOpen :
    (s : QueueStore) (op : Op) (ops : List Op) (k : ℕ) (wf : Option String)
    → s.dead_letter_ttl_s ≡ none
    → Spares k op
    → IsNoLoad op
    → IsOpen s.jobs k wf
    → IsOpen (step s op).jobs k wf ⊎ Acked k s (op ∷ ops)
unfolding step run
step-IsOpen s (adds q) ops k wf keeps spares no_load h = inl (add-IsOpen q s k wf spares h)
step-IsOpen s (claims now lease_s) ops k wf keeps spares no_load h =
    inl (claim-Lasting now lease_s s k wf h)
step-IsOpen s (nacks i n) ops k wf keeps spares no_load h = inl (nack-Lasting i n s k wf h)
step-IsOpen s (sweeps now) ops k wf keeps spares no_load h = inl (sweep-Lasting now s keeps k wf h)
step-IsOpen s (loads now) ops k wf keeps spares no_load h = absurd no_load
step-IsOpen s (acks i result attempt now) ops k wf keeps spares no_load h =
    elim (ack-Lasting i now result attempt s k wf h) [
      | inl kept ↦ inl kept
      | inr (same, accepted) ↦ inr (
        [],
        ops,
        result,
        attempt,
        now,
        ap (λ j. acks j result attempt now ∷ ops) same,
        subst (λ (j : ℕ). (ack j result attempt now s).1 ≡ true) same accepted,
      )
    ]

run-IsOpen :
    (ops : List Op) (s : QueueStore) (k : ℕ) (wf : Option String)
    → s.dead_letter_ttl_s ≡ none
    → AllSpare k ops
    → IsOpen s.jobs k wf
    → IsOpen (run s ops).jobs k wf ⊎ Acked k s ops
unfolding run
run-IsOpen [] s k wf keeps spares h = inl h
run-IsOpen (op ∷ ops) s k wf keeps spares h =
    elim (step-IsOpen s op ops k wf keeps spares.0 spares.1 h) [
      | inr acked ↦ inr acked
      | inl remains ↦
          let kept = ap (λ (c : Config). c.dead_letter_ttl_s) (step-config s op spares.1) ∙ keeps in
          elim (run-IsOpen ops (step s op) k wf kept spares.2 remains) [
            | inl still ↦ inl still
            | inr acked ↦ inr (Acked-later k s op ops acked)
          ]
    ]

-- No job is lost. Take a store in which every waiting job has an entry in the ready heap and its time
-- has come, or an entry in the delayed heap, and every leased job an entry in the lease heap, and
-- which keeps dead letters for ever. Over any schedule whose clock does not go back, that does not
-- file another job under the id of a job that is not done, and that does not load the store again,
-- whether or not the writes to the storage fail: either an ack of that job is accepted in the
-- schedule, or the store still has the job at the end, not done and with the same continuation, and
-- with such an entry if it waits or is leased.
pub no_job_lost :
    (ops : List Op) (clock : ℕ) (s : QueueStore) (k : ℕ) (wf : Option String)
    → InOrder clock ops
    → IsLive clock s
    → s.dead_letter_ttl_s ≡ none
    → AllSpare k ops
    → IsOpen s.jobs k wf
    → Acked k s ops
      ⊎ ((u : JobRecord) × (Dict.get (run s ops).jobs k ≡ some u)
          × (u.wf ≡ wf)
          × (u.state ≢ JobState.done)
          × Tracked
              (last_reading clock ops)
              (run s ops).ready
              (run s ops).delayed
              (run s ops).leases
              k
              u)
no_job_lost ops clock s k wf in_order live keeps spares h =
    elim (run-IsOpen ops s k wf keeps spares h) [
      | inr acked ↦ inl acked
      | inl (u, there, same, unfinished) ↦
          inr (u, there, same, unfinished, run-IsLive ops clock s in_order live k u there)
    ]
