-- ===== src/Queue/Lifecycle/Lasting.antt =====
-- A job that is not done lasts through the operations of `QueueStore` (src/istos/queue/store.py),
-- unless a worker acknowledges it or dead letters are purged.
use istos.Prelude.{
  ◌≤◌, ℕ, suc, ◌+◌, ◌≡◌, ◌≢◌, refl, sym, ap, ◌∙◌, ◌⊎◌, inl, inr, true, ◌&&◌, Option, none, some,
  List, [], ◌∷◌, number_key, arith, nat_beq_iff, Bool-cases, ◌==◌, leb, ltb, String,
}
use mathlib.Core.Option.{some-injective}
use istos.Dict
use istos.Dict.{Dict, get-set, get-remove}
use istos.Queue.Job.{JobState, JobRecord, TimedEntry, Bytes, state_beq}
use istos.Queue.State.{QueueStore, forget, lease_lost, offer_ready}
use istos.Queue.Store.{
  Enqueue, add, new_job, claim, refresh, hand_out, next_eligible, lease, ack, ack_found, finished,
  holds_lease, Nack, nack, nack_found, nack_held, retried, dead_lettered,
}
use istos.Queue.Upkeep.{drop_result, purge_done, purge_dead, purge_chords, sweep}
use istos.Queue.Live.Claims.{next_eligible-found}
use istos.Queue.Lifecycle.Run.{jobs-add}
use istos.Queue.Order.Drain.{refresh-Either, reclaimed-Either}

-- The job under `k` is not done, and has this workflow.
abbrev pub IsOpen : Dict ℕ JobRecord → ℕ → Option String → Type 0
IsOpen jobs k wf =
    (u : JobRecord) × (Dict.get jobs k ≡ some u) × (u.wf ≡ wf) × (u.state ≢ JobState.done)

abbrev pub Lasting : Dict ℕ JobRecord → Dict ℕ JobRecord → Type 0
Lasting old new = (k : ℕ) (wf : Option String) → IsOpen old k wf → IsOpen new k wf

set-Lasting :
    (jobs : Dict ℕ JobRecord) (i : ℕ) (r u : JobRecord)
    → Dict.get jobs i ≡ some r
    → u.wf ≡ r.wf
    → u.state ≢ JobState.done
    → Lasting jobs (Dict.set jobs i u)
set-Lasting jobs i r u found same goes k wf (x, e, w, o) = elim (Bool-cases (i == k)) [
  | inl here ↦
      let at : i ≡ k = ground (arith, here) in (u, rw (get-set jobs i k u, here) refl, cc, goes)
  | inr other ↦ (x, rw (get-set jobs i k u, other) e, w, o)
]

lease_lost-open :
    (now : ℕ) (r : JobRecord)
    → ((lease_lost now r).wf ≡ r.wf) × ((lease_lost now r).state ≢ JobState.done)
unfolding lease_lost
lease_lost-open now r = elim (Bool-cases (leb r.max_attempts r.attempts)) [
  | inl spent ↦ rw (spent) (refl, λ e. absurd (cc))
  | inr left ↦ rw (left) (refl, λ e. absurd (cc))
]

lost-Lasting :
    (old new : Dict ℕ JobRecord) (now : ℕ)
    → ((k : ℕ) (r : JobRecord)
        → Dict.get old k ≡ some r
        → (Dict.get new k ≡ some r)
          ⊎ ((r.state ≡ JobState.leased)
              × (Dict.get new k ≡ some (lease_lost now r))
              × (r.lease_until ≤ now)))
    → Lasting old new
lost-Lasting old new now h k wf (r, e, w, o) = elim (h k r e) [
  | inl same ↦ (r, same, w, o)
  | inr lost ↦ (lease_lost now r, lost.1, (lease_lost-open now r).0 ∙ w, (lease_lost-open now r).1)
]

hand_out-Lasting :
    (now lease_s : ℕ) (s : QueueStore) (found : Option (ℕ × JobRecord))
    → (next_eligible now s.jobs s.ready).0 ≡ found
    → Lasting s.jobs
        (hand_out now lease_s
          (record s { ready = (next_eligible now s.jobs s.ready).1 })
          found).0.jobs
unfolding hand_out lease
hand_out-Lasting now lease_s s none e = λ k wf x. x
hand_out-Lasting now lease_s s (some (job_id, rec)) e =
    let (there, _, _) = next_eligible-found now s.jobs s.ready job_id rec e in
    set-Lasting s.jobs job_id rec (lease now lease_s rec) there refl (λ d. absurd (cc))

pub claim-Lasting : (now lease_s : ℕ) (s : QueueStore) → Lasting s.jobs (claim now lease_s s).0.jobs
unfolding claim
claim-Lasting now lease_s s k wf x =
    hand_out-Lasting now lease_s (refresh now s) _ refl k wf
      (lost-Lasting s.jobs (refresh now s).jobs now (refresh-Either now s) k wf x)

nack_held-Lasting :
    (job_id : ℕ) (n : Nack) (rec : JobRecord) (s : QueueStore)
    → Dict.get s.jobs job_id ≡ some rec
    → Lasting s.jobs (nack_held job_id n rec s).0.jobs
unfolding nack_held offer_ready dead_lettered retried
nack_held-Lasting job_id n rec s e = elim (Bool-cases (leb rec.max_attempts rec.attempts)) [
  | inl last ↦
      rw last (set-Lasting s.jobs job_id rec (dead_lettered n rec) e refl (λ d. absurd (cc)))
  | inr more ↦
      let moved = set-Lasting s.jobs job_id rec (retried n rec) e refl (λ d. absurd (cc)) in
      rw more (elim (Bool-cases (ltb n.offered (retried n rec).not_before)) [
        | inl later ↦ rw later moved
        | inr now ↦ rw now moved
      ])
]

nack_found-Lasting :
    (job_id : ℕ) (o : Option JobRecord) (n : Nack) (s : QueueStore)
    → Dict.get s.jobs job_id ≡ o
    → Lasting s.jobs (nack_found job_id o n s).0.jobs
unfolding nack_found
nack_found-Lasting job_id none n s e = λ k wf x. x
nack_found-Lasting job_id (some rec) n s e = elim (Bool-cases (holds_lease n.attempt rec)) [
  | inl holds ↦ rw holds (nack_held-Lasting job_id n rec s e)
  | inr lost ↦ rw lost (λ k wf x. x)
]

pub nack-Lasting :
    (job_id : ℕ) (n : Nack) (s : QueueStore) → Lasting s.jobs (nack job_id n s).0.jobs
unfolding nack
nack-Lasting job_id n s = nack_found-Lasting job_id _ n s refl

pub add-Lasting :
    (q : Enqueue) (s : QueueStore)
    → Dict.get s.jobs q.fresh_id ≡ none
    → Lasting s.jobs (add q s).0.jobs
add-Lasting q s fresh k wf (u, e, w, o) = (
  u,
  rw (jobs-add q s) (
      ground (
        arith,
        get-set s.jobs q.fresh_id k (new_job q (suc s.seq)),
        nat_beq_iff q.fresh_id k,
        e,
        fresh,
      )),
  w,
  o,
)

drop_result-Lasting :
    (now job_id : ℕ) (o : Option JobRecord) (s : QueueStore)
    → Dict.get s.jobs job_id ≡ o
    → Lasting s.jobs (drop_result now job_id o s).jobs
unfolding drop_result forget
drop_result-Lasting now job_id none s e k wf x = x
drop_result-Lasting now job_id (some rec) s e k wf (u, f, w, o) =
    elim (Bool-cases
      (state_beq rec.state JobState.done && leb (rec.completed_at + s.result_ttl_s) now)) [
        | inr fresh ↦ rw (fresh) (u, f, w, o)
        | inl stale ↦ rw (stale) (elim (Bool-cases (job_id == k)) [
          | inr other ↦ (u, rw (get-remove s.jobs job_id k, other) f, w, o)
          | inl here ↦
              let at : job_id ≡ k = ground (arith, here) in
              let same : rec ≡ u = some-injective rec u (sym e ∙ ap (Dict.get s.jobs) at ∙ f) in
              let is_done : rec.state ≡ JobState.done = ground (arith, stale) in
              absurd (o (ap (λ (x : JobRecord). x.state) (sym same) ∙ is_done))
        ])
      ]

purge_done-Lasting :
    (now : ℕ) (entries : List TimedEntry) (s : QueueStore)
    → Lasting s.jobs (purge_done now entries s).jobs
unfolding purge_done
purge_done-Lasting now [] s k wf x = x
purge_done-Lasting now (e ∷ rest) s k wf x = elim (Bool-cases (leb e.due now)) [
  | inr early ↦ rw (early) x
  | inl due ↦ rw (due) (
      purge_done-Lasting now rest _ k wf
        (drop_result-Lasting now e.id (Dict.get s.jobs e.id) s refl k wf x))
]

jobs-purge_chords : (now : ℕ) (o : Option ℕ) (s : QueueStore) → (purge_chords now o s).jobs ≡ s.jobs
unfolding purge_chords
jobs-purge_chords now none s = refl
jobs-purge_chords now (some ttl) s = refl

purge_dead-Lasting :
    (now : ℕ) (o : Option ℕ) (s : QueueStore) → o ≡ none → Lasting s.jobs (purge_dead now o s).jobs
unfolding purge_dead
purge_dead-Lasting now none s h k wf x = x
purge_dead-Lasting now (some ttl) s h k wf x = absurd (cc)

pub sweep-Lasting :
    (now : ℕ) (s : QueueStore) → s.dead_letter_ttl_s ≡ none → Lasting s.jobs (sweep now s).0.jobs
unfolding sweep
sweep-Lasting now s keeps k wf x = rw (jobs-purge_chords) (
    purge_dead-Lasting now _ _ keeps k wf
      (purge_done-Lasting now _ _ k wf (lost-Lasting s.jobs _ now (reclaimed-Either now s) k wf x)))

-- An ack ends a job only if it is the job's own and is accepted.
ack_found-Lasting :
    (job_id now : ℕ) (o : Option JobRecord) (result : Option Bytes) (attempt : Option ℕ)
    (s : QueueStore) (k : ℕ) (wf : Option String)
    → Dict.get s.jobs job_id ≡ o
    → IsOpen s.jobs k wf
    → (IsOpen (ack_found job_id o result attempt now s).0.jobs k wf)
      ⊎ ((job_id ≡ k) × ((ack_found job_id o result attempt now s).1 ≡ true))
unfolding ack_found forget
ack_found-Lasting job_id now none result attempt s k wf e x = inl x
ack_found-Lasting job_id now (some rec) result attempt s k wf e (u, f, w, o) =
    elim (Bool-cases (holds_lease attempt rec)) [
      | inr lost ↦ rw (lost) (inl (u, f, w, o))
      | inl holds ↦ rw (holds) (elim (Bool-cases (job_id == k)) [
        | inl here ↦ inr (ground (arith, here), refl)
        | inr other ↦ elim (Bool-cases s.keep_results) [
          | inl keeps ↦
              rw (keeps)
                (inl (u, rw (get-set s.jobs job_id k (finished result now rec), other) f, w, o))
          | inr drops ↦ rw (drops) (inl (u, rw (get-remove s.jobs job_id k, other) f, w, o))
        ]
      ])
    ]

pub ack-Lasting :
    (job_id now : ℕ) (result : Option Bytes) (attempt : Option ℕ) (s : QueueStore) (k : ℕ)
    (wf : Option String)
    → IsOpen s.jobs k wf
    → (IsOpen (ack job_id result attempt now s).0.jobs k wf)
      ⊎ ((job_id ≡ k) × ((ack job_id result attempt now s).1 ≡ true))
unfolding ack
ack-Lasting job_id now result attempt s k wf x =
    ack_found-Lasting job_id now _ result attempt s k wf refl x
