-- ===== src/Queue/Lifecycle/Steps.antt =====
-- Every operation but `add` and `load` only moves the jobs that are there, or removes them.
use istos.Prelude.{
  ◌≤◌, ℕ, ◌+◌, ◌≡◌, refl, inl, inr, true, ◌&&◌, Option, none, some, List, [], ◌∷◌, number_key,
  arith, Bool-cases, leb, ltb, map, keep_if,
}
use istos.Dict
use istos.Dict.{Dict}
use istos.Queue.Job.{or_text, JobState, JobRecord, TimedEntry, Bytes, state_beq}
use istos.Queue.State.{
  QueueStore, Reclaim, reclaim_one, reclaim_loop, reclaim_leases, mature_delayed, write_jobs,
  write_job, forget, lease_lost, offer_ready,
}
use istos.Queue.Store.{
  due_after, claim, refresh, hand_out, next_eligible, lease, ack, ack_found, finished, holds_lease,
  Nack, nack, nack_found, nack_held, retried, dead_lettered,
}
use istos.Queue.Upkeep.{
  drop_result, purge_done, forget_all, purge_dead, purge_chords, sweep, dead_expired,
}
use istos.Queue.Live.Claims.{next_eligible-found}
use istos.Queue.Lifecycle.Moves.{
  Move, Evolves, Evolves-refl, Evolves-trans, remove-Evolves, set-Evolves, leases, finishes,
  retries, buries, loses, expires,
}

lost-Move :
    (now : ℕ) (r : JobRecord)
    → r.state ≡ JobState.leased
    → r.lease_until ≤ now
    → Move r (lease_lost now r)
unfolding lease_lost
lost-Move now r held late = elim (Bool-cases (leb r.max_attempts r.attempts)) [
  | inl spent ↦
      rw (spent)
        (expires (or_text r.last_error "lease expired") now r held late (ground (arith, spent)))
  | inr left ↦ rw (left) (loses now r held late (ground (arith, left)))
]

reclaim_one-Evolves :
    (now job_id : ℕ) (o : Option JobRecord) (x : Reclaim)
    → Dict.get x.jobs job_id ≡ o
    → Evolves x.jobs (reclaim_one now job_id o x).jobs
unfolding reclaim_one
reclaim_one-Evolves now job_id none x e = Evolves-refl x.jobs
reclaim_one-Evolves now job_id (some rec) x e =
    elim (Bool-cases (state_beq rec.state JobState.leased)) [
      | inr off ↦ rw off (Evolves-refl x.jobs)
      | inl held ↦ rw held (elim (Bool-cases (ltb now rec.lease_until)) [
        | inl early ↦ rw early (Evolves-refl x.jobs)
        | inr late ↦ rw late (
            set-Evolves x.jobs job_id rec (lease_lost now rec) e
              (lost-Move now rec (ground arith) (ground arith)))
      ])
    ]

reclaim_loop-Evolves :
    (now : ℕ) (entries : List TimedEntry) (x : Reclaim)
    → Evolves x.jobs (reclaim_loop now entries x).1.jobs
unfolding reclaim_loop
reclaim_loop-Evolves now [] x = Evolves-refl x.jobs
reclaim_loop-Evolves now (e ∷ rest) x = elim (Bool-cases (leb e.due now)) [
  | inl due ↦ rw due (
      Evolves-trans (reclaim_one-Evolves now e.id (Dict.get x.jobs e.id) x refl)
        (reclaim_loop-Evolves now rest (reclaim_one now e.id (Dict.get x.jobs e.id) x)))
  | inr early ↦ rw early (Evolves-refl x.jobs)
]

reclaim_leases-Evolves : (now : ℕ) (s : QueueStore) → Evolves s.jobs (reclaim_leases now s).0.jobs
unfolding reclaim_leases
reclaim_leases-Evolves now s =
    reclaim_loop-Evolves now s.leases (record { jobs = s.jobs; ready = s.ready; changed = [] })

pub jobs-write_jobs : (recs : List JobRecord) (s : QueueStore) → (write_jobs recs s).jobs ≡ s.jobs
unfolding write_jobs
jobs-write_jobs [] s = refl
jobs-write_jobs (rec ∷ recs) s = jobs-write_jobs recs (write_job rec s)

pub refresh-Evolves : (now : ℕ) (s : QueueStore) → Evolves s.jobs (refresh now s).jobs
unfolding refresh mature_delayed
refresh-Evolves now s = rw jobs-write_jobs (reclaim_leases-Evolves now (mature_delayed now s))

hand_out-Evolves :
    (now lease_s : ℕ) (s : QueueStore) (found : Option (ℕ × JobRecord))
    → (next_eligible now s.jobs s.ready).0 ≡ found
    → Evolves s.jobs
        (hand_out now lease_s
          (record s { ready = (next_eligible now s.jobs s.ready).1 })
          found).0.jobs
unfolding hand_out lease
hand_out-Evolves now lease_s s none e = Evolves-refl s.jobs
hand_out-Evolves now lease_s s (some (job_id, rec)) e =
    let f = next_eligible-found now s.jobs s.ready job_id rec e in
    set-Evolves s.jobs job_id rec (lease now lease_s rec) f.0 (leases now lease_s rec f.1 f.2)

pub claim-Evolves : (now lease_s : ℕ) (s : QueueStore) → Evolves s.jobs (claim now lease_s s).0.jobs
unfolding claim
claim-Evolves now lease_s s =
    Evolves-trans (refresh-Evolves now s) (hand_out-Evolves now lease_s (refresh now s) _ refl)

holds_lease-leased :
    (attempt : Option ℕ) (rec : JobRecord)
    → holds_lease attempt rec ≡ true
    → rec.state ≡ JobState.leased
unfolding holds_lease
holds_lease-leased none rec h = ground arith
holds_lease-leased (some a) rec h = ground arith

ack_found-Evolves :
    (job_id now : ℕ) (o : Option JobRecord) (result : Option Bytes) (attempt : Option ℕ)
    (s : QueueStore)
    → Dict.get s.jobs job_id ≡ o
    → Evolves s.jobs (ack_found job_id o result attempt now s).0.jobs
unfolding ack_found finished
ack_found-Evolves job_id now none result attempt s e = Evolves-refl s.jobs
ack_found-Evolves job_id now (some rec) result attempt s e =
    elim (Bool-cases (holds_lease attempt rec)) [
      | inr lost ↦ rw lost (Evolves-refl s.jobs)
      | inl holds ↦ rw holds (elim (Bool-cases s.keep_results) [
        | inl keeps ↦ rw keeps (
            set-Evolves s.jobs job_id rec (finished result now rec) e
              (finishes result now rec (holds_lease-leased attempt rec holds)))
        | inr drops ↦ rw drops (remove-Evolves s.jobs job_id)
      ])
    ]

pub ack-Evolves :
    (job_id now : ℕ) (result : Option Bytes) (attempt : Option ℕ) (s : QueueStore)
    → Evolves s.jobs (ack job_id result attempt now s).0.jobs
unfolding ack
ack-Evolves job_id now result attempt s = ack_found-Evolves job_id now _ result attempt s refl

nack_held-Evolves :
    (job_id : ℕ) (n : Nack) (rec : JobRecord) (s : QueueStore)
    → Dict.get s.jobs job_id ≡ some rec
    → rec.state ≡ JobState.leased
    → Evolves s.jobs (nack_held job_id n rec s).0.jobs
unfolding nack_held offer_ready dead_lettered retried
nack_held-Evolves job_id n rec s e held = elim (Bool-cases (leb rec.max_attempts rec.attempts)) [
  | inl last ↦ rw last (
      set-Evolves s.jobs job_id rec (dead_lettered n rec) e
        (buries n.error n.now rec held (ground arith)))
  | inr more ↦
      let moved =
        set-Evolves s.jobs job_id rec (retried n rec) e
          (retries n.error (due_after n.now n.retry_delay_s) rec held (ground arith)) in
      rw more (elim (Bool-cases (ltb n.offered (retried n rec).not_before)) [
        | inl later ↦ rw later moved
        | inr now ↦ rw now moved
      ])
]

nack_found-Evolves :
    (job_id : ℕ) (o : Option JobRecord) (n : Nack) (s : QueueStore)
    → Dict.get s.jobs job_id ≡ o
    → Evolves s.jobs (nack_found job_id o n s).0.jobs
unfolding nack_found
nack_found-Evolves job_id none n s e = Evolves-refl s.jobs
nack_found-Evolves job_id (some rec) n s e = elim (Bool-cases (holds_lease n.attempt rec)) [
  | inl holds ↦
      rw holds (nack_held-Evolves job_id n rec s e (holds_lease-leased n.attempt rec holds))
  | inr lost ↦ rw lost (Evolves-refl s.jobs)
]

pub nack-Evolves :
    (job_id : ℕ) (n : Nack) (s : QueueStore) → Evolves s.jobs (nack job_id n s).0.jobs
unfolding nack
nack-Evolves job_id n s = nack_found-Evolves job_id _ n s refl

pub forget_all-Evolves : (l : List ℕ) (s : QueueStore) → Evolves s.jobs (forget_all l s).jobs
unfolding forget_all forget
forget_all-Evolves [] s = Evolves-refl s.jobs
forget_all-Evolves (i ∷ l) s =
    Evolves-trans (remove-Evolves s.jobs i) (forget_all-Evolves l (forget i s))

drop_result-Evolves :
    (now job_id : ℕ) (o : Option JobRecord) (s : QueueStore)
    → Evolves s.jobs (drop_result now job_id o s).jobs
unfolding drop_result forget
drop_result-Evolves now job_id none s = Evolves-refl s.jobs
drop_result-Evolves now job_id (some rec) s =
    elim (Bool-cases
      (state_beq rec.state JobState.done && leb (rec.completed_at + s.result_ttl_s) now)) [
        | inl stale ↦ rw stale (remove-Evolves s.jobs job_id)
        | inr fresh ↦ rw fresh (Evolves-refl s.jobs)
      ]

purge_done-Evolves :
    (now : ℕ) (entries : List TimedEntry) (s : QueueStore)
    → Evolves s.jobs (purge_done now entries s).jobs
unfolding purge_done
purge_done-Evolves now [] s = Evolves-refl s.jobs
purge_done-Evolves now (e ∷ rest) s = elim (Bool-cases (leb e.due now)) [
  | inl due ↦ rw due (
      Evolves-trans (drop_result-Evolves now e.id (Dict.get s.jobs e.id) s)
        (purge_done-Evolves now rest (drop_result now e.id (Dict.get s.jobs e.id) s)))
  | inr early ↦ rw early (Evolves-refl s.jobs)
]

purge_dead-Evolves :
    (now : ℕ) (ttl : Option ℕ) (s : QueueStore) → Evolves s.jobs (purge_dead now ttl s).jobs
unfolding purge_dead
purge_dead-Evolves now none s = Evolves-refl s.jobs
purge_dead-Evolves now (some ttl) s =
    forget_all-Evolves
      (map (λ e. e.0) (keep_if (λ e. dead_expired now ttl e.1) (Dict.items s.jobs))) s

jobs-purge_chords :
    (now : ℕ) (ttl : Option ℕ) (s : QueueStore) → (purge_chords now ttl s).jobs ≡ s.jobs
unfolding purge_chords
jobs-purge_chords now none s = refl
jobs-purge_chords now (some ttl) s = refl

pub sweep-Evolves : (now : ℕ) (s : QueueStore) → Evolves s.jobs (sweep now s).0.jobs
unfolding sweep
sweep-Evolves now s =
    let back = reclaim_leases now s in
    let written = write_jobs back.1 back.0 in
    let purged = purge_done now written.done written in
    rw jobs-purge_chords (
      Evolves-trans (reclaim_leases-Evolves now s) (
        Evolves-trans (rewritten back.1 back.0) (
          Evolves-trans (purge_done-Evolves now written.done written)
            (purge_dead-Evolves now s.dead_letter_ttl_s purged))))
  where
    rewritten : (recs : List JobRecord) (t : QueueStore) → Evolves t.jobs (write_jobs recs t).jobs
    rewritten recs t = rw jobs-write_jobs (Evolves-refl t.jobs)
