-- ===== src/Worker/Mesh/Settings.antt =====
-- No operation of `QueueStore` (src/istos/queue/store.py) changes the settings of the queue.
use istos.Prelude.{
  ℕ, ◌+◌, ◌≡◌, refl, ◌∙◌, ◌&&◌, Option, none, some, List, [], ◌∷◌, leb, Bool-cases, inl, inr, arith,
  number_key, map, keep_if,
}
use istos.Dict
use istos.Queue.Job.{JobState, JobRecord, TimedEntry, Bytes, state_beq}
use istos.Queue.State.{
  QueueStore, mature_delayed, reclaim_leases, write_jobs, write_job, forget, offer_ready,
}
use istos.Queue.Store.{
  Enqueue, add, claim, refresh, hand_out, ack, ack_found, ack_held, holds_lease, Nack, nack,
  nack_found, nack_held,
}
use istos.Queue.Upkeep.{
  drop_result, purge_done, purge_dead, dead_expired, forget_all, purge_chords, sweep,
}

config-write_jobs : (recs : List JobRecord) (s : QueueStore) → (write_jobs recs s).config ≡ s.config
unfolding write_jobs
config-write_jobs [] s = refl
config-write_jobs (rec ∷ recs) s = config-write_jobs recs (write_job rec s)

config-offer_ready :
    (now : ℕ) (rec : JobRecord) (s : QueueStore) → (offer_ready now rec s).config ≡ s.config
unfolding offer_ready
config-offer_ready now rec s = ground arith

pub config-add : (q : Enqueue) (s : QueueStore) → (add q s).0.config ≡ s.config
unfolding add
config-add q s = config-offer_ready q.offered _ _

config-hand_out :
    (now lease_s : ℕ) (s : QueueStore) (found : Option (ℕ × JobRecord))
    → (hand_out now lease_s s found).0.config ≡ s.config
unfolding hand_out
config-hand_out now lease_s s none = refl
config-hand_out now lease_s s (some x) = refl

pub config-claim : (now lease_s : ℕ) (s : QueueStore) → (claim now lease_s s).0.config ≡ s.config
unfolding claim refresh reclaim_leases mature_delayed
config-claim now lease_s s = config-hand_out now lease_s _ _ ∙ config-write_jobs _ _

config-ack_found :
    (job_id now : ℕ) (o : Option JobRecord) (result : Option Bytes) (attempt : Option ℕ)
    (s : QueueStore)
    → (ack_found job_id o result attempt now s).0.config ≡ s.config
unfolding ack_found ack_held forget
config-ack_found job_id now none result attempt s = refl
config-ack_found job_id now (some rec) result attempt s =
    elim (Bool-cases (holds_lease attempt rec)) [
      | inr lost ↦ rw (lost) refl
      | inl holds ↦ rw (holds) (elim (Bool-cases s.keep_results) [
        | inl keeps ↦ rw (keeps) refl
        | inr drops ↦ rw (drops) refl
      ])
    ]

pub config-ack :
    (job_id now : ℕ) (result : Option Bytes) (attempt : Option ℕ) (s : QueueStore)
    → (ack job_id result attempt now s).0.config ≡ s.config
unfolding ack
config-ack job_id now result attempt s = config-ack_found job_id now _ result attempt s

config-nack_found :
    (job_id : ℕ) (o : Option JobRecord) (n : Nack) (s : QueueStore)
    → (nack_found job_id o n s).0.config ≡ s.config
unfolding nack_found nack_held
config-nack_found job_id none n s = refl
config-nack_found job_id (some rec) n s = elim (Bool-cases (holds_lease n.attempt rec)) [
  | inr lost ↦ rw (lost) refl
  | inl holds ↦ rw (holds) (elim (Bool-cases (leb rec.max_attempts rec.attempts)) [
    | inl last ↦ rw (last) refl
    | inr more ↦ rw (more) (config-offer_ready n.offered _ _)
  ])
]

pub config-nack : (job_id : ℕ) (n : Nack) (s : QueueStore) → (nack job_id n s).0.config ≡ s.config
unfolding nack
config-nack job_id n s = config-nack_found job_id _ n s

config-forget_all : (l : List ℕ) (s : QueueStore) → (forget_all l s).config ≡ s.config
unfolding forget_all forget
config-forget_all [] s = refl
config-forget_all (i ∷ l) s = config-forget_all l (forget i s)

config-drop_result :
    (now job_id : ℕ) (o : Option JobRecord) (s : QueueStore)
    → (drop_result now job_id o s).config ≡ s.config
unfolding drop_result forget
config-drop_result now job_id none s = refl
config-drop_result now job_id (some rec) s =
    elim (Bool-cases
      (state_beq rec.state JobState.done && leb (rec.completed_at + s.result_ttl_s) now)) [
        | inl stale ↦ rw (stale) refl
        | inr fresh ↦ rw (fresh) refl
      ]

config-purge_done :
    (now : ℕ) (entries : List TimedEntry) (s : QueueStore)
    → (purge_done now entries s).config ≡ s.config
unfolding purge_done
config-purge_done now [] s = refl
config-purge_done now (e ∷ rest) s = elim (Bool-cases (leb e.due now)) [
  | inr early ↦ rw (early) refl
  | inl due ↦ rw (due) (config-purge_done now rest _ ∙ config-drop_result now e.id _ s)
]

config-purge_dead :
    (now : ℕ) (o : Option ℕ) (s : QueueStore) → (purge_dead now o s).config ≡ s.config
unfolding purge_dead
config-purge_dead now none s = refl
config-purge_dead now (some ttl) s =
    config-forget_all (map (λ e. e.0) (keep_if (λ e. dead_expired now ttl e.1) (Dict.items s.jobs)))
      s

config-purge_chords :
    (now : ℕ) (o : Option ℕ) (s : QueueStore) → (purge_chords now o s).config ≡ s.config
unfolding purge_chords
config-purge_chords now none s = refl
config-purge_chords now (some ttl) s = refl

pub config-sweep : (now : ℕ) (s : QueueStore) → (sweep now s).0.config ≡ s.config
unfolding sweep reclaim_leases
config-sweep now s =
    config-purge_chords now s.chord_ttl_s _
    ∙ config-purge_dead now s.dead_letter_ttl_s _
    ∙ config-purge_done now _ _
    ∙ config-write_jobs _ _
