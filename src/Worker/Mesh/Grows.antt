-- ===== src/Worker/Mesh/Grows.antt =====
-- What the handlers of an owner (src/istos/queue/role.py) leave of its jobs: those that are open stay open,
-- and no other appear but that which is enqueued.
use istos.Prelude.{
  ℕ, suc, ◌≡◌, refl, sym, ap, ◌∙◌, ◌⊎◌, inl, inr, true, Option, none, some, String, ℤ, number_key,
  arith, Bool-cases, ◌==◌, nat_beq_iff,
}
use mathlib.Core.Option.{some-injective}
use istos.Dict
use istos.Dict.{Dict, get-set}
use istos.Queue.Job.{JobRecord, Bytes}
use istos.Queue.State.{QueueStore}
use istos.Queue.Store.{add, new_job, claim, refresh, hand_out, next_eligible, lease}
use istos.Queue.Upkeep.{sweep}
use istos.Queue.Chord.{chord_report}
use istos.Queue.Live.Claims.{next_eligible-found}
use istos.Queue.Lifecycle.Moves.{
  Move, Moves, stay, go, leases, finishes, retries, buries, loses, expires, Evolves,
}
use istos.Queue.Lifecycle.Steps.{
  refresh-Evolves, claim-Evolves, ack-Evolves, nack-Evolves, sweep-Evolves,
}
use istos.Queue.Lifecycle.Run.{jobs-add}
use istos.Queue.Lifecycle.Lasting.{
  IsOpen, Lasting, claim-Lasting, nack-Lasting, add-Lasting, ack-Lasting,
}
use istos.Worker.Mesh.Settings.{config-add, config-claim, config-ack, config-nack, config-sweep}
use istos.Worker.Owner.{
  Owner, Posted, Instant, Claimed, Later, to_add, claim_reply, claim_replied, on_enqueue, on_claim,
  on_ack, on_nack, on_chord,
}

-- Each job of the second store is one of the first, or new, and its id is the key it stands under.
pub record Grows (IsNew : ℕ → Type 0) (s t : QueueStore) : Type 0 where
  pub settings : t.config ≡ s.config
  pub origin :
      (k : ℕ) (u : JobRecord)
      → Dict.get t.jobs k ≡ some u
      → ((r : JobRecord) × (Dict.get s.jobs k ≡ some r) × (u.id ≡ r.id) × (u.wf ≡ r.wf))
        ⊎ (IsNew k × (u.id ≡ k))

abbrev pub NoneNew : ℕ → Type 0
NoneNew k = ⊥

Move-same : {r u : JobRecord} → Move r u → (u.id ≡ r.id) × (u.wf ≡ r.wf)
Move-same (leases now lease_s r waits due) = (refl, refl)
Move-same (finishes result now r held) = (refl, refl)
Move-same (retries error due r held more) = (refl, refl)
Move-same (buries error now r held last) = (refl, refl)
Move-same (loses now r held late left) = (refl, refl)
Move-same (expires error now r held late spent) = (refl, refl)

Moves-same : {r u : JobRecord} → Moves r u → (u.id ≡ r.id) × (u.wf ≡ r.wf)
Moves-same stay = (refl, refl)
Moves-same (go p m) = ((Move-same m).0 ∙ (Moves-same p).0, (Move-same m).1 ∙ (Moves-same p).1)

Evolves-Grows : (s t : QueueStore) → t.config ≡ s.config → Evolves s.jobs t.jobs → Grows NoneNew s t
Evolves-Grows s t same e = record {
  settings = same;
  origin = λ k u found.
      let (r, old, moved) = e.origin k u found in
      inl (r, old, (Moves-same moved).0, (Moves-same moved).1);
}

module _ (o : Owner) where
  pub on_claim-Grows : (now : ℕ) → Grows NoneNew o.store (on_claim now o).0.store
  unfolding on_claim
  on_claim-Grows now =
      Evolves-Grows _ _ (config-claim now o.lease_s o.store) (claim-Evolves now o.lease_s o.store)

  pub on_claim-Lasting : (now : ℕ) → Lasting o.store.jobs (on_claim now o).0.store.jobs
  unfolding on_claim
  on_claim-Lasting now = claim-Lasting now o.lease_s o.store

  pub on_ack-Grows :
      (i : ℕ) (payload : Bytes) (attempt : Option ℕ) (now : ℕ)
      → Grows NoneNew o.store (on_ack i payload attempt now o).0.store
  unfolding on_ack
  on_ack-Grows i payload attempt now =
      Evolves-Grows _ _ (config-ack i now _ attempt o.store) (ack-Evolves i now _ attempt o.store)

  pub on_ack-Lasting :
      (i : ℕ) (payload : Bytes) (attempt : Option ℕ) (now k : ℕ) (wf : Option String)
      → IsOpen o.store.jobs k wf
      → IsOpen (on_ack i payload attempt now o).0.store.jobs k wf
        ⊎ ((i ≡ k) × ((on_ack i payload attempt now o).1 ≡ true))
  unfolding on_ack
  on_ack-Lasting i payload attempt now k wf x = ack-Lasting i now _ attempt o.store k wf x

  pub on_nack-Grows :
      (i : ℕ) (payload : String) (attempt : ℕ) (l : Later)
      → Grows NoneNew o.store (on_nack i payload attempt l o).0.store
  unfolding on_nack
  on_nack-Grows i payload attempt l =
      Evolves-Grows _ _ (config-nack i _ o.store) (nack-Evolves i _ o.store)

  pub on_nack-Lasting :
      (i : ℕ) (payload : String) (attempt : ℕ) (l : Later)
      → Lasting o.store.jobs (on_nack i payload attempt l o).0.store.jobs
  unfolding on_nack
  on_nack-Lasting i payload attempt l = nack-Lasting i _ o.store

  pub on_chord-same :
      (id : String) (index size : ℤ) (payload : String) (now : ℕ)
      → ((on_chord id index size payload now o).0.store.jobs ≡ o.store.jobs)
        × ((on_chord id index size payload now o).0.store.config ≡ o.store.config)
  unfolding on_chord chord_report
  on_chord-same id index size payload now = (refl, refl)

  pub sweep-Grows : (now : ℕ) → Grows NoneNew o.store (sweep now o.store).0
  sweep-Grows now = Evolves-Grows _ _ (config-sweep now o.store) (sweep-Evolves now o.store)

  module _ (p : Posted) (i : Instant) where
    pub on_enqueue-Grows : Grows (λ k. k ≡ i.fresh_id) o.store (on_enqueue p i o).0.store
    unfolding on_enqueue to_add new_job
    on_enqueue-Grows = record {
      settings = config-add (to_add o p i) o.store;
      origin = λ k u found.
          let found' = rw jobs-add at found in
          elim (Bool-cases (i.fresh_id == k)) [
            | inl same ↦ inr (
                ground (
                  arith,
                  nat_beq_iff i.fresh_id k,
                  get-set o.store.jobs i.fresh_id k (new_job (to_add o p i) (suc o.store.seq)),
                ))
            | inr other ↦ inl (
              u,
              ground (
                arith,
                get-set o.store.jobs i.fresh_id k (new_job (to_add o p i) (suc o.store.seq)),
              ),
              refl,
              refl,
            )
          ];
    }

    pub on_enqueue-Lasting :
        Dict.get o.store.jobs i.fresh_id ≡ none
        → Lasting o.store.jobs (on_enqueue p i o).0.store.jobs
    unfolding on_enqueue to_add
    on_enqueue-Lasting fresh = add-Lasting (to_add o p i) o.store fresh

    pub on_enqueue-id : (on_enqueue p i o).1 ≡ i.fresh_id
    unfolding on_enqueue add to_add new_job
    on_enqueue-id = refl

    pub on_enqueue-IsOpen : IsOpen (on_enqueue p i o).0.store.jobs i.fresh_id p.wf
    unfolding on_enqueue to_add new_job
    on_enqueue-IsOpen = (
      new_job (to_add o p i) (suc o.store.seq),
      rw
          (
            jobs-add (to_add o p i) o.store,
            get-set o.store.jobs i.fresh_id i.fresh_id (new_job (to_add o p i) (suc o.store.seq)),
          )
          (ground (arith, nat_beq_iff i.fresh_id i.fresh_id)),
      refl,
      λ e. absurd (cc),
    )

handed_out :
    (now lease_s : ℕ) (s : QueueStore) (found : Option (ℕ × JobRecord)) (rec : JobRecord)
    → ((k : ℕ) (r : JobRecord) → found ≡ some (k, r) → r.id ≡ k)
    → (hand_out now lease_s s found).1 ≡ some rec
    → Dict.get (hand_out now lease_s s found).0.jobs rec.id ≡ some rec
unfolding hand_out lease
handed_out now lease_s s none rec own h = absurd (cc)
handed_out now lease_s s (some (k, r)) rec own h =
    let is : lease now lease_s r ≡ rec = some-injective _ _ h in
    let at : k ≡ rec.id = sym (own k r refl) ∙ ap (λ (x : JobRecord). x.id) is in
    let there : Dict.get (Dict.set s.jobs k (lease now lease_s r)) k ≡ some (lease now lease_s r) =
      ground (arith, get-set s.jobs k k (lease now lease_s r), nat_beq_iff k k) in
    ap (Dict.get (Dict.set s.jobs k (lease now lease_s r))) (sym at) ∙ there ∙ ap some is

-- Each job stands under its id.
abbrev pub OwnKeys : QueueStore → Type 0
OwnKeys s = (k : ℕ) (u : JobRecord) → Dict.get s.jobs k ≡ some u → u.id ≡ k

claim-there :
    (now lease_s : ℕ) (s : QueueStore) (rec : JobRecord)
    → OwnKeys s
    → (claim now lease_s s).1 ≡ some rec
    → Dict.get (claim now lease_s s).0.jobs rec.id ≡ some rec
unfolding claim
claim-there now lease_s s rec own h =
    let f = refresh now s in
    handed_out now lease_s (record f { ready = (next_eligible now f.jobs f.ready).1 })
      (next_eligible now f.jobs f.ready).0 rec
      (λ k r e.
        let (r0, old, moved) =
          (refresh-Evolves now s).origin k r (next_eligible-found now f.jobs f.ready k r e).0 in
        (Moves-same moved).0 ∙ own k r0 old)
      h

claim_replied-some :
    (o : Option JobRecord) (job : Claimed)
    → claim_replied o ≡ some job
    → (rec : JobRecord) × (o ≡ some rec) × (rec.id ≡ job.job_id) × (rec.wf ≡ job.wf)
unfolding claim_replied claim_reply
claim_replied-some none job h = absurd (cc)
claim_replied-some (some rec) job h =
    let is = some-injective _ _ h in
    (rec, refl, ap (λ (c : Claimed). c.job_id) is, ap (λ (c : Claimed). c.wf) is)

-- The job that a reply to a claim is about is there, with the workflow of the reply.
pub on_claim-there :
    (o : Owner) (now : ℕ) (job : Claimed)
    → OwnKeys o.store
    → (on_claim now o).1 ≡ some job
    → (u : JobRecord) × (Dict.get (on_claim now o).0.store.jobs job.job_id ≡ some u)
      × (u.wf ≡ job.wf)
unfolding on_claim
on_claim-there o now job own h =
    let (rec, e, same_id, same_wf) = claim_replied-some (claim now o.lease_s o.store).1 job h in
    (
      rec,
      ap (Dict.get (claim now o.lease_s o.store).0.jobs) (sym same_id)
          ∙ claim-there now o.lease_s o.store rec own e,
      same_wf,
    )
