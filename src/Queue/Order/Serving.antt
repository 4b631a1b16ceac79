-- ===== src/Queue/Order/Serving.antt =====
-- What `claim` of src/istos/queue/store.py promises, apart from heaps, tombstones and storage, and that it keeps it.
use istos.Prelude.{
  ℕ, suc, ◌+◌, ◌≤◌, ◌≡◌, refl, sym, ap, subst, ◌∙◌, inl, inr, true, Option, none, some, number_key,
  arith,
}
use mathlib.Core.Option.{some-injective}
use istos.Dict
use istos.Dict.{Dict}
use istos.Queue.Job.{JobState, JobRecord, ready_entry, ready_le}
use istos.Queue.State.{QueueStore, lease_lost}
use istos.Queue.Store.{claim, refresh, next_eligible, lease}
use istos.Queue.Live.Defs.{IsLive}
use istos.Queue.Live.Claims.{next_eligible-found}
use istos.Queue.Lifecycle.Steps.{refresh-Evolves}
use istos.Queue.Order.Sorted.{IsOrdered}
use istos.Queue.Order.Genuine.{Genuine, entry-lease_lost}
use istos.Queue.Order.Drain.{refresh-Either}
use istos.Queue.Order.Claim.{HasWork, claim_serves, claim_least, handed, entry-lease}

-- The next delivery of a job.
pub record IsDelivery (now lease_s : ℕ) (r x : JobRecord) : Type 0 where
  pub same_id : x.id ≡ r.id
  pub same_body : x.body ≡ r.body
  pub same_wf : x.wf ≡ r.wf
  pub one_more : x.attempts ≡ suc r.attempts
  pub held : x.state ≡ JobState.leased
  pub until : x.lease_until ≡ now + lease_s

-- Nothing, if there is no work; otherwise the next delivery of a job that a worker could have, before which no other
-- such job comes by priority and sequence number.
abbrev pub Serves : ℕ → ℕ → Dict ℕ JobRecord → Option JobRecord → Type 0
Serves now lease_s jobs none =
    (k : ℕ) (r : JobRecord) → Dict.get jobs k ≡ some r → HasWork now r → ⊥
Serves now lease_s jobs (some x) =
    (k : ℕ) × (r : JobRecord) × (Dict.get jobs k ≡ some r)
    × HasWork now r
    × IsDelivery now lease_s r x
    × ((j : ℕ) (t : JobRecord)
        → Dict.get jobs j ≡ some t
        → HasWork now t
        → ready_le (ready_entry r) (ready_entry t) ≡ true)

lost-HasWork :
    (now : ℕ) (r : JobRecord)
    → r.state ≡ JobState.leased
    → r.lease_until ≤ now
    → (lease_lost now r).state ≡ JobState.ready
    → HasWork now r
unfolding lease_lost
lost-HasWork now r held out waits = inr (held, out, ground (arith, waits))

lease-IsDelivery :
    (now lease_s : ℕ) (r : JobRecord) → IsDelivery now lease_s r (lease now lease_s r)
unfolding lease
lease-IsDelivery now lease_s r = record {
  same_id = refl;
  same_body = refl;
  same_wf = refl;
  one_more = refl;
  held = refl;
  until = refl;
}

lost-IsDelivery :
    (now lease_s : ℕ) (r : JobRecord)
    → IsDelivery now lease_s r (lease now lease_s (lease_lost now r))
unfolding lease lease_lost
lost-IsDelivery now lease_s r = record {
  same_id = ground arith;
  same_body = ground arith;
  same_wf = ground arith;
  one_more = ground arith;
  held = ground arith;
  until = ground arith;
}

-- What is eligible once delayed jobs have matured and lost leases are back was work before.
work_before :
    (now lease_s : ℕ) (s : QueueStore) (k : ℕ) (y : JobRecord)
    → Dict.get (refresh now s).jobs k ≡ some y
    → y.state ≡ JobState.ready
    → y.not_before ≤ now
    → (r : JobRecord) × (Dict.get s.jobs k ≡ some r)
      × HasWork now r
      × IsDelivery now lease_s r (lease now lease_s y)
      × (ready_entry y ≡ ready_entry r)
work_before now lease_s s k y there waits due =
    let (r, old, moved) = (refresh-Evolves now s).origin k y there in
    elim (refresh-Either now s k r old) [
      | inl same ↦
          let is : r ≡ y = some-injective r y (sym same ∙ there) in
          (
            y,
            subst (λ z. Dict.get s.jobs k ≡ some z) is old,
            inl (waits, due),
            lease-IsDelivery now lease_s y,
            refl,
          )
      | inr ((held, lost, out)) ↦
          let is : lease_lost now r ≡ y = some-injective _ y (sym lost ∙ there) in
          (
            r,
            old,
            lost-HasWork now r held out (ap (λ (z : JobRecord). z.state) is ∙ waits),
            subst (λ z. IsDelivery now lease_s r (lease now lease_s z)) is
                (lost-IsDelivery now lease_s r),
            ap ready_entry (sym is) ∙ entry-lease_lost now r,
          )
    ]

claim-handed :
    (now lease_s : ℕ) (s : QueueStore) (x : JobRecord)
    → (claim now lease_s s).1 ≡ some x
    → (j : ℕ) × (y : JobRecord) × ((next_eligible now (refresh now s).jobs (refresh now s).ready).0
        ≡ some (j, y))
      × (x ≡ lease now lease_s y)
unfolding claim
claim-handed now lease_s s x e = handed now lease_s _ _ x e

-- claim does what is promised of it, in a store that tracks its jobs, with sorted heaps whose ready entries
-- are those of their jobs, and a clock that has not gone back: it comes back empty only if no job waits with
-- its time come or is leased with its lease run out and a delivery left; otherwise it hands out the next
-- delivery of such a job, before which no other comes by priority and then by sequence number.
pub claim-Serves :
    (clock now lease_s : ℕ) (s : QueueStore)
    → clock ≤ now
    → IsLive clock s
    → IsOrdered s
    → Genuine s.jobs s.ready
    → Serves now lease_s s.jobs (claim now lease_s s).1
claim-Serves clock now lease_s s le live sorted genuine = reply (claim now lease_s s).1 refl
  where
    reply : (o : Option JobRecord) → (claim now lease_s s).1 ≡ o → Serves now lease_s s.jobs o
    reply none e =
        λ k r found work. claim_serves clock now lease_s s k r le live sorted found work e
    reply (some x) e =
        let (j, y, found, is) = claim-handed now lease_s s x e in
        let (there, waits, due) =
          next_eligible-found now (refresh now s).jobs (refresh now s).ready j y found in
        let (r, old, work, delivery, entry) = work_before now lease_s s j y there waits due in
        (
          j,
          r,
          old,
          work,
          subst (IsDelivery now lease_s r) (sym is) delivery,
          λ i t here has.
              subst (λ z. ready_le z (ready_entry t) ≡ true)
                (ap ready_entry is ∙ entry-lease now lease_s y ∙ entry)
                (claim_least clock now lease_s s i t x le live sorted genuine here has e),
        )
