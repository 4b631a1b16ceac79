-- ===== src/Queue/Lifecycle/Delivered.antt =====
-- How often the claims of a schedule hand a job out (`QueueStore` of src/istos/queue/store.py).
use mathlib.Core.Option.{some-injective}
use istos.Prelude.{
  ℕ, suc, ◌+◌, ◌-◌, ◌≤◌, ◌≡◌, refl, sym, ap, subst, ◌∙◌, inl, inr, Option, none, some, List, [],
  ◌∷◌, number_key, arith, Bool-cases, Option-cases, ◌==◌, if◌then◌else◌, nat_beq_iff,
}
use istos.Dict
use istos.Dict.{get-set}
use istos.Queue.Job.{JobRecord}
use istos.Queue.State.{QueueStore, lease_lost}
use istos.Queue.Store.{new_job, lease, claim, hand_out, refresh, next_eligible}
use istos.Queue.Schedule.{Op, adds, claims, acks, nacks, sweeps, loads, step}
use istos.Queue.Live.Claims.{next_eligible-found}
use istos.Queue.Order.Drain.{refresh-Either}
use istos.Queue.Lifecycle.Moves.{
  Move, Moves, stay, go, leases, finishes, retries, buries, loses, expires,
}
use istos.Queue.Lifecycle.Run.{IsNoLoad, AllSpare, Spares, IsNew, new-Spares, step-Moves}
use istos.Queue.Lifecycle.Budget.{Budget, Moves-Budget}

abbrev pub counts : ℕ → Option JobRecord → ℕ
counts k none = 0
counts k (some d) = if d.id == k then 1 else 0

-- How many claims of the schedule hand out the job.
abbrev pub deliveries : ℕ → List Op → QueueStore → ℕ
deliveries k [] s = 0
deliveries k (claims now lease_s ∷ ops) s =
    counts k (claim now lease_s s).1 + deliveries k ops (claim now lease_s s).0
deliveries k (op ∷ ops) s = deliveries k ops (step s op)

-- Each job is under its own id.
abbrev pub IsOwn : QueueStore → Type 0
IsOwn s = (k : ℕ) (r : JobRecord) → Dict.get s.jobs k ≡ some r → r.id ≡ k

-- Moves keep what a job is, and never take a delivery back.
Move-keeps :
    {r u : JobRecord}
    → Move r u
    → (u.id ≡ r.id) × (u.max_attempts ≡ r.max_attempts) × (r.attempts ≤ u.attempts)
Move-keeps (leases now lease_s r waits due) = (refl, refl, omega arith)
Move-keeps (finishes result now r held) = (refl, refl, omega arith)
Move-keeps (retries error due r held more) = (refl, refl, omega arith)
Move-keeps (buries error now r held last) = (refl, refl, omega arith)
Move-keeps (loses now r held late left) = (refl, refl, omega arith)
Move-keeps (expires error now r held late spent) = (refl, refl, omega arith)

Moves-keeps :
    {r u : JobRecord}
    → Moves r u
    → (u.id ≡ r.id) × (u.max_attempts ≡ r.max_attempts) × (r.attempts ≤ u.attempts)
Moves-keeps stay = (refl, refl, omega arith)
Moves-keeps (go p m) =
    let a = Moves-keeps p in let b = Move-keeps m in (b.0 ∙ a.0, b.1 ∙ a.1, omega (arith, a.2, b.2))

step-IsOwn : (s : QueueStore) (op : Op) → IsNoLoad op → IsOwn s → IsOwn (step s op)
step-IsOwn s op no_load own k u e = elim (step-Moves s op k u no_load e) [
  | inl new ↦ fresh op new
  | inr (r, there, moves) ↦ (Moves-keeps moves).0 ∙ own k r there
]
  where
    fresh : (x : Op) → IsNew s x k u → u.id ≡ k
    fresh (adds q) new = unfold new_job in cc
    fresh (claims now lease_s) new = absurd new
    fresh (acks i result attempt now) new = absurd new
    fresh (nacks i n) new = absurd new
    fresh (sweeps now) new = absurd new
    fresh (loads now) new = absurd new

-- What a claim hands out is a job as it is left by the first lines of the claim, leased.
abbrev HandedOut : ℕ → ℕ → QueueStore → JobRecord → Type 0
HandedOut now lease_s s d =
    (j : ℕ) × (t : JobRecord) × (Dict.get (refresh now s).jobs j ≡ some t)
    × (d ≡ lease now lease_s t)
    × (Dict.get (claim now lease_s s).0.jobs j ≡ some d)

claim-HandedOut :
    (now lease_s : ℕ) (s : QueueStore) (d : JobRecord)
    → (claim now lease_s s).1 ≡ some d
    → HandedOut now lease_s s d
unfolding claim hand_out
claim-HandedOut now lease_s s d out =
    let fresh = refresh now s in
    elim (Option-cases (next_eligible now fresh.jobs fresh.ready).0) [
      | inl e ↦ absurd (ground (arith, e, out))
      | inr ((j, t), e) ↦
          let (there, _, _) = next_eligible-found now fresh.jobs fresh.ready j t e in
          let is : d ≡ lease now lease_s t = ground (arith, e, out) in
          (
            j,
            t,
            there,
            is,
            rw (e, is)
                (ground (arith, get-set fresh.jobs j j (lease now lease_s t), nat_beq_iff j j)),
          )
    ]

lost-attempts :
    (now : ℕ) (r : JobRecord)
    → ((lease_lost now r).attempts ≡ r.attempts)
      × ((lease_lost now r).max_attempts ≡ r.max_attempts)
unfolding lease_lost
lost-attempts now r = ground arith

delivered-there :
    (now lease_s : ℕ) (s : QueueStore) (k : ℕ) (d : JobRecord)
    → IsOwn (claim now lease_s s).0
    → (claim now lease_s s).1 ≡ some d
    → d.id ≡ k
    → Dict.get (claim now lease_s s).0.jobs k ≡ some d
delivered-there now lease_s s k d own out named =
    let (j, t, fresh, is, there) = claim-HandedOut now lease_s s d out in
    let here : j ≡ k = sym (own j d there) ∙ named in rw (sym here) there

-- A delivery is one attempt more of the job than before the claim.
delivered-attempts :
    (now lease_s : ℕ) (s : QueueStore) (k : ℕ) (r d : JobRecord)
    → IsOwn (claim now lease_s s).0
    → (claim now lease_s s).1 ≡ some d
    → d.id ≡ k
    → Dict.get s.jobs k ≡ some r
    → d.attempts ≡ suc r.attempts
unfolding lease
delivered-attempts now lease_s s k r d own out named found =
    let (j, t, fresh, is, there) = claim-HandedOut now lease_s s d out in
    let here : j ≡ k = sym (own j d there) ∙ named in
    let fresh' = rw here at fresh in
    let counted : d.attempts ≡ suc t.attempts = ap (λ (x : JobRecord). x.attempts) is in
    let before : t.attempts ≡ r.attempts = elim (refresh-Either now s k r found) [
      | inl same ↦
          let at : t ≡ r = ground (arith, same, fresh') in ap (λ (x : JobRecord). x.attempts) at
      | inr lost ↦
          let at : t ≡ lease_lost now r = ground (arith, lost.1, fresh') in
          ap (λ (x : JobRecord). x.attempts) at ∙ (lost-attempts now r).0
    ] in
    counted ∙ ap (λ n. suc n) before

-- The deliveries that a job has left.
abbrev remaining : Option JobRecord → ℕ
remaining none = 0
remaining (some r) = r.max_attempts - r.attempts

abbrev InBudgetAt : ℕ → QueueStore → Type 0
InBudgetAt k s = (r : JobRecord) → Dict.get s.jobs k ≡ some r → Budget r

module _ (k : ℕ) (s : QueueStore) (op : Op) (spares : Spares k op) (no_load : IsNoLoad op) where
  -- What is there after an operation was there before, and has moved.
  moved :
      (u : JobRecord)
      → Dict.get (step s op).jobs k ≡ some u
      → (r : JobRecord) × (Dict.get s.jobs k ≡ some r) × Moves r u
  moved u e = elim (step-Moves s op k u no_load e) [
    | inr old ↦ old
    | inl new ↦ absurd (new-Spares s op k u spares new)
  ]

  step-InBudgetAt : InBudgetAt k s → InBudgetAt k (step s op)
  step-InBudgetAt b u e = let (r, there, moves) = moved u e in Moves-Budget moves (b r there)

  remaining-step : remaining (Dict.get (step s op).jobs k) ≤ remaining (Dict.get s.jobs k)
  remaining-step = elim (Option-cases (Dict.get (step s op).jobs k)) [
    | inl e ↦ rw (e) (omega arith)
    | inr (u, e) ↦
        let (r, there, moves) = moved u e in rw (e, there) (omega (arith, Moves-keeps moves))
  ]

claimed :
    (now lease_s : ℕ) (s : QueueStore) (k : ℕ) (d : JobRecord)
    → Dict.get (claim now lease_s s).0.jobs k ≡ some d
    → (r : JobRecord) × (Dict.get s.jobs k ≡ some r) × Moves r d
unfolding step
claimed now lease_s s k d there = moved k s (claims now lease_s) tt tt d there

claim-remaining :
    (k now lease_s : ℕ) (s : QueueStore)
    → IsOwn s
    → InBudgetAt k s
    → counts k (claim now lease_s s).1 + remaining (Dict.get (claim now lease_s s).0.jobs k)
      ≤ remaining (Dict.get s.jobs k)
claim-remaining k now lease_s s own b =
    let op = claims now lease_s in
    let less : remaining (Dict.get (claim now lease_s s).0.jobs k) ≤ remaining (Dict.get s.jobs k) =
      unfold step in remaining-step k s op tt tt in
    let own' : IsOwn (claim now lease_s s).0 = unfold step in step-IsOwn s op tt own in
    elim (Option-cases (claim now lease_s s).1) [
      | inl e ↦ rw (e) (omega (arith, less))
      | inr (d, e) ↦ elim (Bool-cases (d.id == k)) [
        | inr other ↦ rw (e, other) (omega (arith, less))
        | inl same ↦
            let named : d.id ≡ k = ground (arith, same, nat_beq_iff d.id k) in
            let there = delivered-there now lease_s s k d own' e named in
            let (r, before, moves) = claimed now lease_s s k d there in
            let more = delivered-attempts now lease_s s k r d own' e named before in
            let spent = (Moves-Budget moves (b r before)).spent in
            rw (e, same, there, before) (omega (arith, more, spent, Moves-keeps moves))
      ]
    ]

deliveries-remaining :
    (k : ℕ) (ops : List Op) (s : QueueStore)
    → AllSpare k ops
    → IsOwn s
    → InBudgetAt k s
    → deliveries k ops s ≤ remaining (Dict.get s.jobs k)
deliveries-remaining k [] s spare own b = omega arith
deliveries-remaining k (claims now lease_s ∷ ops) s spare own b =
    let op = claims now lease_s in
    let rest =
      deliveries-remaining k ops (claim now lease_s s).0 spare.2
        (unfold step in step-IsOwn s op tt own) (unfold step in step-InBudgetAt k s op tt tt b) in
    omega (arith, rest, claim-remaining k now lease_s s own b)
deliveries-remaining k (adds q ∷ ops) s spare own b =
    let op = adds q in
    let rest =
      deliveries-remaining k ops (step s op) spare.2 (step-IsOwn s op spare.1 own)
        (step-InBudgetAt k s op spare.0 spare.1 b) in
    omega (arith, rest, remaining-step k s op spare.0 spare.1)
deliveries-remaining k (acks i result attempt now ∷ ops) s spare own b =
    let op = acks i result attempt now in
    let rest =
      deliveries-remaining k ops (step s op) spare.2 (step-IsOwn s op spare.1 own)
        (step-InBudgetAt k s op spare.0 spare.1 b) in
    omega (arith, rest, remaining-step k s op spare.0 spare.1)
deliveries-remaining k (nacks i n ∷ ops) s spare own b =
    let op = nacks i n in
    let rest =
      deliveries-remaining k ops (step s op) spare.2 (step-IsOwn s op spare.1 own)
        (step-InBudgetAt k s op spare.0 spare.1 b) in
    omega (arith, rest, remaining-step k s op spare.0 spare.1)
deliveries-remaining k (sweeps now ∷ ops) s spare own b =
    let op = sweeps now in
    let rest =
      deliveries-remaining k ops (step s op) spare.2 (step-IsOwn s op spare.1 own)
        (step-InBudgetAt k s op spare.0 spare.1 b) in
    omega (arith, rest, remaining-step k s op spare.0 spare.1)
deliveries-remaining k (loads now ∷ ops) s spare own b = absurd spare.1

-- A job is not delivered more often than it may be: over any schedule that files nothing under its id
-- and does not load the store again, the claims of the schedule that hand it out, and the attempts
-- that it has had before, are no more than its `max_attempts`, if each job of the store is under its
-- own id, and this one has had no more attempts than that and one less if it waits.
pub delivered_within :
    (k : ℕ) (ops : List Op) (s : QueueStore) (r : JobRecord)
    → AllSpare k ops
    → IsOwn s
    → Dict.get s.jobs k ≡ some r
    → Budget r
    → deliveries k ops s + r.attempts ≤ r.max_attempts
delivered_within k ops s r spare own found b =
    let here : InBudgetAt k s = λ u e. subst Budget (some-injective r u (sym found ∙ e)) b in
    let left = deliveries-remaining k ops s spare own here in
    let bound = rw (found) at left in omega (arith, bound, b.spent)
