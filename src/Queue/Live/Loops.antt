-- ===== src/Queue/Live/Loops.antt =====
-- The loops of `_mature_delayed` and `_reclaim_leases` keep every job tracked by a heap.
use istos.Prelude.{
  ℕ, ◌≤◌, ◌≡◌, ◌⊎◌, inl, inr, true, Option, none, some, In, List, [], ◌∷◌, number_key, arith,
  Bool-cases, leb, refl,
}
use istos.Dict
use istos.Dict.{Dict, get-set}
use istos.Heap.{In-push_self, In-push_old}
use istos.Queue.Job.{
  JobState, JobRecord, ReadyEntry, TimedEntry, ready_entry, ready_order, timed_order,
}
use istos.Queue.State.{matured, mature_loop, Reclaim, reclaim_one, reclaim_loop, lease_lost}

abbrev pub delayed_entry : JobRecord → TimedEntry
delayed_entry r = record { due = r.not_before; id = r.id }

abbrev pub lease_entry : JobRecord → TimedEntry
lease_entry r = record { due = r.lease_until; id = r.id }

-- A waiting job is in the ready heap and may be claimed from `clock` on, or in the delayed heap.
abbrev pub Offered : ℕ → JobRecord → List ReadyEntry → List TimedEntry → Type 0
Offered clock r ready delayed =
    (In (ready_entry r) ready × (r.not_before ≤ clock)) ⊎ In (delayed_entry r) delayed

abbrev pub Tracked :
    ℕ → List ReadyEntry → List TimedEntry → List TimedEntry → ℕ → JobRecord → Type 0
Tracked clock ready delayed leases k r =
    (r.id ≡ k)
    × (r.state ≡ JobState.ready → Offered clock r ready delayed)
    × (r.state ≡ JobState.leased → In (lease_entry r) leases)

abbrev pub Live :
    ℕ → Dict ℕ JobRecord → List ReadyEntry → List TimedEntry → List TimedEntry → Type 0
Live clock jobs ready delayed leases =
    (k : ℕ) (r : JobRecord) → Dict.get jobs k ≡ some r → Tracked clock ready delayed leases k r

matured-Offered :
    (now : ℕ) (jobs : Dict ℕ JobRecord) (e : TimedEntry) (rest : List TimedEntry)
    (ready : List ReadyEntry) (k : ℕ) (r : JobRecord)
    → Dict.get jobs k ≡ some r
    → r.id ≡ k
    → r.state ≡ JobState.ready
    → leb e.due now ≡ true
    → Offered now r ready (e ∷ rest)
    → Offered now r (matured now (Dict.get jobs e.id) ready) rest
unfolding matured
matured-Offered now jobs e rest ready k r found own waits due (inl h) =
    inl (old (Dict.get jobs e.id), h.1)
  where
    old : (o : Option JobRecord) → In (ready_entry r) (matured now o ready)
    old none = h.0
    old (some x) = ground (arith, In-push_old (ready_entry x) (ready_entry r) ready h.0)
matured-Offered now jobs e rest ready k r found own waits due (inr (inl h)) =
    ground (arith, In-push_self (ready_entry r) ready)
matured-Offered now jobs e rest ready k r found own waits due (inr (inr h)) = inr h

mature_loop-Offered :
    (now : ℕ) (jobs : Dict ℕ JobRecord) (delayed : List TimedEntry) (ready : List ReadyEntry)
    (k : ℕ) (r : JobRecord)
    → Dict.get jobs k ≡ some r
    → r.id ≡ k
    → r.state ≡ JobState.ready
    → Offered now r ready delayed
    → Offered now r (mature_loop now jobs delayed ready).1 (mature_loop now jobs delayed ready).0
unfolding mature_loop
mature_loop-Offered now jobs [] ready k r found own waits h = h
mature_loop-Offered now jobs (e ∷ rest) ready k r found own waits h =
    elim (Bool-cases (leb e.due now)) [
      | inl due ↦ rw due (
          mature_loop-Offered now jobs rest (matured now (Dict.get jobs e.id) ready) k r found own
            waits (matured-Offered now jobs e rest ready k r found own waits due h))
      | inr early ↦ rw early h
    ]

pub mature_loop-Live :
    (now : ℕ) (jobs : Dict ℕ JobRecord) (delayed leases : List TimedEntry) (ready : List ReadyEntry)
    → Live now jobs ready delayed leases
    → Live now jobs
        (mature_loop now jobs delayed ready).1
        (mature_loop now jobs delayed ready).0
        leases
mature_loop-Live now jobs delayed leases ready live k r found =
    let t = live k r found in
    (t.0, λ waits. mature_loop-Offered now jobs delayed ready k r found t.0 waits (t.1 waits), t.2)

-- Time passes.
pub Live-later :
    (clock now : ℕ) (jobs : Dict ℕ JobRecord) (ready : List ReadyEntry)
    (delayed leases : List TimedEntry)
    → clock ≤ now
    → Live clock jobs ready delayed leases
    → Live now jobs ready delayed leases
Live-later clock now jobs ready delayed leases le live k r found =
    let t = live k r found in (t.0, λ waits. ground (arith, t.1 waits), t.2)

-- One popped lease entry: a stale one tracked nothing, any other is exchanged for a ready entry.
reclaim_one-Tracked :
    (now : ℕ) (e : TimedEntry) (rest delayed : List TimedEntry) (x : Reclaim) (o : Option JobRecord)
    (k : ℕ) (r : JobRecord)
    → Dict.get x.jobs e.id ≡ o
    → Live now x.jobs x.ready delayed (e ∷ rest)
    → leb e.due now ≡ true
    → Dict.get (reclaim_one now e.id o x).jobs k ≡ some r
    → Tracked now (reclaim_one now e.id o x).ready delayed rest k r
unfolding reclaim_one lease_lost
reclaim_one-Tracked now e rest delayed x none k r held live due found =
    let t = live k r found in (t.0, t.1, λ l. ground (arith, t.2 l))
reclaim_one-Tracked now e rest delayed x (some rec) k r held live due found = ground (
  arith,
  live k r,
  live e.id rec held,
  get-set x.jobs e.id k (lease_lost now rec),
  In-push_self (ready_entry rec) x.ready,
  In-push_old (ready_entry rec) (ready_entry r) x.ready,
)

pub reclaim_loop-Live :
    (now : ℕ) (leases delayed : List TimedEntry) (x : Reclaim)
    → Live now x.jobs x.ready delayed leases
    → Live now
        (reclaim_loop now leases x).1.jobs
        (reclaim_loop now leases x).1.ready
        delayed
        (reclaim_loop now leases x).0
unfolding reclaim_loop
reclaim_loop-Live now [] delayed x live = live
reclaim_loop-Live now (e ∷ rest) delayed x live = elim (Bool-cases (leb e.due now)) [
  | inl due ↦ rw due (
      reclaim_loop-Live now rest delayed (reclaim_one now e.id (Dict.get x.jobs e.id) x)
        (λ k r found.
          reclaim_one-Tracked now e rest delayed x (Dict.get x.jobs e.id) k r refl live due found))
  | inr early ↦ rw early live
]
