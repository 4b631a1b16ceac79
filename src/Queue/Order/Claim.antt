-- ===== src/Queue/Order/Claim.antt =====
-- `claim` finds work when there is some, and hands out the best of it.
use istos.Prelude.{
  ℕ, ◌≤◌, ◌<◌, ◌≡◌, ◌≢◌, refl, ◌⊎◌, inl, inr, true, Option, none, some, In, List, [], ◌∷◌,
  number_key, arith, Bool-cases, Option-cases,
}
use istos.Dict
use istos.Dict.{Dict}
use istos.Heap.{IsSorted, head_least}
use istos.Queue.Job.{JobState, JobRecord, ReadyEntry, ready_entry, ready_order, ready_le}
use istos.Queue.State.{QueueStore, lease_lost}
use istos.Queue.Store.{claim, refresh, hand_out, next_eligible, eligible, lease}
use istos.Queue.Live.Defs.{IsLive, IsLive-later}
use istos.Queue.Live.Claims.{refresh-IsLive}
use istos.Queue.Order.Sorted.{IsOrdered}
use istos.Queue.Order.Steps.{refresh-IsOrdered}
use istos.Queue.Order.Genuine.{Genuine, refresh-Genuine, entry-lease_lost, tail-Genuine}
use istos.Queue.Order.Drain.{refresh-delayed, refresh-leases, refresh-Either}

-- A job that a worker could have at `now`: it waits and its time has come, or its lease has run out
-- and a delivery is left.
abbrev pub HasWork : ℕ → JobRecord → Type 0
HasWork now r =
    ((r.state ≡ JobState.ready) × (r.not_before ≤ now))
    ⊎ ((r.state ≡ JobState.leased) × (r.lease_until ≤ now) × (r.attempts < r.max_attempts))

-- A job that waits once the delayed jobs have matured and the lost leases are back.
abbrev Waits : ℕ → QueueStore → ℕ → JobRecord → Type 0
Waits now f k u =
    (Dict.get f.jobs k ≡ some u)
    × (u.state ≡ JobState.ready)
    × (u.not_before ≤ now)
    × In (ready_entry u) f.ready
    × (u.id ≡ k)

ready-In :
    (clock now : ℕ) (s : QueueStore) (k : ℕ) (u : JobRecord)
    → clock ≤ now
    → IsLive clock s
    → IsOrdered s
    → Dict.get (refresh now s).jobs k ≡ some u
    → u.state ≡ JobState.ready
    → u.not_before ≤ now
    → Waits now (refresh now s) k u
ready-In clock now s k u le live h found waits due =
    let t = refresh-IsLive now s (IsLive-later clock now s le live) k u found in
    elim (t.1 waits) [
      | inl m ↦ (found, waits, due, m.0, t.0)
      | inr m ↦ absurd (omega (arith, refresh-delayed now s h _ m))
    ]

work-Waits :
    (clock now : ℕ) (s : QueueStore) (k : ℕ) (r : JobRecord)
    → clock ≤ now
    → IsLive clock s
    → IsOrdered s
    → Dict.get s.jobs k ≡ some r
    → HasWork now r
    → (u : JobRecord) × Waits now (refresh now s) k u × (ready_entry u ≡ ready_entry r)
work-Waits clock now s k r le live h found work = elim (refresh-Either now s k r found) [
  | inl same ↦ elim work [
    | inl waits ↦ (r, ready-In clock now s k r le live h same waits.0 waits.1, refl)
    | inr held ↦
        let t = refresh-IsLive now s (IsLive-later clock now s le live) k r same in
        absurd (omega (arith, refresh-leases now s h _ (t.2 held.0), held.1))
  ]
  | inr lost ↦ elim work [
    | inl waits ↦ absurd (cc)
    | inr held ↦ (
      lease_lost now r,
      ready-In clock now s k (lease_lost now r) le live h lost.1 (unfold lease_lost in ground arith)
          (unfold lease_lost in ground arith),
      entry-lease_lost now r,
    )
  ]
]

next_eligible-some :
    (now : ℕ) (jobs : Dict ℕ JobRecord) (entries : List ReadyEntry) (k : ℕ) (u : JobRecord)
    → Dict.get jobs k ≡ some u
    → u.state ≡ JobState.ready
    → u.not_before ≤ now
    → u.id ≡ k
    → In (ready_entry u) entries
    → (next_eligible now jobs entries).0 ≢ none
unfolding next_eligible
next_eligible-some now jobs [] k u found waits due own m = absurd m
next_eligible-some now jobs (e ∷ rest) k u found waits due own m = ground (
  arith,
  Option-cases (Dict.get jobs e.id),
  next_eligible-some now jobs rest k u found waits due own,
)

hand_out-none :
    (now lease_s : ℕ) (s : QueueStore) (found : Option (ℕ × JobRecord))
    → (hand_out now lease_s s found).1 ≡ none
    → found ≡ none
unfolding hand_out
hand_out-none now lease_s s none h = refl
hand_out-none now lease_s s (some x) h = absurd (cc)

-- `claim` never comes back empty while there is work: if every job of the store is tracked, the
-- heaps are sorted, the clock has not gone back, and some job waits with its time come or has a
-- lease that ran out with a delivery left, then a job is handed out.
pub claim_serves :
    (clock now lease_s : ℕ) (s : QueueStore) (k : ℕ) (r : JobRecord)
    → clock ≤ now
    → IsLive clock s
    → IsOrdered s
    → Dict.get s.jobs k ≡ some r
    → HasWork now r
    → (claim now lease_s s).1 ≢ none
unfolding claim
claim_serves clock now lease_s s k r le live h found work e =
    let w = work-Waits clock now s k r le live h found work in
    next_eligible-some now (refresh now s).jobs (refresh now s).ready k w.0 w.1.0 w.1.1 w.1.2 w.1.4
      w.1.3 (hand_out-none now lease_s _ _ e)

next_eligible-least :
    (now : ℕ) (jobs : Dict ℕ JobRecord) (entries : List ReadyEntry) (k j : ℕ) (u y : JobRecord)
    → Genuine jobs entries
    → IsSorted entries
    → Dict.get jobs k ≡ some u
    → u.state ≡ JobState.ready
    → u.not_before ≤ now
    → In (ready_entry u) entries
    → (next_eligible now jobs entries).0 ≡ some (j, y)
    → ready_le (ready_entry y) (ready_entry u) ≡ true
unfolding next_eligible
next_eligible-least now jobs [] k j u y g s found waits due m h = absurd m
next_eligible-least now jobs (e ∷ rest) k j u y g s found waits due m h =
    elim (Bool-cases (eligible now (Dict.get jobs e.id))) [
      | inl hit ↦ ground (
        arith,
        Option-cases (Dict.get jobs e.id),
        g.entry e y (inl refl),
        head_least e (ready_entry u) rest s m,
      )
      | inr miss ↦
          next_eligible-least now jobs rest k j u y (tail-Genuine jobs e rest g) s.1 found waits due
            (elim m [
              | inl here ↦ absurd (ground (arith, here, g.own k u found))
              | inr there ↦ there
            ])
            (rw miss at h)
    ]

pub handed :
    (now lease_s : ℕ) (s : QueueStore) (found : Option (ℕ × JobRecord)) (x : JobRecord)
    → (hand_out now lease_s s found).1 ≡ some x
    → (j : ℕ) × (y : JobRecord) × (found ≡ some (j, y)) × (x ≡ lease now lease_s y)
unfolding hand_out
handed now lease_s s none x h = absurd (cc)
handed now lease_s s (some (j, y)) x h = (j, y, refl, ground arith)

pub entry-lease :
    (now lease_s : ℕ) (y : JobRecord) → ready_entry (lease now lease_s y) ≡ ready_entry y
unfolding lease
entry-lease now lease_s y = refl

-- `claim` hands out the job that is first by priority, and by sequence number within a priority:
-- whatever job waits with its time come, or is leased with its lease run out and a delivery left,
-- it does not come before the one handed out. Stated for a store in which every job is tracked, the
-- heaps are sorted and each ready entry is that of its job, and a clock that has not gone back.
pub claim_least :
    (clock now lease_s : ℕ) (s : QueueStore) (k : ℕ) (r x : JobRecord)
    → clock ≤ now
    → IsLive clock s
    → IsOrdered s
    → Genuine s.jobs s.ready
    → Dict.get s.jobs k ≡ some r
    → HasWork now r
    → (claim now lease_s s).1 ≡ some x
    → ready_le (ready_entry x) (ready_entry r) ≡ true
unfolding claim
claim_least clock now lease_s s k r x le live h g found work e =
    let w = work-Waits clock now s k r le live h found work in
    let y = handed now lease_s _ _ x e in
    let least =
      next_eligible-least now (refresh now s).jobs (refresh now s).ready k y.0 w.0 y.1
        (refresh-Genuine now s g) (refresh-IsOrdered now s h).ready w.1.0 w.1.1 w.1.2 w.1.3 y.2 in
    rw (y.3, entry-lease now lease_s y.1, ← w.2) least
