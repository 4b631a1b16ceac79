-- ===== src/Queue/Lifecycle/Fencing.antt =====
-- The fencing token of a delivery: `_holds_lease` of src/istos/queue/store.py.
use istos.Prelude.{
  ◌≢◌, inr, Bool-cases, ℕ, ◌≤◌, ◌<◌, ◌≡◌, refl, ◌⊎◌, inl, true, false, Option, none, some, List,
  number_key, arith,
}
use istos.Dict
use istos.Dict.{get-set, get-remove}
use istos.Queue.Job.{JobState, JobRecord, Bytes}
use istos.Queue.State.{QueueStore}
use istos.Queue.Store.{ack, ack_found, holds_lease, finished, Nack, nack, nack_found}
use istos.Queue.Schedule.{Op, run}
use istos.Queue.Lifecycle.Moves.{
  Move, Moves, stay, go, leases, finishes, retries, buries, loses, expires,
}
use istos.Queue.Lifecycle.Run.{AllSpare, run-Moves}

-- What a delivery `d` can have become: itself, or a record that is not leased under its number.
abbrev Follows : JobRecord → JobRecord → Type 0
Follows d u =
    (u ≡ d) ⊎ ((d.attempts ≤ u.attempts) × (u.state ≡ JobState.leased → d.attempts < u.attempts))

Move-Follows :
    {u v : JobRecord} (d : JobRecord)
    → d.state ≡ JobState.leased
    → Move u v
    → Follows d u
    → Follows d v
Move-Follows d held (leases now lease_s r waits due) f = ground arith
Move-Follows d held (finishes result now r h) f = ground arith
Move-Follows d held (retries error due r h more) f = ground arith
Move-Follows d held (buries error now r h last) f = ground arith
Move-Follows d held (loses now r h late left) f = ground arith
Move-Follows d held (expires error now r h late spent) f = ground arith

Moves-Follows :
    (d : JobRecord) {u : JobRecord} → d.state ≡ JobState.leased → Moves d u → Follows d u
Moves-Follows d held stay = inl refl
Moves-Follows d held (go p m) = Move-Follows d held m (Moves-Follows d held p)

-- A descendant of a delivery that its token opens is that delivery.
pub token_identifies :
    (d u : JobRecord)
    → d.state ≡ JobState.leased
    → Moves d u
    → holds_lease (some d.attempts) u ≡ true
    → u ≡ d
unfolding holds_lease
token_identifies d u held p h = ground (arith, Moves-Follows d held p)

ack-holds :
    (k now : ℕ) (result : Option Bytes) (attempt : Option ℕ) (s : QueueStore)
    → (ack k result attempt now s).1 ≡ true
    → (u : JobRecord) × (Dict.get s.jobs k ≡ some u) × (holds_lease attempt u ≡ true)
unfolding ack
ack-holds k now result attempt s h = found (Dict.get s.jobs k) refl h
  where
    found :
        (o : Option JobRecord)
        → Dict.get s.jobs k ≡ o
        → (ack_found k o result attempt now s).1 ≡ true
        → (u : JobRecord) × (Dict.get s.jobs k ≡ some u) × (holds_lease attempt u ≡ true)
    found none e t = absurd (unfold ack_found in cc)
    found (some u) e t = (u, e, unfold ack_found in ground arith)

-- A worker took delivery `d` of a job, and any schedule followed that files no job anew under the
-- id: if its `ack` with the token of `d` is accepted then, the job is still at that delivery.
pub ack_accepts_current :
    (ops : List Op) (s : QueueStore) (k now : ℕ) (d : JobRecord) (result : Option Bytes)
    → Dict.get s.jobs k ≡ some d
    → d.state ≡ JobState.leased
    → AllSpare k ops
    → (ack k result (some d.attempts) now (run s ops)).1 ≡ true
    → Dict.get (run s ops).jobs k ≡ some d
ack_accepts_current ops s k now d result here held spares accepted =
    let found = ack-holds k now result (some d.attempts) (run s ops) accepted in
    let origin = run-Moves ops s k found.0 spares found.1 in
    let same : origin.0 ≡ d = ground (arith, origin.1, here) in
    let moves : Moves d found.0 = rw same at origin.2 in
    rw found.1 (ground (arith, token_identifies d found.0 held moves found.2))

Move-done : {u v : JobRecord} → Move u v → u.state ≡ JobState.done → ⊥
Move-done (leases now lease_s r waits due) h = absurd (ground (arith, waits, h))
Move-done (finishes result now r held) h = absurd (ground (arith, held, h))
Move-done (retries error due r held left) h = absurd (ground (arith, held, h))
Move-done (buries error now r held spent) h = absurd (ground (arith, held, h))
Move-done (loses now r held late left) h = absurd (ground (arith, held, h))
Move-done (expires error now r held late spent) h = absurd (ground (arith, held, h))

-- A job that is done stays as it is.
Moves-done : {r u : JobRecord} → Moves r u → r.state ≡ JobState.done → u.state ≡ JobState.done
Moves-done stay h = h
Moves-done (go p m) h = absurd (Move-done m (Moves-done p h))

ack_found-done :
    (k now : ℕ) (o : Option JobRecord) (result : Option Bytes) (attempt : Option ℕ) (s : QueueStore)
    (r : JobRecord)
    → (ack_found k o result attempt now s).1 ≡ true
    → Dict.get (ack_found k o result attempt now s).0.jobs k ≡ some r
    → r.state ≡ JobState.done
unfolding ack_found finished
ack_found-done k now none result attempt s r accepted found = absurd (ground (arith, accepted))
ack_found-done k now (some rec) result attempt s r accepted found =
    ground
      (arith, get-set s.jobs k k (finished result now rec), get-remove s.jobs k k, accepted, found)

-- After an accepted ack of a job, and any schedule that files nothing under its id and does not load
-- the store again, every ack of it is refused, whatever its token.
pub ack_once :
    (ops : List Op) (s : QueueStore) (k now later : ℕ) (result again : Option Bytes)
    (attempt other : Option ℕ)
    → AllSpare k ops
    → (ack k result attempt now s).1 ≡ true
    → (ack k again other later (run (ack k result attempt now s).0 ops)).1 ≡ false
unfolding ack
ack_once ops s k now later result again attempt other spares accepted =
    elim (Bool-cases (ack k again other later (run (ack k result attempt now s).0 ops)).1) [
      | inr refused ↦ refused
      | inl taken ↦
          let (u, there, holds) =
            ack-holds k later again other (run (ack k result attempt now s).0 ops) taken in
          let (r, old, moves) = run-Moves ops (ack k result attempt now s).0 k u spares there in
          let over =
            Moves-done moves
              (ack_found-done k now (Dict.get s.jobs k) result attempt s r accepted old) in
          absurd (not_done other u holds over)
    ]
  where
    not_done :
        (token : Option ℕ) (u : JobRecord)
        → holds_lease token u ≡ true
        → u.state ≡ JobState.done
        → ⊥
    not_done none u holds over = unfold holds_lease in absurd (ground (arith, holds, over))
    not_done (some a) u holds over = unfold holds_lease in absurd (ground (arith, holds, over))

-- The token is the number of another delivery.
abbrev pub OtherToken : Option ℕ → JobRecord → Type 0
OtherToken none rec = ⊥
OtherToken (some a) rec = a ≢ rec.attempts

-- ack and nack of a job that is not leased, or with the number of another delivery than the one that is
-- out, or of a job that is not there, are refused and leave the whole store as it was.
pub stale_refused :
    (k now : ℕ) (attempt : Option ℕ) (result : Option Bytes) (n : Nack) (s : QueueStore)
    → n.attempt ≡ attempt
    → ((rec : JobRecord)
        → Dict.get s.jobs k ≡ some rec
        → (rec.state ≢ JobState.leased) ⊎ OtherToken attempt rec)
    → (ack k result attempt now s ≡ (s, false)) × (nack k n s ≡ (s, none))
unfolding ack nack
stale_refused k now attempt result n s same stale = refused (Dict.get s.jobs k) refl
  where
    lost :
        (token : Option ℕ) (rec : JobRecord)
        → (rec.state ≢ JobState.leased) ⊎ OtherToken token rec
        → holds_lease token rec ≡ false
    lost none rec h = unfold holds_lease in ground (arith, h)
    lost (some a) rec h = unfold holds_lease in ground (arith, h)

    refused :
        (o : Option JobRecord)
        → Dict.get s.jobs k ≡ o
        → (ack_found k o result attempt now s ≡ (s, false)) × (nack_found k o n s ≡ (s, none))
    refused none e = unfold ack_found nack_found in (refl, refl)
    refused (some rec) e =
        unfold ack_found nack_found in rw (same, lost attempt rec (stale rec e)) (refl, refl)
