-- ===== src/Role/Leader.antt =====
-- Who serves the queue: at most one replica that sees the same members, and the one with the lowest
-- id does.
use istos.Prelude.{
  ℕ, ◌≤◌, ◌≡◌, ◌≢◌, ◌↔◌, refl, ◌⊎◌, inl, inr, true, false, none, some, List, [], ◌∷◌, arith,
  number_key, nat_beq_iff, Option-cases, Bool-cases,
}
use istos.Queue.State.{has}
use istos.Role.Election.{
  QueueRole, Sample, leader, routes, reconcile, on_membership, activate, deactivate, bind, unbind,
  with_sample,
}

leader-none : (ms : List ℕ) → leader ms ≡ none → ms ≡ []
unfolding leader
leader-none [] h = refl
leader-none (m ∷ ms) h = absurd (ground arith)

-- The leader is the least member.
pub leader-least :
    (ms : List ℕ) (l : ℕ)
    → leader ms ≡ some l
    → (has l ms ≡ true) × ((i : ℕ) → has i ms ≡ true → l ≤ i)
unfolding leader has
leader-least [] l h = absurd (cc)
leader-least (m ∷ ms) l h = elim (Option-cases (leader ms)) [
  | inl e ↦ (ground arith, λ i p. ground (arith, leader-none ms e, nat_beq_iff m i))
  | inr (k, e) ↦
      let rest = leader-least ms k e in
      (ground (arith, rest.0, nat_beq_iff m m), λ i p. ground (arith, rest.1 i, nat_beq_iff m i))
]

pub leader-agree : (xs ys : List ℕ) → ((i : ℕ) → has i xs ≡ has i ys) → leader xs ≡ leader ys
leader-agree xs ys same = elim (Option-cases (leader xs)) [
  | inl e ↦ elim (Option-cases (leader ys)) [
    | inl f ↦ cc
    | inr (b, f) ↦
        absurd (unfold has in ground (arith, leader-none xs e, same b, (leader-least ys b f).0))
  ]
  | inr (a, e) ↦ elim (Option-cases (leader ys)) [
    | inl f ↦
        absurd (unfold has in ground (arith, leader-none ys f, same a, (leader-least xs a e).0))
    | inr (b, f) ↦
        let p = leader-least xs a e in
        let q = leader-least ys b f in ground (arith, e, f, p.0, q.0, p.1 b, q.1 a, same a, same b)
  ]
]

abbrev pub Agree : QueueRole → QueueRole → Type 0
Agree a b = (i : ℕ) → has i a.members ≡ has i b.members

reconcile-leads :
    (now : ℕ) (r : QueueRole) → (reconcile now r).active ≡ true → leader r.members ≡ some r.id
unfolding reconcile
reconcile-leads now r h = elim (Option-cases (leader r.members)) [
  | inl e ↦ ground (arith, e, h)
  | inr (l, e) ↦ ground (arith, e, h, nat_beq_iff l r.id)
]

leads-reconcile :
    (now : ℕ) (r : QueueRole)
    → r.bound ≡ true
    → leader r.members ≡ some r.id
    → (reconcile now r).active ≡ true
unfolding reconcile
leads-reconcile now r on e = ground (arith, e, on, nat_beq_iff r.id r.id)

abbrev pub IsLeast : ℕ → List ℕ → Type 0
IsLeast id ms = (has id ms ≡ true) × ((i : ℕ) → has i ms ≡ true → id ≤ i)

least-leader : (ms : List ℕ) (id : ℕ) → IsLeast id ms → leader ms ≡ some id
least-leader ms id least = elim (Option-cases (leader ms)) [
  | inl e ↦ absurd (unfold has in ground (arith, leader-none ms e, least.0))
  | inr (l, e) ↦
      let found = leader-least ms l e in ground (arith, e, found.0, found.1 id, least.0, least.1 l)
]

on_membership-leads :
    (now : ℕ) (sample : Sample) (r : QueueRole)
    → (on_membership now sample r).active ≡ true
    → leader (with_sample sample r.members) ≡ some r.id
unfolding on_membership
on_membership-leads now sample r h =
    reconcile-leads now (record r { members = with_sample sample r.members }) h

member-leads :
    (now : ℕ) (sample : Sample) (r : QueueRole)
    → (on_membership now sample r).active ≡ true
    → leader (on_membership now sample r).members ≡ some (on_membership now sample r).id
unfolding on_membership
member-leads now sample r h =
    let e = reconcile-leads now (record r { members = with_sample sample r.members }) h in
    unfold reconcile activate deactivate in ground (arith, e)

-- After a liveliness sample, a replica that has a session, and however it was elected before, serves
-- the queue exactly when its id is among the members that are left by the sample and is the least of
-- them.
pub on_membership-IsElected :
    (now : ℕ) (sample : Sample) (r : QueueRole)
    → r.bound ≡ true
    → ((on_membership now sample r).active ≡ true) ↔ IsLeast r.id (with_sample sample r.members)
unfolding on_membership
on_membership-IsElected now sample r on =
    let ms = with_sample sample r.members in
    (
      λ h. leader-least ms r.id (on_membership-leads now sample r h),
      λ least. leads-reconcile now (record r { members = ms }) on (least-leader ms r.id least),
    )

-- Two replicas that see the same members after their last samples do not both serve the queue.
pub one_leader :
    (now later : ℕ) (x y : Sample) (a b : QueueRole)
    → Agree (on_membership now x a) (on_membership later y b)
    → (on_membership now x a).id ≢ (on_membership later y b).id
    → (on_membership now x a).active ≡ true
    → (on_membership later y b).active ≡ false
one_leader now later x y a b agree differ first =
    let same =
      leader-agree (on_membership now x a).members (on_membership later y b).members agree in
    elim (Bool-cases (on_membership later y b).active) [
      | inr off ↦ off
      | inl on ↦
          absurd
            (differ (ground (arith, member-leads now x a first, member-leads later y b on, same)))
    ]

-- The seven queryables and the sweeper are there exactly while the replica is active.
abbrev IsServing : QueueRole → Type 0
IsServing r =
    ((r.active ≡ true) × (r.queryables ≡ routes) × (r.sweeper ≡ true))
    ⊎ ((r.active ≡ false) × (r.queryables ≡ []) × (r.sweeper ≡ false))

-- A sample and `unbind` keep it so that a replica has its seven queryables and its sweeper exactly
-- while it is active; `bind` keeps it for a replica that is not active yet.
steps-IsServing :
    (now : ℕ) (sample : Sample) (r : QueueRole)
    → IsServing r
    → IsServing (on_membership now sample r)
      × IsServing (unbind r)
      × (r.active ≡ false → IsServing (bind now r))
unfolding on_membership reconcile activate deactivate unbind bind
steps-IsServing now sample r s = (ground arith, ground arith, λ off. ground arith)
