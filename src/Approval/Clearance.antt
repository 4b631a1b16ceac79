-- ===== src/Approval/Clearance.antt =====
-- What stands behind a tool that the gate lets run: a human's yes, in time.
use istos.Prelude.{
  ℕ, ◌≡◌, ◌≢◌, refl, ◌∙◌, ap, sym, subst, ◌⊎◌, inl, inr, true, false, ◌&&◌, Option, none, some,
  List, [], ◌∷◌, String, text_key, ◌==◌, arith, Bool-cases, ◌++◌,
}
use istos.Dict
use istos.Dict.{Dict, get-set}
use istos.Json.{Fields}
use istos.Approval.Request.{approved, expired, ApprovalRequest, is_expired, is_pending}
use istos.Approval.Storage.{ApprovalGate, write, load}
use istos.Approval.Gate.{
  new_request, Timeout, Decision, ruled, edited, wake, request, decide, decide_found, expire,
  expire_found, expire_all, forget_waiter, give_up, wait, wait_found, answered_by, woken, settled,
  granted, answered, or_else, pending_requests, values_where,
}
use istos.Approval.Schedule.{Call, requests, decides, waits, wakes, gives_up, lists, step, run}
use istos.Approval.Final.{write-requests, wake-requests}

-- A decision that clears the pending request for these arguments: a yes for its id, before its
-- deadline, and the arguments that the decision names, or else those of the request.
abbrev pub Clears : String → ApprovalRequest → Decision → Fields → Type 0
Clears id r d arguments =
    (d.request_id ≡ id)
    × (d.approved ≡ true)
    × (is_pending r ≡ true)
    × (is_expired d.now r ≡ false)
    × (((d.arguments ≡ none) × (r.arguments ≡ arguments)) ⊎ (d.arguments ≡ some arguments))

-- Among the calls on a gate there is a decision that clears, for these arguments, the request that the
-- gate holds under this id when the decision comes.
abbrev pub DecidedBy : ApprovalGate → String → Fields → List Call → Type 0
DecidedBy g id arguments calls =
    (d : Decision) × (earlier : List Call) × (later : List Call) × (r : ApprovalRequest) × (calls
      ≡ earlier ++ decides d ∷ later)
    × (Dict.get (run g earlier).requests id ≡ some r)
    × Clears id r d arguments

pub load_again : (g : ApprovalGate) → g.loaded ≡ true → load g ≡ g
unfolding load
load_again g e = rw (load, e) refl

IsLoaded : ApprovalGate → Type 0
IsLoaded g = g.loaded ≡ true

write-loaded : (r : ApprovalRequest) (g : ApprovalGate) → (write r g).loaded ≡ g.loaded
unfolding write
write-loaded r g = ground arith

wake-loaded : (id : String) (g : ApprovalGate) → (wake id g).loaded ≡ g.loaded
unfolding wake
wake-loaded id g = ground arith

decide-loaded :
    (x : Decision) (o : Option ApprovalRequest) (g : ApprovalGate)
    → (decide_found x o g).0.loaded ≡ g.loaded
unfolding decide_found
decide-loaded x none g = refl
decide-loaded x (some q) g = elim (Bool-cases (is_pending q)) [
  | inr over ↦ rw (over) refl
  | inl on ↦ rw (on, wake-loaded, write-loaded) refl
]

expire-loaded :
    (k : String) (now : ℕ) (o : Option ApprovalRequest) (g : ApprovalGate)
    → (expire_found k now o g).loaded ≡ g.loaded
unfolding expire_found
expire-loaded k now none g = refl
expire-loaded k now (some q) g = elim (Bool-cases (is_pending q)) [
  | inr over ↦ rw (over) refl
  | inl on ↦ rw (on, write-loaded) refl
]

expire_all-loaded :
    (rs : List ApprovalRequest) (now : ℕ) (g : ApprovalGate)
    → (expire_all rs now g).loaded ≡ g.loaded
unfolding expire_all expire
expire_all-loaded [] now g = refl
expire_all-loaded (q ∷ rs) now g =
    expire_all-loaded rs now (expire q.id now g)
    ∙ expire-loaded q.id now (Dict.get g.requests q.id) g

wait-loaded :
    (k : String) (t : Timeout) (now : ℕ) (o : Option ApprovalRequest) (g : ApprovalGate)
    → (wait_found k t now o g).0.loaded ≡ g.loaded
unfolding wait_found give_up forget_waiter answered_by expire
wait-loaded k t now none g = refl
wait-loaded k t now (some q) g = ground (arith, expire-loaded k now (Dict.get g.requests k) g)

step-loaded : (g : ApprovalGate) (x : Call) → g.loaded ≡ true → (step g x).loaded ≡ true
unfolding step request decide wait woken give_up pending_requests forget_waiter expire
step-loaded g (requests f) e =
    write-loaded (new_request f (load g)) _
    ∙ ap (λ (s : ApprovalGate). s.loaded) (load_again g e)
    ∙ e
step-loaded g (decides d) e =
    decide-loaded d (Dict.get (load g).requests d.request_id) (load g)
    ∙ ap (λ (s : ApprovalGate). s.loaded) (load_again g e)
    ∙ e
step-loaded g (waits k t now) e = wait-loaded k t now (Dict.get g.requests k) g ∙ e
step-loaded g (wakes k q) e = e
step-loaded g (gives_up k q now) e = expire-loaded k now (Dict.get g.requests k) g ∙ e
step-loaded g (lists now later) e =
    expire_all-loaded (values_where (λ q. is_pending q && is_expired now q) (load g).requests) later
      (load g)
    ∙ ap (λ (s : ApprovalGate). s.loaded) (load_again g e)
    ∙ e

-- A wait leaves the requests as they are, or gives its own up.
wait-requests :
    (k : String) (t : Timeout) (now : ℕ) (o : Option ApprovalRequest) (g : ApprovalGate)
    → ((wait_found k t now o g).0.requests ≡ g.requests)
      ⊎ ((wait_found k t now o g).0.requests
          ≡ (expire_found k now (Dict.get g.requests k) g).requests)
unfolding wait_found give_up forget_waiter answered_by expire
wait-requests k t now none g = inl refl
wait-requests k t now (some q) g = ground arith

module _ (Known : ApprovalGate → Call → Type 0) where
  abbrev Cleared : String → ApprovalRequest → Type 0
  Cleared id r =
      (d : Decision) × (s : ApprovalGate) × (q : ApprovalRequest) × Known s (decides d)
      × (Dict.get s.requests id ≡ some q)
      × Clears id q d r.arguments

  abbrev IsCleared : Dict String ApprovalRequest → Type 0
  IsCleared d =
      (id : String) (r : ApprovalRequest)
      → Dict.get d id ≡ some r
      → r.state ≡ approved
      → Cleared id r

  set-IsCleared :
      (k : String) (q : ApprovalRequest) (d : Dict String ApprovalRequest)
      → (q.state ≡ approved → Cleared k q)
      → IsCleared d
      → IsCleared (Dict.set d k q)
  set-IsCleared k q d new old id r held cleared = elim (Bool-cases (k == id)) [
    | inr other ↦ old id r (ground (arith, held, get-set d k id q, other)) cleared
    | inl same ↦
        let here : q ≡ r = ground (arith, held, get-set d k id q, same) in
        subst (λ j. Cleared j r) ((text_key.same_iff k id).0 same)
          (subst (λ (s : ApprovalRequest). s.state ≡ approved → Cleared k s) here new cleared)
  ]

  ruled-Cleared :
      (d : Decision) (s : ApprovalGate) (r : ApprovalRequest)
      → Known s (decides d)
      → Dict.get s.requests d.request_id ≡ some r
      → is_pending r ≡ true
      → (ruled d r).state ≡ approved
      → Cleared d.request_id (ruled d r)
  unfolding ruled is_expired edited
  ruled-Cleared d s r known held on cleared = (
    d,
    s,
    r,
    known,
    held,
    (refl, ground (arith, cleared), on, ground (arith, cleared), ground (arith, cleared)),
  )

  decide-IsCleared :
      (x : Decision) (o : Option ApprovalRequest) (g : ApprovalGate)
      → Known g (decides x)
      → Dict.get g.requests x.request_id ≡ o
      → IsCleared g.requests
      → IsCleared (decide_found x o g).0.requests
  unfolding decide_found
  decide-IsCleared x none g known held h = h
  decide-IsCleared x (some q) g known held h = elim (Bool-cases (is_pending q)) [
    | inr over ↦ rw (over) h
    | inl on ↦
        rw (on, wake-requests, write-requests)
          (set-IsCleared x.request_id (ruled x q) g.requests (ruled-Cleared x g q known held on) h)
  ]

  expire-IsCleared :
      (k : String) (now : ℕ) (o : Option ApprovalRequest) (g : ApprovalGate)
      → IsCleared g.requests
      → IsCleared (expire_found k now o g).requests
  unfolding expire_found
  expire-IsCleared k now none g h = h
  expire-IsCleared k now (some q) g h = elim (Bool-cases (is_pending q)) [
    | inr over ↦ rw (over) h
    | inl on ↦
        rw (on, write-requests)
          (set-IsCleared k (record q { state = expired; decided_at = now }) g.requests
            (λ no_way. absurd (ground (arith, no_way))) h)
  ]

  expire_all-IsCleared :
      (rs : List ApprovalRequest) (now : ℕ) (g : ApprovalGate)
      → IsCleared g.requests
      → IsCleared (expire_all rs now g).requests
  unfolding expire_all expire
  expire_all-IsCleared [] now g h = h
  expire_all-IsCleared (q ∷ rs) now g h =
      expire_all-IsCleared rs now (expire q.id now g)
        (expire-IsCleared q.id now (Dict.get g.requests q.id) g h)

  wait-IsCleared :
      (k : String) (t : Timeout) (now : ℕ) (o : Option ApprovalRequest) (g : ApprovalGate)
      → IsCleared g.requests
      → IsCleared (wait_found k t now o g).0.requests
  wait-IsCleared k t now o g h = elim (wait-requests k t now o g) [
    | inl same ↦ rw (same) h
    | inr over ↦ rw (over) (expire-IsCleared k now (Dict.get g.requests k) g h)
  ]

  step-IsCleared :
      (g : ApprovalGate) (x : Call)
      → Known g x
      → g.loaded ≡ true
      → IsCleared g.requests
      → IsCleared (step g x).requests
  unfolding step request decide wait woken give_up pending_requests forget_waiter expire new_request
  step-IsCleared g (requests f) known e h = rw (write-requests) (
      set-IsCleared f.fresh_id (new_request f (load g)) (load g).requests
        (λ no_way. absurd (ground (arith, no_way))) (rw (load_again g e) h))
  step-IsCleared g (decides d) known e h =
      decide-IsCleared d (Dict.get (load g).requests d.request_id) (load g)
        (rw (load_again g e) known) refl (rw (load_again g e) h)
  step-IsCleared g (waits k t now) known e h = wait-IsCleared k t now (Dict.get g.requests k) g h
  step-IsCleared g (wakes k q) known e h = h
  step-IsCleared g (gives_up k q now) known e h = expire-IsCleared k now (Dict.get g.requests k) g h
  step-IsCleared g (lists now later) known e h =
      expire_all-IsCleared (values_where (λ q. is_pending q && is_expired now q) (load g).requests)
        later (load g) (rw (load_again g e) h)

  run-IsCleared :
      (xs : List Call) (g : ApprovalGate)
      → ((x : Call) (earlier later : List Call)
          → xs ≡ earlier ++ x ∷ later
          → Known (run g earlier) x)
      → g.loaded ≡ true
      → IsCleared g.requests
      → IsCleared (run g xs).requests
  unfolding run
  run-IsCleared [] g known e h = h
  run-IsCleared (x ∷ xs) g known e h =
      run-IsCleared xs (step g x)
        (λ y earlier later is. known y (x ∷ earlier) later (ap (λ l. x ∷ l) is)) (step-loaded g x e)
        (step-IsCleared g x (known x [] xs refl) e h)

-- What a gate holds as approved after some calls, it holds for a decision among them.
decided :
    (xs : List Call) (g : ApprovalGate) (id : String) (q : ApprovalRequest)
    → g.loaded ≡ true
    → ((k : String) (r : ApprovalRequest) → Dict.get g.requests k ≡ some r → r.state ≢ approved)
    → Dict.get (run g xs).requests id ≡ some q
    → q.state ≡ approved
    → DecidedBy g id q.arguments xs
decided xs g id q e clean held state =
    let Known : ApprovalGate → Call → Type 0 = λ s x.
      (earlier : List Call) × (later : List Call) × (xs ≡ earlier ++ x ∷ later)
      × (run g earlier ≡ s) in
    let all =
      run-IsCleared Known xs g (λ x earlier later is. (earlier, later, is, refl)) e
        (λ k r there yes. absurd (clean k r there yes)) in
    let (d, s, r, (earlier, later, is, reached), there, clears) = all id q held state in
    (
      d,
      earlier,
      later,
      r,
      is,
      subst (λ (x : ApprovalGate). Dict.get x.requests id ≡ some r) (sym reached) there,
      clears,
    )

settled-granted : (r q : ApprovalRequest) → settled r ≡ granted q → (r ≡ q) × (r.state ≡ approved)
unfolding settled
settled-granted r q h = (ground (arith, h), ground (arith, h))

wait-granted :
    (id : String) (t : Timeout) (now : ℕ) (o : Option ApprovalRequest) (g : ApprovalGate)
    (q : ApprovalRequest)
    → (wait_found id t now o g).1 ≡ answered (granted q)
    → (o ≡ some q) × (q.state ≡ approved)
unfolding wait_found give_up answered_by settled
wait-granted id t now none g q h = absurd (ground (arith, h))
wait-granted id t now (some r) g q h = (ground (arith, h), ground (arith, h))

woken-granted :
    (id : String) (r : ApprovalRequest) (o : Option ApprovalRequest) (q : ApprovalRequest)
    → is_pending r ≡ true
    → settled (or_else o r) ≡ granted q
    → (o ≡ some q) × (q.state ≡ approved)
unfolding or_else settled is_pending
woken-granted id r none q p h = absurd (ground (arith, h, p))
woken-granted id r (some s) q p h = (ground (arith, h), ground (arith, h))

-- What the gate grants, at once or to a wait that is woken, it grants for a decision.
pub cleared_by_decision :
    (xs : List Call) (g : ApprovalGate) (id : String) (q : ApprovalRequest)
    → g.loaded ≡ true
    → ((k : String) (r : ApprovalRequest) → Dict.get g.requests k ≡ some r → r.state ≢ approved)
    → ((t : Timeout) (now : ℕ)
        → (wait id t now (run g xs)).1 ≡ answered (granted q)
        → DecidedBy g id q.arguments xs)
      × ((r : ApprovalRequest)
          → is_pending r ≡ true
          → (woken id r (run g xs)).1 ≡ granted q
          → DecidedBy g id q.arguments xs)
unfolding wait woken forget_waiter
cleared_by_decision xs g id q e clean = (
  λ t now h.
      let (held, state) = wait-granted id t now (Dict.get (run g xs).requests id) (run g xs) q h in
      decided xs g id q e clean held state,
  λ r p h.
      let (held, state) = woken-granted id r (Dict.get (run g xs).requests id) q p h in
      decided xs g id q e clean held state,
)
