-- ===== src/Approval/Final.antt =====
-- What the calls do to a request that the gate holds: nothing, once it is settled.
use istos.Prelude.{
  ℕ, ◌≡◌, refl, subst, inl, inr, true, false, ◌&&◌, Option, none, some, List, [], ◌∷◌, String,
  text_key, ◌==◌, arith, Bool-cases, Option-cases,
}
use istos.Dict
use istos.Dict.{Dict, get-set}
use istos.Approval.Request.{expired, ApprovalRequest, is_expired, is_pending}
use istos.Approval.Storage.{
  Plugin, ApprovalGate, next_access, recovered, load_requests, load_plugin, or_empty, write, load,
}
use istos.Approval.Gate.{
  new_request, Timeout, Decision, ruled, wake, request, decide, decide_found, expire, expire_found,
  expire_all, forget_waiter, give_up, wait, wait_found, answered_by, woken, pending_requests,
  values_where,
}
use istos.Approval.Schedule.{Call, requests, decides, waits, wakes, gives_up, lists, step, run}

abbrev pub Holds : String → ApprovalRequest → Dict String ApprovalRequest → Type 0
Holds id r d = Dict.get d id ≡ some r

pub write-requests : (r : ApprovalRequest) (g : ApprovalGate) → (write r g).requests ≡ g.requests
unfolding write
write-requests r g = ground arith

pub wake-requests : (id : String) (g : ApprovalGate) → (wake id g).requests ≡ g.requests
unfolding wake
wake-requests id g = ground arith

-- Recovery adds requests and overwrites none.
recovered-Holds :
    (k id : String) (o : Option ApprovalRequest) (r : ApprovalRequest)
    (d : Dict String ApprovalRequest)
    → Holds id r d
    → Holds id r (recovered k o d)
unfolding recovered
recovered-Holds k id none r d h = h
recovered-Holds k id (some q) r d h = ground (arith, h, get-set d k id q, text_key.same_iff k id)

load_requests-Holds :
    (ids : List String) (p : Plugin) (d : Dict String ApprovalRequest) (id : String)
    (r : ApprovalRequest)
    → Holds id r d
    → Holds id r (load_requests ids p d).1
unfolding load_requests
load_requests-Holds [] p d id r h = h
load_requests-Holds (k ∷ ids) p d id r h =
    let q = (next_access p.faults p).1 in
    elim (Bool-cases (next_access p.faults p).0) [
      | inl bad ↦ rw (bad) h
      | inr good ↦ rw (good) (
          load_requests-Holds ids q (recovered k (Dict.get q.cells k) d) id r
            (recovered-Holds k id (Dict.get q.cells k) r d h))
    ]

pub load-Holds :
    (g : ApprovalGate) (id : String) (r : ApprovalRequest)
    → Holds id r g.requests
    → Holds id r (load g).requests
unfolding load load_plugin
load-Holds g id r h = elim (Bool-cases g.loaded) [
  | inl e ↦ rw (load, e) h
  | inr e ↦ elim (Option-cases g.storage) [
    | inl f ↦ rw (load, e, f) h
    | inr (p, f) ↦
        let q = (next_access p.faults p).1 in
        elim (Bool-cases (next_access p.faults p).0) [
          | inl bad ↦ rw (load, e, f) (rw (bad) h)
          | inr good ↦
              rw (load, e, f)
                (rw (good) (load_requests-Holds (or_empty q.index) q g.requests id r h))
        ]
  ]
]

unfoldable pub OtherIds : String → List Call → Type 0
OtherIds id [] = Unit
OtherIds id (requests f ∷ xs) = ((f.fresh_id == id) ≡ false) × OtherIds id xs
OtherIds id (decides d ∷ xs) = OtherIds id xs
OtherIds id (waits i t now ∷ xs) = OtherIds id xs
OtherIds id (wakes i r ∷ xs) = OtherIds id xs
OtherIds id (gives_up i r now ∷ xs) = OtherIds id xs
OtherIds id (lists now later ∷ xs) = OtherIds id xs

module _ (id : String) (r : ApprovalRequest) (settled : is_pending r ≡ false) where
  changed-Holds :
      (k : String) (q q' : ApprovalRequest) (d : Dict String ApprovalRequest)
      → Dict.get d k ≡ some q
      → is_pending q ≡ true
      → Holds id r d
      → Holds id r (Dict.set d k q')
  changed-Holds k q q' d e open_still h = elim (Bool-cases (k == id)) [
    | inr other ↦ rw (get-set d k id q', other) h
    | inl same ↦
        let here : Dict.get d id ≡ some q =
          subst (λ j. Dict.get d j ≡ some q) ((text_key.same_iff k id).0 same) e in
        absurd (ground (arith, here, h, settled, open_still))
  ]

  decide-Holds :
      (x : Decision) (o : Option ApprovalRequest) (g : ApprovalGate)
      → Dict.get g.requests x.request_id ≡ o
      → Holds id r g.requests
      → Holds id r (decide_found x o g).0.requests
  unfolding decide_found
  decide-Holds x none g e h = h
  decide-Holds x (some q) g e h = elim (Bool-cases (is_pending q)) [
    | inr over ↦ rw (over) h
    | inl on ↦
        rw (on, wake-requests, write-requests)
          (changed-Holds x.request_id q (ruled x q) g.requests e on h)
  ]

  expire-Holds :
      (k : String) (now : ℕ) (o : Option ApprovalRequest) (g : ApprovalGate)
      → Dict.get g.requests k ≡ o
      → Holds id r g.requests
      → Holds id r (expire_found k now o g).requests
  unfolding expire_found
  expire-Holds k now none g e h = h
  expire-Holds k now (some q) g e h = elim (Bool-cases (is_pending q)) [
    | inr over ↦ rw (over) h
    | inl on ↦
        rw (on, write-requests)
          (changed-Holds k q (record q { state = expired; decided_at = now }) g.requests e on h)
  ]

  expire_all-Holds :
      (rs : List ApprovalRequest) (now : ℕ) (g : ApprovalGate)
      → Holds id r g.requests
      → Holds id r (expire_all rs now g).requests
  unfolding expire_all expire
  expire_all-Holds [] now g h = h
  expire_all-Holds (q ∷ rs) now g h =
      expire_all-Holds rs now (expire q.id now g)
        (expire-Holds q.id now (Dict.get g.requests q.id) g refl h)

  wait-Holds :
      (k : String) (t : Timeout) (now : ℕ) (o : Option ApprovalRequest) (g : ApprovalGate)
      → Holds id r g.requests
      → Holds id r (wait_found k t now o g).0.requests
  unfolding wait_found give_up forget_waiter answered_by expire
  wait-Holds k t now none g h = h
  wait-Holds k t now (some q) g h =
      ground (arith, h, expire-Holds k now (Dict.get g.requests k) g refl)

  step-Holds :
      (g : ApprovalGate) (x : Call)
      → OtherIds id (x ∷ [])
      → Holds id r g.requests
      → Holds id r (step g x).requests
  unfolding step request decide wait woken give_up pending_requests forget_waiter expire OtherIds
      new_request
  step-Holds g (requests f) o h = rw (write-requests) (
      rw (get-set (load g).requests f.fresh_id id (new_request f (load g)), o.0)
        (load-Holds g id r h))
  step-Holds g (decides d) o h =
      decide-Holds d (Dict.get (load g).requests d.request_id) (load g) refl (load-Holds g id r h)
  step-Holds g (waits k t now) o h = wait-Holds k t now (Dict.get g.requests k) g h
  step-Holds g (wakes k q) o h = h
  step-Holds g (gives_up k q now) o h = expire-Holds k now (Dict.get g.requests k) g refl h
  step-Holds g (lists now later) o h =
      expire_all-Holds (values_where (λ q. is_pending q && is_expired now q) (load g).requests)
        later (load g) (load-Holds g id r h)

  tail-OtherIds :
      (x : Call) (xs : List Call) → OtherIds id (x ∷ xs) → OtherIds id (x ∷ []) × OtherIds id xs
  unfolding OtherIds
  tail-OtherIds (requests f) xs o = ((o.0, tt), o.1)
  tail-OtherIds (decides d) xs o = (tt, o)
  tail-OtherIds (waits k t now) xs o = (tt, o)
  tail-OtherIds (wakes k q) xs o = (tt, o)
  tail-OtherIds (gives_up k q now) xs o = (tt, o)
  tail-OtherIds (lists now later) xs o = (tt, o)

  run-Holds :
      (xs : List Call) (g : ApprovalGate)
      → OtherIds id xs
      → Holds id r g.requests
      → Holds id r (run g xs).requests
  unfolding run
  run-Holds [] g o h = h
  run-Holds (x ∷ xs) g o h =
      let (now, later) = tail-OtherIds x xs o in
      run-Holds xs (step g x) later (step-Holds g x now h)

-- A request that is settled stays as it is, over every schedule of calls that files nothing under
-- its id: no later decision, expiry or recovery changes its outcome, its arguments or who decided.
pub first_decision_wins :
    (xs : List Call) (g : ApprovalGate) (id : String) (r : ApprovalRequest)
    → Dict.get g.requests id ≡ some r
    → is_pending r ≡ false
    → OtherIds id xs
    → Dict.get (run g xs).requests id ≡ some r
first_decision_wins xs g id r held settled other = run-Holds id r settled xs g other held
