-- ===== src/Approval/Closed.antt =====
-- No tool runs without a yes: what a wait on the gate of src/istos/agent/approval.py grants.
use mathlib.Core.List.{append_assoc}
use istos.Prelude.{
  ℕ, ◌≡◌, ◌≢◌, refl, ◌∙◌, sym, ap, subst, ◌⊎◌, inl, inr, Bool, true, false, Option, none, some,
  List, [], ◌∷◌, ◌++◌, String, text_key, arith, Bool-cases,
}
use istos.Dict
use istos.Dict.{Dict}
use istos.Json.{Fields}
use istos.Approval.Request.{approved, ApprovalRequest, is_pending}
use istos.Approval.Storage.{ApprovalGate}
use istos.Approval.Gate.{
  Timeout, gate_timeout, granted, Waiting, answered, blocked, wait, wait_found, answered_by, woken,
}
use istos.Approval.Schedule.{Call, decides, waits, step, run}
use istos.Approval.Clearance.{DecidedBy, cleared_by_decision}
use istos.Approval.Outcome.{Wait, calls_of, after_block, end_of_wait, outcome}

run-append : (xs ys : List Call) (g : ApprovalGate) → run g (xs ++ ys) ≡ run (run g xs) ys
unfolding run
run-append [] ys g = refl
run-append (x ∷ xs) ys g = run-append xs ys (step g x)

abbrev pub IsFresh : ApprovalGate → Type 0
IsFresh g =
    (g.loaded ≡ true)
    × ((k : String) (r : ApprovalRequest) → Dict.get g.requests k ≡ some r → r.state ≢ approved)

DecidedBy-front :
    (g : ApprovalGate) (id : String) (arguments : Fields) (xs ys : List Call)
    → DecidedBy g id arguments xs
    → DecidedBy g id arguments (xs ++ ys)
DecidedBy-front g id arguments xs ys (d, earlier, later, r, is, held, clears) = (
  d,
  earlier,
  later ++ ys,
  r,
  ap (λ l. l ++ ys) is ∙ append_assoc earlier (decides d ∷ later) ys,
  held,
  clears,
)

-- A wait blocks only on a pending request.
wait-blocked :
    (id : String) (t : Timeout) (now : ℕ) (o : Option ApprovalRequest) (r : ApprovalRequest)
    (left : Option ℕ) (g : ApprovalGate)
    → o ≡ some r
    → (wait_found id t now o g).1 ≡ blocked left
    → is_pending r ≡ true
unfolding wait_found answered_by
wait-blocked id t now none r left g same h = absurd (ground (arith, same))
wait-blocked id t now (some q) r left g same h =
    let is : q ≡ r = ground (arith, same) in
    subst (λ (x : ApprovalRequest). is_pending x ≡ true) is
      (elim (Bool-cases (is_pending q)) [
        | inl yes_pending ↦ yes_pending
        | inr settled_before ↦ absurd (ground (arith, h, settled_before))
      ])

-- A wait that grants had its answer, or was woken to it.
ended :
    (id : String) (o : Option ApprovalRequest) (in_time : Bool) (waiting : Waiting)
    (g : ApprovalGate) (q : ApprovalRequest)
    → end_of_wait id o in_time waiting g ≡ granted q
    → (waiting ≡ answered (granted q))
      ⊎ ((r : ApprovalRequest) × (left : Option ℕ) × (o ≡ some r)
          × (waiting ≡ blocked left)
          × ((woken id r g).1 ≡ granted q))
unfolding end_of_wait after_block
ended id o in_time (answered s) g q h = inl (ap answered h)
ended id none in_time (blocked left) g q h = absurd (ground (arith, h))
ended id (some r) true (blocked left) g q h = inr (r, left, refl, refl, h)
ended id (some r) false (blocked left) g q h = absurd (ground (arith, h))

-- The gate is closed unless a human opens it. If a gate has loaded and holds no approved request, then
-- a wait that lets a tool run, after any calls on the gate and whatever calls come while it blocks,
-- does so for a decision among those calls. When that decision came, the gate held a pending request
-- under the id that was waited for, whose deadline had not passed. It said yes, and the tool gets the
-- arguments that it named, or else those of the request.
pub fail_closed :
    (g : ApprovalGate) (id : String) (w : Wait) (q : ApprovalRequest)
    → IsFresh g
    → outcome g id w ≡ granted q
    → DecidedBy g id q.arguments (calls_of id w)
unfolding outcome calls_of wait run step
fail_closed g id w q (loaded, clean) h =
    let start = run g w.before in
    let waiting = wait id gate_timeout w.now start in
    let held = Dict.get start.requests id in
    elim (ended id held w.in_time waiting.1 (run waiting.0 w.during) q h) [
      | inl at_once ↦
          DecidedBy-front g id q.arguments w.before (waits id gate_timeout w.now ∷ w.during)
            ((cleared_by_decision w.before g id q loaded clean).0 gate_timeout w.now at_once)
      | inr (r, left, found, blocks, wakes) ↦
          (cleared_by_decision (calls_of id w) g id q loaded clean).1 r
            (wait-blocked id gate_timeout w.now held r left start found blocks)
            (subst (λ (x : ApprovalGate). (woken id r x).1 ≡ granted q)
              (sym (run-append w.before (waits id gate_timeout w.now ∷ w.during) g)) wakes)
    ]
