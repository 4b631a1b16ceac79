-- ===== src/Approval/Examples.antt =====
-- A refund that a human clears (src/istos/agent/approval.py), and the theorems of the gate at it.
use istos.Prelude.{
  ℕ, ◌≡◌, ◌≢◌, refl, Bool, true, false, none, some, List, [], ◌∷◌, String, text_key, arith,
}
use istos.Dict
use istos.Json.{Fields, end, field, text}
use istos.Approval.Request.{approved, ApprovalRequest, is_pending, is_expired}
use istos.Approval.Storage.{ApprovalGate, load, write}
use istos.Approval.Gate.{
  Filing, gate_timeout, Decision, request, new_request, budget_of, deadline, or_service, decide,
  decide_found, ruled, edited, wake, wait, wait_found, budget, is_spent, answered_by, woken,
  or_else, forget_waiter, settled, granted,
}
use istos.Approval.Schedule.{Call, requests, decides, step, run}
use istos.Approval.Final.{OtherIds, first_decision_wins}
use istos.Approval.Outcome.{Wait, calls_of, after_block, end_of_wait, outcome}
use istos.Approval.Clearance.{DecidedBy}
use istos.Approval.Closed.{fail_closed}

abbrev gate : ApprovalGate
gate = record {
  storage = none;
  timeout_s = some 300;
  service = "billing";
  requests = Dict.empty;
  waiters = Dict.empty;
  loaded = true;
}

abbrev refund : Fields
refund = field "order_id" (text "o-1") end

abbrev filing : Filing
filing = record {
  tool = "billing-refund";
  arguments = refund;
  prefix = none;
  reason = some "moves money";
  requester = none;
  conversation_id = none;
  timeout_s = gate_timeout;
  fresh_id = "r1";
  now = 100;
  requested = 100;
}

abbrev decision : Bool → ℕ → Decision
decision answer now = record {
  request_id = "r1";
  approved = answer;
  by = some "amir";
  note = none;
  arguments = none;
  now = now;
  stamped = now;
}

abbrev calls : List Call
calls = requests filing ∷ decides (decision true 150) ∷ []

abbrev cleared : ApprovalRequest
cleared = record {
  id = "r1";
  tool = "billing-refund";
  arguments = refund;
  prefix = none;
  state = approved;
  requested_at = 100;
  expires_at = 400;
  reason = some "moves money";
  requester = some "billing";
  conversation_id = none;
  decided_by = some "amir";
  decided_at = 150;
  note = none;
}

held : Dict.get (run gate calls).requests "r1" ≡ some cleared
unfolding run step request new_request budget_of deadline or_service decide decide_found ruled
    edited wake load write is_pending is_expired Dict.get Dict.set Dict.empty
held = refl

abbrev waited : Wait
waited = record {
  before = requests filing ∷ [];
  now = 120;
  during = decides (decision true 150) ∷ [];
  in_time = true;
}

grants : outcome gate "r1" waited ≡ granted cleared
unfolding outcome end_of_wait after_block run step request new_request budget_of deadline or_service
    decide decide_found ruled edited wake load write wait wait_found budget is_spent answered_by
    woken or_else forget_waiter settled is_pending is_expired Dict.get Dict.set Dict.remove
    Dict.empty
grants = refl

fail_closed_example : DecidedBy gate "r1" refund (calls_of "r1" waited)
fail_closed_example = fail_closed gate "r1" waited cleared (refl, nothing_held) grants
  where
    nothing_held :
        (k : String) (r : ApprovalRequest) → Dict.get gate.requests k ≡ some r → r.state ≢ approved
    nothing_held k r found = absurd (ground (arith, found, Dict.get-empty {V = ApprovalRequest} k))

-- A second operator says no, too late.
first_decision_wins_example :
    Dict.get (run (run gate calls) (decides (decision false 160) ∷ [])).requests "r1" ≡ some cleared
first_decision_wins_example =
    first_decision_wins (decides (decision false 160) ∷ []) (run gate calls) "r1" cleared held
      (unfold is_pending in refl) (unfold OtherIds in tt)
