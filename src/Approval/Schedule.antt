-- ===== src/Approval/Schedule.antt =====
-- A schedule of the gate's calls. A wait that has blocked ends with its event or with its budget, and
-- in both cases holds the request that it started with.
use istos.Prelude.{ℕ, List, [], ◌∷◌, String, text_key}
use istos.Approval.Request.{ApprovalRequest}
use istos.Approval.Storage.{ApprovalGate}
use istos.Approval.Gate.{
  Filing, Timeout, Decision, request, decide, wait, woken, give_up, pending_requests,
}

pub data Call : Type 0 where
  requests : Filing → Call
  decides : Decision → Call
  waits : String → Timeout → ℕ → Call
  wakes : String → ApprovalRequest → Call
  gives_up : String → ApprovalRequest → ℕ → Call
  lists : ℕ → ℕ → Call

unfoldable pub step : ApprovalGate → Call → ApprovalGate
step g (requests f) = (request f g).0
step g (decides d) = (decide d g).0
step g (waits id t now) = (wait id t now g).0
step g (wakes id r) = (woken id r g).0
step g (gives_up id r now) = (give_up id r now g).0
step g (lists now later) = (pending_requests now later g).0

unfoldable pub run : ApprovalGate → List Call → ApprovalGate
run g [] = g
run g (x ∷ xs) = run (step g x) xs
