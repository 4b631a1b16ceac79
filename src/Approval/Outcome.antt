-- ===== src/Approval/Outcome.antt =====
-- A whole `wait` of src/istos/agent/approval.py, among the other calls on the gate.
use istos.Prelude.{ℕ, Bool, Option, none, some, List, ◌∷◌, ◌++◌, String, if◌then◌else◌, text_key}
use istos.Dict
use istos.Dict.{Dict}
use istos.Approval.Request.{ApprovalRequest}
use istos.Approval.Storage.{ApprovalGate}
use istos.Approval.Gate.{
  gate_timeout, Settled, approval_timeout, not_found, Waiting, answered, blocked, wait, woken,
}
use istos.Approval.Schedule.{Call, waits, run}

-- A wait: the calls on the gate before it and while it blocks, when it starts, and
-- whether its event comes in time.
pub record Wait : Type 0 where
  pub before : List Call
  pub now : ℕ
  pub during : List Call
  pub in_time : Bool

-- All calls that the gate has had when the wait ends, the wait itself included.
unfoldable pub calls_of : String → Wait → List Call
calls_of id w = w.before ++ waits id gate_timeout w.now ∷ w.during

unfoldable pub after_block : String → Option ApprovalRequest → Bool → ApprovalGate → Settled
after_block id none in_time g = not_found
after_block id (some r) in_time g = if in_time then (woken id r g).1 else approval_timeout r

-- What `wait` returns or raises in the end.
unfoldable pub end_of_wait :
    String → Option ApprovalRequest → Bool → Waiting → ApprovalGate → Settled
unfolding after_block
end_of_wait id o in_time (answered s) g = s
end_of_wait id o in_time (blocked left) g = after_block id o in_time g

unfoldable pub outcome : ApprovalGate → String → Wait → Settled
unfolding end_of_wait
outcome g id w =
    let start = run g w.before in
    let waiting = wait id gate_timeout w.now start in
    end_of_wait id (Dict.get start.requests id) w.in_time waiting.1 (run waiting.0 w.during)
