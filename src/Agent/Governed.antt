-- ===== src/Agent/Governed.antt =====
-- The agent loops of src/istos/agent on the approval gate of src/istos/agent/approval.py: what `wait`
-- answers them is what the gate makes of the calls that it has had.
pub mod Decided
mod Examples
use istos.Prelude.{
  ℕ, ◌≡◌, ◌≢◌, refl, sym, ap, subst, ◌∙◌, ◌⊎◌, inl, inr, Bool, true, false, not, Option, none, some,
  List, [], ◌∷◌, ◌++◌, String, if◌then◌else◌, text_key, In, arith, Bool-cases, Option-cases,
}
use istos.Dict
use istos.Dict.{Dict}
use istos.Json.{Fields}
use istos.Errors.{Failure}
use istos.Approval.Request.{ApprovalState, approved, ApprovalRequest, is_pending}
use istos.Approval.Storage.{ApprovalGate}
use istos.Approval.Gate.{
  Timeout, gate_timeout, Decision, Settled, granted, approval_denied, approval_timeout, not_found,
  Waiting, answered, blocked, wait, wait_found, answered_by, give_up, woken,
}
use istos.Approval.Schedule.{Call, decides, waits, step, run}
use istos.Approval.Outcome.{Wait, outcome}
use istos.Agent.Messages.{Message, MeshTool, requires_approval}
use istos.Agent.Loop.{
  completes, completes_as, files, awaits, runs, Log, Completion, CallResult, Verdict, cleared,
  refused, Env, run_agent,
}
use istos.Agent.Gated.{Gated, run_agent-Gated}
use istos.Agent.Multi.Registry.{Agent}
use istos.Agent.Multi.Handoff.{run_multi_agent}
use istos.Agent.Multi.Safe.{run_multi_agent-Gated}

-- The rest of what a run meets; the error is that of a wait that grants nothing.
pub record Others : Type 0 where
  pub complete : Log → Completion
  pub file : Log → String
  pub call : Log → CallResult
  pub wait_at : Log → Wait
  pub error : Settled → Failure

unfoldable pub verdict : (Settled → Failure) → Settled → Verdict
verdict error (granted r) = cleared r.arguments r.note r.decided_by
verdict error (approval_denied r) = refused (error (approval_denied r))
verdict error (approval_timeout r) = refused (error (approval_timeout r))
verdict error not_found = refused (error not_found)

unfoldable pub review_by : ApprovalGate → Others → Log → Verdict
unfolding verdict outcome
review_by g o (awaits id ∷ log) = verdict o.error (outcome g id (o.wait_at (awaits id ∷ log)))
review_by g o log = refused (o.error not_found)

unfoldable pub governed : ApprovalGate → Others → Env
governed g o = record {
  complete = o.complete;
  file = o.file;
  call = o.call;
  review = review_by g o;
}
