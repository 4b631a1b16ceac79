-- ===== src/Agent/Governed/Examples.antt =====
-- A refund that a human clears while the loop waits, and the theorem applied to it.
use istos.Prelude.{
  ◌≡◌, ◌≢◌, refl, Bool, true, false, none, some, List, [], ◌∷◌, ◌++◌, String, if◌then◌else◌,
  text_key, arith,
}
use istos.Dict
use istos.Dict.{Dict}
use istos.Json.{text, object, Fields, end, field}
use istos.Errors.{other}
use istos.Approval.Request.{approved, ApprovalRequest, is_pending, is_expired}
use istos.Approval.Storage.{ApprovalGate, load, write}
use istos.Approval.Gate.{
  Filing, gate_timeout, Decision, settled, request, new_request, budget_of, deadline, or_service,
  decide, decide_found, ruled, edited, wake, wait, wait_found, budget, is_spent, answered_by, woken,
  or_else, forget_waiter,
}
use istos.Approval.Schedule.{requests, decides, step, run}
use istos.Agent.Messages.{
  no_content, plain, Message, user, assistant, tool, reason, MeshTool, requires_approval, by_name,
  assistant_message, content_of, format_tool_result,
}
use istos.Agent.Loop.{
  completes, completes_as, files, awaits, runs, Log, Completion, replied, returned, run_agent,
  steps_from, after_trim, after_completion, ask, dispatch_all, dispatch_tool, dispatch_found,
  gated_call, asking, reviewed, run_and_answer, run_tool, answer, trimmed, conclude, any_gated,
  is_empty, note_effect, say, emit, about, outcome_of,
}
use istos.Agent.Multi.Registry.{Agent}
use istos.Agent.Multi.Handoff.{run_multi_agent}
use istos.Approval.Outcome.{after_block, end_of_wait, outcome}
use istos.Approval.Closed.{IsFresh}
use istos.Agent.Governed.{Others, verdict, review_by, governed}
use istos.Agent.Governed.Decided.{AllDecided, no_run_undecided}

abbrev refund : MeshTool
refund = record {
  prefix = "billing/refund";
  name = "billing-refund";
  approval = reason "moves money";
}

abbrev gate : ApprovalGate
gate = record {
  storage = none;
  timeout_s = some 300;
  service = "billing";
  requests = Dict.empty;
  waiters = Dict.empty;
  loaded = true;
}

abbrev filing : Filing
filing = record {
  tool = "billing-refund";
  arguments = end;
  prefix = some "billing/refund";
  reason = some "moves money";
  requester = none;
  conversation_id = none;
  timeout_s = gate_timeout;
  fresh_id = "r1";
  now = 100;
  requested = 100;
}

-- The operator corrects the order before saying yes.
abbrev corrected : Fields
corrected = field "order_id" (text "o-7") end

abbrev decision : Decision
decision = record {
  request_id = "r1";
  approved = true;
  by = some "amir";
  note = none;
  arguments = some corrected;
  now = 150;
  stamped = 150;
}

abbrev calls : String → Completion
calls name = replied (record {
  content = none;
  tool_calls = record { id = "c1"; name = name; arguments = end } ∷ [];
})

abbrev ran : Log → Bool
ran [] = false
ran (completes ms tools ∷ log) = ran log
ran (completes_as agent ms tools names ∷ log) = ran log
ran (files name arguments ∷ log) = ran log
ran (awaits id ∷ log) = ran log
ran (runs t arguments ∷ log) = true

abbrev others : Others
others = record {
  complete = λ log.
      if ran log
      then replied (record { content = some "Refunded."; tool_calls = [] })
      else calls "billing-refund";
  file = λ log. "r1";
  call = λ log. returned (text "done");
  wait_at = λ log. record {
    before = requests filing ∷ [];
    now = 120;
    during = decides decision ∷ [];
    in_time = true;
  };
  error = λ s. other "refused";
}

abbrev team : List Agent
team = record { name = "billing"; tools = refund ∷ []; prompt = none; handoffs = [] } ∷ []

abbrev asked : List Message
asked = user (plain "Refund order 7.") ∷ []

-- The tool has run, and the model had the last word.
refunded :
    (run_agent (governed gate others) (refund ∷ []) true none 8 asked).0.messages
    ≡ asked
      ++ assistant no_content
          (record { id = "c1"; name = text "billing-refund"; arguments = object end } ∷ [])
        ∷ tool "c1" (plain "done")
        ∷ assistant (plain "Refunded.") []
        ∷ []
unfolding run_agent steps_from after_trim after_completion ask dispatch_all dispatch_tool
    dispatch_found gated_call asking reviewed run_and_answer run_tool answer trimmed conclude
    any_gated is_empty note_effect say emit about by_name requires_approval assistant_message
    content_of outcome_of format_tool_result governed review_by verdict outcome end_of_wait
    after_block run step request new_request budget_of deadline or_service decide decide_found ruled
    edited wake load write wait wait_found budget is_spent answered_by woken or_else forget_waiter
    settled is_pending is_expired Dict.get Dict.set Dict.remove Dict.empty
refunded = refl

gate-IsFresh : IsFresh gate
gate-IsFresh = (refl, nothing_held)
  where
    nothing_held :
        (k : String) (r : ApprovalRequest) → Dict.get gate.requests k ≡ some r → r.state ≢ approved
    nothing_held k r found = absurd (ground (arith, found, Dict.get-empty {V = ApprovalRequest} k))

no_run_undecided_example :
    AllDecided gate others (run_agent (governed gate others) (refund ∷ []) true none 8 asked).0.log
    × AllDecided gate others (run_multi_agent team (governed gate others) true none 8 0 asked).0.log
no_run_undecided_example =
    no_run_undecided gate others none 8 asked (refund ∷ []) team 0 gate-IsFresh
