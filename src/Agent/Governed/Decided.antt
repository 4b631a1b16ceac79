-- ===== src/Agent/Governed/Decided.antt =====
-- Human decisions behind the runs of tools, in the loops of src/istos/agent on the gate of
-- src/istos/agent/approval.py.
use istos.Prelude.{ℕ, ◌≡◌, refl, sym, subst, true, Option, List, [], ◌∷◌, String, text_key, arith}
use istos.Json.{Fields}
use istos.Errors.{Failure}
use istos.Approval.Request.{ApprovalRequest}
use istos.Approval.Storage.{ApprovalGate}
use istos.Approval.Gate.{Settled, granted, approval_denied, approval_timeout, not_found}
use istos.Approval.Outcome.{calls_of, outcome}
use istos.Approval.Clearance.{DecidedBy}
use istos.Approval.Closed.{IsFresh, fail_closed}
use istos.Agent.Messages.{Message, MeshTool, requires_approval}
use istos.Agent.Loop.{completes, completes_as, files, awaits, runs, Log, cleared, run_agent}
use istos.Agent.Gated.{Gated, run_agent-Gated}
use istos.Agent.Multi.Registry.{Agent}
use istos.Agent.Multi.Handoff.{run_multi_agent}
use istos.Agent.Multi.Safe.{run_multi_agent-Gated}
use istos.Agent.Governed.{Others, verdict, review_by, governed}

verdict-cleared :
    (error : Settled → Failure) (s : Settled) (arguments : Fields) (comment by : Option String)
    → verdict error s ≡ cleared arguments comment by
    → (q : ApprovalRequest) × (s ≡ granted q) × (q.arguments ≡ arguments)
unfolding verdict
verdict-cleared error (granted r) arguments comment by h = (r, refl, ground (arith, h))
verdict-cleared error (approval_denied r) arguments comment by h = absurd (ground (arith, h))
verdict-cleared error (approval_timeout r) arguments comment by h = absurd (ground (arith, h))
verdict-cleared error not_found arguments comment by h = absurd (ground (arith, h))

-- Each run of a tool that needs approval comes after a wait for a request, during which or before
-- which a human has decided on the gate, and has the arguments as decided.
abbrev pub AllDecided : ApprovalGate → Others → Log → Type 0
AllDecided g o [] = Unit
AllDecided g o (runs t arguments ∷ log) =
    (requires_approval t ≡ true
      → (id : String) × (earlier : Log) × (log ≡ awaits id ∷ earlier)
        × DecidedBy g id arguments (calls_of id (o.wait_at log)))
    × AllDecided g o log
AllDecided g o (completes ms tools ∷ log) = AllDecided g o log
AllDecided g o (completes_as agent ms tools names ∷ log) = AllDecided g o log
AllDecided g o (files name proposed ∷ log) = AllDecided g o log
AllDecided g o (awaits id ∷ log) = AllDecided g o log

Gated-AllDecided :
    (g : ApprovalGate) (o : Others) (log : Log)
    → IsFresh g
    → Gated (governed g o) log
    → AllDecided g o log
unfolding governed review_by
Gated-AllDecided g o [] fresh h = tt
Gated-AllDecided g o (runs t arguments ∷ log) fresh h = (
  λ needs.
      let (id, proposed, earlier, comment, by, is, filed, reviewed) = h.0 needs in
      let here = awaits id ∷ files t.name proposed ∷ earlier in
      let cleared_here : review_by g o here ≡ cleared arguments comment by =
        subst (λ (x : Log). review_by g o x ≡ cleared arguments comment by) is reviewed in
      let (q, granted_it, same) =
        verdict-cleared o.error (outcome g id (o.wait_at here)) arguments comment by cleared_here in
      (
        id,
        files t.name proposed ∷ earlier,
        is,
        subst (λ (x : Log). DecidedBy g id arguments (calls_of id (o.wait_at x))) (sym is)
            (subst (λ (a : Fields). DecidedBy g id a (calls_of id (o.wait_at here))) same
              (fail_closed g id (o.wait_at here) q fresh granted_it)),
      ),
  Gated-AllDecided g o log fresh h.1,
)
Gated-AllDecided g o (completes ms tools ∷ log) fresh h = Gated-AllDecided g o log fresh h
Gated-AllDecided g o (completes_as agent ms tools names ∷ log) fresh h =
    Gated-AllDecided g o log fresh h
Gated-AllDecided g o (files name proposed ∷ log) fresh h = Gated-AllDecided g o log fresh h
Gated-AllDecided g o (awaits id ∷ log) fresh h = Gated-AllDecided g o log fresh h

-- On the approval gate, in the loop of one agent and in that of several: each tool that needs approval
-- runs only once a human has decided. If the gate has loaded and holds no approved request when the
-- run begins, and whatever calls it has in the meantime, there is among them a decision on the request
-- that the loop waited for. When it came, the gate held that request as pending, before its deadline.
-- It says yes, and the tool runs with the arguments that it names, or else those of the request.
pub no_run_undecided :
    (g : ApprovalGate) (o : Others) (max_messages : Option ℕ) (max_steps : ℕ)
    (messages : List Message) (tools : List MeshTool) (agents : List Agent) (entry : ℕ)
    → IsFresh g
    → AllDecided g o (run_agent (governed g o) tools true max_messages max_steps messages).0.log
      × AllDecided g o
          (run_multi_agent agents (governed g o) true max_messages max_steps entry messages).0.log
no_run_undecided g o max_messages max_steps messages tools agents entry fresh = (
  Gated-AllDecided g o (run_agent (governed g o) tools true max_messages max_steps messages).0.log
      fresh (run_agent-Gated (governed g o) tools true max_messages max_steps messages),
  Gated-AllDecided g o
      (run_multi_agent agents (governed g o) true max_messages max_steps entry messages).0.log fresh
      (run_multi_agent-Gated agents (governed g o) true max_messages max_steps entry messages
        (λ off. absurd (ground (arith, off)))),
)
