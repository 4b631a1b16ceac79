-- ===== src/Agent/Multi/Examples.antt =====
-- A router and a billing agent that hand a conversation to each other, and the theorems applied to them.
use istos.Prelude.{
  ℕ, zero, suc, ◌≡◌, refl, Bool, true, false, ◌||◌, none, some, List, [], ◌∷◌, ◌++◌, String,
  text_key, arith,
}
use istos.Dict
use istos.Dict.{Dict}
use istos.Naming.{tool_name, name_safe}
use istos.Json.{text, object, end}
use istos.Agent.Messages.{
  no_content, plain, transferred_to, Message, user, assistant, tool, reason, MeshTool,
  requires_approval, by_name, assistant_message, content_of, format_tool_result,
}
use istos.Agent.Trim.{IsValid, trim_messages, body_of}
use istos.Agent.Loop.{
  completes, completes_as, files, awaits, runs, Log, Completion, replied, returned, cleared, Env,
  dispatch_tool, dispatch_found, gated_call, asking, reviewed, run_and_answer, run_tool, answer,
  trimmed, conclude, any_gated, is_empty, note_effect, say, emit, about, outcome_of,
}
use istos.Agent.Gated.{Gated}
use istos.Agent.Multi.Registry.{
  Agent, agent_at, nobody, pushed, weight, visit, registry_from, build_registry, needs_gate,
}
use istos.Agent.Multi.Reach.{IsNamed, Reach, build_registry-IsComplete}
use istos.Agent.Multi.Handoff.{
  transfer_tool_name, targets, transfer, resolved, resolve_all, ask_agent, after_reply, round,
  rounds_from, lacks_gate, run_multi_agent,
}
use istos.Agent.Multi.Safe.{run_multi_agent-Gated}
use istos.Agent.Multi.Shared.{run_multi_agent-IsValid}

abbrev refund : MeshTool
refund = record {
  prefix = "billing/refund";
  name = "billing-refund";
  approval = reason "moves money";
}

abbrev router : Agent
router = record { name = "router"; tools = []; prompt = some "You route."; handoffs = 1 ∷ [] }

abbrev billing : Agent
billing = record { name = "billing"; tools = refund ∷ []; prompt = none; handoffs = 0 ∷ [] }

abbrev team : List Agent
team = router ∷ billing ∷ []

abbrev calls : String → Completion
calls name =
    replied (record {
      content = none;
      tool_calls = record { id = "c"; name = name; arguments = end } ∷ [];
    })

-- The router hands over, billing asks for a refund, a human says yes.
abbrev complete : Log → Completion
complete [] = calls ""
complete (completes_as zero ms tools names ∷ log) = calls "transfer_to_billing"
complete (completes_as (suc k) ms tools names ∷ []) = calls ""
complete (completes_as (suc k) ms tools names ∷ completes_as j ns more others ∷ log) =
    calls "billing-refund"
complete (completes_as (suc k) ms tools names ∷ completes ns more ∷ log) = calls ""
complete (completes_as (suc k) ms tools names ∷ files name arguments ∷ log) = calls ""
complete (completes_as (suc k) ms tools names ∷ awaits id ∷ log) = calls ""
complete (completes_as (suc k) ms tools names ∷ runs t arguments ∷ log) =
    replied (record { content = some "Refunded."; tool_calls = [] })
complete (completes ms tools ∷ log) = calls ""
complete (files name arguments ∷ log) = calls ""
complete (awaits id ∷ log) = calls ""
complete (runs t arguments ∷ log) = calls ""

abbrev env : Env
env = record {
  complete = complete;
  file = λ log. "r1";
  review = λ log. cleared end none (some "amir");
  call = λ log. returned (text "done");
}

abbrev asked : List Message
asked = user (plain "Refund order 7.") ∷ []

handed_over :
    (run_multi_agent team env true (some 40) 8 0 asked).0.messages
    ≡ asked
      ++ assistant no_content
          (record { id = "c"; name = text "transfer_to_billing"; arguments = object end } ∷ [])
        ∷ tool "c" (transferred_to "billing")
        ∷ assistant no_content
            (record { id = "c"; name = text "billing-refund"; arguments = object end } ∷ [])
        ∷ tool "c" (plain "done")
        ∷ assistant (plain "Refunded.") []
        ∷ []
unfolding run_multi_agent rounds_from round after_reply ask_agent resolve_all resolved transfer
    targets transfer_tool_name tool_name name_safe agent_at lacks_gate needs_gate build_registry
    registry_from visit pushed weight dispatch_tool dispatch_found gated_call asking reviewed
    run_and_answer run_tool answer trimmed trim_messages body_of conclude any_gated is_empty
    note_effect say emit about by_name requires_approval assistant_message content_of outcome_of
    format_tool_result Dict.get Dict.set Dict.empty Dict.items
handed_over = refl

named : IsNamed team
unfolding agent_at nobody
named zero zero e = refl
named zero (suc zero) e = absurd (ground (arith, e, text_key.same_iff "router" "billing"))
named zero (suc (suc k)) e = absurd (ground (arith, e, text_key.same_iff "router" ""))
named (suc zero) zero e = absurd (ground (arith, e, text_key.same_iff "billing" "router"))
named (suc zero) (suc zero) e = refl
named (suc zero) (suc (suc k)) e = absurd (ground (arith, e, text_key.same_iff "billing" ""))
named (suc (suc j)) zero e = absurd (ground (arith, e, text_key.same_iff "" "router"))
named (suc (suc j)) (suc zero) e = absurd (ground (arith, e, text_key.same_iff "" "billing"))
named (suc (suc j)) (suc (suc k)) e = refl

build_registry-IsComplete_example :
    (found : Dict String ℕ) × (build_registry team 0 ≡ some found)
    × ((k : ℕ)
        → Reach team 0 k
        → (j : ℕ) × (Dict.get found (agent_at team k).name ≡ some j)
          × (agent_at team j ≡ agent_at team k))
build_registry-IsComplete_example = build_registry-IsComplete team 0 named

run_multi_agent-Gated_example : Gated env (run_multi_agent team env false none 8 0 asked).0.log
run_multi_agent-Gated_example = run_multi_agent-Gated team env false none 8 0 asked (λ e. named)

run_multi_agent-IsValid_example : IsValid (run_multi_agent team env true none 8 0 asked).0.messages
run_multi_agent-IsValid_example = run_multi_agent-IsValid team env true none 8 0 asked tt

abbrev ran : Log → Bool
ran [] = false
ran (completes ms tools ∷ log) = ran log
ran (completes_as agent ms tools names ∷ log) = ran log
ran (files name arguments ∷ log) = ran log
ran (awaits id ∷ log) = ran log
ran (runs t arguments ∷ log) = requires_approval t || ran log

abbrev waited : Log → Bool
waited [] = false
waited (completes ms tools ∷ log) = waited log
waited (completes_as agent ms tools names ∷ log) = waited log
waited (files name arguments ∷ log) = waited log
waited (awaits id ∷ log) = true
waited (runs t arguments ∷ log) = waited log

-- A second agent named billing, without tools, is registered first and hides the one with the tool.
abbrev namesakes : List Agent
namesakes =
    record { name = "router"; tools = []; prompt = none; handoffs = 1 ∷ 3 ∷ [] }
    ∷ billing
    ∷ record { name = "billing"; tools = []; prompt = none; handoffs = [] }
    ∷ record { name = "desk"; tools = []; prompt = none; handoffs = 2 ∷ [] }
    ∷ []

-- There is no gate, and the tool that needs approval runs.
hidden_tool_runs :
    let log = (run_multi_agent namesakes env false (some 40) 8 0 asked).0.log in
    (ran log ≡ true) × (waited log ≡ false)
unfolding run_multi_agent rounds_from round after_reply ask_agent resolve_all resolved transfer
    targets transfer_tool_name tool_name name_safe agent_at lacks_gate needs_gate build_registry
    registry_from visit pushed weight dispatch_tool dispatch_found gated_call asking reviewed
    run_and_answer run_tool answer trimmed trim_messages body_of conclude any_gated is_empty
    note_effect say emit about by_name requires_approval assistant_message content_of outcome_of
    format_tool_result Dict.get Dict.set Dict.empty Dict.items
hidden_tool_runs = (refl, refl)
