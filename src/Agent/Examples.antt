-- ===== src/Agent/Examples.antt =====
-- A run of the agent loop on a concrete session, and the theorems applied to it.
use istos.Prelude.{
  ◌≤◌, ◌≡◌, refl, Bool, true, false, none, some, List, [], ◌∷◌, ◌++◌, String, if◌then◌else◌,
  text_key, arith,
}
use istos.Dict
use istos.Json.{Json, null, text, object, end, field, find, get_or, truthy}
use istos.Agent.Messages.{
  shown, no_content, plain, ToolCall, Message, system, user, assistant, tool, reason, content_of,
  format_tool_result, MeshTool, requires_approval, by_name, assistant_message, call_message,
}
use istos.Agent.Trim.{IsValid, trim_messages, Window, trim-IsValid}
use istos.Agent.Loop.{
  completes, files, completes_as, awaits, runs, Log, Completion, replied, returned, cleared, Env,
  finished, run_agent, steps_from, after_trim, after_completion, ask, dispatch_all, dispatch_tool,
  dispatch_found, gated_call, asking, reviewed, run_and_answer, run_tool, answer, trimmed, conclude,
  any_gated, is_empty, note_effect, say, emit, about, outcome_of,
}
use istos.Agent.Gated.{Gated, run_agent-Gated}
use istos.Agent.Ends.{EndsDone, completions, Pairs, run_agent-Ends}
use istos.Agent.History.{
  LoggedTurn, history_to_messages, results_by_id, result_of, add_result, all_messages,
  turn_messages, out_messages, frame_messages, call_messages, tool_call_message, str_or_empty, str,
  user_text, system_messages, or_empty_object, equals_text,
}
use istos.Agent.History.Rebuilt.{ids_hashable}
use istos.Agent.Drive.{
  with_prompt, has_system, each_message, Session, Options, drive_channel, drive_channel-IsValid,
}

abbrev refund : MeshTool
refund = record {
  prefix = "billing/refund";
  name = "billing-refund";
  approval = reason "moves money";
}

abbrev call : ToolCall
call = record { id = "c1"; name = "billing-refund"; arguments = end }

-- The model asks for a refund, a human says yes, and the model sums up.
abbrev ran : Log → Bool
ran [] = false
ran (completes ms tools ∷ log) = ran log
ran (completes_as agent ms tools names ∷ log) = ran log
ran (files name arguments ∷ log) = ran log
ran (awaits id ∷ log) = ran log
ran (runs t arguments ∷ log) = true

abbrev complete : Log → Completion
complete log =
    if ran log
    then replied (record { content = some "Refunded."; tool_calls = [] })
    else replied (record { content = none; tool_calls = call ∷ [] })

abbrev env : Env
env = record {
  complete = complete;
  file = λ log. "r1";
  review = λ log. cleared end none (some "amir");
  call = λ log. returned (text "done");
}

abbrev opening : List Message
opening = system "You help." ∷ user (plain "Refund order 7.") ∷ []

abbrev answered : List Message
answered =
    opening
    ++ assistant no_content (call_message call ∷ [])
      ∷ tool "c1" (plain "done")
      ∷ assistant (plain "Refunded.") []
      ∷ []

run : (run_agent env (refund ∷ []) true none 8 opening).0.messages ≡ answered
unfolding run_agent steps_from after_trim after_completion ask dispatch_all dispatch_tool
    dispatch_found gated_call asking reviewed run_and_answer run_tool answer trimmed conclude
    any_gated is_empty note_effect say emit about by_name requires_approval assistant_message
    content_of outcome_of format_tool_result Dict.get Dict.set Dict.empty
run = refl

trim-IsValid_example :
    (out : List Message) × (trim_messages answered 2 ≡ some out)
    × IsValid out
    × Window answered 2 out
trim-IsValid_example = trim-IsValid answered 2 (refl, tt) (omega arith)

run_agent-Gated_example : Gated env (run_agent env (refund ∷ []) true none 8 opening).0.log
run_agent-Gated_example = run_agent-Gated env (refund ∷ []) true none 8 opening

run_agent-Ends_example :
    let out = run_agent env (refund ∷ []) true none 8 opening in
    (out.1 ≡ finished → EndsDone out.0.events)
    × (completions out.0.log ≤ 8)
    × Pairs none out.0.events none
run_agent-Ends_example = run_agent-Ends env (refund ∷ []) true none 8 opening

abbrev said : String → Json → LoggedTurn
said direction payload = record { direction = text direction; payload = payload }

-- A call with its result, and one that a crash cut off.
abbrev channel_log : List LoggedTurn
channel_log =
    said "in" (text "Refund order 7.")
    ∷ said "out" (
        object (
          field "kind" (text "tool_call")
            (field "tool_call_id" (text "c1") (field "name" (text "pay") end))))
    ∷ said "out" (
        object (
          field "kind" (text "tool_result")
            (field "tool_call_id" (text "c1") (field "content" (text "done") end))))
    ∷ said "out" (
        object (
          field "kind" (text "tool_call")
            (field "tool_call_id" (text "c2") (field "name" (text "pay") end))))
    ∷ []

abbrev rebuilt : List Message
rebuilt =
    system "You help."
    ∷ user (plain "Refund order 7.")
    ∷ assistant (shown null) (record { id = "c1"; name = text "pay"; arguments = object end } ∷ [])
    ∷ tool "c1" (plain "done")
    ∷ []

hashable_log : ids_hashable channel_log ≡ true
unfolding get_or find
hashable_log = refl

rebuilds : history_to_messages channel_log (some "You help.") true ≡ some rebuilt
unfolding history_to_messages results_by_id result_of add_result all_messages turn_messages
    out_messages frame_messages call_messages tool_call_message str_or_empty str user_text
    system_messages or_empty_object equals_text get_or find truthy Dict.get Dict.set Dict.empty
rebuilds = refl

abbrev options : Options
options = record {
  prompt = some "You help.";
  max_steps = 8;
  max_messages = some 40;
  send_events = true;
  approvals = true;
}

abbrev driven : Session
driven =
    each_message (refund ∷ []) options ((env, text "And order 8.") ∷ [])
      (record { messages = rebuilt; sent = []; ending = finished })

drives :
    drive_channel (refund ∷ []) options channel_log ((env, text "And order 8.") ∷ []) ≡ some driven
unfolding drive_channel with_prompt has_system
drives = rw (drive_channel, rebuilds) refl

drive_channel-IsValid_example :
    (s : Session) × (drive_channel
        (refund ∷ [])
        options
        channel_log
        ((env, text "And order 8.") ∷ [])
      ≡ some s)
    × IsValid s.messages
drive_channel-IsValid_example =
    drive_channel-IsValid (refund ∷ []) options channel_log ((env, text "And order 8.") ∷ [])
      hashable_log
