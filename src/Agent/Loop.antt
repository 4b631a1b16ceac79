-- ===== src/Agent/Loop.antt =====
-- `run_agent`, `_dispatch_tool` and `_run_tool` of src/istos/agent/loop.py. The model, the tools and
-- the people behind the gate answer as the `Env` says, from all that they have been asked before.
use istos.Prelude.{
  ℕ, zero, suc, Bool, true, false, ◌&&◌, ◌||◌, not, Option, none, some, List, [], ◌∷◌, ◌++◌, String,
  ltb, if◌then◌else◌, text_key, ◌==◌,
}
use istos.Dict
use istos.Dict.{Dict}
use istos.Json.{Json, Fields}
use istos.Errors.{Failure}
use istos.Agent.Messages.{
  Content, no_content, plain, unknown_tool, stopped_after, approved_by, ToolCall, Message, tool,
  MeshTool, requires_approval, approval_reason, by_name, Kind, message, tool_call, tool_result,
  approval_request, approval_decision, done, AgentEvent, event, ModelReply, assistant_message,
  format_tool_result, format_tool_error,
}
use istos.Agent.Trim.{trim_messages}

-- What the loop asks of others, newest first: a completion, one of an agent of several with the
-- names of its transfer tools, a filed request for approval, a wait for its decision, a tool that
-- runs.
pub data Effect : Type 0 where
  completes : List Message → List MeshTool → Effect
  completes_as : ℕ → List Message → List MeshTool → List String → Effect
  files : String → Fields → Effect
  awaits : String → Effect
  runs : MeshTool → Fields → Effect

abbrev pub Log : Type 0
Log = List Effect

pub data Completion : Type 0 where
  replied : ModelReply → Completion
  broke : Failure → Completion

pub data CallResult : Type 0 where
  returned : Json → CallResult
  raised : Failure → CallResult

-- The arguments to run, the note and who decided; or the error of a refusal or of a timeout.
pub data Verdict : Type 0 where
  cleared : Fields → Option String → Option String → Verdict
  refused : Failure → Verdict

pub record Env : Type 0 where
  pub complete : Log → Completion
  pub file : Log → String
  pub review : Log → Verdict
  pub call : Log → CallResult

pub record Turn : Type 0 where
  pub messages : List Message
  pub events : List AgentEvent
  pub log : Log

unfoldable pub say : Message → Turn → Turn
say m t = record t { messages = t.messages ++ m ∷ [] }

unfoldable pub emit : AgentEvent → Turn → Turn
emit e t = record t { events = t.events ++ e ∷ [] }

unfoldable pub note_effect : Effect → Turn → Turn
note_effect x t = record t { log = x ∷ t.log }

-- An event about a tool call.
unfoldable pub about : Kind → ToolCall → Content → AgentEvent
unfolding event
about kind tc content = record (event kind) {
  name = some tc.name;
  tool_call_id = some tc.id;
  content = content;
}

unfoldable pub result_event : ToolCall → Content → Bool → AgentEvent
unfolding about
result_event tc content error = record (about tool_result tc content) { error = error }

unfoldable pub outcome_of : CallResult → Content × Bool
outcome_of (returned v) = (format_tool_result v, false)
outcome_of (raised e) = (format_tool_error e, true)

unfoldable pub note_or_name : Option String → Option String → Content
note_or_name (some n) by = if n == "" then approved_by by else plain n
note_or_name none by = approved_by by

-- The event of a yes, with the arguments as the human left them.
unfoldable pub clearance : ToolCall → String → Fields → Option String → Option String → AgentEvent
unfolding about note_or_name
clearance tc id arguments comment by =
    record (about approval_decision tc (note_or_name comment by)) {
      approval_id = some id;
      arguments = some arguments;
    }

module _ (env : Env) where
  -- `_run_tool`
  unfoldable pub run_tool : Option MeshTool → ToolCall → Turn → Turn × (Content × Bool)
  unfolding note_effect outcome_of
  run_tool none tc t = (t, (unknown_tool tc.name, true))
  run_tool (some m) tc t =
      let t' = note_effect (runs m tc.arguments) t in (t', outcome_of (env.call t'.log))

  unfoldable pub answer : ToolCall → Turn × (Content × Bool) → Turn
  unfolding say emit result_event
  answer tc (t, (content, error)) =
      emit (result_event tc content error) (say (tool tc.id content) t)

  -- The rest of `_dispatch_tool` without a gate in the way, or once it is open.
  unfoldable pub run_and_answer : Option MeshTool → ToolCall → Turn → Turn
  unfolding run_tool answer
  run_and_answer found tc t = answer tc (run_tool found tc t)

  unfoldable pub reviewed : MeshTool → ToolCall → String → Verdict → Turn → Turn
  unfolding about result_event emit say run_and_answer clearance
  reviewed m tc id (refused e) t =
      let refusal = format_tool_error e in
      emit (result_event tc refusal true) (
        say (tool tc.id refusal) (
          emit (record (about approval_decision tc refusal) { approval_id = some id; error = true })
            t))
  reviewed m tc id (cleared arguments comment by) t =
      run_and_answer (some m) (record tc { arguments = arguments })
        (emit (clearance tc id arguments comment by) t)

  -- The request is filed and announced, and the loop waits.
  unfoldable pub asking : MeshTool → ToolCall → Turn → Turn
  unfolding about emit note_effect
  asking m tc t =
      let filed = note_effect (files tc.name tc.arguments) t in
      let id = env.file filed.log in
      note_effect (awaits id) (
        emit
          (record (about approval_request tc (approval_reason m)) {
            arguments = some tc.arguments;
            approval_id = some id;
          })
          filed)

  unfoldable pub gated_call : MeshTool → ToolCall → Turn → Turn
  unfolding asking reviewed
  gated_call m tc t =
      reviewed m tc (env.file (files tc.name tc.arguments ∷ t.log)) (env.review (asking m tc t).log)
        (asking m tc t)

  -- `gate` is that there is one.
  unfoldable pub dispatch_found : Bool → Option MeshTool → ToolCall → Turn → Turn
  unfolding gated_call run_and_answer
  dispatch_found gate none tc t = run_and_answer none tc t
  dispatch_found gate (some m) tc t =
      if requires_approval m && gate then gated_call m tc t else run_and_answer (some m) tc t

  unfoldable pub dispatch_tool : Bool → Dict String MeshTool → ToolCall → Turn → Turn
  unfolding dispatch_found emit about
  dispatch_tool gate catalog tc t =
      dispatch_found gate (Dict.get catalog tc.name) tc
        (emit (record (about tool_call tc no_content) { arguments = some tc.arguments }) t)

  unfoldable pub dispatch_all : Bool → Dict String MeshTool → List ToolCall → Turn → Turn
  dispatch_all gate catalog [] t = t
  dispatch_all gate catalog (tc ∷ tcs) t =
      dispatch_all gate catalog tcs (dispatch_tool gate catalog tc t)

-- How a run ends: with `done`, with what the model raised, or with ValueError.
pub data Ending : Type 0 where
  finished : Ending
  failed : Failure → Ending
  value_error : Ending

unfoldable pub final_text : Option String → AgentEvent
unfolding event
final_text none = record (event message) {
  content = plain "The model returned an empty response.";
  error = true;
}
final_text (some s) =
    if s == ""
    then record (event message) {
      content = plain "The model returned an empty response.";
      error = true;
    }
    else record (event message) { content = plain s }

unfoldable pub is_empty : List ToolCall → Bool
is_empty [] = true
is_empty (c ∷ cs) = false

unfoldable pub trimmed : Option ℕ → List Message → Option (List Message)
trimmed none ms = some ms
trimmed (some n) ms = trim_messages ms n

unfoldable pub conclude : Content → Turn → Turn
unfolding emit event
conclude content t = emit (event done) (emit (record (event message) { content = content }) t)

unfoldable pub any_gated : List MeshTool → Bool
any_gated [] = false
any_gated (m ∷ ms) = requires_approval m || any_gated ms

-- One round of the loop goes on to the next, or ends the run.
pub data Progress : Type 0 where
  goes_on : Turn → Progress
  ends : Turn → Ending → Progress

module _ (env : Env) (tools : List MeshTool) (gate : Bool) (max_messages : Option ℕ) where
  unfoldable pub ask : List Message → Turn → Turn
  unfolding note_effect
  ask ms t = note_effect (completes ms tools) (record t { messages = ms })

  unfoldable pub after_completion : List Message → Turn → Completion → Progress
  unfolding ask emit say final_text is_empty
  after_completion ms t (broke e) = ends (ask ms t) (failed e)
  after_completion ms t (replied r) =
      let heard = say (assistant_message r) (ask ms t) in
      if is_empty r.tool_calls
      then ends (emit (event done) (emit (final_text r.content) heard)) finished
      else goes_on (dispatch_all env gate (by_name tools Dict.empty) r.tool_calls heard)

  -- One round of the loop, once the messages have been trimmed.
  unfoldable pub after_trim : Option (List Message) → Turn → Progress
  unfolding after_completion ask
  after_trim none t = ends t value_error
  after_trim (some ms) t = after_completion ms t (env.complete (ask ms t).log)

  -- The loop, with the steps that are left of `max_steps`.
  unfoldable pub steps_from : ℕ → ℕ → Turn → Turn × Ending
  unfolding trimmed conclude after_trim
  steps_from max_steps zero t = (conclude (stopped_after max_steps) t, finished)
  steps_from max_steps (suc left) t = elim (after_trim (trimmed max_messages t.messages) t) [
    | goes_on t' ↦ steps_from max_steps left t'
    | ends t' ending ↦ (t', ending)
  ]

  unfoldable pub run_agent : ℕ → List Message → Turn × Ending
  unfolding steps_from any_gated
  run_agent max_steps messages =
      let start : Turn = record { messages = messages; events = []; log = [] } in
      if ltb max_steps 1 || (not gate && any_gated tools)
      then (start, value_error)
      else steps_from max_steps max_steps start
