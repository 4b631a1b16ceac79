-- ===== src/Agent/Multi/Handoff.antt =====
-- `run_multi_agent` of src/istos/agent/multi.py, with what it shares with the loop of one agent.
use istos.Prelude.{
  ℕ, zero, suc, Bool, ◌&&◌, ◌||◌, not, Option, none, some, List, [], ◌∷◌, String, ltb,
  if◌then◌else◌, text_key, ◌==◌, map,
}
use Prim.Native.String
use istos.Dict
use istos.Dict.{Dict}
use istos.Naming.{tool_name}
use istos.Agent.Messages.{
  stopped_without_answer, transferred_to, from_to, handoff, done, ToolCall, Message, system, user,
  assistant, tool, by_name, event, assistant_message,
}
use istos.Agent.Loop.{
  completes_as, Env, Turn, say, emit, note_effect, Completion, replied, broke, Ending, finished,
  failed, value_error, dispatch_tool, final_text, is_empty, trimmed, conclude,
}
use istos.Agent.Multi.Registry.{Agent, agent_at, build_registry, needs_gate}

-- `_transfer_tool_name`
unfoldable pub transfer_tool_name : Agent → String
transfer_tool_name a = String.◌++◌ "transfer_to_" (tool_name a.name)

unfoldable pub without_system : List Message → List Message
without_system [] = []
without_system (system s ∷ ms) = without_system ms
without_system (user c ∷ ms) = user c ∷ without_system ms
without_system (assistant c calls ∷ ms) = assistant c calls ∷ without_system ms
without_system (tool id c ∷ ms) = tool id c ∷ without_system ms

-- `_with_system`
unfoldable pub with_system : List Message → Option String → List Message
unfolding without_system
with_system ms none = without_system ms
with_system ms (some s) = if s == "" then without_system ms else system s ∷ without_system ms

module _ (agents : List Agent) where
  -- `{_transfer_tool_name(t): t for t in active.handoffs}`
  unfoldable pub targets : List ℕ → Dict String ℕ → Dict String ℕ
  unfolding transfer_tool_name agent_at
  targets [] d = d
  targets (k ∷ ks) d = targets ks (Dict.set d (transfer_tool_name (agent_at agents k)) k)

  unfoldable pub transfer_names : List ℕ → List String
  unfolding transfer_tool_name agent_at
  transfer_names ks = map (λ k. transfer_tool_name (agent_at agents k)) ks

  -- The call of a transfer tool of the active agent.
  unfoldable pub transfer : ℕ → ℕ → ToolCall → Turn → Turn
  unfolding say emit agent_at event
  transfer active target tc t =
      let name = (agent_at agents target).name in
      emit
        (record (event handoff) {
          name = some name;
          content = from_to (agent_at agents active).name name;
          tool_call_id = some tc.id;
        })
        (say (tool tc.id (transferred_to name)) t)

  module _ (env : Env) (gate : Bool) where
    -- One call of a batch: the next active agent, and the turn.
    unfoldable pub resolved : ℕ → Option ℕ → ToolCall → ℕ × Turn → ℕ × Turn
    unfolding transfer dispatch_tool agent_at
    resolved active (some target) tc (next, t) = (target, transfer active target tc t)
    resolved active none tc (next, t) =
        (next, dispatch_tool env gate (by_name (agent_at agents active).tools Dict.empty) tc t)

    unfoldable pub resolve_all : ℕ → List ToolCall → ℕ × Turn → ℕ × Turn
    unfolding resolved targets
    resolve_all active [] state = state
    resolve_all active (tc ∷ tcs) state = resolve_all active tcs (
        resolved active (Dict.get (targets (agent_at agents active).handoffs Dict.empty) tc.name) tc
          state)

    -- A round goes on with an agent, or ends the run.
    pub data Round : Type 0 where
      goes_on_as : ℕ × Turn → Round
      stops : Turn → Ending → Round

    unfoldable pub ask_agent : ℕ → List Message → Turn → Turn
    unfolding note_effect with_system transfer_names agent_at
    ask_agent active ms t =
        let a = agent_at agents active in
        note_effect
          (completes_as active (with_system ms a.prompt) a.tools (transfer_names a.handoffs))
          (record t { messages = ms })

    unfoldable pub after_reply : ℕ → List Message → Turn → Completion → Round
    unfolding ask_agent resolve_all emit say final_text is_empty
    after_reply active ms t (broke e) = stops (ask_agent active ms t) (failed e)
    after_reply active ms t (replied r) =
        let heard = say (assistant_message r) (ask_agent active ms t) in
        if is_empty r.tool_calls
        then stops (emit (event done) (emit (final_text r.content) heard)) finished
        else goes_on_as (resolve_all active r.tool_calls (active, heard))

    unfoldable pub round : ℕ → Option (List Message) → Turn → Round
    unfolding after_reply ask_agent
    round active none t = stops t value_error
    round active (some ms) t = after_reply active ms t (env.complete (ask_agent active ms t).log)

    -- The loop, with the steps that are left of `max_steps`.
    unfoldable pub rounds_from : Option ℕ → ℕ → ℕ → ℕ × Turn → Turn × Ending
    unfolding trimmed conclude round
    rounds_from max_messages max_steps zero (active, t) =
        (conclude (stopped_without_answer max_steps) t, finished)
    rounds_from max_messages max_steps (suc left) (active, t) =
        elim (round active (trimmed max_messages t.messages) t) [
          | goes_on_as state ↦ rounds_from max_messages max_steps left state
          | stops t' ending ↦ (t', ending)
        ]

    -- Whether some agent of the registry has a tool that needs the gate that is not there.
    unfoldable pub lacks_gate : Option (Dict String ℕ) → Bool
    unfolding needs_gate
    lacks_gate none = not gate
    lacks_gate (some registry) = not gate && needs_gate agents (Dict.items registry)

    unfoldable pub run_multi_agent : Option ℕ → ℕ → ℕ → List Message → Turn × Ending
    unfolding rounds_from lacks_gate build_registry
    run_multi_agent max_messages max_steps active messages =
        let start : Turn = record { messages = messages; events = []; log = [] } in
        if ltb max_steps 1 || lacks_gate (build_registry agents active)
        then (start, value_error)
        else rounds_from max_messages max_steps max_steps (active, start)
