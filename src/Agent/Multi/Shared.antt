-- ===== src/Agent/Multi/Shared.antt =====
-- The chat log that several agents share (src/istos/agent/multi.py).
use istos.Prelude.{
  ℕ, zero, suc, ◌≡◌, refl, sym, subst, inl, inr, Bool, ◌||◌, Option, none, some, List, [], ◌∷◌, ltb,
  text_key, Bool-cases,
}
use istos.Dict
use istos.Dict.{Dict}
use istos.Agent.Messages.{
  no_content, tool_call, transferred_to, ToolCall, Message, tool, by_name, assistant_message,
}
use istos.Agent.Trim.{IsValid}
use istos.Agent.Loop.{
  Env, Turn, say, emit, about, note_effect, Completion, replied, broke, Ending, dispatch_tool,
  is_empty, trimmed, conclude,
}
use istos.Agent.Valid.{
  Leaves, nothing_asked, valid-Leaves, Leaves-valid, Leaves-append, asked_ids, AddsAnswer,
  found-AddsAnswer, trimmed-IsValid,
}
use istos.Agent.Multi.Registry.{Agent, agent_at, build_registry}
use istos.Agent.Multi.Handoff.{
  targets, transfer, resolved, resolve_all, Round, goes_on_as, stops, ask_agent, after_reply, round,
  rounds_from, lacks_gate, run_multi_agent,
}

module _ (agents : List Agent) (env : Env) (gate : Bool) where
  -- A call is answered once, whether it hands the conversation over or runs a tool.
  resolved-AddsAnswer :
      (active : ℕ) (o : Option ℕ) (tc : ToolCall) (next : ℕ) (t : Turn)
      → AddsAnswer env tc t (resolved agents env gate active o tc (next, t)).1
  unfolding resolved transfer dispatch_tool say emit
  resolved-AddsAnswer active (some target) tc next t =
      (transferred_to (agent_at agents target).name, refl)
  resolved-AddsAnswer active none tc next t =
      found-AddsAnswer env gate
        (Dict.get (by_name (agent_at agents active).tools Dict.empty) tc.name) tc
        (emit (record (about tool_call tc no_content) { arguments = some tc.arguments }) t)

  resolve_all-Leaves :
      (active : ℕ) (tcs : List ToolCall) (next : ℕ) (t : Turn)
      → Leaves [] t.messages (asked_ids tcs)
      → IsValid (resolve_all agents env gate active tcs (next, t)).1.messages
  unfolding resolve_all
  resolve_all-Leaves active [] next t h = Leaves-valid [] t.messages h
  resolve_all-Leaves active (tc ∷ tcs) next t h =
      let target = Dict.get (targets agents (agent_at agents active).handoffs Dict.empty) tc.name in
      let state = resolved agents env gate active target tc (next, t) in
      let (c, grown) = resolved-AddsAnswer active target tc next t in
      resolve_all-Leaves active tcs state.0 state.1 (
        subst (λ (ms : List Message). Leaves [] ms (asked_ids tcs)) (sym grown)
          (Leaves-append [] t.messages (tool tc.id c ∷ []) (asked_ids (tc ∷ tcs)) (asked_ids tcs) h
            (refl, refl)))

  abbrev ValidRound : Round agents env gate → Type 0
  ValidRound (goes_on_as state) = IsValid state.1.messages
  ValidRound (stops t e) = IsValid t.messages

  after_reply-ValidRound :
      (active : ℕ) (ms : List Message) (t : Turn) (c : Completion)
      → IsValid ms
      → ValidRound (after_reply agents env gate active ms t c)
  unfolding after_reply ask_agent emit say note_effect assistant_message
  after_reply-ValidRound active ms t (broke e) h = h
  after_reply-ValidRound active ms t (replied r) h =
      let heard = say (assistant_message r) (ask_agent agents env gate active ms t) in
      let asked : Leaves [] heard.messages (asked_ids r.tool_calls) =
        Leaves-append [] ms (assistant_message r ∷ []) [] (asked_ids r.tool_calls)
          (valid-Leaves [] ms h) refl in
      elim (Bool-cases (is_empty r.tool_calls)) [
        | inl over ↦ rw (over) (nothing_asked heard.messages r.tool_calls over asked)
        | inr more ↦ rw (more) (resolve_all-Leaves active r.tool_calls active heard asked)
      ]

  round-ValidRound :
      (active : ℕ) (max_messages : Option ℕ) (o : Option (List Message)) (t : Turn)
      → trimmed max_messages t.messages ≡ o
      → IsValid t.messages
      → ValidRound (round agents env gate active o t)
  unfolding round
  round-ValidRound active max_messages none t e h = h
  round-ValidRound active max_messages (some ms) t e h =
      after_reply-ValidRound active ms t (env.complete (ask_agent agents env gate active ms t).log)
        (trimmed-IsValid max_messages t.messages ms h e)

  rounds-IsValid :
      (max_messages : Option ℕ) (max_steps left : ℕ) (state : ℕ × Turn)
      → IsValid state.1.messages
      → IsValid (rounds_from agents env gate max_messages max_steps left state).0.messages
  unfolding rounds_from conclude emit
  rounds-IsValid max_messages max_steps zero (active, t) h = h
  rounds-IsValid max_messages max_steps (suc left) (active, t) h =
      go (round agents env gate active (trimmed max_messages t.messages) t)
        (round-ValidRound active max_messages (trimmed max_messages t.messages) t refl h)
        (λ state k. rounds-IsValid max_messages max_steps left state k)
    where
      go :
          (r : Round agents env gate)
          → ValidRound r
          → ((state : ℕ × Turn)
              → IsValid state.1.messages
              → IsValid (rounds_from agents env gate max_messages max_steps left state).0.messages)
          → IsValid
              (elim r as (λ x. Turn × Ending) [
                | goes_on_as state ↦ rounds_from agents env gate max_messages max_steps left state
                | stops t' ending ↦ (t', ending)
              ]).0.messages
      go (goes_on_as state) v ih = ih state v
      go (stops t' ending) v ih = v

-- The chat log that the agents share stays valid over a turn, however it is handed on: each call of an
-- assistant message gets its one answer, in the order of the calls, transfers included, also where a
-- batch mixes transfers and tools or has several transfers.
pub run_multi_agent-IsValid :
    (agents : List Agent) (env : Env) (gate : Bool) (max_messages : Option ℕ) (max_steps entry : ℕ)
    (messages : List Message)
    → IsValid messages
    → IsValid (run_multi_agent agents env gate max_messages max_steps entry messages).0.messages
unfolding run_multi_agent
run_multi_agent-IsValid agents env gate max_messages max_steps entry messages h =
    elim (Bool-cases
      (ltb max_steps 1 || lacks_gate agents env gate (build_registry agents entry))) [
        | inl bad ↦ rw (bad) h
        | inr fine ↦ rw (fine) (
            rounds-IsValid agents env gate max_messages max_steps max_steps
              (entry, record { messages = messages; events = []; log = [] }) h)
      ]
