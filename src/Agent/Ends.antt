-- ===== src/Agent/Ends.antt =====
-- How a turn of the agent loop ends, and what its events report.
use istos.Prelude.{
  ℕ, zero, suc, ◌+◌, ◌≤◌, ◌≡◌, refl, sym, subst, inl, inr, Bool, ◌&&◌, ◌||◌, not, Option, none,
  some, List, [], ◌∷◌, ◌++◌, String, ltb, arith, Bool-cases, text_key,
}
use mathlib.Core.List.{append_assoc}
use istos.Dict
use istos.Dict.{Dict}
use istos.Agent.Messages.{
  no_content, stopped_after, Kind, message, tool_call, tool_result, approval_request,
  approval_decision, handoff, done, AgentEvent, event, ToolCall, Message, MeshTool,
  requires_approval, by_name, assistant_message,
}
use istos.Agent.Loop.{
  completes, files, completes_as, awaits, runs, Log, Env, Turn, say, emit, about, result_event,
  note_effect, Verdict, cleared, refused, Ending, finished, Completion, replied, broke, run_tool,
  answer, run_and_answer, reviewed, asking, clearance, gated_call, dispatch_found, dispatch_tool,
  dispatch_all, trimmed, conclude, final_text, ask, is_empty, Progress, goes_on, ends,
  after_completion, after_trim, any_gated, steps_from, run_agent,
}

-- What an event does while the call `o` is open, or none is: a call is opened when none is, what the
-- gate reports is about the open call, and so is the result, which closes it. Messages and `done`
-- come when no call is open.
abbrev pub Goes : Kind → Option String → Option String → Option String → Type 0
Goes tool_call id o next = (i : String) × (id ≡ some i) × (o ≡ none) × (next ≡ some i)
Goes tool_result id o next = (i : String) × (id ≡ some i) × (o ≡ some i) × (next ≡ none)
Goes approval_request id o next = (i : String) × (id ≡ some i) × (o ≡ some i) × (next ≡ some i)
Goes approval_decision id o next = (i : String) × (id ≡ some i) × (o ≡ some i) × (next ≡ some i)
Goes message id o next = (o ≡ none) × (next ≡ none)
Goes handoff id o next = (o ≡ none) × (next ≡ none)
Goes done id o next = (o ≡ none) × (next ≡ none)

-- Events that begin while `o` is open and end while `last` is.
abbrev pub Pairs : Option String → List AgentEvent → Option String → Type 0
Pairs o [] last = o ≡ last
Pairs o (e ∷ es) last =
    (next : Option String) × Goes e.kind e.tool_call_id o next × Pairs next es last

abbrev pub completions : Log → ℕ
completions [] = 0
completions (completes ms tools ∷ log) = suc (completions log)
completions (completes_as agent ms tools names ∷ log) = suc (completions log)
completions (files name proposed ∷ log) = completions log
completions (awaits id ∷ log) = completions log
completions (runs t arguments ∷ log) = completions log

Pairs-snoc :
    (o m last : Option String) (es : List AgentEvent) (e : AgentEvent)
    → Pairs o es m
    → Goes e.kind e.tool_call_id m last
    → Pairs o (es ++ e ∷ []) last
Pairs-snoc o m last [] e h goes =
    (last, subst (λ x. Goes e.kind e.tool_call_id x last) (sym h) goes, refl)
Pairs-snoc o m last (f ∷ es) e (next, first, h) goes =
    (next, first, Pairs-snoc next m last es e h goes)

-- The events leave this call open, or none, after so many completions.
abbrev Balanced : Option String → ℕ → Turn → Type 0
Balanced o n t = Pairs none t.events o × (completions t.log ≤ n)

emit-Balanced :
    (o m : Option String) (n : ℕ) (e : AgentEvent) (t : Turn)
    → Balanced o n t
    → Goes e.kind e.tool_call_id o m
    → Balanced m n (emit e t)
unfolding emit
emit-Balanced o m n e t h goes = (Pairs-snoc none o m t.events e h.0 goes, h.1)

module _ (env : Env) (n : ℕ) where
  run-Balanced :
      (found : Option MeshTool) (tc : ToolCall) (t : Turn)
      → Balanced (some tc.id) n t
      → Balanced none n (run_and_answer env found tc t)
  unfolding run_and_answer run_tool answer note_effect say emit result_event about event
  run-Balanced none tc t h =
      (Pairs-snoc none (some tc.id) none t.events _ h.0 (tc.id, refl, refl, refl), h.1)
  run-Balanced (some m) tc t h =
      (Pairs-snoc none (some tc.id) none t.events _ h.0 (tc.id, refl, refl, refl), h.1)

  reviewed-Balanced :
      (m : MeshTool) (tc : ToolCall) (id : String) (v : Verdict) (t : Turn)
      → Balanced (some tc.id) n t
      → Balanced none n (reviewed env m tc id v t)
  unfolding reviewed emit say result_event about event clearance
  reviewed-Balanced m tc id (refused e) t h = (
    Pairs-snoc none (some tc.id) none _ _
        (Pairs-snoc none (some tc.id) (some tc.id) t.events _ h.0 (tc.id, refl, refl, refl))
        (tc.id, refl, refl, refl),
    h.1,
  )
  reviewed-Balanced m tc id (cleared arguments comment by) t h =
      run-Balanced (some m) (record tc { arguments = arguments })
        (emit (clearance tc id arguments comment by) t)
        (emit-Balanced (some tc.id) (some tc.id) n (clearance tc id arguments comment by) t h
          (tc.id, refl, refl, refl))

  asking-Balanced :
      (m : MeshTool) (tc : ToolCall) (t : Turn)
      → Balanced (some tc.id) n t
      → Balanced (some tc.id) n (asking env m tc t)
  unfolding asking emit note_effect about event
  asking-Balanced m tc t h =
      (Pairs-snoc none (some tc.id) (some tc.id) t.events _ h.0 (tc.id, refl, refl, refl), h.1)

  found-Balanced :
      (gate : Bool) (found : Option MeshTool) (tc : ToolCall) (t : Turn)
      → Balanced (some tc.id) n t
      → Balanced none n (dispatch_found env gate found tc t)
  unfolding dispatch_found gated_call
  found-Balanced gate none tc t h = run-Balanced none tc t h
  found-Balanced gate (some m) tc t h = elim (Bool-cases (requires_approval m && gate)) [
    | inl stop ↦ rw (stop) (
        reviewed-Balanced m tc (env.file (files tc.name tc.arguments ∷ t.log))
          (env.review (asking env m tc t).log) (asking env m tc t) (asking-Balanced m tc t h))
    | inr go ↦ rw (go) (run-Balanced (some m) tc t h)
  ]

  dispatch_all-Balanced :
      (gate : Bool) (catalog : Dict String MeshTool) (tcs : List ToolCall) (t : Turn)
      → Balanced none n t
      → Balanced none n (dispatch_all env gate catalog tcs t)
  unfolding dispatch_all dispatch_tool emit about event
  dispatch_all-Balanced gate catalog [] t h = h
  dispatch_all-Balanced gate catalog (tc ∷ tcs) t h =
      let called = record (about tool_call tc no_content) { arguments = some tc.arguments } in
      dispatch_all-Balanced gate catalog tcs (dispatch_tool env gate catalog tc t) (
        found-Balanced gate (Dict.get catalog tc.name) tc (emit called t)
          (emit-Balanced none (some tc.id) n called t h (tc.id, refl, refl, refl)))

-- The last two events are a message and `done`.
abbrev pub EndsDone : List AgentEvent → Type 0
EndsDone events =
    (earlier : List AgentEvent) × (m : AgentEvent) × (events ≡ earlier ++ m ∷ event done ∷ [])
    × (m.kind ≡ message)

append_two : (es : List AgentEvent) (a b : AgentEvent) → (es ++ a ∷ []) ++ b ∷ [] ≡ es ++ a ∷ b ∷ []
append_two es a b = append_assoc es (a ∷ []) (b ∷ [])

abbrev EndedWell : ℕ → Turn → Ending → Type 0
EndedWell n t ending =
    (ending ≡ finished → EndsDone t.events) × (completions t.log ≤ n) × Pairs none t.events none

ended_with :
    (n : ℕ) (m : AgentEvent) (t : Turn)
    → m.kind ≡ message
    → Balanced none n t
    → EndedWell n (emit (event done) (emit m t)) finished
unfolding emit event
ended_with n m t kind h = (
  λ e. (t.events, m, append_two t.events m (event done), kind),
  h.1,
  Pairs-snoc none none none (t.events ++ m ∷ []) (event done)
      (Pairs-snoc none none none t.events m h.0
        (subst (λ k. Goes k m.tool_call_id none none) (sym kind) (refl, refl)))
      (refl, refl),
)

final-message : (o : Option String) → (final_text o).kind ≡ message
unfolding final_text event
final-message none = refl
final-message (some s) = ground arith

module _ (env : Env) (tools : List MeshTool) (gate : Bool) (max_messages : Option ℕ) (n : ℕ) where
  abbrev GoesBalanced : Progress → Type 0
  GoesBalanced (goes_on t) = Balanced none (suc n) t
  GoesBalanced (ends t e) = EndedWell (suc n) t e

  completion-GoesBalanced :
      (ms : List Message) (t : Turn) (c : Completion)
      → Balanced none n t
      → GoesBalanced (after_completion env tools gate max_messages ms t c)
  unfolding after_completion ask say note_effect emit event
  completion-GoesBalanced ms t (broke e) h =
      (λ no_way. absurd (ground (arith, no_way)), omega (arith, h.1), h.0)
  completion-GoesBalanced ms t (replied r) h = elim (Bool-cases (is_empty r.tool_calls)) [
    | inl over ↦ rw (over) (
        (ended_with (suc n) (final_text r.content)
          (say (assistant_message r) (ask env tools gate max_messages ms t))
          (final-message r.content) (h.0, omega (arith, h.1))))
    | inr more ↦ rw (more) (
        dispatch_all-Balanced env (suc n) gate (by_name tools Dict.empty) r.tool_calls
          (say (assistant_message r) (ask env tools gate max_messages ms t))
          (h.0, omega (arith, h.1)))
  ]

module _ (env : Env) (tools : List MeshTool) (gate : Bool) (max_messages : Option ℕ) where
  trim-GoesBalanced :
      (n : ℕ) (o : Option (List Message)) (t : Turn)
      → Balanced none n t
      → GoesBalanced env tools gate max_messages n (after_trim env tools gate max_messages o t)
  unfolding after_trim
  trim-GoesBalanced n none t h =
      (λ no_way. absurd (ground (arith, no_way)), omega (arith, h.1), h.0)
  trim-GoesBalanced n (some ms) t h =
      completion-GoesBalanced env tools gate max_messages n ms t
        (env.complete (ask env tools gate max_messages ms t).log) h

  steps-EndedWell :
      (max_steps left n : ℕ) (t : Turn)
      → Balanced none n t
      → let out = steps_from env tools gate max_messages max_steps left t in
        EndedWell (n + left) out.0 out.1
  unfolding steps_from
  steps-EndedWell max_steps zero n t h =
      unfold conclude event in
      (ended_with (n + 0) (record (event message) { content = stopped_after max_steps }) t refl
        (h.0, omega (arith, h.1)))
  steps-EndedWell max_steps (suc left) n t h =
      go (after_trim env tools gate max_messages (trimmed max_messages t.messages) t)
        (trim-GoesBalanced n (trimmed max_messages t.messages) t h)
        (λ t' k. steps-EndedWell max_steps left (suc n) t' k)
    where
      go :
          (p : Progress)
          → GoesBalanced env tools gate max_messages n p
          → ((t' : Turn)
              → Balanced none (suc n) t'
              → let out = steps_from env tools gate max_messages max_steps left t' in
                EndedWell (suc n + left) out.0 out.1)
          → let out = elim p as (λ x. Turn × Ending) [
            | goes_on t' ↦ steps_from env tools gate max_messages max_steps left t'
            | ends t' ending ↦ (t', ending)
          ] in
            EndedWell (n + suc left) out.0 out.1
      go (goes_on t') v ih = let w = ih t' v in (w.0, omega (arith, w.1), w.2)
      go (ends t' ending) v ih = (v.0, omega (arith, v.1), v.2)

-- A turn ends, after at most `max_steps` completions. Among its events, an announced tool call is
-- followed by its own result before any other call is announced, with nothing between them but what
-- the gate reports about this call, and each result follows its own call; and if the turn finishes,
-- its last two events are a message and `done`.
pub run_agent-Ends :
    (env : Env) (tools : List MeshTool) (gate : Bool) (max_messages : Option ℕ) (max_steps : ℕ)
    (messages : List Message)
    → let out = run_agent env tools gate max_messages max_steps messages in
      (out.1 ≡ finished → EndsDone out.0.events)
      × (completions out.0.log ≤ max_steps)
      × Pairs none out.0.events none
unfolding run_agent
run_agent-Ends env tools gate max_messages max_steps messages =
    elim (Bool-cases (ltb max_steps 1 || (not gate && any_gated tools))) [
      | inl bad ↦ rw (bad) (λ no_way. absurd (ground (arith, no_way)), omega arith, refl)
      | inr fine ↦
          let ended =
            steps-EndedWell env tools gate max_messages max_steps max_steps 0
              (record { messages = messages; events = []; log = [] }) (refl, omega arith) in
          rw (fine) (ended.0, omega (arith, ended.1), ended.2)
    ]
