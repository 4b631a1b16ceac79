-- ===== src/Agent/Valid.antt =====
-- The chat log that a turn of the agent loop leaves behind.
use istos.Prelude.{
  ℕ, zero, suc, ◌≡◌, refl, sym, subst, inl, inr, Bool, true, ◌&&◌, ◌||◌, not, Option, none, some,
  List, [], ◌∷◌, ◌++◌, String, ltb, map, arith, Bool-cases, text_key,
}
use istos.Dict
use istos.Dict.{Dict}
use istos.Agent.Messages.{
  tool_call, no_content, Content, ToolCall, Message, system, user, assistant, tool, MeshTool,
  requires_approval, by_name, ModelReply, assistant_message, call_message,
}
use istos.Agent.Trim.{ids, Answers, IsValid, trim_messages, trim-IsValid}
use istos.Agent.Loop.{
  files, Env, Turn, say, emit, Verdict, cleared, refused, Ending, Completion, replied, broke,
  run_tool, answer, run_and_answer, reviewed, asking, gated_call, dispatch_found, dispatch_tool,
  dispatch_all, about, note_effect, trimmed, conclude, ask, is_empty, Progress, goes_on, ends,
  after_completion, after_trim, steps_from, any_gated, run_agent,
}

-- Reading the messages answers the first calls and leaves the last ones to answer.
abbrev pub Leaves : List String → List Message → List String → Type 0
Leaves is [] js = is ≡ js
Leaves [] (system s ∷ ms) js = Leaves [] ms js
Leaves [] (user c ∷ ms) js = Leaves [] ms js
Leaves [] (assistant c calls ∷ ms) js = Leaves (ids calls) ms js
Leaves [] (tool id c ∷ ms) js = ⊥
Leaves (i ∷ is) (tool id c ∷ ms) js = (i ≡ id) × Leaves is ms js
Leaves (i ∷ is) (system s ∷ ms) js = ⊥
Leaves (i ∷ is) (user c ∷ ms) js = ⊥
Leaves (i ∷ is) (assistant c calls ∷ ms) js = ⊥

pub valid-Leaves : (is : List String) (ms : List Message) → Answers is ms → Leaves is ms []
valid-Leaves [] [] h = refl
valid-Leaves (i ∷ is) [] h = absurd h
valid-Leaves [] (system s ∷ ms) h = valid-Leaves [] ms h
valid-Leaves [] (user c ∷ ms) h = valid-Leaves [] ms h
valid-Leaves [] (assistant c calls ∷ ms) h = valid-Leaves (ids calls) ms h
valid-Leaves [] (tool id c ∷ ms) h = absurd h
valid-Leaves (i ∷ is) (tool id c ∷ ms) h = (h.0, valid-Leaves is ms h.1)
valid-Leaves (i ∷ is) (system s ∷ ms) h = absurd h
valid-Leaves (i ∷ is) (user c ∷ ms) h = absurd h
valid-Leaves (i ∷ is) (assistant c calls ∷ ms) h = absurd h

pub Leaves-valid : (is : List String) (ms : List Message) → Leaves is ms [] → Answers is ms
Leaves-valid [] [] h = tt
Leaves-valid (i ∷ is) [] h = absurd (ground (arith, h))
Leaves-valid [] (system s ∷ ms) h = Leaves-valid [] ms h
Leaves-valid [] (user c ∷ ms) h = Leaves-valid [] ms h
Leaves-valid [] (assistant c calls ∷ ms) h = Leaves-valid (ids calls) ms h
Leaves-valid [] (tool id c ∷ ms) h = absurd h
Leaves-valid (i ∷ is) (tool id c ∷ ms) h = (h.0, Leaves-valid is ms h.1)
Leaves-valid (i ∷ is) (system s ∷ ms) h = absurd h
Leaves-valid (i ∷ is) (user c ∷ ms) h = absurd h
Leaves-valid (i ∷ is) (assistant c calls ∷ ms) h = absurd h

pub Leaves-append :
    (is : List String) (ms ns : List Message) (js ks : List String)
    → Leaves is ms js
    → Leaves js ns ks
    → Leaves is (ms ++ ns) ks
Leaves-append is [] ns js ks h k = subst (λ x. Leaves x ns ks) (sym h) k
Leaves-append [] (system s ∷ ms) ns js ks h k = Leaves-append [] ms ns js ks h k
Leaves-append [] (user c ∷ ms) ns js ks h k = Leaves-append [] ms ns js ks h k
Leaves-append [] (assistant c calls ∷ ms) ns js ks h k = Leaves-append (ids calls) ms ns js ks h k
Leaves-append [] (tool id c ∷ ms) ns js ks h k = absurd h
Leaves-append (i ∷ is) (tool id c ∷ ms) ns js ks h k = (h.0, Leaves-append is ms ns js ks h.1 k)
Leaves-append (i ∷ is) (system s ∷ ms) ns js ks h k = absurd h
Leaves-append (i ∷ is) (user c ∷ ms) ns js ks h k = absurd h
Leaves-append (i ∷ is) (assistant c calls ∷ ms) ns js ks h k = absurd h

-- The ids of the calls that a reply makes.
abbrev pub asked_ids : List ToolCall → List String
asked_ids calls = ids (map call_message calls)

pub nothing_asked :
    (ms : List Message) (calls : List ToolCall)
    → is_empty calls ≡ true
    → Leaves [] ms (asked_ids calls)
    → IsValid ms
unfolding is_empty
nothing_asked ms [] e h = Leaves-valid [] ms h
nothing_asked ms (c ∷ cs) e h = absurd (ground (arith, e))

module _ (env : Env) where
  -- However a tool call goes, the log grows by its answer.
  abbrev pub AddsAnswer : ToolCall → Turn → Turn → Type 0
  AddsAnswer tc t t' = (c : Content) × (t'.messages ≡ t.messages ++ tool tc.id c ∷ [])

  run_and_answer-AddsAnswer :
      (found : Option MeshTool) (tc : ToolCall) (t : Turn)
      → AddsAnswer tc t (run_and_answer env found tc t)
  unfolding run_and_answer run_tool answer
  run_and_answer-AddsAnswer none tc t = (_, refl)
  run_and_answer-AddsAnswer (some m) tc t = (_, refl)

  reviewed-AddsAnswer :
      (m : MeshTool) (tc : ToolCall) (id : String) (v : Verdict) (t : Turn)
      → AddsAnswer tc t (reviewed env m tc id v t)
  unfolding reviewed run_and_answer run_tool answer
  reviewed-AddsAnswer m tc id (refused e) t = (_, refl)
  reviewed-AddsAnswer m tc id (cleared arguments comment by) t = (_, refl)

  pub found-AddsAnswer :
      (gate : Bool) (found : Option MeshTool) (tc : ToolCall) (t : Turn)
      → AddsAnswer tc t (dispatch_found env gate found tc t)
  unfolding dispatch_found gated_call asking emit note_effect
  found-AddsAnswer gate none tc t = run_and_answer-AddsAnswer none tc t
  found-AddsAnswer gate (some m) tc t = elim (Bool-cases (requires_approval m && gate)) [
    | inl stop ↦ rw (stop) (
        reviewed-AddsAnswer m tc (env.file (files tc.name tc.arguments ∷ t.log))
          (env.review (asking env m tc t).log) (asking env m tc t))
    | inr go ↦ rw (go) (run_and_answer-AddsAnswer (some m) tc t)
  ]

  dispatch_all-Leaves :
      (gate : Bool) (catalog : Dict String MeshTool) (tcs : List ToolCall) (t : Turn)
      → Leaves [] t.messages (asked_ids tcs)
      → Leaves [] (dispatch_all env gate catalog tcs t).messages []
  unfolding dispatch_all dispatch_tool emit
  dispatch_all-Leaves gate catalog [] t h = h
  dispatch_all-Leaves gate catalog (tc ∷ tcs) t h =
      let asked =
        emit (record (about tool_call tc no_content) { arguments = some tc.arguments }) t in
      let (c, grown) = found-AddsAnswer gate (Dict.get catalog tc.name) tc asked in
      dispatch_all-Leaves gate catalog tcs (dispatch_tool env gate catalog tc t) (
        subst (λ (ms : List Message). Leaves [] ms (asked_ids tcs)) (sym grown)
          (Leaves-append [] t.messages (tool tc.id c ∷ []) (asked_ids (tc ∷ tcs)) (asked_ids tcs) h
            (refl, refl)))

pub trimmed-IsValid :
    (max_messages : Option ℕ) (ms out : List Message)
    → IsValid ms
    → trimmed max_messages ms ≡ some out
    → IsValid out
unfolding trimmed
trimmed-IsValid none ms out h e = let same : ms ≡ out = ground (arith, e) in subst IsValid same h
trimmed-IsValid (some n) ms out h e = elim (Bool-cases (ltb 0 n)) [
  | inl positive ↦
      let (kept, made, valid, window) = trim-IsValid ms n h (ground arith) in
      let same : kept ≡ out = ground (arith, made, e) in subst IsValid same valid
  | inr zero_max ↦ absurd (unfold trim_messages in ground (arith, e))
]

module _ (env : Env) (tools : List MeshTool) (gate : Bool) (max_messages : Option ℕ) where
  heard-Leaves :
      (ms : List Message) (r : ModelReply) (t : Turn)
      → IsValid ms
      → Leaves []
          (say (assistant_message r) (ask env tools gate max_messages ms t)).messages
          (asked_ids r.tool_calls)
  unfolding say ask note_effect assistant_message
  heard-Leaves ms r t h =
      Leaves-append [] ms (assistant_message r ∷ []) [] (asked_ids r.tool_calls)
        (valid-Leaves [] ms h) refl

  abbrev GoesValid : Progress → Type 0
  GoesValid (goes_on t) = IsValid t.messages
  GoesValid (ends t e) = IsValid t.messages

  completion-GoesValid :
      (ms : List Message) (t : Turn) (c : Completion)
      → IsValid ms
      → GoesValid (after_completion env tools gate max_messages ms t c)
  unfolding after_completion ask emit say note_effect
  completion-GoesValid ms t (broke e) h = h
  completion-GoesValid ms t (replied r) h =
      let heard = say (assistant_message r) (ask env tools gate max_messages ms t) in
      let asked = heard-Leaves ms r t h in
      let after = dispatch_all env gate (by_name tools Dict.empty) r.tool_calls heard in
      elim (Bool-cases (is_empty r.tool_calls)) [
        | inl over ↦ rw (over) (nothing_asked heard.messages r.tool_calls over asked)
        | inr more ↦ rw (more) (
            Leaves-valid [] after.messages
              (dispatch_all-Leaves env gate (by_name tools Dict.empty) r.tool_calls heard asked))
      ]

  trim-GoesValid :
      (o : Option (List Message)) (t : Turn)
      → trimmed max_messages t.messages ≡ o
      → IsValid t.messages
      → GoesValid (after_trim env tools gate max_messages o t)
  unfolding after_trim
  trim-GoesValid none t e h = h
  trim-GoesValid (some ms) t e h =
      completion-GoesValid ms t (env.complete (ask env tools gate max_messages ms t).log)
        (trimmed-IsValid max_messages t.messages ms h e)

  steps-IsValid :
      (max_steps left : ℕ) (t : Turn)
      → IsValid t.messages
      → IsValid (steps_from env tools gate max_messages max_steps left t).0.messages
  unfolding steps_from conclude emit
  steps-IsValid max_steps zero t h = h
  steps-IsValid max_steps (suc left) t h =
      go (after_trim env tools gate max_messages (trimmed max_messages t.messages) t)
        (trim-GoesValid (trimmed max_messages t.messages) t refl h) (steps-IsValid max_steps left)
    where
      go :
          (p : Progress)
          → GoesValid p
          → ((t' : Turn)
              → IsValid t'.messages
              → IsValid (steps_from env tools gate max_messages max_steps left t').0.messages)
          → IsValid
              (elim p as (λ x. Turn × Ending) [
                | goes_on t' ↦ steps_from env tools gate max_messages max_steps left t'
                | ends t' ending ↦ (t', ending)
              ]).0.messages
      go (goes_on t') v ih = ih t' v
      go (ends t' ending) v ih = v

-- A turn leaves a valid chat log behind, however it ends: each assistant message that calls tools is
-- followed by one tool message for each of its calls, in their order, whether the tools run, raise,
-- are unknown or are refused by a human, and no other tool message is there.
pub run_agent-IsValid :
    (env : Env) (tools : List MeshTool) (gate : Bool) (max_messages : Option ℕ) (max_steps : ℕ)
    (messages : List Message)
    → IsValid messages
    → IsValid (run_agent env tools gate max_messages max_steps messages).0.messages
unfolding run_agent
run_agent-IsValid env tools gate max_messages max_steps messages h =
    elim (Bool-cases (ltb max_steps 1 || (not gate && any_gated tools))) [
      | inl bad ↦ rw (bad) h
      | inr fine ↦ rw (fine) (
          steps-IsValid env tools gate max_messages max_steps max_steps
            (record { messages = messages; events = []; log = [] }) h)
    ]
