-- ===== src/Agent/Gated.antt =====
-- A tool that needs a human runs only after a human has cleared it, with the arguments cleared.
use istos.Prelude.{
  ℕ, zero, suc, ◌≡◌, refl, ap, sym, subst, inl, inr, Bool, true, false, ◌&&◌, ◌||◌, not, Option,
  none, some, List, [], ◌∷◌, String, ltb, arith, Bool-cases, text_key, ◌==◌,
}
use istos.Dict
use istos.Dict.{Dict, get-set}
use istos.Json.{Fields}
use istos.Agent.Messages.{
  no_content, tool_call, ToolCall, Message, MeshTool, requires_approval, by_name, assistant_message,
}
use istos.Agent.Loop.{
  completes, files, completes_as, awaits, runs, Log, Env, Turn, say, emit, about, note_effect,
  Verdict, cleared, refused, Ending, Completion, replied, broke, run_tool, answer, run_and_answer,
  reviewed, asking, clearance, asking, clearance, gated_call, dispatch_found, dispatch_tool,
  dispatch_all, trimmed, conclude, ask, is_empty, Progress, goes_on, ends, after_completion,
  after_trim, any_gated, steps_from, run_agent,
}

-- What was asked just before lets the tool run with these arguments: the decision on a request that
-- is filed under the tool's name.
abbrev pub Permitted : Env → MeshTool → Fields → Log → Type 0
Permitted env t arguments log =
    (id : String) × (proposed : Fields) × (earlier : Log) × (comment : Option String) × (by : Option
      String)
    × (log ≡ awaits id ∷ files t.name proposed ∷ earlier)
    × (env.file (files t.name proposed ∷ earlier) ≡ id)
    × (env.review log ≡ cleared arguments comment by)

-- Every run of a tool that needs approval in the log is permitted by what came before it.
abbrev pub Gated : Env → Log → Type 0
Gated env [] = Unit
Gated env (runs t arguments ∷ log) =
    (requires_approval t ≡ true → Permitted env t arguments log) × Gated env log
Gated env (completes ms tools ∷ log) = Gated env log
Gated env (completes_as agent ms tools names ∷ log) = Gated env log
Gated env (files name proposed ∷ log) = Gated env log
Gated env (awaits id ∷ log) = Gated env log

abbrev pub IsFree : Option MeshTool → Type 0
IsFree none = Unit
IsFree (some t) = requires_approval t ≡ false

-- A catalogue has no tools but those it is made of.
pub by_name-IsFree :
    (tools : List MeshTool) (d : Dict String MeshTool) (name : String)
    → any_gated tools ≡ false
    → ((k : String) → IsFree (Dict.get d k))
    → IsFree (Dict.get (by_name tools d) name)
unfolding by_name any_gated
by_name-IsFree [] d name e h = h name
by_name-IsFree (t ∷ tools) d name e h =
    by_name-IsFree tools (Dict.set d t.name t) name (ground (arith, e)) λ k.
      elim (Bool-cases (t.name == k)) [
        | inl same ↦ rw (get-set d t.name k t, same) (ground (arith, e))
        | inr other ↦ rw (get-set d t.name k t, other) (h k)
      ]

abbrev pub IsCalled : String → Option MeshTool → Type 0
IsCalled name none = Unit
IsCalled name (some t) = t.name ≡ name

-- A catalogue has each tool under its name.
pub by_name-IsCalled :
    (tools : List MeshTool) (d : Dict String MeshTool) (name : String)
    → ((k : String) → IsCalled k (Dict.get d k))
    → IsCalled name (Dict.get (by_name tools d) name)
unfolding by_name
by_name-IsCalled [] d name h = h name
by_name-IsCalled (t ∷ tools) d name h = by_name-IsCalled tools (Dict.set d t.name t) name λ k.
    elim (Bool-cases (t.name == k)) [
      | inl same ↦ rw (get-set d t.name k t, same) ((text_key.same_iff t.name k).0 same)
      | inr other ↦ rw (get-set d t.name k t, other) (h k)
    ]

module _ (env : Env) where
  run-Gated :
      (found : Option MeshTool) (tc : ToolCall) (t : Turn)
      → ((m : MeshTool)
          → found ≡ some m
          → requires_approval m ≡ true
          → Permitted env m tc.arguments t.log)
      → Gated env t.log
      → Gated env (run_and_answer env found tc t).log
  unfolding run_and_answer run_tool answer note_effect emit say
  run-Gated none tc t p h = h
  run-Gated (some m) tc t p h = (p m refl, h)

  reviewed-Gated :
      (m : MeshTool) (tc : ToolCall) (id : String) (v : Verdict) (t : Turn)
      → ((arguments : Fields) (comment by : Option String)
          → v ≡ cleared arguments comment by
          → Permitted env m arguments t.log)
      → Gated env t.log
      → Gated env (reviewed env m tc id v t).log
  unfolding reviewed emit say
  reviewed-Gated m tc id (refused e) t p h = h
  reviewed-Gated m tc id (cleared arguments comment by) t p h =
      run-Gated (some m) (record tc { arguments = arguments })
        (emit (clearance tc id arguments comment by) t)
        (λ q same needs.
          let is : m ≡ q = ground (arith, same) in
          subst (λ (x : MeshTool). Permitted env x arguments t.log) is
            (p arguments comment by refl))
        h

  pub found-Gated :
      (gate : Bool) (found : Option MeshTool) (tc : ToolCall) (t : Turn)
      → IsCalled tc.name found
      → (gate ≡ false → IsFree found)
      → Gated env t.log
      → Gated env (dispatch_found env gate found tc t).log
  unfolding dispatch_found gated_call asking note_effect emit
  found-Gated gate none tc t named free h =
      run-Gated none tc t (λ m e. absurd (ground (arith, e))) h
  found-Gated gate (some m) tc t named free h = elim (Bool-cases (requires_approval m && gate)) [
    | inl stop ↦ rw (stop) (
        reviewed-Gated m tc (env.file (files tc.name tc.arguments ∷ t.log))
          (env.review (asking env m tc t).log) (asking env m tc t)
          (λ arguments comment by e. (
            env.file (files tc.name tc.arguments ∷ t.log),
            tc.arguments,
            t.log,
            comment,
            by,
            ap
                (λ n.
                  awaits (env.file (files tc.name tc.arguments ∷ t.log))
                  ∷ files n tc.arguments
                  ∷ t.log)
                (sym named),
            ap (λ n. env.file (files n tc.arguments ∷ t.log)) named,
            e,
          ))
          h)
    | inr go ↦ rw (go) (
        run-Gated (some m) tc t
          (λ q same needs.
            let is : m ≡ q = ground (arith, same) in
            absurd (ground (arith, go, needs, is, Bool-cases gate, free)))
          h)
  ]

  dispatch_all-Gated :
      (gate : Bool) (catalog : Dict String MeshTool) (tcs : List ToolCall) (t : Turn)
      → ((k : String) → IsCalled k (Dict.get catalog k))
      → (gate ≡ false → (k : String) → IsFree (Dict.get catalog k))
      → Gated env t.log
      → Gated env (dispatch_all env gate catalog tcs t).log
  unfolding dispatch_all dispatch_tool emit
  dispatch_all-Gated gate catalog [] t named free h = h
  dispatch_all-Gated gate catalog (tc ∷ tcs) t named free h =
      dispatch_all-Gated gate catalog tcs (dispatch_tool env gate catalog tc t) named free (
        found-Gated gate (Dict.get catalog tc.name) tc
          (emit (record (about tool_call tc no_content) { arguments = some tc.arguments }) t)
          (named tc.name) (λ off. free off tc.name) h)

module _ (env : Env) (tools : List MeshTool) (gate : Bool) (max_messages : Option ℕ) where
  abbrev GoesGated : Progress → Type 0
  GoesGated (goes_on t) = Gated env t.log
  GoesGated (ends t e) = Gated env t.log

  completion-GoesGated :
      (ms : List Message) (t : Turn) (c : Completion)
      → (gate ≡ false → any_gated tools ≡ false)
      → Gated env t.log
      → GoesGated (after_completion env tools gate max_messages ms t c)
  unfolding after_completion ask emit say note_effect
  completion-GoesGated ms t (broke e) free h = h
  completion-GoesGated ms t (replied r) free h = elim (Bool-cases (is_empty r.tool_calls)) [
    | inl over ↦ rw (over) h
    | inr more ↦ rw (more) (
        dispatch_all-Gated env gate (by_name tools Dict.empty) r.tool_calls
          (say (assistant_message r) (ask env tools gate max_messages ms t))
          (λ k. by_name-IsCalled tools Dict.empty k (λ j. rw (Dict.get-empty {V = MeshTool} j) tt))
          (λ off k.
            by_name-IsFree tools Dict.empty k (free off)
              (λ j. rw (Dict.get-empty {V = MeshTool} j) tt))
          h)
  ]

  trim-GoesGated :
      (o : Option (List Message)) (t : Turn)
      → (gate ≡ false → any_gated tools ≡ false)
      → Gated env t.log
      → GoesGated (after_trim env tools gate max_messages o t)
  unfolding after_trim
  trim-GoesGated none t free h = h
  trim-GoesGated (some ms) t free h =
      completion-GoesGated ms t (env.complete (ask env tools gate max_messages ms t).log) free h

  steps-Gated :
      (max_steps left : ℕ) (t : Turn)
      → (gate ≡ false → any_gated tools ≡ false)
      → Gated env t.log
      → Gated env (steps_from env tools gate max_messages max_steps left t).0.log
  unfolding steps_from conclude emit
  steps-Gated max_steps zero t free h = h
  steps-Gated max_steps (suc left) t free h =
      go (after_trim env tools gate max_messages (trimmed max_messages t.messages) t)
        (trim-GoesGated (trimmed max_messages t.messages) t free h)
        (λ t' k. steps-Gated max_steps left t' free k)
    where
      go :
          (p : Progress)
          → GoesGated p
          → ((t' : Turn)
              → Gated env t'.log
              → Gated env (steps_from env tools gate max_messages max_steps left t').0.log)
          → Gated env
              (elim p as (λ x. Turn × Ending) [
                | goes_on t' ↦ steps_from env tools gate max_messages max_steps left t'
                | ends t' ending ↦ (t', ending)
              ]).0.log
      go (goes_on t') v ih = ih t' v
      go (ends t' ending) v ih = v

-- In every turn, with a gate or without one, and whatever the model asks for: each run of a tool that
-- needs approval comes right after the wait for a request that was filed with the gate under the name
-- of this tool, which a human has cleared, and has the arguments that were cleared.
pub run_agent-Gated :
    (env : Env) (tools : List MeshTool) (gate : Bool) (max_messages : Option ℕ) (max_steps : ℕ)
    (messages : List Message)
    → Gated env (run_agent env tools gate max_messages max_steps messages).0.log
unfolding run_agent
run_agent-Gated env tools gate max_messages max_steps messages =
    elim (Bool-cases (ltb max_steps 1 || (not gate && any_gated tools))) [
      | inl bad ↦ rw (bad) tt
      | inr fine ↦ rw (fine) (
          steps-Gated env tools gate max_messages max_steps max_steps
            (record { messages = messages; events = []; log = [] })
            (λ off. ground (arith, fine, off)) tt)
    ]
