-- ===== src/Agent/Multi/Safe.antt =====
-- The human gate in a run of several agents (src/istos/agent/multi.py).
use istos.Prelude.{
  ℕ, zero, suc, ◌≡◌, refl, sym, ap, subst, inl, inr, Bool, false, ◌||◌, Option, none, some, List,
  [], ◌∷◌, String, ltb, text_key, ◌==◌, In, arith, Bool-cases,
}
use istos.Dict
use istos.Dict.{Dict, get-set, get-In-items}
use istos.Agent.Messages.{
  no_content, tool_call, ToolCall, Message, MeshTool, by_name, assistant_message,
}
use istos.Agent.Loop.{
  Env, Turn, say, emit, about, note_effect, Completion, replied, broke, Ending, dispatch_tool,
  any_gated, is_empty, trimmed, conclude,
}
use istos.Agent.Gated.{Gated, by_name-IsFree, by_name-IsCalled, found-Gated}
use istos.Agent.Multi.Registry.{Agent, agent_at, build_registry, needs_gate}
use istos.Agent.Multi.Reach.{IsNamed, Reach, starts, hands, build_registry-IsComplete}
use istos.Agent.Multi.Handoff.{
  transfer_tool_name, targets, transfer, resolved, resolve_all, Round, goes_on_as, stops, ask_agent,
  after_reply, round, rounds_from, lacks_gate, run_multi_agent,
}

abbrev Among : List ℕ → Option ℕ → Type 0
Among ks none = Unit
Among ks (some k) = In k ks

module _ (agents : List Agent) where
  -- A transfer tool leads to one of the handoffs.
  targets-Among :
      (ks all : List ℕ) (d : Dict String ℕ) (name : String)
      → ((k : ℕ) → In k ks → In k all)
      → ((n : String) → Among all (Dict.get d n))
      → Among all (Dict.get (targets agents ks d) name)
  unfolding targets
  targets-Among [] all d name sub h = h name
  targets-Among (k ∷ ks) all d name sub h =
      targets-Among ks all (Dict.set d (transfer_tool_name (agent_at agents k)) k) name
        (λ i m. sub i (inr m))
        λ n. elim (Bool-cases (transfer_tool_name (agent_at agents k) == n)) [
          | inl same ↦
              rw (get-set d (transfer_tool_name (agent_at agents k)) n k, same) (sub k (inl refl))
          | inr other ↦ rw (get-set d (transfer_tool_name (agent_at agents k)) n k, other) (h n)
        ]

  needs_gate-In :
      (items : List (String × ℕ)) (name : String) (j : ℕ)
      → In (name, j) items
      → needs_gate agents items ≡ false
      → any_gated (agent_at agents j).tools ≡ false
  unfolding needs_gate
  needs_gate-In [] name j m h = absurd m
  needs_gate-In ((n, k) ∷ items) name j (inl e) h =
      subst (λ (x : ℕ). any_gated (agent_at agents x).tools ≡ false) (sym (ap (λ p. p.1) e))
        (ground (arith, h))
  needs_gate-In ((n, k) ∷ items) name j (inr m) h = needs_gate-In items name j m (ground (arith, h))

  module _ (env : Env) (gate : Bool) (entry : ℕ) where
    -- Without a gate, no agent that can become active has a tool that needs one.
    abbrev IsCleared : Type 0
    IsCleared =
        gate ≡ false → (k : ℕ) → Reach agents entry k → any_gated (agent_at agents k).tools ≡ false

    abbrev SafeState : ℕ × Turn → Type 0
    SafeState (active, t) = Reach agents entry active × Gated env t.log

    resolved-SafeState :
        (active : ℕ) (o : Option ℕ) (tc : ToolCall) (state : ℕ × Turn)
        → IsCleared
        → Reach agents entry active
        → Among (agent_at agents active).handoffs o
        → SafeState state
        → SafeState (resolved agents env gate active o tc state)
    unfolding resolved transfer dispatch_tool say emit
    resolved-SafeState active (some target) tc (next, t) free way m (there, h) = (hands way m, h)
    resolved-SafeState active none tc (next, t) free way m (there, h) = (
      there,
      found-Gated env gate (Dict.get (by_name (agent_at agents active).tools Dict.empty) tc.name) tc
          (emit (record (about tool_call tc no_content) { arguments = some tc.arguments }) t)
          (by_name-IsCalled (agent_at agents active).tools Dict.empty tc.name
            (λ j. rw (Dict.get-empty {V = MeshTool} j) tt))
          (λ off.
            by_name-IsFree (agent_at agents active).tools Dict.empty tc.name (free off active way)
              (λ j. rw (Dict.get-empty {V = MeshTool} j) tt))
          h,
    )

    resolve_all-SafeState :
        (active : ℕ) (tcs : List ToolCall) (state : ℕ × Turn)
        → IsCleared
        → Reach agents entry active
        → SafeState state
        → SafeState (resolve_all agents env gate active tcs state)
    unfolding resolve_all
    resolve_all-SafeState active [] state free way h = h
    resolve_all-SafeState active (tc ∷ tcs) state free way h =
        let ks = (agent_at agents active).handoffs in
        let target = Dict.get (targets agents ks Dict.empty) tc.name in
        resolve_all-SafeState active tcs (resolved agents env gate active target tc state) free way
          (resolved-SafeState active target tc state free way
            (targets-Among ks ks Dict.empty tc.name (λ k m. m)
              (λ n. rw (Dict.get-empty {V = ℕ} n) tt))
            h)

    abbrev SafeRound : Round agents env gate → Type 0
    SafeRound (goes_on_as state) = SafeState state
    SafeRound (stops t e) = Gated env t.log

    after_reply-SafeRound :
        (active : ℕ) (ms : List Message) (t : Turn) (c : Completion)
        → IsCleared
        → SafeState (active, t)
        → SafeRound (after_reply agents env gate active ms t c)
    unfolding after_reply ask_agent emit say note_effect
    after_reply-SafeRound active ms t (broke e) free h = h.1
    after_reply-SafeRound active ms t (replied r) free h =
        elim (Bool-cases (is_empty r.tool_calls)) [
          | inl over ↦ rw (over) h.1
          | inr more ↦ rw (more) (
              resolve_all-SafeState active r.tool_calls
                (active, say (assistant_message r) (ask_agent agents env gate active ms t)) free h.0
                h)
        ]

    round-SafeRound :
        (active : ℕ) (o : Option (List Message)) (t : Turn)
        → IsCleared
        → SafeState (active, t)
        → SafeRound (round agents env gate active o t)
    unfolding round
    round-SafeRound active none t free h = h.1
    round-SafeRound active (some ms) t free h =
        after_reply-SafeRound active ms t (env.complete (ask_agent agents env gate active ms t).log)
          free h

    rounds-Gated :
        (max_messages : Option ℕ) (max_steps left : ℕ) (state : ℕ × Turn)
        → IsCleared
        → SafeState state
        → Gated env (rounds_from agents env gate max_messages max_steps left state).0.log
    unfolding rounds_from conclude emit
    rounds-Gated max_messages max_steps zero (active, t) free h = h.1
    rounds-Gated max_messages max_steps (suc left) (active, t) free h =
        go (round agents env gate active (trimmed max_messages t.messages) t)
          (round-SafeRound active (trimmed max_messages t.messages) t free h)
          (λ state k. rounds-Gated max_messages max_steps left state free k)
      where
        go :
            (r : Round agents env gate)
            → SafeRound r
            → ((state : ℕ × Turn)
                → SafeState state
                → Gated env (rounds_from agents env gate max_messages max_steps left state).0.log)
            → Gated env
                (elim r as (λ x. Turn × Ending) [
                  | goes_on_as state ↦ rounds_from agents env gate max_messages max_steps left state
                  | stops t' ending ↦ (t', ending)
                ]).0.log
        go (goes_on_as state) v ih = ih state v
        go (stops t' ending) v ih = v

passed-IsCleared :
    (agents : List Agent) (env : Env) (gate : Bool) (entry : ℕ)
    → (gate ≡ false → IsNamed agents)
    → lacks_gate agents env gate (build_registry agents entry) ≡ false
    → IsCleared agents env gate entry
unfolding lacks_gate
passed-IsCleared agents env gate entry named passed off k way =
    let (found, built, complete) = build_registry-IsComplete agents entry (named off) in
    let (j, at, same) = complete k way in
    subst (λ (a : Agent). any_gated a.tools ≡ false) same
      (needs_gate-In agents (Dict.items found) (agent_at agents k).name j
        (get-In-items found (agent_at agents k).name j at) (ground (arith, off, passed, built)))

-- However the conversation is handed from agent to agent, and whatever their models ask for: each run
-- of a tool that needs approval comes right after the wait for a request that was filed with the gate
-- under the name of this tool, which a human has cleared, and has the arguments that were cleared.
-- Without a gate this takes that no two different agents have the same name.
pub run_multi_agent-Gated :
    (agents : List Agent) (env : Env) (gate : Bool) (max_messages : Option ℕ) (max_steps entry : ℕ)
    (messages : List Message)
    → (gate ≡ false → IsNamed agents)
    → Gated env (run_multi_agent agents env gate max_messages max_steps entry messages).0.log
unfolding run_multi_agent
run_multi_agent-Gated agents env gate max_messages max_steps entry messages named =
    elim (Bool-cases
      (ltb max_steps 1 || lacks_gate agents env gate (build_registry agents entry))) [
        | inl bad ↦ rw (bad) tt
        | inr fine ↦ rw (fine) (
            rounds-Gated agents env gate entry max_messages max_steps max_steps
              (entry, record { messages = messages; events = []; log = [] })
              (passed-IsCleared agents env gate entry named (ground (arith, fine))) (starts, tt))
      ]
