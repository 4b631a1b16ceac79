-- ===== src/Agent/Multi/Registry.antt =====
-- `Agent` and `build_registry` of src/istos/agent/multi.py. An agent refers to others by their place in
-- the list of all agents. A reference always has an agent; one past the end stands for an agent with
-- nothing to it.
use istos.Prelude.{
  ℕ, zero, suc, ◌+◌, ◌≤◌, ◌≡◌, refl, inl, inr, Bool, false, ◌||◌, Option, none, some, List, [], ◌∷◌,
  String, text_key, length, arith, Option-cases,
}
use istos.Dict
use istos.Dict.{Dict, get-set}
use istos.Agent.Messages.{MeshTool}
use istos.Agent.Loop.{any_gated}

pub record Agent : Type 0 where
  pub name : String
  pub tools : List MeshTool
  pub prompt : Option String
  pub handoffs : List ℕ

unfoldable pub nobody : Agent
nobody = record { name = ""; tools = []; prompt = none; handoffs = [] }

unfoldable pub agent_at : List Agent → ℕ → Agent
unfolding nobody
agent_at [] k = nobody
agent_at (a ∷ agents) zero = a
agent_at (a ∷ agents) (suc k) = agent_at agents k

-- `stack.extend(agent.handoffs)`, on a stack with its top first.
unfoldable pub pushed : List ℕ → List ℕ → List ℕ
pushed [] stack = stack
pushed (k ∷ ks) stack = pushed ks (k ∷ stack)

-- What a registration can push: the handoffs of the agents whose names are not in the registry.
unfoldable pub weight : Dict String ℕ → List Agent → ℕ
weight registry [] = 0
weight registry (a ∷ agents) =
    let rest = weight registry agents in
    elim (Dict.get registry a.name) [ none ↦ length a.handoffs + rest | some k ↦ rest ]

module _ (agents : List Agent) where
  -- One turn of the loop of `build_registry`, on the agent that the stack gives.
  unfoldable pub visit : ℕ → List ℕ → Dict String ℕ → List ℕ × Dict String ℕ
  unfolding agent_at pushed
  visit k stack registry = elim (Dict.get registry (agent_at agents k).name) [
    | some j ↦ (stack, registry)
    | none ↦
        (pushed (agent_at agents k).handoffs stack, Dict.set registry (agent_at agents k).name k)
  ]

  -- The loop, with a bound on its turns.
  unfoldable pub registry_from : ℕ → List ℕ → Dict String ℕ → Option (Dict String ℕ)
  unfolding visit
  registry_from fuel [] registry = some registry
  registry_from zero (k ∷ stack) registry = none
  registry_from (suc fuel) (k ∷ stack) registry =
      registry_from fuel (visit k stack registry).0 (visit k stack registry).1

  unfoldable pub build_registry : ℕ → Option (Dict String ℕ)
  unfolding registry_from weight
  build_registry entry = registry_from (suc (weight Dict.empty agents)) (entry ∷ []) Dict.empty

  -- `t.requires_approval` for the tools of all agents of a registry.
  unfoldable pub needs_gate : List (String × ℕ) → Bool
  unfolding agent_at
  needs_gate [] = false
  needs_gate ((name, k) ∷ items) = any_gated (agent_at agents k).tools || needs_gate items

length-pushed : (ks stack : List ℕ) → length (pushed ks stack) ≡ length ks + length stack
unfolding pushed
length-pushed [] stack = omega arith
length-pushed (k ∷ ks) stack = omega (arith, length-pushed ks (k ∷ stack))

weight-set :
    (agents : List Agent) (registry : Dict String ℕ) (name : String) (k : ℕ)
    → weight (Dict.set registry name k) agents ≤ weight registry agents
unfolding weight
weight-set [] registry name k = omega arith
weight-set (a ∷ agents) registry name k =
    ground (arith, weight-set agents registry name k, get-set registry name a.name k)

weight-visited :
    (agents : List Agent) (registry : Dict String ℕ) (j k : ℕ)
    → Dict.get registry (agent_at agents j).name ≡ none
    → length (agent_at agents j).handoffs
        + weight (Dict.set registry (agent_at agents j).name k) agents
      ≤ weight registry agents
unfolding weight agent_at
weight-visited [] registry j k new = omega arith
weight-visited (a ∷ agents) registry zero k new = ground (
  arith,
  new,
  get-set registry a.name a.name k,
  text_key.same_iff a.name a.name,
  weight-set agents registry a.name k,
)
weight-visited (a ∷ agents) registry (suc j) k new = ground (
  arith,
  weight-visited agents registry j k new,
  get-set registry (agent_at agents j).name a.name k,
)

module _ (agents : List Agent) where
  visit-shrinks :
      (k : ℕ) (stack : List ℕ) (registry : Dict String ℕ)
      → let next = visit agents k stack registry in
        length next.0 + weight next.1 agents ≤ length stack + weight registry agents
  unfolding visit
  visit-shrinks k stack registry =
      elim (Option-cases (Dict.get registry (agent_at agents k).name)) [
        | inl new ↦
            rw (visit, new)
              (omega (
                arith,
                length-pushed (agent_at agents k).handoffs stack,
                weight-visited agents registry k k new,
              ))
        | inr (j, old) ↦ rw (visit, old) (omega arith)
      ]

  -- The loop ends within the agents that are on the stack and that can get there.
  pub registry_from-ends :
      (fuel : ℕ) (stack : List ℕ) (registry : Dict String ℕ)
      → length stack + weight registry agents ≤ fuel
      → (found : Dict String ℕ) × (registry_from agents fuel stack registry ≡ some found)
  unfolding registry_from
  registry_from-ends fuel [] registry h = (registry, refl)
  registry_from-ends zero (k ∷ stack) registry h = absurd (omega (arith, h))
  registry_from-ends (suc fuel) (k ∷ stack) registry h =
      registry_from-ends fuel (visit agents k stack registry).0 (visit agents k stack registry).1
        (omega (arith, h, visit-shrinks k stack registry))
