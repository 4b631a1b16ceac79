-- ===== src/Agent/Multi/Reach.antt =====
-- What `build_registry` of src/istos/agent/multi.py finds.
use istos.Prelude.{
  ℕ, zero, suc, ◌≡◌, refl, sym, subst, ◌⊎◌, inl, inr, some, List, [], ◌∷◌, String, text_key, ◌==◌,
  In, arith, Bool-cases, Option-cases,
}
use istos.Dict
use istos.Dict.{Dict, get-set}
use istos.Agent.Multi.Registry.{
  Agent, agent_at, pushed, weight, visit, registry_from, build_registry, registry_from-ends,
}

module _ (agents : List Agent) where
  abbrev name_at : ℕ → String
  name_at k = (agent_at agents k).name

  -- Two agents of one name are the same.
  abbrev pub IsNamed : Type 0
  IsNamed =
      (j k : ℕ)
      → (agent_at agents j).name ≡ (agent_at agents k).name
      → agent_at agents j ≡ agent_at agents k

  -- The agents that handoffs lead to.
  pub data Reach (entry : ℕ) : ℕ → Type 0 where
    starts : Reach entry entry
    hands : {k h : ℕ} → Reach entry k → In h (agent_at agents k).handoffs → Reach entry h

  abbrev pub Known : Dict String ℕ → ℕ → Type 0
  Known registry k = (j : ℕ) × (Dict.get registry (agent_at agents k).name ≡ some j)

  abbrev pub IsKeyed : Dict String ℕ → Type 0
  IsKeyed registry =
      (name : String) (j : ℕ) → Dict.get registry name ≡ some j → (agent_at agents j).name ≡ name

  -- Each handoff of a registered agent is registered or waits on the stack.
  abbrev Covers : Dict String ℕ → List ℕ → Type 0
  Covers registry stack =
      (k h : ℕ)
      → Known registry k
      → In h (agent_at agents k).handoffs
      → Known registry h ⊎ In h stack

  In-pushed : (ks stack : List ℕ) (h : ℕ) → In h ks ⊎ In h stack → In h (pushed ks stack)
  unfolding pushed
  In-pushed [] stack h (inl m) = absurd m
  In-pushed [] stack h (inr m) = m
  In-pushed (k ∷ ks) stack h (inl (inl e)) = In-pushed ks (k ∷ stack) h (inr (inl e))
  In-pushed (k ∷ ks) stack h (inl (inr m)) = In-pushed ks (k ∷ stack) h (inl m)
  In-pushed (k ∷ ks) stack h (inr m) = In-pushed ks (k ∷ stack) h (inr (inr m))

  Known-set :
      (registry : Dict String ℕ) (name : String) (v k : ℕ)
      → Known registry k
      → Known (Dict.set registry name v) k
  Known-set registry name v k (j, found) = elim (Bool-cases (name == name_at k)) [
    | inl same ↦ (v, ground (arith, get-set registry name (name_at k) v, same))
    | inr other ↦ (j, ground (arith, get-set registry name (name_at k) v, other, found))
  ]

  set-Known : (registry : Dict String ℕ) (k : ℕ) → Known (Dict.set registry (name_at k) k) k
  set-Known registry k = (
    k,
    ground (
      arith,
      get-set registry (name_at k) (name_at k) k,
      text_key.same_iff (name_at k) (name_at k),
    ),
  )

  set-IsKeyed :
      (registry : Dict String ℕ) (k : ℕ)
      → IsKeyed registry
      → IsKeyed (Dict.set registry (name_at k) k)
  set-IsKeyed registry k keyed name j found = elim (Bool-cases (name_at k == name)) [
    | inl same ↦
        let is : k ≡ j = ground (arith, found, get-set registry (name_at k) name k, same) in
        subst (λ (x : ℕ). (agent_at agents x).name ≡ name) is
          (ground (arith, text_key.same_iff (name_at k) name, same))
    | inr other ↦ keyed name j (ground (arith, found, get-set registry (name_at k) name k, other))
  ]

  -- After a set, what is known was known or has the name.
  Known-back :
      (registry : Dict String ℕ) (k i : ℕ)
      → Known (Dict.set registry (name_at k) k) i
      → (name_at k ≡ name_at i) ⊎ Known registry i
  Known-back registry k i (j, found) = elim (Bool-cases (name_at k == name_at i)) [
    | inl same ↦ inl (ground (arith, text_key.same_iff (name_at k) (name_at i), same))
    | inr other ↦ inr (j, ground (arith, found, get-set registry (name_at k) (name_at i) k, other))
  ]

  set-Covers :
      (registry : Dict String ℕ) (k : ℕ) (stack : List ℕ)
      → IsNamed
      → Covers registry (k ∷ stack)
      → Covers (Dict.set registry (name_at k) k) (pushed (agent_at agents k).handoffs stack)
  set-Covers registry k stack named covers i h known m = elim (Known-back registry k i known) [
    | inl same ↦ inr (
        In-pushed (agent_at agents k).handoffs stack h
          (inl (subst (λ (a : Agent). In h a.handoffs) (sym (named k i same)) m)))
    | inr before ↦ elim (covers i h before m) [
      | inl there ↦ inl (Known-set registry (name_at k) k h there)
      | inr (inl is) ↦ inl (
          subst (λ (x : ℕ). Known (Dict.set registry (name_at k) k) x) (sym is)
            (set-Known registry k))
      | inr (inr waits) ↦ inr (In-pushed (agent_at agents k).handoffs stack h (inr waits))
    ]
  ]

  old-Covers :
      (registry : Dict String ℕ) (k : ℕ) (stack : List ℕ)
      → Known registry k
      → Covers registry (k ∷ stack)
      → Covers registry stack
  old-Covers registry k stack known covers i h there m = elim (covers i h there m) [
    | inl found ↦ inl found
    | inr (inl is) ↦ inl (subst (λ (x : ℕ). Known registry x) (sym is) known)
    | inr (inr waits) ↦ inr waits
  ]

  -- The state of the loop.
  abbrev IsGood : Dict String ℕ → List ℕ → Type 0
  IsGood registry stack = IsKeyed registry × Covers registry stack

  -- Everything that is known or waits is known in the other registry.
  abbrev Keeps : Dict String ℕ → List ℕ → Dict String ℕ → Type 0
  Keeps registry stack found = (k : ℕ) → Known registry k ⊎ In k stack → Known found k

  registry_from-IsGood :
      (fuel : ℕ) (stack : List ℕ) (registry found : Dict String ℕ)
      → IsNamed
      → IsGood registry stack
      → registry_from agents fuel stack registry ≡ some found
      → IsGood found [] × Keeps registry stack found
  unfolding registry_from
  registry_from-IsGood fuel [] registry found named good e =
      let same : registry ≡ found = ground (arith, e) in
      subst (λ x. IsGood x [] × Keeps registry [] x) same
        (good, λ k known. elim known [ inl there ↦ there | inr waits ↦ absurd waits ])
  registry_from-IsGood zero (k ∷ stack) registry found named good e = absurd (ground (arith, e))
  registry_from-IsGood (suc fuel) (k ∷ stack) registry found named (keyed, covers) e =
      elim (Option-cases (Dict.get registry (name_at k))) [
        | inl new ↦
            let (good, keeps) =
              registry_from-IsGood fuel (pushed (agent_at agents k).handoffs stack)
                (Dict.set registry (name_at k) k) found named
                (set-IsKeyed registry k keyed, set-Covers registry k stack named covers)
                (ground (arith, visit, e, new)) in
            (
              good,
              λ i known. elim known [
                | inl there ↦ keeps i (inl (Known-set registry (name_at k) k i there))
                | inr (inl is) ↦
                    subst (λ (x : ℕ). Known found x) (sym is) (keeps k (inl (set-Known registry k)))
                | inr (inr waits) ↦
                    keeps i (inr (In-pushed (agent_at agents k).handoffs stack i (inr waits)))
              ],
            )
        | inr old ↦
            let (good, keeps) =
              registry_from-IsGood fuel stack registry found named
                (keyed, old-Covers registry k stack old covers) (ground (arith, visit, e, old.1)) in
            (
              good,
              λ i known. elim known [
                | inl there ↦ keeps i (inl there)
                | inr (inl is) ↦ subst (λ (x : ℕ). Known found x) (sym is) (keeps k (inl old))
                | inr (inr waits) ↦ keeps i (inr waits)
              ],
            )
      ]

  Reach-Known :
      (entry k : ℕ) (found : Dict String ℕ)
      → Covers found []
      → Known found entry
      → Reach entry k
      → Known found k
  Reach-Known entry k found covers known starts = known
  Reach-Known entry k found covers known (hands {k = i} way m) =
      elim (covers i k (Reach-Known entry i found covers known way) m) [
        | inl there ↦ there
        | inr waits ↦ absurd waits
      ]

-- If no two different agents have the same name, then the registry of an agent is built, cycles of
-- handoffs or not, and each agent that handoffs lead to from there is in it under its name.
pub build_registry-IsComplete :
    (agents : List Agent) (entry : ℕ)
    → IsNamed agents
    → (found : Dict String ℕ) × (build_registry agents entry ≡ some found)
      × ((k : ℕ)
          → Reach agents entry k
          → (j : ℕ) × (Dict.get found (agent_at agents k).name ≡ some j)
            × (agent_at agents j ≡ agent_at agents k))
unfolding build_registry
build_registry-IsComplete agents entry named =
    let (found, e) =
      registry_from-ends agents (suc (weight Dict.empty agents)) (entry ∷ []) Dict.empty
        (omega arith) in
    let ((keyed, covers), keeps) =
      registry_from-IsGood agents (suc (weight Dict.empty agents)) (entry ∷ []) Dict.empty found
        named
        (
          λ name j h. absurd (ground (arith, h, Dict.get-empty {V = ℕ} name)),
          λ k h known m.
              absurd (ground (arith, known.1, Dict.get-empty {V = ℕ} (agent_at agents k).name)),
        )
        e in
    (
      found,
      e,
      λ k way.
          let (j, at) =
            Reach-Known agents entry k found covers (keeps entry (inr (inl refl))) way in
          (j, at, named j k (keyed (agent_at agents k).name j at)),
    )
