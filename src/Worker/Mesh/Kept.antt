-- ===== src/Worker/Mesh/Kept.antt =====
-- The chain of a job (src/istos/queue/worker.py) is not lost, whatever happens on the mesh.
use istos.Prelude.{
  ℕ, ◌≡◌, sym, ap, subst, ◌∙◌, ◌⊎◌, inl, inr, false, Option, some, List, [], ◌∷◌, In, String,
  number_key, text_key, ◌==◌,
}
use istos.Dict
use istos.Dict.{Dict, get-set_self, get-set_Either, get-remove_old}
use istos.Queue.Job.{Bytes}
use istos.Worker.Flow.{
  Workflow, Codec, chain_only, Call, follows, acknowledges, rstrip, workflow_of,
}
use istos.Worker.Mesh.{Flight, Mesh, followed, acked}
use istos.Worker.Mesh.Steady.{Steady, Open}
use istos.Worker.Mesh.Acts.{Acking, Advance}

-- What JSON and base64 give back, for workflows that are a chain.
pub record Decodes (code : Codec) : Type 0 where
  pub back :
      (p : String) (rest : List String)
      → code.decode_wf (code.encode_wf (chain_only (p ∷ rest))) ≡ some (chain_only (p ∷ rest))
  pub not_empty :
      (p : String) (rest : List String) → code.encode_wf (chain_only (p ∷ rest)) == "" ≡ false

module _ (code : Codec) where
  -- A worker reads this chain in the workflow.
  abbrev pub Chains : Option String → List String → Type 0
  Chains wf c = (x : Workflow) × (workflow_of code wf ≡ some x) × (x.chain ≡ c)

  -- The job is open, and has this chain before it.
  abbrev pub Holds : Mesh → String → ℕ → List String → Type 0
  Holds m p k c = (wf : Option String) × Chains wf c × Open m p k wf

  -- The job is open, or an ack of it has been accepted; that of a job with a chain only once the next
  -- step has been enqueued, and then the same holds of the job of that step, with the rest of the chain.
  abbrev pub IsKept : Mesh → String → ℕ → List String → Type 0
  IsKept m p k [] = Holds m p k [] ⊎ In (acked (p, k)) m.log
  IsKept m p k (next ∷ rest) =
      Holds m p k (next ∷ rest)
      ⊎ ((j : ℕ) × In (followed (p, k) (rstrip next, j)) m.log × IsKept m (rstrip next) j rest)

  abbrev pub Gone : Mesh → String → ℕ → String → List String → Type 0
  Gone m p k next rest =
      (j : ℕ) × In (followed (p, k) (rstrip next, j)) m.log × IsKept m (rstrip next) j rest

  -- A worker that has finished the body of a job with a chain has the next step to enqueue first, or has enqueued it.
  abbrev pub Ahead : Mesh → Flight → Type 0
  Ahead m f =
      (calls : List Call) (next : String) (rest : List String)
      → f.todo ≡ some calls
      → Chains f.job.wf (next ∷ rest)
      → ((result : Bytes) × (more : List Call) × (calls ≡ follows next rest result ∷ more))
        ⊎ Gone m f.prefix f.job.job_id next rest

  abbrev pub AllAhead : Mesh → Type 0
  AllAhead m = (w : ℕ) (f : Flight) → Dict.get m.busy w ≡ some f → Ahead m f

  Acking-Gone :
      (m n : Mesh) (p : String) (k : ℕ) (next : String) (rest : List String)
      → Steady m
      → AllAhead m
      → Holds m p k (next ∷ rest)
      → Acking m n p k
      → Gone m p k next rest
  Acking-Gone m n p k next rest s ahead (wf, (x, decoded, chain), (o, e, (u, there, has, goes)))
        (w, f, result, calls, busy, todo, at, same, logged) =
      let same_wf : u.wf ≡ f.job.wf =
        s.held w f busy o u (ap (Dict.get m.owners) at ∙ e)
          (ap (Dict.get o.store.jobs) same ∙ there) in
      let chains : Chains f.job.wf (next ∷ rest) =
        (x, ap (workflow_of code) (sym same_wf ∙ has) ∙ decoded, chain) in
      elim (ahead w f busy (acknowledges result ∷ calls) next rest todo chains) [
        | inl ((r, more, is)) ↦ absurd (cc)
        | inr gone ↦
            subst (λ q. Gone m q k next rest) at
              (subst (λ j. Gone m f.prefix j next rest) same gone)
      ]

  module _ (m n : Mesh) (IsNew : ℕ → Type 0) (d : Advance IsNew m n) (s : Steady m)
      (ahead : AllAhead m) where
    pub advance-IsKept : (c : List String) (p : String) (k : ℕ) → IsKept m p k c → IsKept n p k c
    advance-IsKept [] p k (inr logged) = inr (d.grown (acked (p, k)) logged)
    advance-IsKept [] p k (inl (wf, chains, o)) = elim (d.lasts p k wf o) [
      | inl stays ↦ inl (wf, chains, stays)
      | inr (acking) ↦ inr acking.8
    ]
    advance-IsKept (next ∷ rest) p k (inr (j, logged, later)) =
        inr (j, d.grown _ logged, advance-IsKept rest (rstrip next) j later)
    advance-IsKept (next ∷ rest) p k (inl (wf, chains, o)) = elim (d.lasts p k wf o) [
      | inl stays ↦ inl (wf, chains, stays)
      | inr acking ↦
          let (j, logged, later) = Acking-Gone m n p k next rest s ahead (wf, chains, o) acking in
          inr (j, d.grown _ logged, advance-IsKept rest (rstrip next) j later)
    ]

    pub advance-Gone :
        (p : String) (k : ℕ) (next : String) (rest : List String)
        → Gone m p k next rest
        → Gone n p k next rest
    advance-Gone p k next rest (j, logged, later) =
        (j, d.grown _ logged, advance-IsKept rest (rstrip next) j later)

    -- A loop that does nothing stays ahead.
    pub still-Ahead : (w : ℕ) (f : Flight) → Dict.get m.busy w ≡ some f → Ahead n f
    still-Ahead w f e calls next rest todo chains = elim (ahead w f e calls next rest todo chains) [
      | inl first ↦ inl first
      | inr gone ↦ inr (advance-Gone f.prefix f.job.job_id next rest gone)
    ]

    pub same-AllAhead : n.busy ≡ m.busy → AllAhead n
    same-AllAhead same w f e = still-Ahead w f (ap (λ b. Dict.get b w) (sym same) ∙ e)

    pub removed-AllAhead : (v : ℕ) → n.busy ≡ Dict.remove m.busy v → AllAhead n
    removed-AllAhead v same w f e =
        still-Ahead w f (get-remove_old m.busy v w f (ap (λ b. Dict.get b w) (sym same) ∙ e))

    pub written-AllAhead :
        (v : ℕ) (g : Flight) → n.busy ≡ Dict.set m.busy v g → Ahead n g → AllAhead n
    written-AllAhead v g same own w f e =
        elim (get-set_Either m.busy v g w f (ap (λ b. Dict.get b w) (sym same) ∙ e)) [
          | inl ((at, is)) ↦ subst (Ahead n) is own
          | inr ((other, there)) ↦ still-Ahead w f there
        ]
