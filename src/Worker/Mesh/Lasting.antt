-- ===== src/Worker/Mesh/Lasting.antt =====
-- A worker enqueues the next step of a chain before it acknowledges the job (src/istos/queue/worker.py), over
-- whole runs of the mesh.
use istos.Prelude.{
  pos, ℕ, ◌≡◌, refl, sym, ap, subst, ◌∙◌, inl, inr, Option, none, some, List, [], ◌∷◌, ◌++◌, String,
  number_key, text_key, Option-cases,
}
use mathlib.Core.Option.{some-injective, none-ne-some}
use istos.Dict
use istos.Dict.{Dict, get-set_self}
use istos.Queue.Job.{JobContext, Bytes}
use istos.Worker.Owner.{Owner, Posted, Instant, Later, on_enqueue}
use istos.Worker.Flow.{
  Workflow, Codec, chain_only, follows, rstrip, wf_for, workflow_of, chain_calls, calls_for,
}
use istos.Worker.Mesh.{
  Flight, Mesh, Outcome, returned, raised, end_turn, put_owner, goes_on, queue_enqueue, plan,
  body_ended, run_body_at, Act, first_step, enqueues, sweeps, claims, runs, carries_on, drops, act,
  run,
}
use istos.Worker.Mesh.Grows.{NoneNew, OwnKeys, on_enqueue-IsOpen}
use istos.Worker.Mesh.Steady.{Steady}
use istos.Worker.Mesh.Acts.{Advance}
use istos.Worker.Mesh.Calls.{Allowed, act-Advance, act-Steady}
use istos.Worker.Mesh.Kept.{
  Decodes, Chains, Holds, IsKept, Gone, Ahead, AllAhead, advance-IsKept, advance-Gone,
  same-AllAhead, removed-AllAhead, written-AllAhead,
}
use istos.Worker.Mesh.Chains.{
  Ended, unchanged, removed, advanced, stepped, next_call-Ended, busy-queue_enqueue,
  busy-sweep_owner, busy-nack_at, busy-claim_at, calls_for-follows,
}

module _ (code : Codec) (law : Decodes code) (m : Mesh) (s : Steady m)
    (ahead : AllAhead code m) where
  -- The step that has been enqueued is open, with the rest of the chain.
  wf_for-Chains : (rest : List String) → Chains code (wf_for code rest) rest
  unfolding wf_for workflow_of
  wf_for-Chains [] = (chain_only [], refl, refl)
  wf_for-Chains (p ∷ rest) =
      (chain_only (p ∷ rest), rw (law.not_empty p rest) (law.back p rest), refl)

  planned-Ahead :
      (n : Mesh) (f : Flight) (result : Bytes) (x : Workflow)
      → workflow_of code f.job.wf ≡ some x
      → Ahead code n (record f { todo = some (calls_for x result) })
  unfolding calls_for chain_calls
  planned-Ahead n f result x decoded calls next rest todo (y, decoded', chain) =
      let same : x ≡ y = some-injective _ _ (sym decoded ∙ decoded') in
      let chain_is : x.chain ≡ next ∷ rest = ap (λ (z : Workflow). z.chain) same ∙ chain in
      let calls_are : calls_for x result ≡ calls = some-injective _ _ todo in
      let (more, first) = calls_for-follows x result next rest chain_is in
      inl (result, more, sym calls_are ∙ first)

Holds-IsKept :
    (code : Codec) (m : Mesh) (c : List String) (p : String) (k : ℕ)
    → Holds code m p k c
    → IsKept code m p k c
Holds-IsKept code m [] p k h = inl h
Holds-IsKept code m (next ∷ rest) p k h = inl h

module _ (code : Codec) (law : Decodes code) (m n : Mesh) (IsNew : ℕ → Type 0)
    (d : Advance IsNew m n) (s : Steady m) (ahead : AllAhead code m) where
  Ended-AllAhead : (w : ℕ) (i : Instant) → Ended code m n w i → AllAhead code n
  Ended-AllAhead w i (unchanged same) = same-AllAhead code m n IsNew d s ahead same
  Ended-AllAhead w i (removed same) = removed-AllAhead code m n IsNew d s ahead w same
  Ended-AllAhead w i (advanced f call calls more busy todo other same) =
      written-AllAhead code m n IsNew d s ahead w (record f { todo = some more }) same
        (λ l next rest e chains. elim (ahead w f busy (call ∷ calls) next rest todo chains) [
          | inl ((result, left, is)) ↦ absurd (other next rest result (cc))
          | inr gone ↦
              inr (advance-Gone code m n IsNew d s ahead f.prefix f.job.job_id next rest gone)
        ])
  Ended-AllAhead w i (stepped f nx rs result more busy todo same logged open_now) =
      written-AllAhead code m n IsNew d s ahead w (record f { todo = some more }) same
        (λ l next rest e chains.
          elim (ahead w f busy (follows nx rs result ∷ more) next rest todo chains) [
            | inl ((r, left, is)) ↦
                let same_next : nx ≡ next = cc in
                let same_rest : rs ≡ rest = cc in
                inr (
                  subst (λ x. Gone code n f.prefix f.job.job_id x rest) same_next
                    (subst (Gone code n f.prefix f.job.job_id nx) same_rest (
                      i.fresh_id,
                      logged,
                      Holds-IsKept code n rs (rstrip nx) i.fresh_id
                          (wf_for code rs, wf_for-Chains code law m s ahead rs, open_now),
                    )))
            | inr gone ↦
                inr (advance-Gone code m n IsNew d s ahead f.prefix f.job.job_id next rest gone)
          ])

  written_new :
      (w : ℕ) (f : Flight) → n.busy ≡ Dict.set m.busy w f → f.todo ≡ none → AllAhead code n
  written_new w f same none_left =
      written-AllAhead code m n IsNew d s ahead w f same (λ l next rest e chains. absurd (cc))

module _ (code : Codec) (law : Decodes code) (m : Mesh) (s : Steady m)
    (ahead : AllAhead code m) where
  planned :
      (w : ℕ) (f : Flight) (result : Bytes) (o : Option Workflow)
      → workflow_of code f.job.wf ≡ o
      → Advance NoneNew m (plan code w f result o m)
      → AllAhead code (plan code w f result o m)
  unfolding plan end_turn goes_on
  planned w f result none e d = removed-AllAhead code m (end_turn w m) NoneNew d s ahead w refl
  planned w f result (some x) e d =
      written-AllAhead code m (goes_on w f (calls_for x result) m) NoneNew d s ahead w
        (record f { todo = some (calls_for x result) }) refl
        (planned-Ahead code law m s ahead (goes_on w f (calls_for x result) m) f result x e)

  body_ended-AllAhead :
      (w : ℕ) (f : Flight) (l : Later) (x : Outcome)
      → Advance NoneNew m (body_ended code w f l x m)
      → AllAhead code (body_ended code w f l x m)
  unfolding body_ended end_turn
  body_ended-AllAhead w f l (returned (some result)) d =
      planned w f result (workflow_of code f.job.wf) refl d
  body_ended-AllAhead w f l (returned none) d = removed-AllAhead code m _ NoneNew d s ahead w refl
  body_ended-AllAhead w f l (raised error) d =
      removed-AllAhead code m _ NoneNew d s ahead w
        (ap (λ b. Dict.remove b w) (busy-nack_at f error l m))

  run_body_at-AllAhead :
      (w : ℕ) (func : Bytes → JobContext → Outcome) (l : Later)
      → Advance NoneNew m (run_body_at code w func l m)
      → AllAhead code (run_body_at code w func l m)
  unfolding run_body_at
  run_body_at-AllAhead w func l d = elim (Option-cases (Dict.get m.busy w)) [
    | inl idle ↦ rw (run_body_at, idle) ahead
    | inr ((f, e)) ↦ elim (Option-cases f.todo) [
      | inl running ↦
          rw (run_body_at, e, running)
            (body_ended-AllAhead w f l _ (rw (run_body_at, e, running) at d))
      | inr ((more, over)) ↦ rw (run_body_at, e, over) ahead
    ]
  ]

  act-AllAhead : (a : Act) → Allowed m a → AllAhead code (act code m a)
  unfolding act end_turn
  act-AllAhead (enqueues prefix p i) ok =
      same-AllAhead code m _ _ (act-Advance code m (enqueues prefix p i) s ok) s ahead
        (busy-queue_enqueue prefix p i m)
  act-AllAhead (sweeps p now) ok =
      same-AllAhead code m _ _ (act-Advance code m (sweeps p now) s ok) s ahead
        (busy-sweep_owner p now m)
  act-AllAhead (claims w p now) ok = elim (busy-claim_at w p now m) [
    | inl same ↦ same-AllAhead code m _ _ (act-Advance code m (claims w p now) s ok) s ahead same
    | inr ((f, same, none_left)) ↦
        written_new code law m _ _ (act-Advance code m (claims w p now) s ok) s ahead w f same
          none_left
  ]
  act-AllAhead (runs w func l) ok =
      run_body_at-AllAhead w func l (act-Advance code m (runs w func l) s ok)
  act-AllAhead (carries_on w i) ok =
      Ended-AllAhead code law m _ _ (act-Advance code m (carries_on w i) s ok) s ahead w i
        (next_call-Ended code m w i)
  act-AllAhead (drops w) ok =
      removed-AllAhead code m _ _ (act-Advance code m (drops w) s ok) s ahead w refl

-- Before the first event: no worker has a job, each job stands under its id, and dead letters are kept.
pub record IsStart (m : Mesh) : Type 0 where
  pub idle : (w : ℕ) → Dict.get m.busy w ≡ none
  pub own : (p : String) (o : Owner) → Dict.get m.owners p ≡ some o → OwnKeys o.store
  pub keeps :
      (p : String) (o : Owner) → Dict.get m.owners p ≡ some o → o.store.dead_letter_ttl_s ≡ none

module _ (code : Codec) where
  -- Each event files a job under a fresh id only.
  abbrev pub AllAllowed : Mesh → List Act → Type 0
  AllAllowed m [] = Unit {0}
  AllAllowed m (a ∷ acts) = Allowed m a × AllAllowed (act code m a) acts

  start-Steady : (m : Mesh) → IsStart m → Steady m
  start-Steady m start = record {
    own = start.own;
    keeps = start.keeps;
    held = λ w f e. absurd (none-ne-some f (sym (start.idle w) ∙ e));
  }

  start-AllAhead : (m : Mesh) → IsStart m → AllAhead code m
  start-AllAhead m start w f e = absurd (none-ne-some f (sym (start.idle w) ∙ e))

  module _ (law : Decodes code) where
    run-IsKept :
        (acts : List Act) (m : Mesh) (p : String) (k : ℕ) (c : List String)
        → Steady m
        → AllAhead code m
        → AllAllowed m acts
        → IsKept code m p k c
        → IsKept code (run code m acts) p k c
    unfolding run
    run-IsKept [] m p k c s ahead ok h = h
    run-IsKept (a ∷ acts) m p k c s ahead ok h =
        run-IsKept acts (act code m a) p k c (act-Steady code m a s ok.0)
          (act-AllAhead code law m s ahead a ok.0) ok.1
          (advance-IsKept code m _ _ (act-Advance code m a s ok.0) s ahead c p k h)

    begun-IsKept :
        (m : Mesh) (prefix : String) (rest : List String) (q : Posted) (i : Instant) (o : Owner)
        → Steady m
        → AllAhead code m
        → Dict.get m.owners (rstrip prefix) ≡ some o
        → IsKept code (act code m (first_step code prefix rest q i)) (rstrip prefix) i.fresh_id rest
    unfolding act first_step queue_enqueue put_owner
    begun-IsKept m prefix rest q i o s ahead e =
        let job : Posted = record q { delay_s = pos 0; wf = wf_for code rest } in
        rw (queue_enqueue, e)
          (Holds-IsKept code (put_owner (rstrip prefix) (on_enqueue job i o).0 m) rest
            (rstrip prefix) i.fresh_id
            (
              wf_for code rest,
              wf_for-Chains code law m s ahead rest,
              (
                (on_enqueue job i o).0,
                get-set_self m.owners (rstrip prefix) (on_enqueue job i o).0,
                on_enqueue-IsOpen o job i,
              ),
            ))

    chain_from :
        (before after : List Act) (m : Mesh) (prefix : String) (rest : List String) (q : Posted)
        (i : Instant) (o : Owner)
        → Steady m
        → AllAhead code m
        → AllAllowed m (before ++ first_step code prefix rest q i ∷ after)
        → Dict.get (run code m before).owners (rstrip prefix) ≡ some o
        → IsKept code
            (run code m (before ++ first_step code prefix rest q i ∷ after))
            (rstrip prefix)
            i.fresh_id
            rest
    unfolding run
    chain_from [] after m prefix rest q i o s ahead ok e =
        let a = first_step code prefix rest q i in
        run-IsKept after (act code m a) (rstrip prefix) i.fresh_id rest (act-Steady code m a s ok.0)
          (act-AllAhead code law m s ahead a ok.0) ok.1 (begun-IsKept m prefix rest q i o s ahead e)
    chain_from (a ∷ before) after m prefix rest q i o s ahead ok e =
        chain_from before after (act code m a) prefix rest q i o (act-Steady code m a s ok.0)
          (act-AllAhead code law m s ahead a ok.0) ok.1 e

-- A chain of jobs is never lost, on a mesh that starts with idle workers, each job under its id and dead
-- letters kept, whatever happens then, crashes of workers, lost leases, failed calls and other work
-- included, if new jobs get fresh ids and decoding an encoded chain gives that chain back: once an owner
-- has taken the first job, that job is at its owner and not done, or an ack of it has been accepted; if
-- steps were left then, a worker has enqueued the next one with the rest of the chain, and the same holds
-- of its job, to the last step.
pub chain-IsKept :
    (code : Codec) (m : Mesh) (before after : List Act) (prefix : String) (rest : List String)
    (q : Posted) (i : Instant) (o : Owner)
    → Decodes code
    → IsStart m
    → AllAllowed code m (before ++ first_step code prefix rest q i ∷ after)
    → Dict.get (run code m before).owners (rstrip prefix) ≡ some o
    → IsKept code
        (run code m (before ++ first_step code prefix rest q i ∷ after))
        (rstrip prefix)
        i.fresh_id
        rest
chain-IsKept code m before after prefix rest q i o law start ok e =
    chain_from code law before after m prefix rest q i o (start-Steady code m start)
      (start-AllAhead code m start) ok e
