-- ===== src/Worker/Mesh/Steady.antt =====
-- What holds of the owners and of the claimed jobs between any two events on the mesh (src/istos/queue/worker.py).
use istos.Prelude.{
  ℕ, ◌≡◌, ◌≢◌, refl, sym, ap, subst, ◌∙◌, ◌⊎◌, inl, inr, Option, none, some, String, number_key,
  text_key, Bool-cases, ◌==◌,
}
use mathlib.Core.Option.{some-injective}
use istos.Dict
use istos.Dict.{Dict, get-set_self, get-set_other, get-set_Either, get-remove_old}
use istos.Queue.Job.{JobRecord}
use istos.Queue.State.{Config, QueueStore}
use istos.Queue.Lifecycle.Lasting.{IsOpen, Lasting}
use istos.Worker.Owner.{Owner, Claimed}
use istos.Worker.Mesh.{Flight, Mesh}
use istos.Worker.Mesh.Grows.{Grows, OwnKeys}

-- What the owner has of a claimed job has the workflow that the worker was told.
abbrev pub Held : Mesh → Flight → Type 0
Held m f =
    (o : Owner) (u : JobRecord)
    → Dict.get m.owners f.prefix ≡ some o
    → Dict.get o.store.jobs f.job.job_id ≡ some u
    → u.wf ≡ f.job.wf

-- Jobs stand under their ids, dead letters are kept, and what a worker holds is what the owner has.
pub record Steady (m : Mesh) : Type 0 where
  pub own : (p : String) (o : Owner) → Dict.get m.owners p ≡ some o → OwnKeys o.store
  pub keeps :
      (p : String) (o : Owner) → Dict.get m.owners p ≡ some o → o.store.dead_letter_ttl_s ≡ none
  pub held : (w : ℕ) (f : Flight) → Dict.get m.busy w ≡ some f → Held m f

-- An id that no owner has and no worker holds.
abbrev pub IsFresh : Mesh → ℕ → Type 0
IsFresh m i =
    ((p : String) (o : Owner) → Dict.get m.owners p ≡ some o → Dict.get o.store.jobs i ≡ none)
    × ((w : ℕ) (f : Flight) → Dict.get m.busy w ≡ some f → f.job.job_id ≢ i)

abbrev pub SameJob : Flight → Flight → Type 0
SameJob f g = (f.prefix ≡ g.prefix) × (f.job ≡ g.job)

-- How the owners and the claimed jobs of a mesh come from those of an earlier one.
pub record Moved (IsNew : ℕ → Type 0) (m n : Mesh) : Type 0 where
  pub owner :
      (p : String) (x : Owner)
      → Dict.get n.owners p ≡ some x
      → (o : Owner) × (Dict.get m.owners p ≡ some o) × Grows IsNew o.store x.store
  pub flight :
      (w : ℕ) (g : Flight)
      → Dict.get n.busy w ≡ some g
      → ((f : Flight) × (Dict.get m.busy w ≡ some f) × SameJob g f) ⊎ Held n g

pub Moved-Steady :
    (IsNew : ℕ → Type 0) (m n : Mesh)
    → ((k : ℕ) → IsNew k → IsFresh m k)
    → Moved IsNew m n
    → Steady m
    → Steady n
Moved-Steady IsNew m n fresh d s = record {
  own = λ p x e k u found.
      let (o, was, g) = d.owner p x e in
      elim (g.origin k u found) [ inl old ↦ old.2 ∙ s.own p o was k old.0 old.1 | inr new ↦ new.1 ];
  keeps = λ p x e.
      let (o, was, g) = d.owner p x e in
      ap (λ (c : Config). c.dead_letter_ttl_s) g.settings ∙ s.keeps p o was;
  held = λ w g e. elim (d.flight w g e) [
    | inr holds ↦ holds
    | inl ((f, was, same)) ↦ λ x u e' found.
        let (o, was', grows) = d.owner g.prefix x e' in
        elim (grows.origin g.job.job_id u found) [
          | inl ((r, there, i, same_wf)) ↦
              same_wf
              ∙ s.held w f was o r (ap (Dict.get m.owners) (sym same.0) ∙ was')
                  (ap (λ (j : Claimed). Dict.get o.store.jobs j.job_id) (sym same.1) ∙ there)
              ∙ ap (λ (j : Claimed). j.wf) (sym same.1)
          | inr new ↦
              absurd
                ((fresh g.job.job_id new.0).1 w f was (ap (λ (j : Claimed). j.job_id) (sym same.1)))
        ]
  ];
}

pub Grows-refl : (IsNew : ℕ → Type 0) (s : QueueStore) → Grows IsNew s s
Grows-refl IsNew s = record { settings = refl; origin = λ k u e. inl (u, e, refl, refl) }

pub put-owner :
    (IsNew : ℕ → Type 0) (owners : Dict String Owner) (p : String) (o t : Owner)
    → Dict.get owners p ≡ some o
    → Grows IsNew o.store t.store
    → (q : String) (x : Owner) → Dict.get (Dict.set owners p t) q ≡ some x
    → (y : Owner) × (Dict.get owners q ≡ some y) × Grows IsNew y.store x.store
put-owner IsNew owners p o t e g q x h = elim (get-set_Either owners p t q x h) [
  | inl ((at, is)) ↦ (
    o,
    ap (Dict.get owners) (sym at) ∙ e,
    subst (λ (z : Owner). Grows IsNew o.store z.store) is g,
  )
  | inr ((other, there)) ↦ (x, there, Grows-refl IsNew x.store)
]

-- The jobs that are open stay open when one owner's do.
abbrev pub Open : Mesh → String → ℕ → Option String → Type 0
Open m p k wf = (o : Owner) × (Dict.get m.owners p ≡ some o) × IsOpen o.store.jobs k wf

pub put-Open_or :
    (B : Type 0) (m n : Mesh) (p : String) (o t : Owner)
    → n.owners ≡ Dict.set m.owners p t
    → Dict.get m.owners p ≡ some o
    → (q : String) (k : ℕ) (wf : Option String)
    → (p ≡ q → IsOpen o.store.jobs k wf → IsOpen t.store.jobs k wf ⊎ B)
    → Open m q k wf
    → Open n q k wf ⊎ B
put-Open_or B m n p o t after e q k wf lasting (x, found, open_job) = elim (Bool-cases (p == q)) [
  | inl here ↦
      let at : p ≡ q = (text_key.same_iff p q).0 here in
      let is : x ≡ o = some-injective _ _ (sym found ∙ ap (Dict.get m.owners) (sym at) ∙ e) in
      elim (lasting at (subst (λ (z : Owner). IsOpen z.store.jobs k wf) is open_job)) [
        | inr b ↦ inr b
        | inl stays ↦ inl (
          t,
          ap (λ d. Dict.get d q) after
              ∙ ap (Dict.get (Dict.set m.owners p t)) (sym at)
              ∙ get-set_self m.owners p t,
          stays,
        )
      ]
  | inr other ↦
      inl (x, ap (λ d. Dict.get d q) after ∙ get-set_other m.owners p t q other ∙ found, open_job)
]

pub put-Open :
    (m n : Mesh) (p : String) (o t : Owner)
    → n.owners ≡ Dict.set m.owners p t
    → Dict.get m.owners p ≡ some o
    → Lasting o.store.jobs t.store.jobs
    → (q : String) (k : ℕ) (wf : Option String) → Open m q k wf
    → Open n q k wf
put-Open m n p o t after e lasting q k wf x =
    elim (put-Open_or ⊥ m n p o t after e q k wf (λ at y. inl (lasting k wf y)) x) [
      | inl y ↦ y
      | inr b ↦ absurd b
    ]
