-- ===== src/Worker/Mesh/Acts.antt =====
-- What one event on the mesh (src/istos/queue/worker.py) does to the jobs, the claimed jobs and the log.
use istos.Prelude.{
  ℕ, ◌≡◌, refl, sym, ap, subst, ◌∙◌, ◌⊎◌, inl, inr, Option, none, some, List, ◌∷◌, In, String,
  number_key, text_key, Option-cases,
}
use mathlib.Core.Option.{some-injective}
use istos.Dict
use istos.Dict.{Dict, get-set_self, get-set_Either, get-remove_old}
use istos.Queue.Job.{JobRecord, JobContext, Bytes}
use istos.Queue.State.{QueueStore}
use istos.Queue.Upkeep.{sweep}
use istos.Queue.Lifecycle.Lasting.{Lasting, sweep-Lasting}
use istos.Worker.Owner.{Owner, Posted, Instant, Claimed, Later, on_enqueue, on_claim, on_nack}
use istos.Worker.Flow.{Workflow, Codec, Call, acknowledges, rstrip, workflow_of, calls_for}
use istos.Worker.Mesh.{
  Flight, Mesh, MeshEvent, acked, Outcome, returned, raised, end_turn, put_owner, goes_on,
  queue_enqueue, sweep_owner, began, claim_at, nack_at, plan, body_ended, run_body_at,
}
use istos.Worker.Mesh.Grows.{
  Grows, NoneNew, on_claim-Grows, on_claim-Lasting, on_nack-Grows, on_nack-Lasting, sweep-Grows,
  on_enqueue-Grows, on_enqueue-Lasting, on_claim-there,
}
use istos.Worker.Mesh.Steady.{
  Held, Steady, IsFresh, SameJob, Moved, Grows-refl, put-owner, Open, put-Open,
}

-- A worker's ack of the job has been accepted.
abbrev pub Acking : Mesh → Mesh → String → ℕ → Type 0
Acking m n p k =
    (w : ℕ) × (f : Flight) × (result : Bytes) × (calls : List Call) × (Dict.get m.busy w ≡ some f)
    × (f.todo ≡ some (acknowledges result ∷ calls))
    × (f.prefix ≡ p)
    × (f.job.job_id ≡ k)
    × In (acked (p, k)) n.log

pub record Advance (IsNew : ℕ → Type 0) (m n : Mesh) : Type 0 where
  pub moved : Moved IsNew m n
  pub grown : (e : MeshEvent) → In e m.log → In e n.log
  pub lasts :
      (p : String) (k : ℕ) (wf : Option String) → Open m p k wf → Open n p k wf ⊎ Acking m n p k

abbrev pub Back : Mesh → Mesh → Type 0
Back m n =
    (w : ℕ) (g : Flight)
    → Dict.get n.busy w ≡ some g
    → ((f : Flight) × (Dict.get m.busy w ≡ some f) × SameJob g f) ⊎ Held n g

abbrev pub Grown : Mesh → Mesh → Type 0
Grown m n = (e : MeshEvent) → In e m.log → In e n.log

pub same_busy : (m n : Mesh) → n.busy ≡ m.busy → Back m n
same_busy m n same w g e = inl (g, ap (λ d. Dict.get d w) (sym same) ∙ e, (refl, refl))

pub dropped : (m n : Mesh) (w : ℕ) → n.busy ≡ Dict.remove m.busy w → Back m n
dropped m n w same v g e =
    inl (g, get-remove_old m.busy w v g (ap (λ d. Dict.get d v) (sym same) ∙ e), (refl, refl))

pub continued :
    (m n : Mesh) (w : ℕ) (f g : Flight)
    → Dict.get m.busy w ≡ some f
    → SameJob g f
    → n.busy ≡ Dict.set m.busy w g
    → Back m n
continued m n w f g was same after v h e =
    elim (get-set_Either m.busy w g v h (ap (λ d. Dict.get d v) (sym after) ∙ e)) [
      | inl ((at, is)) ↦
          inl (f, ap (Dict.get m.busy) (sym at) ∙ was, subst (λ (z : Flight). SameJob z f) is same)
      | inr ((other, there)) ↦ inl (h, there, (refl, refl))
    ]

module _ (IsNew : ℕ → Type 0) (m n : Mesh) (back : Back m n) (grown : Grown m n) where
  pub quiet : n.owners ≡ m.owners → Advance IsNew m n
  quiet same = record {
    moved = record {
      owner = λ p x e. (x, ap (λ d. Dict.get d p) (sym same) ∙ e, Grows-refl IsNew x.store);
      flight = back;
    };
    grown = grown;
    lasts = λ p k wf x. inl (x.0, ap (λ d. Dict.get d p) same ∙ x.1, x.2);
  }

  pub one-Moved :
      (p : String) (o t : Owner)
      → n.owners ≡ Dict.set m.owners p t
      → Dict.get m.owners p ≡ some o
      → Grows IsNew o.store t.store
      → Moved IsNew m n
  one-Moved p o t after e g = record {
    owner =
        λ q x h. put-owner IsNew m.owners p o t e g q x (ap (λ d. Dict.get d q) (sym after) ∙ h);
    flight = back;
  }

  pub one_owner :
      (p : String) (o t : Owner)
      → n.owners ≡ Dict.set m.owners p t
      → Dict.get m.owners p ≡ some o
      → Grows IsNew o.store t.store
      → Lasting o.store.jobs t.store.jobs
      → Advance IsNew m n
  one_owner p o t after e g lasting = record {
    moved = one-Moved p o t after e g;
    grown = grown;
    lasts = λ q k wf x. inl (put-Open m n p o t after e lasting q k wf x);
  }

pub stays : (IsNew : ℕ → Type 0) (m : Mesh) → Advance IsNew m m
stays IsNew m = quiet IsNew m m (same_busy m m refl) (λ e h. h) refl

pub widen : (IsNew : ℕ → Type 0) (s t : QueueStore) → Grows NoneNew s t → Grows IsNew s t
widen IsNew s t g = record {
  settings = g.settings;
  origin = λ k u e. elim (g.origin k u e) [ inl old ↦ inl old | inr new ↦ absurd new.0 ];
}

abbrev pub IdOf : Instant → ℕ → Type 0
IdOf i k = k ≡ i.fresh_id

pub queue_enqueue-Advance :
    (m : Mesh) (prefix : String) (p : Posted) (i : Instant)
    → IsFresh m i.fresh_id
    → Advance (IdOf i) m (queue_enqueue prefix p i m)
unfolding queue_enqueue put_owner
queue_enqueue-Advance m prefix p i fresh = elim (Option-cases (Dict.get m.owners (rstrip prefix))) [
  | inl missing ↦ rw (queue_enqueue, missing) (stays (IdOf i) m)
  | inr ((o, e)) ↦
      rw (queue_enqueue, e)
        (one_owner (IdOf i) m (put_owner (rstrip prefix) (on_enqueue p i o).0 m)
          (same_busy m (put_owner (rstrip prefix) (on_enqueue p i o).0 m) refl) (λ x h. h)
          (rstrip prefix) o (on_enqueue p i o).0 refl e (on_enqueue-Grows o p i)
          (on_enqueue-Lasting o p i (fresh.0 (rstrip prefix) o e)))
]

pub sweep_owner-Advance :
    (m : Mesh) (p : String) (now : ℕ) → Steady m → Advance NoneNew m (sweep_owner p now m)
unfolding sweep_owner put_owner
sweep_owner-Advance m p now s = elim (Option-cases (Dict.get m.owners p)) [
  | inl missing ↦ rw (sweep_owner, missing) (stays NoneNew m)
  | inr ((o, e)) ↦
      rw (sweep_owner, e)
        (one_owner NoneNew m (put_owner p (record o { store = (sweep now o.store).0 }) m)
          (same_busy m (put_owner p (record o { store = (sweep now o.store).0 }) m) refl) (λ x h. h)
          p o (record o { store = (sweep now o.store).0 }) refl e (sweep-Grows o now)
          (sweep-Lasting now o.store (s.keeps p o e)))
]

claimed-Back :
    (m : Mesh) (w : ℕ) (p : String) (now : ℕ) (o : Owner) (job : Claimed)
    → Steady m
    → Dict.get m.owners p ≡ some o
    → (on_claim now o).1 ≡ some job
    → Back m (began w p (some job) (put_owner p (on_claim now o).0 m))
unfolding began put_owner
claimed-Back m w p now o job s e is v g h =
    elim (get-set_Either m.busy w (record { prefix = p; job = job; todo = none }) v g h) [
      | inr ((other, there)) ↦ inl (g, there, (refl, refl))
      | inl ((at, same)) ↦
          let (u, there, has_wf) = on_claim-there o now job (s.own p o e) is in
          inr (
            subst (λ (z : Flight). Held (began w p (some job) (put_owner p (on_claim now o).0 m)) z)
              same
              (λ x y found stored.
                let is_after : (on_claim now o).0 ≡ x =
                  some-injective _ _ (sym (get-set_self m.owners p (on_claim now o).0) ∙ found) in
                let same_job : u ≡ y = some-injective _ _ (
                  sym there
                  ∙ ap (λ (z : Owner). Dict.get z.store.jobs job.job_id) is_after
                  ∙ stored) in
                ap (λ (z : JobRecord). z.wf) (sym same_job) ∙ has_wf))
    ]

pub claim_at-Advance :
    (m : Mesh) (w : ℕ) (p : String) (now : ℕ) → Steady m → Advance NoneNew m (claim_at w p now m)
unfolding claim_at began put_owner
claim_at-Advance m w p now s = elim (Option-cases (Dict.get m.busy w)) [
  | inr ((f, busy)) ↦ rw (claim_at, busy) (stays NoneNew m)
  | inl idle ↦ elim (Option-cases (Dict.get m.owners p)) [
    | inl missing ↦ rw (claim_at, idle, missing) (stays NoneNew m)
    | inr ((o, e)) ↦ rw (claim_at, idle, e) (replies o e (on_claim now o).1 refl)
  ]
]
  where
    replies :
        (o : Owner)
        → Dict.get m.owners p ≡ some o
        → (reply : Option Claimed) → (on_claim now o).1 ≡ reply
        → Advance NoneNew m (began w p reply (put_owner p (on_claim now o).0 m))
    replies o e none is =
        one_owner NoneNew m (put_owner p (on_claim now o).0 m)
          (same_busy m (put_owner p (on_claim now o).0 m) refl) (λ x h. h) p o (on_claim now o).0
          refl e (on_claim-Grows o now) (on_claim-Lasting o now)
    replies o e (some job) is =
        one_owner NoneNew m (began w p (some job) (put_owner p (on_claim now o).0 m))
          (claimed-Back m w p now o job s e is) (λ x h. h) p o (on_claim now o).0 refl e
          (on_claim-Grows o now) (on_claim-Lasting o now)

pub end_turn-Advance : (IsNew : ℕ → Type 0) (m : Mesh) (w : ℕ) → Advance IsNew m (end_turn w m)
unfolding end_turn
end_turn-Advance IsNew m w =
    quiet IsNew m (end_turn w m) (dropped m (end_turn w m) w refl) (λ x h. h) refl

nacked-Advance :
    (m : Mesh) (w : ℕ) (f : Flight) (error : String) (l : Later)
    → Advance NoneNew m (end_turn w (nack_at f error l m))
unfolding end_turn nack_at put_owner
nacked-Advance m w f error l = elim (Option-cases (Dict.get m.owners f.prefix)) [
  | inl missing ↦ rw (nack_at, missing) (end_turn-Advance NoneNew m w)
  | inr ((o, e)) ↦
      let t = (on_nack f.job.job_id error f.job.attempt l o).0 in
      rw (nack_at, e)
        (one_owner NoneNew m (end_turn w (put_owner f.prefix t m))
          (dropped m (end_turn w (put_owner f.prefix t m)) w refl) (λ x h. h) f.prefix o t refl e
          (on_nack-Grows o f.job.job_id error f.job.attempt l)
          (on_nack-Lasting o f.job.job_id error f.job.attempt l))
]

module _ (code : Codec) where
  plan-Advance :
      (m : Mesh) (w : ℕ) (f : Flight) (result : Bytes) (o : Option Workflow)
      → Dict.get m.busy w ≡ some f
      → Advance NoneNew m (plan code w f result o m)
  unfolding plan goes_on
  plan-Advance m w f result none e = end_turn-Advance NoneNew m w
  plan-Advance m w f result (some wf) e =
      quiet NoneNew m (goes_on w f (calls_for wf result) m)
        (continued m (goes_on w f (calls_for wf result) m) w f
          (record f { todo = some (calls_for wf result) }) e (refl, refl) refl)
        (λ x h. h) refl

  body_ended-Advance :
      (m : Mesh) (w : ℕ) (f : Flight) (l : Later) (x : Outcome)
      → Dict.get m.busy w ≡ some f
      → Advance NoneNew m (body_ended code w f l x m)
  unfolding body_ended
  body_ended-Advance m w f l (returned none) e = end_turn-Advance NoneNew m w
  body_ended-Advance m w f l (returned (some result)) e =
      plan-Advance m w f result (workflow_of code f.job.wf) e
  body_ended-Advance m w f l (raised error) e = nacked-Advance m w f error l

  pub run_body_at-Advance :
      (m : Mesh) (w : ℕ) (func : Bytes → JobContext → Outcome) (l : Later)
      → Advance NoneNew m (run_body_at code w func l m)
  unfolding run_body_at
  run_body_at-Advance m w func l = elim (Option-cases (Dict.get m.busy w)) [
    | inl idle ↦ rw (run_body_at, idle) (stays NoneNew m)
    | inr ((f, e)) ↦ elim (Option-cases f.todo) [
      | inl running ↦ rw (run_body_at, e, running) (body_ended-Advance m w f l _ e)
      | inr ((more, over)) ↦ rw (run_body_at, e, over) (stays NoneNew m)
    ]
  ]
