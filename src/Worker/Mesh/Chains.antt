-- ===== src/Worker/Mesh/Chains.antt =====
-- What each event on the mesh (src/istos/queue/worker.py) leaves of what the workers are busy with.
use istos.Prelude.{
  ℕ, ◌≡◌, ◌≢◌, refl, sym, ap, ◌⊎◌, inl, inr, Bool, true, false, Option, none, some, List, [], ◌∷◌,
  ◌++◌, In, String, number_key, text_key, Option-cases,
}
use istos.Dict
use istos.Dict.{Dict, get-set_self}
use istos.Queue.Job.{Bytes}
use istos.Worker.Owner.{Posted, Instant, Claimed, Later, on_enqueue, on_claim, on_chord, on_ack}
use istos.Worker.Flow.{
  Callback, ChordPart, Workflow, Codec, Call, follows, reports, calls_back, acknowledges, rstrip,
  wf_for, chain_calls, chord_calls, calls_for,
}
use istos.Worker.Mesh.{
  Flight, Mesh, followed, end_turn, put_owner, goes_on, note, queue_enqueue, sweep_owner, began,
  claim_at, nack_at, posted, follow_at, after_report, report_at, callback_at, acknowledged, ack_at,
  make_call, next_call,
}
use istos.Worker.Mesh.Grows.{on_enqueue-id, on_enqueue-IsOpen}
use istos.Worker.Mesh.Steady.{Open}

pub busy-queue_enqueue :
    (prefix : String) (p : Posted) (i : Instant) (m : Mesh)
    → (queue_enqueue prefix p i m).busy ≡ m.busy
unfolding queue_enqueue put_owner
busy-queue_enqueue prefix p i m = elim (Option-cases (Dict.get m.owners (rstrip prefix))) [
  | inl missing ↦ rw (queue_enqueue, missing) refl
  | inr ((o, e)) ↦ rw (queue_enqueue, e) refl
]

pub busy-sweep_owner : (p : String) (now : ℕ) (m : Mesh) → (sweep_owner p now m).busy ≡ m.busy
unfolding sweep_owner put_owner
busy-sweep_owner p now m = elim (Option-cases (Dict.get m.owners p)) [
  | inl missing ↦ rw (sweep_owner, missing) refl
  | inr ((o, e)) ↦ rw (sweep_owner, e) refl
]

pub busy-nack_at :
    (f : Flight) (error : String) (l : Later) (m : Mesh) → (nack_at f error l m).busy ≡ m.busy
unfolding nack_at put_owner
busy-nack_at f error l m = elim (Option-cases (Dict.get m.owners f.prefix)) [
  | inl missing ↦ rw (nack_at, missing) refl
  | inr ((o, e)) ↦ rw (nack_at, e) refl
]

pub busy-claim_at :
    (w : ℕ) (p : String) (now : ℕ) (m : Mesh)
    → ((claim_at w p now m).busy ≡ m.busy)
      ⊎ ((f : Flight) × ((claim_at w p now m).busy ≡ Dict.set m.busy w f) × (f.todo ≡ none))
unfolding claim_at put_owner
busy-claim_at w p now m = elim (Option-cases (Dict.get m.busy w)) [
  | inr ((f, e)) ↦ rw (claim_at, e) (inl refl)
  | inl idle ↦ elim (Option-cases (Dict.get m.owners p)) [
    | inl missing ↦ rw (claim_at, idle, missing) (inl refl)
    | inr ((o, e)) ↦
        rw (claim_at, idle, e) (reply (on_claim now o).1 (put_owner p (on_claim now o).0 m) refl)
  ]
]
  where
    reply :
        (r : Option Claimed) (n : Mesh)
        → n.busy ≡ m.busy
        → ((began w p r n).busy ≡ m.busy)
          ⊎ ((f : Flight) × ((began w p r n).busy ≡ Dict.set m.busy w f) × (f.todo ≡ none))
    reply none n same = inl same
    reply (some job) n same =
        let f : Flight = record { prefix = p; job = job; todo = none } in
        inr (f, ap (λ b. Dict.set b w f) same, refl)

pub calls_for-follows :
    (x : Workflow) (result : Bytes) (next : String) (rest : List String)
    → x.chain ≡ next ∷ rest
    → (more : List Call) × (calls_for x result ≡ follows next rest result ∷ more)
unfolding calls_for chain_calls
calls_for-follows x result next rest e =
    (chord_calls x.chord result ++ acknowledges result ∷ [], rw (calls_for, e) refl)

-- How a call of the loop `w` leaves what the loops are busy with.
pub data Ended (code : Codec) (m n : Mesh) (w : ℕ) (i : Instant) : Type 0 where
  unchanged : n.busy ≡ m.busy → Ended code m n w i
  removed : n.busy ≡ Dict.remove m.busy w → Ended code m n w i
  advanced :
      (f : Flight) (call : Call) (calls more : List Call)
      → Dict.get m.busy w ≡ some f
      → f.todo ≡ some (call ∷ calls)
      → ((next : String) (rest : List String) (result : Bytes) → call ≢ follows next rest result)
      → n.busy ≡ Dict.set m.busy w (record f { todo = some more })
      → Ended code m n w i
  stepped :
      (f : Flight) (next : String) (rest : List String) (result : Bytes) (more : List Call)
      → Dict.get m.busy w ≡ some f
      → f.todo ≡ some (follows next rest result ∷ more)
      → n.busy ≡ Dict.set m.busy w (record f { todo = some more })
      → In (followed (f.prefix, f.job.job_id) (rstrip next, i.fresh_id)) n.log
      → Open n (rstrip next) i.fresh_id (wf_for code rest)
      → Ended code m n w i

module _ (code : Codec) (m : Mesh) (w : ℕ) (i : Instant) (f : Flight)
    (busy : Dict.get m.busy w ≡ some f) where
  follow_at-Ended :
      (next : String) (rest : List String) (result : Bytes) (calls : List Call)
      → f.todo ≡ some (follows next rest result ∷ calls)
      → Ended code m (follow_at code w f next rest result calls i m) w i
  unfolding follow_at end_turn goes_on put_owner note
  follow_at-Ended next rest result calls todo =
      elim (Option-cases (Dict.get m.owners (rstrip next))) [
        | inl missing ↦ rw (follow_at, missing) (removed refl)
        | inr ((o, e)) ↦
            rw (follow_at, e)
              (stepped f next rest result calls busy todo refl
                (inl (
                  ap (λ j. followed (f.prefix, f.job.job_id) (rstrip next, j))
                    (sym (on_enqueue-id o (posted result (wf_for code rest)) i))))
                (
                  (on_enqueue (posted result (wf_for code rest)) i o).0,
                  get-set_self m.owners (rstrip next)
                      (on_enqueue (posted result (wf_for code rest)) i o).0,
                  on_enqueue-IsOpen o (posted result (wf_for code rest)) i,
                ))
      ]

  report_at-Ended :
      (part : ChordPart) (result : Bytes) (calls : List Call)
      → f.todo ≡ some (reports part result ∷ calls)
      → Ended code m (report_at code w f part result calls i m) w i
  unfolding report_at goes_on put_owner
  report_at-Ended part result calls todo = elim (Option-cases (Dict.get m.owners f.prefix)) [
    | inl missing ↦
        rw (report_at, missing)
          (advanced f (reports part result) calls calls busy todo (λ a b c e. absurd (cc)) refl)
    | inr ((o, e)) ↦
        rw (report_at, e)
          (advanced f (reports part result) calls
            (after_report code part.callback
              (on_chord part.id part.index part.size (code.b64encode result) i.now o).1 calls)
            busy todo (λ a b c e. absurd (cc)) refl)
  ]

  callback_at-Ended :
      (callback : Callback) (results : List (Option String)) (calls : List Call)
      → f.todo ≡ some (calls_back callback results ∷ calls)
      → Ended code m (callback_at code w f callback results calls i m) w i
  unfolding callback_at end_turn goes_on put_owner
  callback_at-Ended callback results calls todo =
      elim (Option-cases (code.callback_body callback results)) [
        | inl unsent ↦ rw (callback_at, unsent) (removed refl)
        | inr ((body, sent)) ↦ elim (Option-cases (Dict.get m.owners (rstrip callback.prefix))) [
          | inl missing ↦ rw (callback_at, sent, missing) (removed refl)
          | inr ((o, e)) ↦
              rw (callback_at, sent, e)
                (advanced f (calls_back callback results) calls calls busy todo
                  (λ a b c e. absurd (cc)) refl)
        ]
      ]

  ack_at-Ended : (result : Bytes) → Ended code m (ack_at code w f result i m) w i
  unfolding ack_at end_turn put_owner
  ack_at-Ended result = elim (Option-cases (Dict.get m.owners f.prefix)) [
    | inl missing ↦ rw (ack_at, missing) (removed refl)
    | inr ((o, e)) ↦
        rw (ack_at, e)
          (removed (
            ap (λ b. Dict.remove b w)
              (busy-acknowledged (on_ack f.job.job_id result (some f.job.attempt) i.now o).1 (
                put_owner f.prefix (on_ack f.job.job_id result (some f.job.attempt) i.now o).0 m))))
  ]
    where
      busy-acknowledged : (ok : Bool) (n : Mesh) → (acknowledged code f ok n).busy ≡ n.busy
      busy-acknowledged true n = refl
      busy-acknowledged false n = refl

  make_call-Ended :
      (calls : List Call) → f.todo ≡ some calls → Ended code m (make_call code w f calls i m) w i
  unfolding make_call end_turn
  make_call-Ended [] todo = removed refl
  make_call-Ended (follows next rest result ∷ calls) todo =
      follow_at-Ended next rest result calls todo
  make_call-Ended (reports part result ∷ calls) todo = report_at-Ended part result calls todo
  make_call-Ended (calls_back callback results ∷ calls) todo =
      callback_at-Ended callback results calls todo
  make_call-Ended (acknowledges result ∷ calls) todo = ack_at-Ended result

pub next_call-Ended :
    (code : Codec) (m : Mesh) (w : ℕ) (i : Instant) → Ended code m (next_call code w i m) w i
unfolding next_call
next_call-Ended code m w i = elim (Option-cases (Dict.get m.busy w)) [
  | inl idle ↦ rw (next_call, idle) (unchanged refl)
  | inr ((f, e)) ↦ elim (Option-cases f.todo) [
    | inl running ↦ rw (next_call, e, running) (unchanged refl)
    | inr ((calls, todo)) ↦ rw (next_call, e, todo) (make_call-Ended code m w i f e calls todo)
  ]
]
