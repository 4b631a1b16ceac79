-- ===== src/Worker/Mesh.antt =====
-- Queue owners and workers on one mesh: the loop of src/istos/queue/worker.py, call by call, among the
-- calls of other workers and of clients.
pub mod Settings
pub mod Grows
pub mod Steady
pub mod Acts
pub mod Calls
pub mod Kept
pub mod Chains
pub mod Lasting
use istos.Prelude.{
  ℕ, Bool, true, false, ◌&&◌, Option, none, some, List, [], ◌∷◌, ◌++◌, String, ℤ, pos, text_key,
  number_key, ◌==◌, if◌then◌else◌,
}
use istos.Dict
use istos.Dict.{Dict}
use istos.Queue.Job.{JobContext, Bytes}
use istos.Queue.Store.{Disposition}
use istos.Queue.Upkeep.{sweep}
use istos.Queue.Chord.{ChordReply}
use istos.Worker.Owner.{
  Owner, Posted, Instant, Claimed, Later, on_enqueue, on_claim, on_ack, on_nack, on_chord,
}
use istos.Worker.Flow.{
  Callback, ChordPart, Workflow, Codec, Call, follows, reports, calls_back, acknowledges, rstrip,
  context_of, wf_for, workflow_of, calls_for,
}

-- A job that a worker has claimed. The calls to make are there once its body has returned.
pub record Flight : Type 0 where
  pub prefix : String
  pub job : Claimed
  pub todo : Option (List Call)

-- A worker has enqueued the next step of a job's chain; an owner has accepted the ack of a job.
pub data MeshEvent : Type 0 where
  followed : String × ℕ → String × ℕ → MeshEvent
  acked : String × ℕ → MeshEvent

-- The owners by prefix, what each claim loop is busy with, and what has happened, newest first.
pub record Mesh : Type 0 where
  pub owners : Dict String Owner
  pub busy : Dict ℕ Flight
  pub log : List MeshEvent

-- How `_run_body` ends: with a result, which the serializer may refuse, or with an exception.
pub data Outcome : Type 0 where
  returned : Option Bytes → Outcome
  raised : String → Outcome

unfoldable pub end_turn : ℕ → Mesh → Mesh
end_turn w m = record m { busy = Dict.remove m.busy w }

unfoldable pub put_owner : String → Owner → Mesh → Mesh
put_owner p o m = record m { owners = Dict.set m.owners p o }

unfoldable pub goes_on : ℕ → Flight → List Call → Mesh → Mesh
goes_on w f calls m = record m { busy = Dict.set m.busy w (record f { todo = some calls }) }

unfoldable pub note : MeshEvent → Mesh → Mesh
note e m = record m { log = e ∷ m.log }

-- `_queue_enqueue` of a client; without an owner it raises.
unfoldable pub queue_enqueue : String → Posted → Instant → Mesh → Mesh
unfolding put_owner
queue_enqueue prefix p i m = elim (Dict.get m.owners (rstrip prefix)) [
  | none ↦ m
  | some o ↦ put_owner (rstrip prefix) (on_enqueue p i o).0 m
]

unfoldable pub sweep_owner : String → ℕ → Mesh → Mesh
unfolding put_owner
sweep_owner p now m = elim (Dict.get m.owners p) [
  | none ↦ m
  | some o ↦ put_owner p (record o { store = (sweep now o.store).0 }) m
]

-- A claim loop that is not busy claims.
unfoldable pub began : ℕ → String → Option Claimed → Mesh → Mesh
began w p none m = m
began w p (some job) m = record m {
  busy = Dict.set m.busy w (record { prefix = p; job = job; todo = none });
}

unfoldable pub claim_at : ℕ → String → ℕ → Mesh → Mesh
unfolding began put_owner
claim_at w p now m = elim (Dict.get m.busy w) [
  | some f ↦ m
  | none ↦ elim (Dict.get m.owners p) [
    | none ↦ m
    | some o ↦ let (after, reply) = on_claim now o in began w p reply (put_owner p after m)
  ]
]

-- The nack of a body that has raised. An owner that does not answer changes nothing.
unfoldable pub nack_at : Flight → String → Later → Mesh → Mesh
unfolding put_owner
nack_at f error l m = elim (Dict.get m.owners f.prefix) [
  | none ↦ m
  | some o ↦ put_owner f.prefix (on_nack f.job.job_id error f.job.attempt l o).0 m
]

-- A job that a worker enqueues.
abbrev pub posted : Bytes → Option String → Posted
posted body wf = record {
  body = body;
  priority = pos 0;
  delay_s = pos 0;
  wf = wf;
  correlation_id = none;
  traceparent = none;
}

-- One event on the mesh: a call of a client, a sweep of an owner, a claim of an idle loop, the end of a job's
-- body, the next call of a loop that has finished a body, or the end of a turn by a crash, by a
-- cancellation or by a call that failed on the way.
pub data Act : Type 0 where
  enqueues : String → Posted → Instant → Act
  sweeps : String → ℕ → Act
  claims : ℕ → String → ℕ → Act
  runs : ℕ → (Bytes → JobContext → Outcome) → Later → Act
  carries_on : ℕ → Instant → Act
  drops : ℕ → Act

-- `chain` of src/istos/app/queues.py with a first prefix and the rest: the job of the first step.
unfoldable pub first_step : Codec → String → List String → Posted → Instant → Act
first_step code prefix rest q i =
    enqueues prefix (record q { delay_s = pos 0; wf = wf_for code rest }) i

-- The whole call; without a prefix it raises ValueError.
unfoldable pub chain : Codec → List String → Posted → Instant → Option Act
unfolding first_step
chain code [] q i = none
chain code (prefix ∷ rest) q i = some (first_step code prefix rest q i)

module _ (code : Codec) where
  -- A workflow that cannot be decoded ends the turn without an ack.
  unfoldable pub plan : ℕ → Flight → Bytes → Option Workflow → Mesh → Mesh
  unfolding end_turn goes_on
  plan w f result none m = end_turn w m
  plan w f result (some wf) m = goes_on w f (calls_for wf result) m

  unfoldable pub body_ended : ℕ → Flight → Later → Outcome → Mesh → Mesh
  unfolding plan nack_at
  body_ended w f l (returned (some result)) m = plan w f result (workflow_of code f.job.wf) m
  body_ended w f l (returned none) m = end_turn w m
  body_ended w f l (raised error) m = end_turn w (nack_at f error l m)

  unfoldable pub run_body_at : ℕ → (Bytes → JobContext → Outcome) → Later → Mesh → Mesh
  unfolding body_ended
  run_body_at w func l m = elim (Dict.get m.busy w) [
    | none ↦ m
    | some f ↦ elim f.todo [
      | none ↦ body_ended w f l (func f.job.body (context_of f.prefix f.job)) m
      | some calls ↦ m
    ]
  ]

  -- The next step of the chain. Without an owner the enqueue raises, and the turn ends without an ack.
  unfoldable pub follow_at :
      ℕ → Flight → String → List String → Bytes → List Call → Instant → Mesh → Mesh
  unfolding end_turn goes_on put_owner note
  follow_at w f next rest result calls i m = elim (Dict.get m.owners (rstrip next)) [
    | none ↦ end_turn w m
    | some o ↦
        let (after, id) = on_enqueue (posted result (wf_for code rest)) i o in
        note (followed (f.prefix, f.job.job_id) (rstrip next, id))
          (goes_on w f calls (put_owner (rstrip next) after m))
  ]

  unfoldable pub after_report : Callback → ChordReply → List Call → List Call
  after_report callback ChordReply.invalid calls = calls
  after_report callback ChordReply.waiting calls = calls
  after_report callback (ChordReply.complete results) calls = calls_back callback results ∷ calls

  unfoldable pub report_at : ℕ → Flight → ChordPart → Bytes → List Call → Instant → Mesh → Mesh
  unfolding goes_on put_owner after_report
  report_at w f part result calls i m = elim (Dict.get m.owners f.prefix) [
    | none ↦ goes_on w f calls m
    | some o ↦
        let (after, reply) =
          on_chord part.id part.index part.size (code.b64encode result) i.now o in
        goes_on w f (after_report part.callback reply calls) (put_owner f.prefix after m)
  ]

  unfoldable pub callback_at :
      ℕ → Flight → Callback → List (Option String) → List Call → Instant → Mesh → Mesh
  unfolding end_turn goes_on put_owner
  callback_at w f callback results calls i m = elim (code.callback_body callback results) [
    | none ↦ end_turn w m
    | some body ↦ elim (Dict.get m.owners (rstrip callback.prefix)) [
      | none ↦ end_turn w m
      | some o ↦
          goes_on w f calls
            (put_owner (rstrip callback.prefix) (on_enqueue (posted body none) i o).0 m)
    ]
  ]

  unfoldable pub acknowledged : Flight → Bool → Mesh → Mesh
  unfolding note
  acknowledged f ok m = if ok then note (acked (f.prefix, f.job.job_id)) m else m

  unfoldable pub ack_at : ℕ → Flight → Bytes → Instant → Mesh → Mesh
  unfolding end_turn put_owner acknowledged
  ack_at w f result i m = elim (Dict.get m.owners f.prefix) [
    | none ↦ end_turn w m
    | some o ↦
        let (after, ok) = on_ack f.job.job_id result (some f.job.attempt) i.now o in
        end_turn w (acknowledged f ok (put_owner f.prefix after m))
  ]

  unfoldable pub make_call : ℕ → Flight → List Call → Instant → Mesh → Mesh
  unfolding follow_at report_at callback_at ack_at end_turn
  make_call w f [] i m = end_turn w m
  make_call w f (follows next rest result ∷ calls) i m = follow_at w f next rest result calls i m
  make_call w f (reports part result ∷ calls) i m = report_at w f part result calls i m
  make_call w f (calls_back callback results ∷ calls) i m =
      callback_at w f callback results calls i m
  make_call w f (acknowledges result ∷ calls) i m = ack_at w f result i m

  unfoldable pub next_call : ℕ → Instant → Mesh → Mesh
  unfolding make_call
  next_call w i m = elim (Dict.get m.busy w) [
    | none ↦ m
    | some f ↦ elim f.todo [ none ↦ m | some calls ↦ make_call w f calls i m ]
  ]

  unfoldable pub act : Mesh → Act → Mesh
  unfolding queue_enqueue sweep_owner claim_at run_body_at next_call end_turn
  act m (enqueues prefix p i) = queue_enqueue prefix p i m
  act m (sweeps p now) = sweep_owner p now m
  act m (claims w p now) = claim_at w p now m
  act m (runs w func l) = run_body_at w func l m
  act m (carries_on w i) = next_call w i m
  act m (drops w) = end_turn w m

  unfoldable pub run : Mesh → List Act → Mesh
  unfolding act
  run m [] = m
  run m (a ∷ acts) = run (act m a) acts
