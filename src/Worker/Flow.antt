-- ===== src/Worker/Flow.antt =====
-- The workflow that a job carries, and what a worker does with it once the job's body has returned:
-- `_advance_workflow` of src/istos/queue/worker.py, and `chain` of src/istos/app/queues.py.
use istos.Prelude.{
  ◌&&◌, Option, none, some, List, [], ◌∷◌, ◌++◌, String, ℤ, text_key, number_key, ◌==◌,
  if◌then◌else◌,
}
use Prim.Native.Char.{code}
use istos.Queue.Job.{JobContext, Bytes}
use istos.Worker.Owner.{Claimed}

pub record Callback : Type 0 where
  pub prefix : String
  pub body : Bytes

pub record ChordPart : Type 0 where
  pub id : String
  pub index : ℤ
  pub size : ℤ
  pub callback : Callback

-- The dictionary under `wf`. An absent chain is an empty one.
pub record Workflow : Type 0 where
  pub chain : List String
  pub chord : Option ChordPart

-- JSON under base64, base64 alone, and the serializer on what a callback gets.
pub record Codec : Type 0 where
  pub encode_wf : Workflow → String
  pub decode_wf : String → Option Workflow
  pub b64encode : Bytes → String
  pub callback_body : Callback → List (Option String) → Option Bytes

abbrev pub chain_only : List String → Workflow
chain_only prefixes = record { chain = prefixes; chord = none }

-- `text.rstrip("/")`
unfoldable pub rstrip : String → String
rstrip String.[] = String.[]
rstrip (String.◌∷◌ c s) =
    let rest = rstrip s in if rest == "" && code c == b'/' then String.[] else String.◌∷◌ c rest

unfoldable pub context_of : String → Claimed → JobContext
context_of prefix c = record {
  job_id = c.job_id;
  queue = prefix;
  attempt = c.attempt;
  max_attempts = c.max_attempts;
  last_error = c.last_error;
  correlation_id = c.correlation_id;
  traceparent = c.traceparent;
}

-- What is left to do for a job whose body has returned, in order.
pub data Call : Type 0 where
  follows : String → List String → Bytes → Call
  reports : ChordPart → Bytes → Call
  calls_back : Callback → List (Option String) → Call
  acknowledges : Bytes → Call

-- `_encode_wf({"chain": rest}) if rest else None`
unfoldable pub wf_for : Codec → List String → Option String
wf_for code [] = none
wf_for code (p ∷ rest) = some (code.encode_wf (chain_only (p ∷ rest)))

-- `if not wf_b64`, then `_decode_wf`, which may raise.
unfoldable pub workflow_of : Codec → Option String → Option Workflow
workflow_of code none = some (chain_only [])
workflow_of code (some s) = if s == "" then some (chain_only []) else code.decode_wf s

unfoldable pub chain_calls : List String → Bytes → List Call
chain_calls [] result = []
chain_calls (next ∷ rest) result = follows next rest result ∷ []

unfoldable pub chord_calls : Option ChordPart → Bytes → List Call
chord_calls none result = []
chord_calls (some part) result = reports part result ∷ []

-- The follow-on comes before the acknowledgement.
unfoldable pub calls_for : Workflow → Bytes → List Call
unfolding chain_calls chord_calls
calls_for wf result =
    chain_calls wf.chain result ++ chord_calls wf.chord result ++ acknowledges result ∷ []
