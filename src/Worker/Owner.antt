-- ===== src/Worker/Owner.antt =====
-- The handlers of `QueueRole` (src/istos/queue/role.py) on the store, with the parameters of a request
-- decoded and the caller authorized, and what they reply.
use istos.Prelude.{ℕ, Bool, Option, none, some, [], ◌∷◌, String, ℤ, text_key, ◌==◌, if◌then◌else◌}
use istos.Queue.Job.{JobRecord, Bytes}
use istos.Queue.State.{QueueStore}
use istos.Queue.Store.{Enqueue, add, claim, ack, nack, Disposition}
use istos.Queue.Chord.{ChordReply, chord_report}

pub record Owner : Type 0 where
  pub store : QueueStore
  pub max_attempts : ℕ
  pub lease_s : ℕ

-- The parameters and the envelope of a request to enqueue.
pub record Posted : Type 0 where
  pub body : Bytes
  pub priority : ℤ
  pub delay_s : ℤ
  pub wf : Option String
  pub correlation_id : Option String
  pub traceparent : Option String

-- What `add` reads outside the store.
pub record Instant : Type 0 where
  pub fresh_id : ℕ
  pub now : ℕ
  pub created : ℕ
  pub offered : ℕ

unfoldable pub to_add : Owner → Posted → Instant → Enqueue
to_add o p i = record {
  body = p.body;
  max_attempts = o.max_attempts;
  priority = p.priority;
  delay_s = p.delay_s;
  wf = p.wf;
  correlation_id = p.correlation_id;
  traceparent = p.traceparent;
  fresh_id = i.fresh_id;
  now = i.now;
  created = i.created;
  offered = i.offered;
}

unfoldable pub on_enqueue : Posted → Instant → Owner → Owner × ℕ
unfolding to_add
on_enqueue p i o = let (s, id) = add (to_add o p i) o.store in (record o { store = s }, id)

-- The reply to a claim.
pub record Claimed : Type 0 where
  pub job_id : ℕ
  pub attempt : ℕ
  pub max_attempts : ℕ
  pub last_error : Option String
  pub body : Bytes
  pub wf : Option String
  pub correlation_id : Option String
  pub traceparent : Option String

unfoldable pub claim_reply : JobRecord → Claimed
claim_reply rec = record {
  job_id = rec.id;
  attempt = rec.attempts;
  max_attempts = rec.max_attempts;
  last_error = rec.last_error;
  body = rec.body;
  wf = rec.wf;
  correlation_id = rec.correlation_id;
  traceparent = rec.traceparent;
}

unfoldable pub claim_replied : Option JobRecord → Option Claimed
unfolding claim_reply
claim_replied none = none
claim_replied (some rec) = some (claim_reply rec)

unfoldable pub on_claim : ℕ → Owner → Owner × Option Claimed
unfolding claim_replied
on_claim now o =
    let (s, rec) = claim now o.lease_s o.store in (record o { store = s }, claim_replied rec)

-- `payload or None`
unfoldable pub bytes_or_none : Bytes → Option Bytes
bytes_or_none [] = none
bytes_or_none (b ∷ bs) = some (b ∷ bs)

unfoldable pub text_or_none : String → Option String
text_or_none s = if s == "" then none else some s

unfoldable pub on_ack : ℕ → Bytes → Option ℕ → ℕ → Owner → Owner × Bool
unfolding bytes_or_none
on_ack job_id payload attempt now o =
    let (s, ok) = ack job_id (bytes_or_none payload) attempt now o.store in
    (record o { store = s }, ok)

-- The delay that `_backoff` gives, and the clock when the job is settled and when it is offered.
pub record Later : Type 0 where
  pub retry_delay_s : ℤ
  pub now : ℕ
  pub offered : ℕ

unfoldable pub on_nack : ℕ → String → ℕ → Later → Owner → Owner × Option Disposition
unfolding text_or_none
on_nack job_id payload attempt l o =
    let (s, disposition) =
      nack job_id
        (record {
          error = text_or_none payload;
          retry_delay_s = l.retry_delay_s;
          attempt = some attempt;
          now = l.now;
          offered = l.offered;
        })
        o.store in
    (record o { store = s }, disposition)

unfoldable pub on_chord : String → ℤ → ℤ → String → ℕ → Owner → Owner × ChordReply
unfolding text_or_none
on_chord chord_id index size payload now o =
    let (s, reply) =
      chord_report chord_id now
        (record { index = index; size = size; result = text_or_none payload }) o.store in
    (record o { store = s }, reply)
