-- ===== src/Queue/Codec.antt =====
-- `JobRecord.to_dict` and `JobRecord.from_dict` of src/istos/queue/store.py. A record has ids as numbers and
-- bodies and results as bytes, whose texts are a parameter. A value of another type than the field's,
-- a missing key and an unknown state are no result.
mod Examples
use istos.Prelude.{
  ◌>>=◌, ℕ, ◌≡◌, refl, true, false, Option, none, some, String, ℤ, pos, negsuc, if◌then◌else◌,
  text_key, ◌==◌,
}
use istos.Json.{Json, null, boolean, number, text, array, object, Fields, end, field, find, get_or}
use istos.Queue.Job.{JobState, JobRecord, Bytes}

-- Hexadecimal digits of ids, and base64.
pub record Texts : Type 0 where
  pub id_text : ℕ → String
  pub id_of : String → Option ℕ
  pub b64encode : Bytes → String
  pub b64decode : String → Option Bytes

pub record ReadsBack (t : Texts) : Type 0 where
  pub id_back : (n : ℕ) → t.id_of (t.id_text n) ≡ some n
  pub b64_back : (b : Bytes) → t.b64decode (t.b64encode b) ≡ some b

unfoldable pub state_value : JobState → String
state_value JobState.ready = "ready"
state_value JobState.leased = "leased"
state_value JobState.dead = "dead"
state_value JobState.done = "done"

-- `JobState(value)`
unfoldable pub state_of : String → Option JobState
state_of s =
    if s == "ready"
    then some JobState.ready
    else if s == "leased"
    then some JobState.leased
    else if s == "dead"
    then some JobState.dead
    else if s == "done"
    then some JobState.done
    else none

unfoldable pub null_or_text : Option String → Json
null_or_text none = null
null_or_text (some s) = text s

unfoldable pub as_text : Json → Option String
as_text (text s) = some s
as_text j = none

unfoldable pub as_count : Json → Option ℕ
as_count (number (pos n)) = some n
as_count j = none

unfoldable pub as_int : Json → Option ℤ
as_int (number i) = some i
as_int j = none

unfoldable pub as_optional : Json → Option (Option String)
as_optional null = some none
as_optional (text s) = some (some s)
as_optional j = none

module _ (t : Texts) where
  unfoldable pub result_text : Option Bytes → Option String
  result_text none = none
  result_text (some b) = some (t.b64encode b)

  unfoldable pub result_bytes : Option String → Option (Option Bytes)
  result_bytes none = some none
  result_bytes (some s) = do b ← t.b64decode s; some (some b)

  -- The fields, in front of others.
  unfoldable pub to_fields : JobRecord → Fields → Fields
  unfolding state_value null_or_text result_text
  to_fields r more = field "id" (text (t.id_text r.id)) (
      field "data" (text (t.b64encode r.body)) (
        field "state" (text (state_value r.state)) (
          field "attempts" (number (pos r.attempts)) (
            field "max_attempts" (number (pos r.max_attempts)) (
              field "enqueued_at" (number (pos r.enqueued_at)) (
                field "lease_until" (number (pos r.lease_until)) (
                  field "not_before" (number (pos r.not_before)) (
                    field "priority" (number r.priority) (
                      field "seq" (number (pos r.seq)) (
                        field "last_error" (null_or_text r.last_error) (
                          field "result" (null_or_text (result_text r.result)) (
                            field "completed_at" (number (pos r.completed_at)) (
                              field "wf" (null_or_text r.wf) (
                                field "correlation_id" (null_or_text r.correlation_id) (
                                  field "traceparent" (null_or_text r.traceparent)
                                    more)))))))))))))))

  unfoldable pub record_to_dict : JobRecord → Fields
  unfolding to_fields
  record_to_dict r = to_fields r end

  unfoldable pub record_from_dict : Fields → Option JobRecord
  unfolding find get_or state_of as_text as_count as_int as_optional result_bytes
  record_from_dict d = do
    id ← find "id" d >>= as_text >>= t.id_of
    body ← find "data" d >>= as_text >>= t.b64decode
    state ← find "state" d >>= as_text >>= state_of
    attempts ← find "attempts" d >>= as_count
    max_attempts ← find "max_attempts" d >>= as_count
    enqueued_at ← find "enqueued_at" d >>= as_count
    lease_until ← find "lease_until" d >>= as_count
    not_before ← as_count (get_or "not_before" (number (pos 0)) d)
    priority ← as_int (get_or "priority" (number (pos 0)) d)
    seq ← as_count (get_or "seq" (number (pos 0)) d)
    last_error ← as_optional (get_or "last_error" null d)
    result ← as_optional (get_or "result" null d) >>= result_bytes
    completed_at ← as_count (get_or "completed_at" (number (pos 0)) d)
    wf ← as_optional (get_or "wf" null d)
    correlation_id ← as_optional (get_or "correlation_id" null d)
    traceparent ← as_optional (get_or "traceparent" null d)
    some (record {
      id = id;
      body = body;
      state = state;
      attempts = attempts;
      max_attempts = max_attempts;
      enqueued_at = enqueued_at;
      lease_until = lease_until;
      not_before = not_before;
      priority = priority;
      seq = seq;
      last_error = last_error;
      result = result;
      completed_at = completed_at;
      wf = wf;
      correlation_id = correlation_id;
      traceparent = traceparent;
    })

  state_of-state_value : (s : JobState) → state_of (state_value s) ≡ some s
  unfolding state_of state_value
  state_of-state_value JobState.ready = refl
  state_of-state_value JobState.leased = refl
  state_of-state_value JobState.dead = refl
  state_of-state_value JobState.done = refl

  as_optional-null_or_text : (o : Option String) → as_optional (null_or_text o) ≡ some o
  unfolding as_optional null_or_text
  as_optional-null_or_text none = refl
  as_optional-null_or_text (some s) = refl

  result_bytes-result_text :
      ReadsBack t → (o : Option Bytes) → result_bytes (result_text o) ≡ some o
  unfolding result_bytes result_text
  result_bytes-result_text law none = refl
  result_bytes-result_text law (some b) = rw (law.b64_back b) refl

  -- A record that is written as a dictionary is read back as it was, whatever further fields come after
  -- its own, if the texts of ids and of bytes are read back.
  pub record_from_dict-to_fields :
      ReadsBack t → (r : JobRecord) (more : Fields) → record_from_dict (to_fields r more) ≡ some r
  unfolding record_from_dict to_fields find get_or as_text as_count as_int
  record_from_dict-to_fields law r more =
      rw
        (
          law.id_back r.id,
          law.b64_back r.body,
          state_of-state_value r.state,
          as_optional-null_or_text r.last_error,
          as_optional-null_or_text (result_text r.result),
          result_bytes-result_text law r.result,
          as_optional-null_or_text r.wf,
          as_optional-null_or_text r.correlation_id,
          as_optional-null_or_text r.traceparent,
        )
        refl
