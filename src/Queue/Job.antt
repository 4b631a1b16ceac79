-- ===== src/Queue/Job.antt =====
-- JobState, JobRecord and JobContext of src/istos/queue/store.py, with the keys under which the
-- heaps hold a job. Job ids are `uuid4().hex`: 32 hexadecimal digits of fixed width, whose order
-- as strings is that of the numbers they spell, so an id is a number here. Times are numbers of
-- clock ticks. A result is base64 text in the source and the bytes under it here.
use istos.Prelude.{
  ℕ, ◌≡◌, ◌⊎◌, Bool, true, false, ◌||◌, ◌&&◌, Option, none, some, List, String, arith, ltb, leb,
  nat_beq, ℤ, neg, ltb_ℤ, if◌then◌else◌, ◌==◌, text_key,
}
use istos.Heap.{TotalOrder}

pub data JobState : Type 0 where
  ready leased dead done : JobState

abbrev pub state_beq : JobState → JobState → Bool
state_beq ready ready = true
state_beq leased leased = true
state_beq dead dead = true
state_beq done done = true
state_beq _ _ = false

abbrev pub Bytes : Type 0
Bytes = List ℕ

pub record JobRecord : Type 0 where
  pub id : ℕ
  pub body : Bytes
  pub state : JobState
  pub attempts : ℕ
  pub max_attempts : ℕ
  pub enqueued_at : ℕ
  pub lease_until : ℕ
  pub not_before : ℕ
  pub priority : ℤ
  pub seq : ℕ
  pub last_error : Option String
  pub result : Option Bytes
  pub completed_at : ℕ
  pub wf : Option String
  pub correlation_id : Option String
  pub traceparent : Option String

pub record JobContext : Type 0 where
  pub job_id : ℕ
  pub queue : String
  pub attempt : ℕ
  pub max_attempts : ℕ
  pub last_error : Option String
  pub correlation_id : Option String
  pub traceparent : Option String

unfoldable pub is_retry : JobContext → Bool
is_retry c = ltb 1 c.attempt

unfoldable pub is_last_attempt : JobContext → Bool
is_last_attempt c = leb c.max_attempts c.attempt

-- `error or text`: an absent or empty error gives the text.
unfoldable pub or_text : Option String → String → Option String
or_text none text = some text
or_text (some error) text = if error == "" then some text else some error

-- The tuples (-priority, seq, id) and (time, id), compared place by place.
pub record ReadyEntry : Type 0 where
  pub rank : ℤ
  pub seq : ℕ
  pub id : ℕ

pub record TimedEntry : Type 0 where
  pub due : ℕ
  pub id : ℕ

abbrev pub ready_entry : JobRecord → ReadyEntry
ready_entry rec = record { rank = neg rec.priority; seq = rec.seq; id = rec.id }

unfoldable pub timed_le : TimedEntry → TimedEntry → Bool
timed_le a b = ltb a.due b.due || (nat_beq a.due b.due && leb a.id b.id)

seq_le : ReadyEntry → ReadyEntry → Bool
seq_le a b = ltb a.seq b.seq || (nat_beq a.seq b.seq && leb a.id b.id)

unfoldable pub ready_le : ReadyEntry → ReadyEntry → Bool
unfolding seq_le
ready_le a b =
    if ltb_ℤ a.rank b.rank then true else if ltb_ℤ b.rank a.rank then false else seq_le a b

pub timed_le_total : (a b : TimedEntry) → (timed_le a b ≡ true) ⊎ (timed_le b a ≡ true)
unfolding timed_le
timed_le_total a b = ground arith

pub timed_le_trans :
    (a b c : TimedEntry) → timed_le a b ≡ true → timed_le b c ≡ true → timed_le a c ≡ true
unfolding timed_le
timed_le_trans a b c p q = ground arith

seq_le_total : (a b : ReadyEntry) → (seq_le a b ≡ true) ⊎ (seq_le b a ≡ true)
unfolding seq_le
seq_le_total a b = ground arith

seq_le_trans : (a b c : ReadyEntry) → seq_le a b ≡ true → seq_le b c ≡ true → seq_le a c ≡ true
unfolding seq_le
seq_le_trans a b c p q = ground arith

-- `ltb_ℤ` over the parts of an integer, as numbers.
ltb_ℤ_trans : (a b c : ℤ) → ltb_ℤ b a ≡ false → ltb_ℤ c b ≡ false → ltb_ℤ c a ≡ false
ltb_ℤ_trans a b c p q = ground arith

pub ready_le_total : (a b : ReadyEntry) → (ready_le a b ≡ true) ⊎ (ready_le b a ≡ true)
unfolding ready_le
ready_le_total a b = ground arith

pub ready_le_trans :
    (a b c : ReadyEntry) → ready_le a b ≡ true → ready_le b c ≡ true → ready_le a c ≡ true
unfolding ready_le
ready_le_trans a b c p q = ground arith

instance abbrev pub ready_order : TotalOrder ReadyEntry
ready_order = record { le = ready_le; le_total = ready_le_total; le_trans = ready_le_trans }

instance abbrev pub timed_order : TotalOrder TimedEntry
timed_order = record { le = timed_le; le_total = timed_le_total; le_trans = timed_le_trans }
