-- ===== src/Ledger.antt =====
-- The durability ledger in memory (src/istos/consistency/storage.py), and the claims, executions and
-- releases of an exactly-once handler (src/istos/primitives/handler.py) on it. Each method of the
-- plugin holds its lock throughout, so it is one step.
pub mod Calls
pub mod Once
pub mod Final
mod Examples
use istos.Prelude.{
  ℕ, zero, suc, ◌+◌, ◌-◌, Bool, true, false, ◌&&◌, not, Option, none, some, List, [], ◌∷◌, ◌++◌,
  String, ltb, if◌then◌else◌, text_key, ◌==◌, ℤ, pos, negsuc,
}
use istos.Dict
use istos.Dict.{Dict}

-- `_Record`, with a result only once it is done.
pub data Record {ℓ} (V : Type ℓ) : Type ℓ where
  claimed_until : ℕ → Record V
  done : V → Record V

-- `Claim`: CLAIMED, IN_FLIGHT, or DONE with the result.
pub data Claim {ℓ} (V : Type ℓ) : Type ℓ where
  claimed : Claim V
  in_flight : Claim V
  finished : V → Claim V

pub record Event (V : Type 0) : Type 0 where
  pub value : V
  pub timestamp : ℕ
  pub idempotency_key : Option String

pub record Storage (V : Type 0) : Type 0 where
  pub store : Dict String V
  pub event_log : Dict String (List (Event V))
  pub processed : Dict String (Record V)

module _ {V : Type 0} where
  unfoldable pub put : String → V → Storage V → Storage V
  put key value s = record s { store = Dict.set s.store key value }

  unfoldable pub get : String → Storage V → Option V
  get key s = Dict.get s.store key

  unfoldable pub delete : String → Storage V → Storage V
  delete key s = record s { store = Dict.remove s.store key }

  unfoldable pub is_done : Option (Record V) → Bool
  is_done none = false
  is_done (some (claimed_until t)) = false
  is_done (some (done v)) = true

  -- The record of a key that is given and not empty.
  unfoldable pub record_of : Option String → Storage V → Option (Record V)
  record_of none s = none
  record_of (some k) s = if k == "" then none else Dict.get s.processed k

  unfoldable pub logged : Option (List (Event V)) → List (Event V)
  logged none = []
  logged (some events) = events

  unfoldable pub log : String → V → Option String → ℕ → Storage V → Storage V
  unfolding is_done record_of logged
  log key value idempotency_key now s =
      if is_done (record_of idempotency_key s) then s else record s {
        event_log = Dict.set s.event_log key (
            logged (Dict.get s.event_log key)
            ++ record { value = value; timestamp = now; idempotency_key = idempotency_key } ∷ []);
      }

  unfoldable pub newest_first : List (Event V) → List (Event V) → List (Event V)
  newest_first [] out = out
  newest_first (e ∷ es) out = newest_first es (e ∷ out)

  unfoldable pub take : ℕ → List (Event V) → List (Event V)
  take zero es = []
  take (suc n) [] = []
  take (suc n) (e ∷ es) = e ∷ take n es

  unfoldable pub get_log : String → ℤ → Storage V → List (Event V)
  unfolding newest_first take logged
  get_log key (negsuc n) s = []
  get_log key (pos n) s = take n (newest_first (logged (Dict.get s.event_log key)) [])

  -- The clock is read twice: for the lease that is there, and for the new one.
  unfoldable pub claim_found : String → ℕ → ℕ → Option (Record V) → Storage V → Storage V × Claim V
  claim_found key now until none s =
      (record s { processed = Dict.set s.processed key (claimed_until until) }, claimed)
  claim_found key now until (some (done v)) s = (s, finished v)
  claim_found key now until (some (claimed_until t)) s =
      if ltb now t
      then (s, in_flight)
      else (record s { processed = Dict.set s.processed key (claimed_until until) }, claimed)

  unfoldable pub claim_processed : String → ℕ → ℕ → ℕ → Storage V → Storage V × Claim V
  unfolding claim_found
  claim_processed key now again lease_s s =
      claim_found key now (again + lease_s) (Dict.get s.processed key) s

  unfoldable pub release_found : String → Option (Record V) → Storage V → Storage V
  release_found key none s = s
  release_found key (some (done v)) s = s
  release_found key (some (claimed_until t)) s = record s {
    processed = Dict.remove s.processed key;
  }

  unfoldable pub release_claim : String → Storage V → Storage V
  unfolding release_found
  release_claim key s = release_found key (Dict.get s.processed key) s

  unfoldable pub check_processed : String → Storage V → Option V
  check_processed key s = elim (Dict.get s.processed key) [
    | none ↦ none
    | some rec ↦ elim (rec) [ claimed_until t ↦ none | done v ↦ some v ]
  ]

  unfoldable pub mark_processed : String → V → Storage V → Storage V
  unfolding is_done
  mark_processed key result s =
      if is_done (Dict.get s.processed key)
      then s
      else record s { processed = Dict.set s.processed key (done result) }
