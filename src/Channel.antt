-- ===== src/Channel.antt =====
-- A duplex session and its durable log: `ChannelSession` of src/istos/primitives/channel.py on the
-- `SessionStore` of src/istos/primitives/session_store.py. The serializer is a parameter, and so is
-- whether the peer takes a message.
pub mod Logged
pub mod Recall
pub mod Transcript
mod Examples
use istos.Prelude.{
  ℕ, Bool, true, false, Option, none, some, List, [], ◌∷◌, ◌++◌, String, if◌then◌else◌, ℤ, pos,
  negsuc, text_key,
}
use Prim.Native.String
use istos.Json.{Json}
use istos.Ledger
use istos.Ledger.{Storage, Event}

-- `{dir, data, ts}`
pub record Entry : Type 0 where
  pub direction : String
  pub content : Json
  pub ts : ℕ

-- What waits in `_inbound`: a message as it came, or `_CLOSE`.
pub data Item : Type 0 where
  message : List ℕ → Item
  close_mark : Item

pub record ChannelSession : Type 0 where
  pub storage : Option (Storage Entry)
  pub conversation_id : Option String
  pub inbound : List Item
  pub closed : Bool
  pub peer : List (List ℕ)

-- `_key`
unfoldable pub conversation_key : String → String
conversation_key id = String.◌++◌ "conv:" id

unfoldable pub append : String → String → Json → ℕ → ℕ → Storage Entry → Storage Entry
unfolding conversation_key
append id direction content ts now s =
    Ledger.log (conversation_key id) (record { direction = direction; content = content; ts = ts })
      none now s

-- `[e["value"] for e in reversed(entries)]`
unfoldable pub oldest_first : List (Event Entry) → List Entry → List Entry
oldest_first [] out = out
oldest_first (e ∷ es) out = oldest_first es (e.value ∷ out)

unfoldable pub stored_history : String → ℤ → Storage Entry → List Entry
unfolding conversation_key oldest_first
stored_history id limit s = oldest_first (Ledger.get_log (conversation_key id) limit s) []

-- The turn is logged if the session is durable. The clock is read for the entry and by the log.
unfoldable pub logged_turn : String → Json → ℕ → ℕ → ChannelSession → ChannelSession
unfolding append
logged_turn direction content ts now s = elim (s.storage) [
  | none ↦ s
  | some st ↦ elim (s.conversation_id) [
    | none ↦ s
    | some id ↦ record s { storage = some (append id direction content ts now st) }
  ]
]

unfoldable pub history : ℤ → ChannelSession → List Entry
unfolding stored_history
history limit s = elim (s.storage) [
  | none ↦ []
  | some st ↦ elim (s.conversation_id) [ none ↦ [] | some id ↦ stored_history id limit st ]
]

unfoldable pub feed : List ℕ → ChannelSession → ChannelSession
feed raw s = if s.closed then s else record s { inbound = s.inbound ++ message raw ∷ [] }

unfoldable pub close : ChannelSession → ChannelSession
close s = if s.closed then s else record s { closed = true; inbound = s.inbound ++ close_mark ∷ [] }

pub data Outcome : Type 0 where
  received : Json → Outcome
  sent : Outcome
  blocks : Outcome
  channel_closed : Outcome
  raised : Outcome
  quiet : Outcome

pub data Call : Type 0 where
  feeds : List ℕ → Call
  closes : Call
  sends : Json → Bool → ℕ → ℕ → Call
  receives : ℕ → ℕ → Call

module _ (serialize : Json → Option (List ℕ)) (deserialize : List ℕ → Option Json) where
  unfoldable pub send : Json → Bool → ℕ → ℕ → ChannelSession → ChannelSession × Outcome
  unfolding logged_turn
  send content taken ts now s = if s.closed then (s, channel_closed) else elim (serialize content) [
    | none ↦ (s, raised)
    | some raw ↦
        if taken
        then (logged_turn "out" content ts now (record s { peer = s.peer ++ raw ∷ [] }), sent)
        else (s, raised)
  ]

  -- The item that the queue gives.
  unfoldable pub receive_item : List Item → ℕ → ℕ → ChannelSession → ChannelSession × Outcome
  unfolding logged_turn
  receive_item [] ts now s = (s, blocks)
  receive_item (close_mark ∷ items) ts now s =
      (record s { inbound = items ++ close_mark ∷ [] }, channel_closed)
  receive_item (message raw ∷ items) ts now s = elim (deserialize raw) [
    | none ↦ (record s { inbound = items }, raised)
    | some content ↦
        (logged_turn "in" content ts now (record s { inbound = items }), received content)
  ]

  unfoldable pub receive : ℕ → ℕ → ChannelSession → ChannelSession × Outcome
  unfolding receive_item
  receive ts now s = receive_item s.inbound ts now s

  unfoldable pub step : Call → ChannelSession → ChannelSession × Outcome
  unfolding feed close send receive
  step (feeds raw) s = (feed raw s, quiet)
  step closes s = (close s, quiet)
  step (sends content taken ts now) s = send content taken ts now s
  step (receives ts now) s = receive ts now s

  unfoldable pub run : List Call → ChannelSession → ChannelSession
  unfolding step
  run [] s = s
  run (x ∷ xs) s = run xs (step x s).0
