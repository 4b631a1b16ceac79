-- ===== src/Channel/Examples.antt =====
-- A short conversation over a channel, and the theorem applied to it.
use istos.Prelude.{
  ℕ, ◌≡◌, refl, true, false, Option, none, some, List, [], ◌∷◌, ◌++◌, pos, text_key,
}
use istos.Dict
use istos.Json.{Json, text}
use istos.Ledger
use istos.Ledger.{Storage, newest_first, take, logged, is_done, record_of}
use istos.Channel.{
  Entry, ChannelSession, conversation_key, append, oldest_first, stored_history, logged_turn,
  history, feed, close, send, receive_item, receive, Call, feeds, closes, sends, receives, step,
  run,
}
use istos.Channel.Logged.{IsEnd, stored}
use istos.Channel.Transcript.{transcript, run-history}

-- Any bytes are a greeting, and no bytes cannot be decoded.
abbrev serialize : Json → Option (List ℕ)
serialize v = some (1 ∷ [])

abbrev deserialize : List ℕ → Option Json
deserialize [] = none
deserialize (b ∷ raw) = some (text "hello")

abbrev empty_storage : Storage Entry
empty_storage = record { store = Dict.empty; event_log = Dict.empty; processed = Dict.empty }

abbrev session : ChannelSession
session = record {
  storage = some empty_storage;
  conversation_id = some "c1";
  inbound = [];
  closed = false;
  peer = [];
}

-- The second message cannot be decoded, and the last answer comes after the close.
abbrev calls : List Call
calls =
    feeds (1 ∷ [])
    ∷ receives 10 10
    ∷ sends (text "welcome") true 11 11
    ∷ feeds []
    ∷ receives 12 12
    ∷ closes
    ∷ sends (text "late") true 13 13
    ∷ []

recalled :
    history (pos 100) (run serialize deserialize calls session)
    ≡ record { direction = "in"; content = text "hello"; ts = 10 }
      ∷ record { direction = "out"; content = text "welcome"; ts = 11 }
      ∷ []
unfolding history run step feed close send receive receive_item logged_turn append stored_history
    oldest_first conversation_key Ledger.log Ledger.get_log newest_first take logged is_done
    record_of Dict.get Dict.set Dict.empty
recalled = refl

run-history_example :
    IsEnd 1
      (history (pos 1) (run serialize deserialize calls session))
      (stored "c1" empty_storage ++ transcript serialize deserialize true [] calls)
run-history_example =
    run-history serialize deserialize "c1" calls session empty_storage 1 refl refl refl refl
