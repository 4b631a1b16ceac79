-- ===== src/Channel/Recall.antt =====
-- The history of a durable channel is what went through it (src/istos/primitives/channel.py).
use istos.Prelude.{
  ℕ, ◌≡◌, refl, sym, ap, ◌∙◌, inl, inr, Bool, true, Option, some, List, [], ◌∷◌, ◌++◌, String,
  text_key, Bool-cases, Option-cases,
}
use mathlib.Core.List.{append_assoc, append-nil}
use istos.Json.{Json}
use istos.Ledger.{Storage}
use istos.Channel.{
  Entry, Item, message, close_mark, ChannelSession, append, logged_turn, feed, close, Outcome,
  received, sent, blocks, channel_closed, raised, quiet, send, receive_item, receive, Call, feeds,
  closes, sends, receives, step, run,
}
use istos.Channel.Logged.{stored, stored-append}

-- The entry that a call makes when it goes well.
abbrev pub made_by : Call → Outcome → List Entry
made_by (receives ts now) (received c) = record { direction = "in"; content = c; ts = ts } ∷ []
made_by (receives ts now) sent = []
made_by (receives ts now) blocks = []
made_by (receives ts now) channel_closed = []
made_by (receives ts now) raised = []
made_by (receives ts now) quiet = []
made_by (sends c taken ts now) sent = record { direction = "out"; content = c; ts = ts } ∷ []
made_by (sends c taken ts now) (received d) = []
made_by (sends c taken ts now) blocks = []
made_by (sends c taken ts now) channel_closed = []
made_by (sends c taken ts now) raised = []
made_by (sends c taken ts now) quiet = []
made_by (feeds raw) o = []
made_by closes o = []

-- What the calls receive and send, in their order.
abbrev pub made :
    (Json → Option (List ℕ)) → (List ℕ → Option Json) → List Call → ChannelSession → List Entry
made serialize deserialize [] s = []
made serialize deserialize (x ∷ xs) s =
    let out = step serialize deserialize x s in
    made_by x out.1 ++ made serialize deserialize xs out.0

module _ (id : String) where
  abbrev pub Durable : ChannelSession → Storage Entry → Type 0
  Durable s st = (s.storage ≡ some st) × (s.conversation_id ≡ some id)

  -- The log has the entries in addition to those of the storage.
  abbrev pub Gains : ChannelSession → Storage Entry → List Entry → Type 0
  Gains s st more =
      (after : Storage Entry) × Durable s after × (stored id after ≡ stored id st ++ more)

  stays : (s : ChannelSession) (st : Storage Entry) → Durable s st → Gains s st []
  stays s st d = (st, d, sym (append-nil (stored id st)))

  logged_turn-Gains :
      (direction : String) (c : Json) (ts now : ℕ) (s : ChannelSession) (st : Storage Entry)
      → Durable s st
      → Gains
          (logged_turn direction c ts now s)
          st
          (record { direction = direction; content = c; ts = ts } ∷ [])
  unfolding logged_turn
  logged_turn-Gains direction c ts now s st (kept, named) = (
    append id direction c ts now st,
    rw (logged_turn, kept, named) (refl, named),
    stored-append id direction c ts now st,
  )

  module _ (serialize : Json → Option (List ℕ)) (deserialize : List ℕ → Option Json) where
    feed-Gains :
        (raw : List ℕ) (s : ChannelSession) (st : Storage Entry)
        → Durable s st
        → Gains (feed raw s) st []
    unfolding feed
    feed-Gains raw s st d = elim (Bool-cases s.closed) [
      | inl shut ↦ rw (shut) (stays s st d)
      | inr alive ↦ rw (alive) (stays (record s { inbound = s.inbound ++ message raw ∷ [] }) st d)
    ]

    close-Gains : (s : ChannelSession) (st : Storage Entry) → Durable s st → Gains (close s) st []
    unfolding close
    close-Gains s st d = elim (Bool-cases s.closed) [
      | inl shut ↦ rw (shut) (stays s st d)
      | inr alive ↦
          rw (alive)
            (stays (record s { closed = true; inbound = s.inbound ++ close_mark ∷ [] }) st d)
    ]

    send-Gains :
        (c : Json) (taken : Bool) (ts now : ℕ) (s : ChannelSession) (st : Storage Entry)
        → Durable s st
        → let out = send serialize deserialize c taken ts now s in
          Gains out.0 st (made_by (sends c taken ts now) out.1)
    unfolding send
    send-Gains c taken ts now s st d = elim (Bool-cases s.closed) [
      | inl shut ↦ rw (shut) (stays s st d)
      | inr alive ↦ elim (Option-cases (serialize c)) [
        | inl bad ↦ rw (alive, bad) (stays s st d)
        | inr (raw, good) ↦ elim (Bool-cases taken) [
          | inl went ↦
              rw (alive, good, went)
                (logged_turn-Gains "out" c ts now (record s { peer = s.peer ++ raw ∷ [] }) st d)
          | inr failed ↦ rw (alive, good, failed) (stays s st d)
        ]
      ]
    ]

    item-Gains :
        (items : List Item) (ts now : ℕ) (s : ChannelSession) (st : Storage Entry)
        → Durable s st
        → let out = receive_item serialize deserialize items ts now s in
          Gains out.0 st (made_by (receives ts now) out.1)
    unfolding receive_item
    item-Gains [] ts now s st d = stays s st d
    item-Gains (close_mark ∷ items) ts now s st d =
        stays (record s { inbound = items ++ close_mark ∷ [] }) st d
    item-Gains (message raw ∷ items) ts now s st d = elim (Option-cases (deserialize raw)) [
      | inl bad ↦ rw (receive_item, bad) (stays (record s { inbound = items }) st d)
      | inr (c, good) ↦
          rw (receive_item, good)
            (logged_turn-Gains "in" c ts now (record s { inbound = items }) st d)
    ]

    step-Gains :
        (x : Call) (s : ChannelSession) (st : Storage Entry)
        → Durable s st
        → let out = step serialize deserialize x s in Gains out.0 st (made_by x out.1)
    unfolding step receive
    step-Gains (feeds raw) s st d = feed-Gains raw s st d
    step-Gains closes s st d = close-Gains s st d
    step-Gains (sends c taken ts now) s st d = send-Gains c taken ts now s st d
    step-Gains (receives ts now) s st d = item-Gains s.inbound ts now s st d

    pub run-Gains :
        (xs : List Call) (s : ChannelSession) (st : Storage Entry)
        → Durable s st
        → Gains (run serialize deserialize xs s) st (made serialize deserialize xs s)
    unfolding run
    run-Gains [] s st d = stays s st d
    run-Gains (x ∷ xs) s st d =
        let out = step serialize deserialize x s in
        let (after, d', e) = step-Gains x s st d in
        let (last, d'', e') = run-Gains xs out.0 after d' in
        (
          last,
          d'',
          e'
              ∙ ap (λ (l : List Entry). l ++ made serialize deserialize xs out.0) e
              ∙ append_assoc (stored id st) (made_by x out.1) (made serialize deserialize xs out.0),
        )
