-- ===== src/Channel/Transcript.antt =====
-- What a durable channel is to remember (src/istos/primitives/channel.py), told without the session.
use istos.Prelude.{
  ℕ, min, ◌≡◌, refl, sym, ap, subst, ◌∙◌, inl, inr, Bool, true, false, not, Option, none, some,
  List, [], ◌∷◌, ◌++◌, String, pos, text_key, length, Option-cases, Bool-cases,
}
use istos.Json.{Json}
use istos.Ledger.{Storage}
use istos.Channel.{
  Entry, Item, message, close_mark, ChannelSession, logged_turn, history, feed, close, send,
  receive_item, receive, Call, feeds, closes, sends, receives, step, run,
}
use istos.Channel.Logged.{IsEnd, stored, stored-IsEnd}
use istos.Channel.Recall.{made_by, made, run-Gains}

-- The entry of a message that goes out: the channel is open, the message can be written as bytes,
-- and the transport takes it.
abbrev pub sent_entry : Bool → Option (List ℕ) → Bool → Json → ℕ → List Entry
sent_entry true (some raw) true c ts = record { direction = "out"; content = c; ts = ts } ∷ []
sent_entry true (some raw) false c ts = []
sent_entry true none taken c ts = []
sent_entry false raw taken c ts = []

-- The entry of a message that is read.
abbrev pub read_entry : Option Json → ℕ → List Entry
read_entry (some c) ts = record { direction = "in"; content = c; ts = ts } ∷ []
read_entry none ts = []

-- The messages that wait to be read, while the channel is open or is closed.
abbrev pub queue : Bool → List (List ℕ) → List Item
queue true [] = []
queue false [] = close_mark ∷ []
queue is_open (raw ∷ waiting) = message raw ∷ queue is_open waiting

-- A message that comes joins those that wait, if the channel is open.
abbrev pub joined : Bool → List ℕ → List (List ℕ) → List (List ℕ)
joined true raw waiting = waiting ++ raw ∷ []
joined false raw waiting = waiting

abbrev pub rest : List (List ℕ) → List (List ℕ)
rest [] = []
rest (raw ∷ waiting) = waiting

module _ (serialize : Json → Option (List ℕ)) (deserialize : List ℕ → Option Json) where
  -- The conversation that some calls make: messages that come while the channel is open wait to be
  -- read, oldest first; those that are read and can be decoded, and those that go out while the
  -- channel is open, are its entries. A close ends it, but what waits can still be read.
  abbrev pub transcript : Bool → List (List ℕ) → List Call → List Entry
  transcript is_open waiting [] = []
  transcript is_open waiting (feeds raw ∷ xs) = transcript is_open (joined is_open raw waiting) xs
  transcript is_open waiting (closes ∷ xs) = transcript false waiting xs
  transcript is_open waiting (sends c taken ts now ∷ xs) =
      sent_entry is_open (serialize c) taken c ts ++ transcript is_open waiting xs
  transcript is_open [] (receives ts now ∷ xs) = transcript is_open [] xs
  transcript is_open (raw ∷ waiting) (receives ts now ∷ xs) =
      read_entry (deserialize raw) ts ++ transcript is_open waiting xs

  -- A session that is open or not and has these messages waiting.
  abbrev Holds : Bool → List (List ℕ) → ChannelSession → Type 0
  Holds is_open waiting s = (s.closed ≡ not is_open) × (s.inbound ≡ queue is_open waiting)

  queue-snoc :
      (raw : List ℕ) (waiting : List (List ℕ))
      → queue true waiting ++ message raw ∷ [] ≡ queue true (waiting ++ raw ∷ [])
  queue-snoc raw [] = refl
  queue-snoc raw (w ∷ waiting) = ap (λ l. message w ∷ l) (queue-snoc raw waiting)

  queue-close :
      (waiting : List (List ℕ)) → queue true waiting ++ close_mark ∷ [] ≡ queue false waiting
  queue-close [] = refl
  queue-close (w ∷ waiting) = ap (λ l. message w ∷ l) (queue-close waiting)

  logged_turn-Holds :
      (direction : String) (c : Json) (ts now : ℕ) (b : Bool) (waiting : List (List ℕ))
      (s : ChannelSession)
      → Holds b waiting s
      → Holds b waiting (logged_turn direction c ts now s)
  unfolding logged_turn
  logged_turn-Holds direction c ts now b waiting s h = elim (Option-cases s.storage) [
    | inl e ↦ rw (logged_turn, e) h
    | inr (st, e) ↦ elim (Option-cases s.conversation_id) [
      | inl f ↦ rw (logged_turn, e, f) h
      | inr (id, f) ↦ rw (logged_turn, e, f) h
    ]
  ]

  abbrev Sends : Bool → List (List ℕ) → Json → Bool → ℕ → ℕ → ChannelSession → Type 0
  Sends b waiting c taken ts now s =
      let out = send serialize deserialize c taken ts now s in
      Holds b waiting out.0
      × (made_by (sends c taken ts now) out.1 ≡ sent_entry b (serialize c) taken c ts)

  send-Holds :
      (b : Bool) (waiting : List (List ℕ)) (c : Json) (taken : Bool) (ts now : ℕ)
      (s : ChannelSession)
      → Holds b waiting s
      → Sends b waiting c taken ts now s
  unfolding send
  send-Holds false waiting c taken ts now s h = rw (h.0) ((refl, h.1), refl)
  send-Holds true waiting c taken ts now s h = elim (Option-cases (serialize c)) [
    | inl bad ↦ rw (h.0, bad) (h, refl)
    | inr (raw, good) ↦ elim (Bool-cases taken) [
      | inl went ↦
          rw (h.0, good, went)
            (
              logged_turn-Holds "out" c ts now true waiting (record s { peer = s.peer ++ raw ∷ [] })
                  h,
              refl,
            )
      | inr failed ↦ rw (h.0, good, failed) (h, refl)
    ]
  ]

  read-Holds :
      (b : Bool) (raw : List ℕ) (waiting : List (List ℕ)) (ts now : ℕ) (s : ChannelSession)
      → s.closed ≡ not b
      → let out = receive_item serialize deserialize (message raw ∷ queue b waiting) ts now s in
        Holds b waiting out.0 × (made_by (receives ts now) out.1 ≡ read_entry (deserialize raw) ts)
  unfolding receive_item
  read-Holds b raw waiting ts now s h = elim (Option-cases (deserialize raw)) [
    | inl bad ↦ rw (receive_item, bad) ((h, refl), refl)
    | inr (c, good) ↦
        rw (receive_item, good)
          (
            logged_turn-Holds "in" c ts now b waiting (record s { inbound = queue b waiting })
                (h, refl),
            refl,
          )
  ]

  abbrev first : List (List ℕ) → ℕ → List Entry
  first [] ts = []
  first (raw ∷ waiting) ts = read_entry (deserialize raw) ts

  item-Holds :
      (b : Bool) (waiting : List (List ℕ)) (ts now : ℕ) (s : ChannelSession)
      → Holds b waiting s
      → let out = receive_item serialize deserialize (queue b waiting) ts now s in
        Holds b (rest waiting) out.0 × (made_by (receives ts now) out.1 ≡ first waiting ts)
  unfolding receive_item
  item-Holds true [] ts now s h = (h, refl)
  item-Holds false [] ts now s h = ((h.0, refl), refl)
  item-Holds b (raw ∷ waiting) ts now s h = read-Holds b raw waiting ts now s h.0

  receive-Holds :
      (b : Bool) (waiting : List (List ℕ)) (ts now : ℕ) (s : ChannelSession)
      → Holds b waiting s
      → let out = receive serialize deserialize ts now s in
        Holds b (rest waiting) out.0 × (made_by (receives ts now) out.1 ≡ first waiting ts)
  unfolding receive
  receive-Holds b waiting ts now s h =
      subst
        (λ (items : List Item).
          let out = receive_item serialize deserialize items ts now s in
          Holds b (rest waiting) out.0 × (made_by (receives ts now) out.1 ≡ first waiting ts))
        (sym h.1) (item-Holds b waiting ts now s h)

  -- The calls on a session make this conversation.
  made-transcript :
      (xs : List Call) (b : Bool) (waiting : List (List ℕ)) (s : ChannelSession)
      → Holds b waiting s
      → made serialize deserialize xs s ≡ transcript b waiting xs
  unfolding step feed close receive
  made-transcript [] b waiting s h = refl
  made-transcript (feeds raw ∷ xs) true waiting s h =
      let fed : (feed raw s).closed ≡ false = rw (feed, h.0) refl in
      let kept : (feed raw s).inbound ≡ queue true (waiting ++ raw ∷ []) =
        rw (feed, h.0, h.1) (queue-snoc raw waiting) in
      made-transcript xs true (waiting ++ raw ∷ []) (feed raw s) (fed, kept)
  made-transcript (feeds raw ∷ xs) false waiting s h =
      made-transcript xs false waiting (feed raw s) (rw (feed, h.0) (refl, h.1))
  made-transcript (closes ∷ xs) true waiting s h =
      let shut : (close s).closed ≡ true = rw (close, h.0) refl in
      let kept : (close s).inbound ≡ queue false waiting =
        rw (close, h.0, h.1) (queue-close waiting) in
      made-transcript xs false waiting (close s) (shut, kept)
  made-transcript (closes ∷ xs) false waiting s h =
      made-transcript xs false waiting (close s) (rw (close, h.0) (refl, h.1))
  made-transcript (sends c taken ts now ∷ xs) b waiting s h =
      let (held, same) = send-Holds b waiting c taken ts now s h in
      let rest =
        made-transcript xs b waiting (send serialize deserialize c taken ts now s).0 held in
      cc
  made-transcript (receives ts now ∷ xs) b [] s h =
      let (held, same) = receive-Holds b [] ts now s h in
      let later = made-transcript xs b [] (receive serialize deserialize ts now s).0 held in cc
  made-transcript (receives ts now ∷ xs) b (raw ∷ waiting) s h =
      let (held, same) = receive-Holds b (raw ∷ waiting) ts now s h in
      let later = made-transcript xs b waiting (receive serialize deserialize ts now s).0 held in cc

-- A durable channel recalls its conversation: after any calls on an open channel with nothing to read,
-- `history` with a limit gives the newest entries up to it, oldest first, of what the log had before
-- and of the conversation that the calls make: each message that came before the close, could be
-- decoded and was read, and each that was sent before the close, could be written and was taken by
-- the transport, in the order of the reads and sends.
pub run-history :
    (serialize : Json → Option (List ℕ)) (deserialize : List ℕ → Option Json) (id : String)
    (xs : List Call) (s : ChannelSession) (st : Storage Entry) (limit : ℕ)
    → s.storage ≡ some st
    → s.conversation_id ≡ some id
    → s.closed ≡ false
    → s.inbound ≡ []
    → IsEnd limit
        (history (pos limit) (run serialize deserialize xs s))
        (stored id st ++ transcript serialize deserialize true [] xs)
unfolding history
run-history serialize deserialize id xs s st limit kept named fresh idle =
    let (after, d, e) = run-Gains id serialize deserialize xs s st (kept, named) in
    let told = made-transcript serialize deserialize xs true [] s (fresh, idle) in
    let e' = e ∙ ap (λ l. stored id st ++ l) told in
    let (earlier, same, long) = stored-IsEnd id limit after in
    rw (history, d.0, d.1)
      (earlier, same ∙ e', long ∙ ap (λ (l : List Entry). min limit (length l)) e')
