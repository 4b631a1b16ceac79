-- ===== src/Agent/Drive.antt =====
-- `drive_channel` of src/istos/agent/loop.py: a session of a channel, from its durable log through one
-- turn of the loop for each message that comes in.
use istos.Prelude.{
  ℕ, ◌≡◌, refl, inl, inr, Bool, true, false, ◌&&◌, not, Option, none, some, List, [], ◌∷◌, ◌++◌,
  String, if◌then◌else◌, text_key, ◌==◌, Bool-cases,
}
use istos.Json.{Json}
use istos.Agent.Messages.{
  Content, no_content, Message, system, user, assistant, tool, MeshTool, message, tool_call,
  tool_result, approval_request, approval_decision, handoff, done, AgentEvent,
}
use istos.Agent.Trim.{IsValid}
use istos.Agent.Loop.{Env, Ending, finished, failed, value_error, run_agent}
use istos.Agent.Valid.{run_agent-IsValid}
use istos.Agent.History.{LoggedTurn, user_text, history_to_messages}
use istos.Agent.History.Rebuilt.{append-IsValid, history_to_messages-IsValid, ids_hashable}

-- What the session sends: an event as a frame with its fields, or the text of a message alone.
pub data Sent : Type 0 where
  frame : AgentEvent → Sent
  content : Content → Sent

unfoldable pub has_content : Content → Bool
has_content no_content = false
has_content c = true

unfoldable pub spoken_alone : AgentEvent → List Sent
unfolding has_content
spoken_alone e = elim (e.kind) [
  | message ↦ if has_content e.content then content e.content ∷ [] else []
  | tool_call ↦ []
  | tool_result ↦ []
  | approval_request ↦ []
  | approval_decision ↦ []
  | handoff ↦ []
  | done ↦ []
]

unfoldable pub is_done : AgentEvent → Bool
is_done e = elim (e.kind) [
  | done ↦ true
  | message ↦ false
  | tool_call ↦ false
  | tool_result ↦ false
  | approval_request ↦ false
  | approval_decision ↦ false
  | handoff ↦ false
]

-- What is sent for the events of a turn.
unfoldable pub sent_for : Bool → List AgentEvent → List Sent
unfolding spoken_alone is_done
sent_for send_events [] = []
sent_for send_events (e ∷ es) =
    let rest = sent_for send_events es in
    if is_done e then rest else if send_events then frame e ∷ rest else spoken_alone e ++ rest

unfoldable pub has_system : List Message → Bool
has_system [] = false
has_system (system s ∷ ms) = true
has_system (user c ∷ ms) = has_system ms
has_system (assistant c calls ∷ ms) = has_system ms
has_system (tool id c ∷ ms) = has_system ms

unfoldable pub with_prompt : Option String → List Message → List Message
unfolding has_system
with_prompt none ms = ms
with_prompt (some s) ms = if not (s == "") && not (has_system ms) then system s ∷ ms else ms

pub record Session : Type 0 where
  pub messages : List Message
  pub sent : List Sent
  pub ending : Ending

-- The options that `drive_channel` passes on to each turn.
pub record Options : Type 0 where
  pub prompt : Option String
  pub max_steps : ℕ
  pub max_messages : Option ℕ
  pub send_events : Bool
  pub approvals : Bool

module _ (tools : List MeshTool) (o : Options) where
  unfoldable pub heard : Env → Json → Session → Session
  unfolding sent_for user_text
  heard env msg s =
      let out =
        run_agent env tools o.approvals o.max_messages o.max_steps
          (s.messages ++ user (user_text msg) ∷ []) in
      record {
        messages = out.0.messages;
        sent = s.sent ++ sent_for o.send_events out.0.events;
        ending = out.1;
      }

  -- Each message comes with what the model, the tools and the people answer in its turn. What a turn
  -- raises ends the session.
  unfoldable pub each_message : List (Env × Json) → Session → Session
  unfolding heard
  each_message [] s = s
  each_message ((env, msg) ∷ more) s =
      let rest = each_message more (heard env msg s) in
      elim ((heard env msg s).ending) [
        | finished ↦ rest
        | failed e ↦ heard env msg s
        | value_error ↦ heard env msg s
      ]

  unfoldable pub drive_channel : List LoggedTurn → List (Env × Json) → Option Session
  unfolding each_message with_prompt history_to_messages
  drive_channel history inbound = elim (history_to_messages history o.prompt true) [
    | none ↦ none
    | some ms ↦ some (
        each_message inbound
          (record { messages = with_prompt o.prompt ms; sent = []; ending = finished }))
  ]

  heard-IsValid :
      (env : Env) (msg : Json) (s : Session)
      → IsValid s.messages
      → IsValid (heard env msg s).messages
  unfolding heard
  heard-IsValid env msg s h =
      run_agent-IsValid env tools o.approvals o.max_messages o.max_steps
        (s.messages ++ user (user_text msg) ∷ [])
        (append-IsValid s.messages (user (user_text msg) ∷ []) [] h tt)

  each-IsValid :
      (inbound : List (Env × Json)) (s : Session)
      → IsValid s.messages
      → IsValid (each_message inbound s).messages
  unfolding each_message
  each-IsValid [] s h = h
  each-IsValid ((env, msg) ∷ more) s h =
      let next = heard-IsValid env msg s h in
      let rest = each-IsValid more (heard env msg s) next in
      go ((heard env msg s).ending) (each_message more (heard env msg s)) (heard env msg s) rest
        next
    where
      go :
          (e : Ending) (a b : Session)
          → IsValid a.messages
          → IsValid b.messages
          → IsValid
              (elim e as (λ x. Session) [ finished ↦ a | failed f ↦ b | value_error ↦ b ]).messages
      go finished a b x y = x
      go (failed f) a b x y = y
      go value_error a b x y = y

with_prompt-IsValid :
    (prompt : Option String) (ms : List Message) → IsValid ms → IsValid (with_prompt prompt ms)
unfolding with_prompt
with_prompt-IsValid none ms h = h
with_prompt-IsValid (some s) ms h = elim (Bool-cases (not (s == "") && not (has_system ms))) [
  | inl first ↦ rw (first) h
  | inr kept ↦ rw (kept) h
]

-- A session keeps a chat log that the model service accepts, if the ids of the tool calls in the
-- channel's log are not lists or objects: it starts, from the chat that is rebuilt from that log, and
-- after any messages of its peer, whatever each turn meets, each assistant message that calls tools
-- is followed by the answers to its calls, in their order, and no other tool message is there.
pub drive_channel-IsValid :
    (tools : List MeshTool) (o : Options) (history : List LoggedTurn) (inbound : List (Env × Json))
    → ids_hashable history ≡ true
    → (s : Session) × (drive_channel tools o history inbound ≡ some s) × IsValid s.messages
unfolding drive_channel
drive_channel-IsValid tools o history inbound h =
    let (ms, rebuilt, valid) = history_to_messages-IsValid history o.prompt true h in
    let start : Session = record {
      messages = with_prompt o.prompt ms;
      sent = [];
      ending = finished;
    } in
    (
      each_message tools o inbound start,
      rw (drive_channel, rebuilt) refl,
      each-IsValid tools o inbound start (with_prompt-IsValid o.prompt ms valid),
    )
