-- ===== src/Agent/History/Rebuilt.antt =====
-- What `history_to_messages` of src/istos/agent/loop.py gives back to the loop.
use istos.Prelude.{
  ◌≡◌, ◌&&◌, refl, inl, inr, Bool, true, false, ◌||◌, Option, none, some, List, [], ◌∷◌, ◌++◌,
  String, if◌then◌else◌, text_key, ◌==◌, arith, Bool-cases, Option-cases,
}
use istos.Dict
use istos.Dict.{Dict}
use istos.Json.{Json, null, boolean, number, text, array, object, Fields, get_or, truthy}
use istos.Agent.Messages.{Content, Message, system, user, assistant, tool}
use istos.Agent.Trim.{ids, Answers, IsValid}
use istos.Agent.History.{
  LoggedTurn, Results, add_result, result_of, results_by_id, str, is_said, equals_text, user_text,
  tool_call_message, call_messages, spoken, frame_messages, out_messages, turn_messages,
  all_messages, system_messages, history_to_messages,
}

pub append-IsValid :
    (ms ns : List Message) (is : List String) → Answers is ms → IsValid ns → Answers is (ms ++ ns)
append-IsValid [] ns [] h k = k
append-IsValid [] ns (i ∷ is) h k = absurd h
append-IsValid (system s ∷ ms) ns [] h k = append-IsValid ms ns [] h k
append-IsValid (user c ∷ ms) ns [] h k = append-IsValid ms ns [] h k
append-IsValid (assistant c calls ∷ ms) ns [] h k = append-IsValid ms ns (ids calls) h k
append-IsValid (tool id c ∷ ms) ns [] h k = absurd h
append-IsValid (tool id c ∷ ms) ns (i ∷ is) h k = (h.0, append-IsValid ms ns is h.1 k)
append-IsValid (system s ∷ ms) ns (i ∷ is) h k = absurd h
append-IsValid (user c ∷ ms) ns (i ∷ is) h k = absurd h
append-IsValid (assistant c calls ∷ ms) ns (i ∷ is) h k = absurd h

spoken-IsValid : (b : Bool) (c : Content) → IsValid (spoken b c)
unfolding spoken
spoken-IsValid true c = tt
spoken-IsValid false c = tt

call-IsValid :
    (v : Json) (frame : Fields) (results : Results) → IsValid (call_messages v frame results)
unfolding call_messages tool_call_message
call-IsValid (text tid) frame results = elim (Option-cases (Dict.get results tid)) [
  | inl e ↦ rw (call_messages, e) tt
  | inr (r, e) ↦ rw (call_messages, e) (refl, tt)
]
call-IsValid null frame results = tt
call-IsValid (boolean b) frame results = tt
call-IsValid (number z) frame results = tt
call-IsValid (array l) frame results = tt
call-IsValid (object o) frame results = tt

frame-IsValid :
    (include_tools : Bool) (frame : Fields) (results : Results)
    → IsValid (frame_messages include_tools frame results)
unfolding frame_messages
frame-IsValid include_tools frame results = elim (Bool-cases (equals_text "tool_call" kind)) [
  | inl called ↦ elim (Bool-cases include_tools) [
    | inl wanted ↦
        rw (called, wanted) (call-IsValid (get_or "tool_call_id" null frame) frame results)
    | inr unwanted ↦ rw (called, unwanted) tt
  ]
  | inr uncalled ↦ elim (Bool-cases hidden) [
    | inl skipped ↦ rw (uncalled, skipped) tt
    | inr visible ↦ elim (Bool-cases (equals_text "message" kind)) [
      | inl final ↦ rw (uncalled, visible, final) (spoken-IsValid (truthy content) (str content))
      | inr any ↦
          rw (uncalled, visible, any)
            (spoken-IsValid (is_said (user_text (object frame))) (user_text (object frame)))
    ]
  ]
]
  where
    kind : Json
    kind = get_or "kind" null frame

    content : Json
    content = get_or "content" null frame

    hidden : Bool
    hidden = equals_text "tool_result" kind || equals_text "done" kind || equals_text "handoff" kind

out-IsValid :
    (include_tools : Bool) (v : Json) (results : Results)
    → IsValid (out_messages include_tools v results)
unfolding out_messages
out-IsValid include_tools (object frame) results = frame-IsValid include_tools frame results
out-IsValid include_tools null results = spoken-IsValid (is_said (user_text null)) (user_text null)
out-IsValid include_tools (boolean b) results =
    spoken-IsValid (is_said (user_text (boolean b))) (user_text (boolean b))
out-IsValid include_tools (number z) results =
    spoken-IsValid (is_said (user_text (number z))) (user_text (number z))
out-IsValid include_tools (text s) results =
    spoken-IsValid (is_said (user_text (text s))) (user_text (text s))
out-IsValid include_tools (array l) results =
    spoken-IsValid (is_said (user_text (array l))) (user_text (array l))

turn-IsValid :
    (include_tools : Bool) (t : LoggedTurn) (results : Results)
    → IsValid (turn_messages include_tools t results)
unfolding turn_messages
turn-IsValid include_tools t results = elim (Bool-cases (equals_text "in" t.direction)) [
  | inl came ↦ rw (came) tt
  | inr other ↦ elim (Bool-cases (equals_text "out" t.direction)) [
    | inl went ↦ rw (other, went) (out-IsValid include_tools t.payload results)
    | inr neither ↦ rw (other, neither) tt
  ]
]

all-IsValid :
    (include_tools : Bool) (history : List LoggedTurn) (results : Results)
    → IsValid (all_messages include_tools history results)
unfolding all_messages
all-IsValid include_tools [] results = tt
all-IsValid include_tools (t ∷ ts) results =
    append-IsValid (turn_messages include_tools t results) (all_messages include_tools ts results)
      [] (turn-IsValid include_tools t results) (all-IsValid include_tools ts results)

system-IsValid : (prompt : Option String) → IsValid (system_messages prompt)
unfolding system_messages
system-IsValid none = tt
system-IsValid (some s) = elim (Bool-cases (s == "")) [
  | inl blank ↦ rw (blank) tt
  | inr prompted ↦ rw (prompted) tt
]

-- A value that can be a key of a dictionary.
abbrev pub hashable : Json → Bool
hashable null = true
hashable (boolean b) = true
hashable (number z) = true
hashable (text s) = true
hashable (array l) = false
hashable (object o) = false

abbrev pub id_hashable : Json → Bool
id_hashable (object frame) = hashable (get_or "tool_call_id" null frame)
id_hashable null = true
id_hashable (boolean b) = true
id_hashable (number z) = true
id_hashable (text s) = true
id_hashable (array l) = true

abbrev pub ids_hashable : List LoggedTurn → Bool
ids_hashable [] = true
ids_hashable (t ∷ ts) = id_hashable t.payload && ids_hashable ts

abbrev IsResult : Option Results → Type 0
IsResult o = (r : Results) × (o ≡ some r)

added-IsResult :
    (v : Json) (frame : Fields) (r : Results) → hashable v ≡ true → IsResult (add_result v frame r)
unfolding add_result
added-IsResult (text tid) frame r h = (_, refl)
added-IsResult null frame r h = (_, refl)
added-IsResult (boolean b) frame r h = (_, refl)
added-IsResult (number z) frame r h = (_, refl)
added-IsResult (array l) frame r h = absurd (ground (arith, h))
added-IsResult (object o) frame r h = absurd (ground (arith, h))

one-IsResult : (v : Json) (r : Results) → id_hashable v ≡ true → IsResult (result_of v r)
unfolding result_of
one-IsResult (object frame) r h =
    elim (Bool-cases (equals_text "tool_result" (get_or "kind" null frame))) [
      | inl a_result ↦ rw (a_result) (added-IsResult (get_or "tool_call_id" null frame) frame r h)
      | inr other ↦ rw (other) (r, refl)
    ]
one-IsResult (text s) r h = (r, refl)
one-IsResult null r h = (r, refl)
one-IsResult (boolean b) r h = (r, refl)
one-IsResult (number z) r h = (r, refl)
one-IsResult (array l) r h = (r, refl)

turn-IsResult :
    (t : LoggedTurn) (r : Results)
    → id_hashable t.payload ≡ true
    → IsResult (if equals_text "out" t.direction then result_of t.payload r else some r)
turn-IsResult t r h = elim (Bool-cases (equals_text "out" t.direction)) [
  | inl out ↦ rw (out) (one-IsResult t.payload r h)
  | inr in_turn ↦ rw (in_turn) (r, refl)
]

all-IsResult :
    (ts : List LoggedTurn) (r : Results) → ids_hashable ts ≡ true → IsResult (results_by_id ts r)
unfolding results_by_id
all-IsResult [] r h = (r, refl)
all-IsResult (t ∷ ts) r h =
    let (more, e) = turn-IsResult t r (ground (arith, h)) in
    rw (results_by_id, e) (all-IsResult ts more (ground (arith, h)))

-- Whatever else the log has, in whatever order, and a crash in the middle of a tool included: if the
-- ids of its tool calls are not lists or objects, a chat is rebuilt from it, and it is valid, with
-- the tools or without them.
pub history_to_messages-IsValid :
    (history : List LoggedTurn) (prompt : Option String) (include_tools : Bool)
    → ids_hashable history ≡ true
    → (ms : List Message) × (history_to_messages history prompt include_tools ≡ some ms)
      × IsValid ms
unfolding history_to_messages
history_to_messages-IsValid history prompt include_tools h =
    let (results, e) = wanted include_tools in
    (
      system_messages prompt ++ all_messages include_tools history results,
      rw (history_to_messages, e) refl,
      append-IsValid (system_messages prompt) (all_messages include_tools history results) []
          (system-IsValid prompt) (all-IsValid include_tools history results),
    )
  where
    wanted : (b : Bool) → IsResult (if b then results_by_id history Dict.empty else some Dict.empty)
    wanted true = all-IsResult history Dict.empty h
    wanted false = (Dict.empty, refl)
