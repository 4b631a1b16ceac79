-- ===== src/Agent/History.antt =====
-- The chat log that is rebuilt from a durable channel log: `user_text`, `_tool_call_message` and
-- `history_to_messages` of src/istos/agent/loop.py.
pub mod Rebuilt
use istos.Prelude.{
  ◌≡◌, refl, ◌⊎◌, inl, inr, Bool, true, false, ◌&&◌, ◌||◌, not, Option, none, some, List, [], ◌∷◌,
  ◌++◌, String, if◌then◌else◌, text_key, ◌==◌, arith, Bool-cases, Option-cases,
}
use istos.Dict
use istos.Dict.{Dict}
use istos.Json.{Json, null, boolean, number, text, array, object, Fields, end, find, get_or, truthy}
use istos.Agent.Messages.{
  Content, plain, dumped, shown, CallMessage, Message, system, user, assistant, tool,
}
use istos.Agent.Trim.{ids, Answers, IsValid}

-- `{dir, data, ts}`
pub record LoggedTurn : Type 0 where
  pub direction : Json
  pub payload : Json

-- The first of the keys with a text that is not empty.
unfoldable pub first_text : List String → Fields → Option String
first_text [] fields = none
first_text (key ∷ keys) fields =
    let rest = first_text keys fields in
    elim (find key fields) [
      | none ↦ rest
      | some v ↦ elim (v) [
        | text s ↦ if s == "" then rest else some s
        | null ↦ rest
        | boolean b ↦ rest
        | number z ↦ rest
        | array l ↦ rest
        | object o ↦ rest
      ]
    ]

unfoldable pub or_dumped : Option String → Fields → Content
or_dumped none fields = dumped (object fields)
or_dumped (some s) fields = plain s

unfoldable pub user_text : Json → Content
unfolding first_text or_dumped
user_text (text s) = plain s
user_text (object fields) =
    or_dumped (first_text ("text" ∷ "content" ∷ "message" ∷ "prompt" ∷ []) fields) fields
user_text null = shown null
user_text (boolean b) = shown (boolean b)
user_text (number z) = shown (number z)
user_text (array l) = shown (array l)

-- `str(value)`, and `bool` of a text.
unfoldable pub str : Json → Content
str (text s) = plain s
str v = shown v

unfoldable pub is_said : Content → Bool
is_said (plain s) = not (s == "")
is_said c = true

unfoldable pub equals_text : String → Json → Bool
equals_text s (text t) = t == s
equals_text s null = false
equals_text s (boolean b) = false
equals_text s (number z) = false
equals_text s (array l) = false
equals_text s (object o) = false

abbrev pub Results : Type 0
Results = Dict String Fields

-- `results_by_id[tid] = data`: a key that cannot be hashed raises, which is no result; the look-ups
-- are by texts only, so other keys are left out.
unfoldable pub add_result : Json → Fields → Results → Option Results
add_result (text tid) frame results = some (Dict.set results tid frame)
add_result null frame results = some results
add_result (boolean b) frame results = some results
add_result (number z) frame results = some results
add_result (array l) frame results = none
add_result (object o) frame results = none

unfoldable pub result_of : Json → Results → Option Results
unfolding add_result equals_text get_or
result_of (object frame) results =
    if equals_text "tool_result" (get_or "kind" null frame)
    then add_result (get_or "tool_call_id" null frame) frame results
    else some results
result_of (text s) results = some results
result_of null results = some results
result_of (boolean b) results = some results
result_of (number z) results = some results
result_of (array l) results = some results

unfoldable pub results_by_id : List LoggedTurn → Results → Option Results
unfolding result_of equals_text
results_by_id [] results = some results
results_by_id (t ∷ ts) results =
    elim (if equals_text "out" t.direction then result_of t.payload results else some results) [
      | none ↦ none
      | some more ↦ results_by_id ts more
    ]

unfoldable pub or_empty_object : Json → Json
or_empty_object v = if truthy v then v else object end

unfoldable pub tool_call_message : String → Fields → Message
unfolding or_empty_object get_or truthy
tool_call_message tid frame = assistant (shown null) (
    record {
      id = tid;
      name = get_or "name" null frame;
      arguments = or_empty_object (get_or "arguments" null frame);
    }
    ∷ [])

unfoldable pub str_or_empty : Json → Content
str_or_empty v = if truthy v then str v else plain ""

-- A persisted call with its result; without one it is dropped.
unfoldable pub call_messages : Json → Fields → Results → List Message
unfolding tool_call_message str_or_empty str truthy get_or
call_messages (text tid) frame results = elim (Dict.get results tid) [
  | none ↦ []
  | some result ↦
      tool_call_message tid frame ∷ tool tid (str_or_empty (get_or "content" null result)) ∷ []
]
call_messages null frame results = []
call_messages (boolean b) frame results = []
call_messages (number z) frame results = []
call_messages (array l) frame results = []
call_messages (object o) frame results = []

unfoldable pub spoken : Bool → Content → List Message
spoken said c = if said then assistant c [] ∷ [] else []

unfoldable pub frame_messages : Bool → Fields → Results → List Message
unfolding call_messages spoken equals_text is_said str user_text get_or truthy
frame_messages include_tools frame results =
    let kind = get_or "kind" null frame in
    let content = get_or "content" null frame in
    if equals_text "tool_call" kind
    then if include_tools
      then call_messages (get_or "tool_call_id" null frame) frame results
      else []
    else if equals_text "tool_result" kind || equals_text "done" kind || equals_text "handoff" kind
    then []
    else if equals_text "message" kind
    then spoken (truthy content) (str content)
    else spoken (is_said (user_text (object frame))) (user_text (object frame))

unfoldable pub out_messages : Bool → Json → Results → List Message
unfolding frame_messages spoken is_said user_text
out_messages include_tools (object frame) results = frame_messages include_tools frame results
out_messages include_tools v results = spoken (is_said (user_text v)) (user_text v)

unfoldable pub turn_messages : Bool → LoggedTurn → Results → List Message
unfolding out_messages equals_text user_text
turn_messages include_tools t results =
    if equals_text "in" t.direction
    then user (user_text t.payload) ∷ []
    else if equals_text "out" t.direction
    then out_messages include_tools t.payload results
    else []

unfoldable pub all_messages : Bool → List LoggedTurn → Results → List Message
unfolding turn_messages
all_messages include_tools [] results = []
all_messages include_tools (t ∷ ts) results =
    turn_messages include_tools t results ++ all_messages include_tools ts results

-- `if system:`
unfoldable pub system_messages : Option String → List Message
system_messages none = []
system_messages (some s) = if s == "" then [] else system s ∷ []

unfoldable pub history_to_messages : List LoggedTurn → Option String → Bool → Option (List Message)
unfolding results_by_id all_messages system_messages
history_to_messages history prompt include_tools =
    elim (if include_tools then results_by_id history Dict.empty else some Dict.empty) [
      | none ↦ none
      | some results ↦ some (system_messages prompt ++ all_messages include_tools history results)
    ]
