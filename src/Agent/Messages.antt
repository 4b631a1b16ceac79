-- ===== src/Agent/Messages.antt =====
-- The chat log, the tool catalogue and the events of src/istos/agent/loop.py and agent/tools.py.
-- Text that Python formats or dumps is kept as what it is made of.
use istos.Prelude.{
  ℕ, Bool, false, not, Option, none, some, List, [], ◌∷◌, String, text_key, ◌==◌, map,
}
use istos.Dict
use istos.Dict.{Dict}
use istos.Json.{Json, text, object, Fields}
use istos.Errors.{Failure, application, other}

-- A string, what json.dumps or str make of a value, or one of the formats of the loop.
pub data Content : Type 0 where
  no_content : Content
  plain : String → Content
  dumped : Json → Content
  shown : Json → Content
  error_text : Json → Json → Content
  unknown_tool : String → Content
  stopped_after : ℕ → Content
  approved_by : Option String → Content
  stopped_without_answer : ℕ → Content
  transferred_to : String → Content
  from_to : String → String → Content

pub record ToolCall : Type 0 where
  pub id : String
  pub name : String
  pub arguments : Fields

-- A call as an assistant message has it; one that is read from a log may have any name.
pub record CallMessage : Type 0 where
  pub id : String
  pub name : Json
  pub arguments : Json

pub data Message : Type 0 where
  system : String → Message
  user : Content → Message
  assistant : Content → List CallMessage → Message
  tool : String → Content → Message

-- `approval` of a tool: a flag, or the reason that a human is shown.
pub data ApprovalFlag : Type 0 where
  flag : Bool → ApprovalFlag
  reason : String → ApprovalFlag

pub record MeshTool : Type 0 where
  pub prefix : String
  pub name : String
  pub approval : ApprovalFlag

unfoldable pub requires_approval : MeshTool → Bool
requires_approval t = elim (t.approval) [ flag b ↦ b | reason s ↦ not (s == "") ]

unfoldable pub approval_reason : MeshTool → Content
approval_reason t = elim (t.approval) [ flag b ↦ no_content | reason s ↦ plain s ]

-- `{t.name: t for t in tools}`
unfoldable pub by_name : List MeshTool → Dict String MeshTool → Dict String MeshTool
by_name [] d = d
by_name (t ∷ ts) d = by_name ts (Dict.set d t.name t)

pub data Kind : Type 0 where
  message tool_call tool_result approval_request approval_decision handoff done : Kind

pub record AgentEvent : Type 0 where
  pub kind : Kind
  pub content : Content
  pub name : Option String
  pub arguments : Option Fields
  pub tool_call_id : Option String
  pub error : Bool
  pub approval_id : Option String

-- An event with the defaults of the class.
unfoldable pub event : Kind → AgentEvent
event kind = record {
  kind = kind;
  content = no_content;
  name = none;
  arguments = none;
  tool_call_id = none;
  error = false;
  approval_id = none;
}

pub record ModelReply : Type 0 where
  pub content : Option String
  pub tool_calls : List ToolCall

unfoldable pub content_of : Option String → Content
content_of none = no_content
content_of (some s) = plain s

abbrev pub call_message : ToolCall → CallMessage
call_message tc = record { id = tc.id; name = text tc.name; arguments = object tc.arguments }

-- `_assistant_message`
unfoldable pub assistant_message : ModelReply → Message
unfolding content_of
assistant_message r = assistant (content_of r.content) (map call_message r.tool_calls)

-- `format_tool_result` and `format_tool_error`
unfoldable pub format_tool_result : Json → Content
format_tool_result (text s) = plain s
format_tool_result v = dumped v

unfoldable pub format_tool_error : Failure → Content
format_tool_error (application e) = error_text e.code e.message
format_tool_error (other s) = plain s
