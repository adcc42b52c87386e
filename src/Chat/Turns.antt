-- ===== src/Chat/Turns.antt =====
-- backend/src/intelligence/generate-chat-response.use-case.ts: the messages that a conversation gives to
-- the model, and the turns that a run adds to it (`persistTranscript`).
use capere_ai.Base.{
  ℕ, ◌-◌, Bool, true, false, Option, none, some, List, [], ◌∷◌, ◌++◌, map, String, length, select,
}
use capere_ai.Rag.Text.{drop}
use capere_ai.Llm.Router.{LlmToolCall}
use capere_ai.Memory.{MessageRow, NewTurn}
use capere_ai.Reasoning.{LlmRole, LlmMessage}

abbrev pub message_of : MessageRow → LlmMessage
message_of turn = record {
  role = turn.role;
  content = turn.content;
  tool_calls = [];
  tool_call_id = turn.tool_call_id;
  name = turn.tool_name;
}

-- `history`
abbrev pub history_of : List MessageRow → List LlmMessage
history_of turns = map message_of turns

abbrev pub is_user_role : LlmRole → Bool
is_user_role LlmRole.user = true
is_user_role _ = false

abbrev pub is_user : LlmMessage → Bool
is_user m = is_user_role m.role

-- `slice(-6)` of the messages of the user.
abbrev pub last_user_messages : List LlmMessage → List LlmMessage
last_user_messages ms = let users = select is_user ms in drop (length users - 6) users

abbrev pub turn : ℕ → String → LlmRole → List String → NewTurn
turn session org role content = record {
  session_id = session;
  organization_id = org;
  role = role;
  content = content;
  tool_call_id = none;
  tool_name = none;
  tool_arguments = none;
  metadata = none;
}

module _ (arguments_text : String → Option String) (session : ℕ) (org : String) where
  abbrev pub call_turn : List String → LlmToolCall → NewTurn
  call_turn content call = record (turn session org LlmRole.assistant content) {
    tool_call_id = some call.id;
    tool_name = some call.name;
    tool_arguments = arguments_text call.arguments;
  }

  abbrev pub tool_turn : LlmMessage → NewTurn
  tool_turn m = record (turn session org LlmRole.tool m.content) {
    tool_call_id = m.tool_call_id;
    tool_name = m.name;
  }

  abbrev pub turns_of_message : LlmMessage → LlmRole → List NewTurn
  turns_of_message m LlmRole.assistant = map (call_turn m.content) m.tool_calls
  turns_of_message m LlmRole.tool = tool_turn m ∷ []
  turns_of_message m LlmRole.system = []
  turns_of_message m LlmRole.user = []

  unfoldable pub transcript_turns : List LlmMessage → List NewTurn
  transcript_turns [] = []
  transcript_turns (m ∷ ms) = turns_of_message m m.role ++ transcript_turns ms
