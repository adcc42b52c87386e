-- ===== src/Memory/Tests.antt =====
-- Two turns of one session, and one of another organization's.
use capere_ai.Base.{◌≡◌, refl, false, none, some, [], ◌∷◌, String}
use capere_ai.Auth.{passed, refused}
use capere_ai.Reasoning.{LlmRole}
use capere_ai.Memory.{
  Tables, MessageRow, FactRow, NewTurn, append, recent, create_session, assert_session_access,
  message_row, session_not_found, get_fact, set_fact, forget_fact, all_facts,
}
use capere_ai.Memory.Sequence.{Numbered, HasSequence, append-HasSequence}

unfolds : Unit {0}
unfolding append recent create_session assert_session_access get_fact set_fact forget_fact all_facts
    Numbered HasSequence
unfolds = tt

abbrev opened : Tables
opened =
    create_session 1 "acme" (some "ann") "cmo" none
      (record { sessions = []; messages = []; facts = [] })

abbrev says : LlmRole → String → NewTurn
says role text = record {
  session_id = 1;
  organization_id = "acme";
  role = role;
  content = text ∷ [];
  tool_call_id = none;
  tool_name = none;
  tool_arguments = none;
  metadata = none;
}

abbrev question : MessageRow
question = message_row 10 (says LlmRole.user "Hello?") 1

abbrev asked : Tables
asked = record {
  sessions =
      record {
        id = 1;
        organization_id = "acme";
        user_id = some "ann";
        agent = "cmo";
        title = none;
        status = "active";
        last_message_at = some 10;
      }
      ∷ [];
  messages = question ∷ [];
  facts = [];
}

first : append 10 (says LlmRole.user "Hello?") opened ≡ passed asked
unfolding unfolds
first = refl

foreign :
    append 10 (record (says LlmRole.user "Hello?") { organization_id = "other" }) asked
    ≡ refused session_not_found
unfolding unfolds
foreign = refl

not_hers : assert_session_access "acme" 1 (some "bob") false asked ≡ refused session_not_found
unfolding unfolds
not_hers = refl

abbrev answered : Tables
answered = record asked {
  sessions =
      record {
        id = 1;
        organization_id = "acme";
        user_id = some "ann";
        agent = "cmo";
        title = none;
        status = "active";
        last_message_at = some 11;
      }
      ∷ [];
  messages = question ∷ message_row 11 (says LlmRole.assistant "Hi.") 2 ∷ [];
}

asked-HasSequence : HasSequence asked.messages
unfolding unfolds
asked-HasSequence = append-HasSequence 10 (says LlmRole.user "Hello?") opened asked (λ id. tt) first

abbrev goal : FactRow
goal = record {
  organization_id = "acme";
  key = "goals.q3";
  value = "10";
  source = "user";
  confidence = none;
  expires_at = some 100;
  updated_at = 0;
}
