-- ===== src/Memory.antt =====
-- backend/src/intelligence/memory: memory.service.ts over its tables of sessions, messages and facts.
-- The vector store is a parameter; a value of JSON is its text. The lists of facts are without their
-- order, and the summaries of the list of sessions are not modelled.
pub mod Sequence
pub mod Recent
pub mod Facts
mod Tests
use capere_ai.Base.{
  ℕ, suc, Bool, true, false, not, ◌&&◌, ◌||◌, ◌==◌, Option, none, some, List, [], ◌∷◌, ◌++◌, String,
  str_eq, leb, ltb, length, take, find, any, select, update, order_by_desc, rev, if◌then◌else◌,
  is_none, some_and,
}
use capere_ai.Auth.{Refusal, Checked, passed, refused}
use capere_ai.Reasoning.{LlmRole}

pub record SessionRow : Type 0 where
  pub id : ℕ
  pub organization_id : String
  pub user_id : Option String
  pub agent : String
  pub title : Option String
  pub status : String
  pub last_message_at : Option ℕ

pub record MessageRow : Type 0 where
  pub session_id : ℕ
  pub organization_id : String
  pub role : LlmRole
  pub content : List String
  pub tool_call_id : Option String
  pub tool_name : Option String
  pub tool_arguments : Option String
  pub sequence : ℕ
  pub metadata : String
  pub created_at : ℕ

pub record FactRow : Type 0 where
  pub organization_id : String
  pub key : String
  pub value : String
  pub source : String
  pub confidence : Option String
  pub expires_at : Option ℕ
  pub updated_at : ℕ

pub record Tables : Type 0 where
  pub sessions : List SessionRow
  pub messages : List MessageRow
  pub facts : List FactRow

-- The arguments of `append`.
pub record NewTurn : Type 0 where
  pub session_id : ℕ
  pub organization_id : String
  pub role : LlmRole
  pub content : List String
  pub tool_call_id : Option String
  pub tool_name : Option String
  pub tool_arguments : Option String
  pub metadata : Option String

abbrev pub session_not_found : Refusal
session_not_found = record { code = "NOT_FOUND"; status = 404 }

abbrev pub of_session : ℕ → MessageRow → Bool
of_session id m = m.session_id == id

abbrev pub in_session : String → ℕ → MessageRow → Bool
in_session org id m = str_eq m.organization_id org && m.session_id == id

abbrev pub sequence_of : MessageRow → ℕ
sequence_of m = m.sequence

-- `recent`
unfoldable pub recent : String → ℕ → ℕ → Tables → List MessageRow
recent org id limit t =
    rev (take limit (order_by_desc sequence_of (select (in_session org id) t.messages)))

abbrev pub is_own_session : ℕ → String → SessionRow → Bool
is_own_session id org s = s.id == id && str_eq s.organization_id org

abbrev pub is_text : String → Option String → Bool
is_text a none = false
is_text a (some b) = str_eq b a

-- A user is compared unless there is none, or a machine has access.
abbrev pub admits_user : Option String → Bool → SessionRow → Bool
admits_user none machine s = true
admits_user (some user) machine s = machine || str_eq user "" || is_text user s.user_id

-- `assertSessionAccess`: whether it passes.
unfoldable pub assert_session_access : String → ℕ → Option String → Bool → Tables → Checked Tables
assert_session_access org id user machine t =
    if any
      (λ s. (is_own_session id org s && str_eq s.status "active") && admits_user user machine s)
      t.sessions
    then passed t
    else refused session_not_found

abbrev pub first_sequence : List MessageRow → ℕ
first_sequence [] = 0
first_sequence (m ∷ ms) = m.sequence

abbrev pub last_sequence : ℕ → List MessageRow → ℕ
last_sequence id ms = first_sequence (order_by_desc sequence_of (select (of_session id) ms))

abbrev pub or_empty : Option String → String
or_empty none = "{}"
or_empty (some metadata) = metadata

abbrev pub message_row : ℕ → NewTurn → ℕ → MessageRow
message_row now p sequence = record {
  session_id = p.session_id;
  organization_id = p.organization_id;
  role = p.role;
  content = p.content;
  tool_call_id = p.tool_call_id;
  tool_name = p.tool_name;
  tool_arguments = p.tool_arguments;
  sequence = sequence;
  metadata = or_empty p.metadata;
  created_at = now;
}

-- `append`
unfoldable pub append : ℕ → NewTurn → Tables → Checked Tables
append now p t =
    if any (is_own_session p.session_id p.organization_id) t.sessions
    then passed (record t {
      messages = t.messages ++ message_row now p (suc (last_sequence p.session_id t.messages)) ∷ [];
      sessions =
          update (λ (s : SessionRow). s.id == p.session_id)
            (λ s. record s { last_message_at = some now }) t.sessions;
    })
    else refused session_not_found

-- `createSession`, given the id of the new row.
unfoldable pub create_session :
    ℕ → String → Option String → String → Option String → Tables → Tables
create_session id org user agent title t = record t {
  sessions =
      t.sessions
      ++ record {
        id = id;
        organization_id = org;
        user_id = user;
        agent = agent;
        title = title;
        status = "active";
        last_message_at = none;
      }
        ∷ [];
}

abbrev pub is_user_or_assistant : LlmRole → Bool
is_user_or_assistant LlmRole.user = true
is_user_or_assistant LlmRole.assistant = true
is_user_or_assistant _ = false

abbrev pub if_passed {ℓ} : {A : Type ℓ} → Checked Tables → A → Checked A
if_passed (passed t) a = passed a
if_passed (refused r) a = refused r

-- What `sessionConversation` shows of the messages.
abbrev pub is_shown : (List String → Bool) → MessageRow → Bool
is_shown is_blank m =
    (is_user_or_assistant m.role && is_none m.tool_call_id) && not (is_blank m.content)

unfoldable pub session_conversation :
    (List String → Bool) → String → String → ℕ → Tables → Checked (List MessageRow)
unfolding assert_session_access recent
session_conversation is_blank org user id t =
    if_passed (assert_session_access org id (some user) false t)
      (select (is_shown is_blank) (recent org id 80 t))

abbrev pub is_live : ℕ → FactRow → Bool
is_live now f = is_none f.expires_at || some_and (λ at. ltb now at) f.expires_at

abbrev pub is_fact : String → String → FactRow → Bool
is_fact org key f = str_eq f.organization_id org && str_eq f.key key

-- `all`, `get`, `set` and `forget` of the facts.
unfoldable pub all_facts : ℕ → String → Tables → List FactRow
all_facts now org t =
    select (λ (f : FactRow). str_eq f.organization_id org && is_live now f) t.facts

unfoldable pub get_fact : ℕ → String → String → Tables → Option FactRow
get_fact now org key t = find (λ f. is_fact org key f && is_live now f) t.facts

unfoldable pub set_fact : ℕ → FactRow → Tables → Tables
set_fact now new t =
    if any (is_fact new.organization_id new.key) t.facts
    then record t {
      facts =
          update (is_fact new.organization_id new.key)
            (λ f. record f {
              value = new.value;
              source = new.source;
              confidence = new.confidence;
              expires_at = new.expires_at;
              updated_at = now;
            })
            t.facts;
    }
    else record t { facts = t.facts ++ record new { updated_at = now } ∷ [] }

unfoldable pub forget_fact : String → String → Tables → Tables
forget_fact org key t = record t { facts = select (λ f. not (is_fact org key f)) t.facts }

-- The port of the vector store; none where a search throws.
pub record SemanticMemory (Hit : Type 0) : Type 0 where
  pub available : Bool
  pub search : String → String → ℕ → Option (List Hit)

pub record MemorySnapshot (Hit : Type 0) : Type 0 where
  pub conversation : List MessageRow
  pub business : List FactRow
  pub semantic : List Hit
  pub semantic_available : Bool

abbrev pub conversation_part : String → Option ℕ → ℕ → Tables → List MessageRow
conversation_part org none limit t = []
conversation_part org (some id) limit t = recent org id limit t

module _ {Hit : Type 0} where
  abbrev pub searched : Option (List Hit) → List Hit × Bool
  searched none = ([], false)
  searched (some hits) = (hits, true)

  abbrev pub semantic_part : SemanticMemory Hit → String → Option String → ℕ → List Hit × Bool
  semantic_part store org none limit = ([], false)
  semantic_part store org (some query) limit =
      if not (str_eq query "") && store.available
      then searched (store.search org query limit)
      else ([], false)

  -- `snapshot`, without the scratch pad that no caller gives.
  unfoldable pub snapshot :
      ℕ
      → SemanticMemory Hit
      → String
      → Option ℕ
      → Option String
      → ℕ
      → ℕ
      → Tables
      → MemorySnapshot Hit
  unfolding recent all_facts
  snapshot now store org session query conversation_limit semantic_limit t = record {
    conversation = conversation_part org session conversation_limit t;
    business = all_facts now org t;
    semantic = (semantic_part store org query semantic_limit).0;
    semantic_available = (semantic_part store org query semantic_limit).1;
  }
