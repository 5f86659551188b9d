-- ===== src/Server/Requests.antt =====
-- The requests and answers of crates/mnestic-server/src/memories.rs and memory_tool.rs.
use pg_mnestic.Prelude.{Bool, List, Option}
use pg_mnestic.Text.{Text}
use pg_mnestic.Json.{Json}
use pg_mnestic.Store.Versions.{MemoryVersion}

pub record AddMemoryRequest : Type 0 where
  pub content : Text
  pub container_tag : Option Text
  pub container_tags : Option (List Text)
  pub custom_id : Option Text
  pub dreaming : Option Text
  pub metadata : Option Json

pub record ForgetRequest : Type 0 where
  pub container_tag : Option Text
  pub container_tags : Option (List Text)
  pub id : Option Text
  pub content : Option Text
  pub reason : Option Text

pub record TemporalContext : Type 0 where
  pub document_date : Option Text
  pub event_date : Option (List Text)

pub record UpdateMemoryRequest : Type 0 where
  pub container_tag : Option Text
  pub container_tags : Option (List Text)
  pub new_content : Text
  pub id : Option Text
  pub forget_after : Option Text
  pub forget_reason : Option Text
  pub metadata : Option Json
  pub temporal_context : Option TemporalContext

pub record Message : Type 0 where
  pub role : Text
  pub content : Text

pub record ConversationRequest : Type 0 where
  pub conversation_id : Text
  pub messages : List Message
  pub container_tag : Option Text
  pub container_tags : Option (List Text)
  pub metadata : Option Json

pub record MemoryToolRequest : Type 0 where
  pub action : Text
  pub content : Text
  pub container_tag : Option Text
  pub container_tags : Option (List Text)
  pub custom_id : Option Text
  pub metadata : Option Json

-- The requests of the five routes.
pub data Request : Type 0 where
  add : AddMemoryRequest → Request
  forget : ForgetRequest → Request
  update : UpdateMemoryRequest → Request
  converse : ConversationRequest → Request
  use_tool : MemoryToolRequest → Request

-- The five responses; times are as the engine has them.
pub data Response : Type 0 where
  add_response : (id container_tag status : Text) → Response
  forget_response : (id : Text) → Bool → Response
  update_response : (memory : Text) → MemoryVersion → Response
  conversation_response : (conversation_id id status : Text) → Response
  tool_response : (action status : Text) → Option Text → Option (List Text) → Response
