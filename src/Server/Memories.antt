-- ===== src/Server/Memories.antt =====
-- crates/mnestic-server/src/memories.rs and memory_tool.rs: the handlers that write, after the request
-- is authenticated. The engine is an interface over a state of its own.
pub mod Refused
use pg_mnestic.Prelude.{
  ℕ, Bool, true, false, not, List, [], ◌∷◌, ◌++◌, map, Option, none, some, if◌then◌else◌, is_empty,
}
use pg_mnestic.Text.{Text, codes, text_eq, trim, join, eq_ignore_ascii_case}
use pg_mnestic.Json.{Json, null, object, no_more}
use pg_mnestic.Core.Types.{Time}
use pg_mnestic.Store.Db.{Error, Result, ok, err}
use pg_mnestic.Store.Memories.{Uuids}
use pg_mnestic.Store.Versions.{MemoryVersion}
use pg_mnestic.Engine.Write.{AddResult}
use pg_mnestic.Engine.Worker.{EnqueueResult}
use pg_mnestic.Server.ContainerTag.{Scope, parse_container_tag}
use pg_mnestic.Server.Api.{
  ApiError, bad_request, not_found, internal, ApiResult, done, failed, resolve_container_tag,
  trimmed_field,
}
use pg_mnestic.Server.Requests.{
  AddMemoryRequest, ForgetRequest, TemporalContext, UpdateMemoryRequest, Message,
  ConversationRequest, MemoryToolRequest, Request, Response, add, forget, update, converse,
  use_tool, add_response, forget_response, update_response, conversation_response, tool_response,
}

-- What an update carries beside the id.
pub record NewVersion : Type 0 where
  pub content : Text
  pub forget_after : Option Time
  pub forget_reason : Option Text
  pub metadata : Json
  pub document_date : Option Time
  pub event_date : Option Time

-- The engine's operations for the tenant, each with the state it leaves.
pub record MemoryEngine (S : Type 0) : Type 0 where
  pub add_at : Scope → Text → Text → Option Text → Json → S → Result AddResult × S
  pub enqueue : Scope → Text → Text → Option Text → Json → S → Result EnqueueResult × S
  pub forget_by_id : Text → ℕ → Option Text → S → Result Bool × S
  pub forget_by_content : Text → Text → S → Result (List ℕ) × S
  pub update_memory : Text → ℕ → NewVersion → S → Result (Option MemoryVersion) × S

-- `normalize_metadata`.
unfoldable pub normalize_metadata : Option Json → Json
normalize_metadata none = object no_more
normalize_metadata (some null) = object no_more
normalize_metadata (some v) = v

abbrev pub is_dynamic : Option Text → Bool
is_dynamic none = false
is_dynamic (some d) = eq_ignore_ascii_case d (codes "dynamic")

-- `format!("{}: {}", m.role, m.content)`.
abbrev pub line_of : Message → Text
line_of m = m.role ++ codes ": " ++ m.content

abbrev pub first_or_empty : (ℕ → Text) → List ℕ → Text
first_or_empty print [] = []
first_or_empty print (id ∷ ids) = print id

abbrev pub first_text : Option (List Text) → Option Text
first_text none = none
first_text (some []) = none
first_text (some (t ∷ ts)) = some t

module _ {S : Type 0} where
  -- A response that leaves the state.
  abbrev pub reply : {B : Type 0} → ApiResult B → S → ApiResult B × S
  reply r s = (r, s)

  -- `?` on a check.
  abbrev pub checked :
      {A B : Type 0} → ApiResult A → (A → S → ApiResult B × S) → S → ApiResult B × S
  checked (done a) f s = f a s
  checked (failed e) f s = (failed e, s)

  -- `.await?` on an operation of the engine.
  abbrev pub called : {A B : Type 0} → (A → ApiResult B) → Result A × S → ApiResult B × S
  called f (ok a, s) = (f a, s)
  called f (err e, s) = (failed (internal e), s)

  unfoldable pub calling :
      {A B : Type 0} → (A → ApiResult B) → (S → Result A × S) → S → ApiResult B × S
  calling f op s = called f (op s)

module _ (uuids : Uuids) (parse_rfc3339 : Text → Option Time) {S : Type 0}
    (engine : MemoryEngine S) where
  open uuids use {to_string, parse_str}

  -- `parse_rfc3339_opt`.
  unfoldable pub parse_rfc3339_opt : Option Text → Text → ApiResult (Option Time)
  parse_rfc3339_opt none name = done none
  parse_rfc3339_opt (some s) name = elim (parse_rfc3339 s) [
    | some t ↦ done (some t)
    | none ↦ failed (bad_request (name ++ codes " is not a valid RFC3339 timestamp"))
  ]

  abbrev pub saved_status : AddResult → Text
  saved_status r = if r.idempotent_skip then codes "skipped" else codes "saved"

  -- Enqueued where `dreaming` is dynamic, else written at once.
  unfoldable pub add_tagged : Bool → AddMemoryRequest → Text → S → ApiResult Response × S
  unfolding normalize_metadata parse_container_tag
  add_tagged true req tag =
      calling
        (λ (r : EnqueueResult). done (
          add_response (to_string r.source_id) tag
            (if r.queued then codes "queued" else codes "skipped")))
        (engine.enqueue (parse_container_tag tag) req.content (codes "conversation") req.custom_id
          (normalize_metadata req.metadata))
  add_tagged false req tag =
      calling (λ (r : AddResult). done (add_response (to_string r.source_id) tag (saved_status r)))
        (engine.add_at (parse_container_tag tag) req.content (codes "conversation") req.custom_id
          (normalize_metadata req.metadata))

  -- `add_memory`.
  unfoldable pub add_memory : AddMemoryRequest → S → ApiResult Response × S
  unfolding add_tagged resolve_container_tag
  add_memory req =
      if is_empty (trim req.content)
      then reply (failed (bad_request (codes "content is empty")))
      else checked (resolve_container_tag req.container_tag req.container_tags)
          (add_tagged (is_dynamic req.dreaming) req)

  -- The id of a request, if it is one.
  abbrev pub parsed_id : Text → ApiResult ℕ
  parsed_id t = elim (parse_str t) [
    | none ↦ failed (bad_request (codes "id is not a valid memory id"))
    | some id ↦ done id
  ]

  -- By id where there is one, else by content.
  unfoldable pub forget_by :
      Text → Option Text → Option Text → Option Text → S → ApiResult Response × S
  forget_by actor_id (some t) content reason = checked (parsed_id t) (λ id.
      calling (λ (b : Bool). done (forget_response t b)) (engine.forget_by_id actor_id id reason))
  forget_by actor_id none (some c) reason =
      calling
        (λ (ids : List ℕ).
          done (forget_response (first_or_empty to_string ids) (not (is_empty ids))))
        (engine.forget_by_content actor_id c)
  forget_by actor_id none none reason =
      reply (failed (bad_request (codes "forget requires id or content")))

  -- `forget_memory`.
  unfoldable pub forget_memory : ForgetRequest → S → ApiResult Response × S
  unfolding forget_by resolve_container_tag parse_container_tag
  forget_memory req = checked (resolve_container_tag req.container_tag req.container_tags) (λ tag.
      forget_by (parse_container_tag tag).actor_id (trimmed_field req.id)
        (trimmed_field req.content) req.reason)

  abbrev pub required_id : Option Text → ApiResult ℕ
  required_id none = failed (bad_request (codes "id is required"))
  required_id (some t) = parsed_id t

  -- The two dates of `temporalContext`.
  unfoldable pub document_date_of : Option TemporalContext → ApiResult (Option Time)
  unfolding parse_rfc3339_opt
  document_date_of none = done none
  document_date_of (some tc) =
      parse_rfc3339_opt tc.document_date (codes "temporalContext.documentDate")

  unfoldable pub event_date_of : Option TemporalContext → ApiResult (Option Time)
  unfolding parse_rfc3339_opt
  event_date_of none = done none
  event_date_of (some tc) =
      parse_rfc3339_opt (first_text tc.event_date) (codes "temporalContext.eventDate")

  abbrev pub updated_or_missing : Text → Option MemoryVersion → ApiResult Response
  updated_or_missing content none = failed not_found
  updated_or_missing content (some v) = done (update_response content v)

  -- `update_memory`.
  unfoldable pub update_memory : UpdateMemoryRequest → S → ApiResult Response × S
  unfolding normalize_metadata document_date_of event_date_of parse_rfc3339_opt
      resolve_container_tag parse_container_tag
  update_memory req = checked (resolve_container_tag req.container_tag req.container_tags) (λ tag.
      if is_empty (trim req.new_content)
      then reply (failed (bad_request (codes "newContent is empty")))
      else checked (required_id (trimmed_field req.id)) (λ id.
        checked (parse_rfc3339_opt req.forget_after (codes "forgetAfter")) (λ forget_after.
          checked (document_date_of req.temporal_context) (λ document_date.
            checked (event_date_of req.temporal_context) (λ event_date.
              calling (updated_or_missing (trim req.new_content)) (
                engine.update_memory (parse_container_tag tag).actor_id id (record {
                  content = trim req.new_content;
                  forget_after = forget_after;
                  forget_reason = req.forget_reason;
                  metadata = normalize_metadata req.metadata;
                  document_date = document_date;
                  event_date = event_date;
                })))))))

  abbrev pub conversation_text : List Message → Text
  conversation_text ms = join (codes "\n") (map line_of ms)

  -- `ingest_conversation`.
  unfoldable pub ingest_conversation : ConversationRequest → S → ApiResult Response × S
  unfolding normalize_metadata resolve_container_tag parse_container_tag join
  ingest_conversation req =
      checked (resolve_container_tag req.container_tag req.container_tags) (λ tag.
        if is_empty (trim (conversation_text req.messages))
        then reply (failed (bad_request (codes "messages have no content")))
        else (calling
            (λ (r : AddResult). done (
              conversation_response req.conversation_id (to_string r.source_id)
                (if r.idempotent_skip then codes "skipped" else codes "ingested")))
            (engine.add_at (parse_container_tag tag) (conversation_text req.messages)
              (codes "conversation") (some req.conversation_id) (normalize_metadata req.metadata))))

  -- The arm "forget": a custom id is refused.
  unfoldable pub tool_forget : Option Text → Text → MemoryToolRequest → S → ApiResult Response × S
  tool_forget (some c) actor_id req =
      reply (failed (bad_request (codes "customId is not used by forget")))
  tool_forget none actor_id req =
      calling
        (λ (ids : List ℕ).
          done (tool_response req.action (codes "forgotten") none (some (map to_string ids))))
        (engine.forget_by_content actor_id req.content)

  -- `memory_tool`; the message of an unknown action has the action quoted.
  unfoldable pub memory_tool : MemoryToolRequest → S → ApiResult Response × S
  unfolding normalize_metadata tool_forget resolve_container_tag parse_container_tag
  memory_tool req =
      if is_empty (trim req.content)
      then reply (failed (bad_request (codes "content is empty")))
      else checked (resolve_container_tag req.container_tag req.container_tags) (λ tag.
        if text_eq req.action (codes "save")
        then (calling
            (λ (r : AddResult).
              done (tool_response req.action (saved_status r) (some (to_string r.source_id)) none))
            (engine.add_at (parse_container_tag tag) req.content (codes "conversation")
              req.custom_id (normalize_metadata req.metadata)))
        else if text_eq req.action (codes "forget")
        then tool_forget req.custom_id (parse_container_tag tag).actor_id req
        else reply (failed (bad_request (codes "unknown action (use save or forget)"))))

  -- The routes of `app` that write memories.
  unfoldable pub handle : Request → S → ApiResult Response × S
  unfolding add_memory forget_memory update_memory ingest_conversation memory_tool
  handle (add req) = add_memory req
  handle (forget req) = forget_memory req
  handle (update req) = update_memory req
  handle (converse req) = ingest_conversation req
  handle (use_tool req) = memory_tool req
