-- ===== src/Server/Memories/Refused.antt =====
-- A request that is refused changes nothing.
use pg_mnestic.Prelude.{
  ◌≡◌, refl, Bool, true, false, Option, none, some, if◌then◌else◌, is_empty, arith,
}
use pg_mnestic.Text.{Text, codes, text_eq, trim}
use pg_mnestic.Core.Types.{Time}
use pg_mnestic.Store.Db.{Result, ok, err}
use pg_mnestic.Store.Memories.{Uuids}
use pg_mnestic.Store.Versions.{MemoryVersion}
use pg_mnestic.Server.ContainerTag.{parse_container_tag}
use pg_mnestic.Server.Api.{
  bad_request, ApiResult, done, failed, resolve_container_tag, trimmed_field,
}
use pg_mnestic.Server.Memories.{
  MemoryEngine, reply, checked, called, calling, is_dynamic, add_tagged, add_memory, parsed_id,
  forget_by, forget_memory, required_id, document_date_of, event_date_of, parse_rfc3339_opt,
  updated_or_missing, update_memory, conversation_text, ingest_conversation, tool_forget,
  memory_tool, handle,
}
use pg_mnestic.Server.Requests.{
  AddMemoryRequest, ForgetRequest, UpdateMemoryRequest, ConversationRequest, MemoryToolRequest,
  Request, add, forget, update, converse, use_tool,
}

abbrev pub is_bad_request : {A : Type 0} → ApiResult A → Bool
is_bad_request (failed (bad_request m)) = true
is_bad_request _ = false

-- Where the handler answers 400, the state is as it was.
record Refuses {S B : Type 0} (h : S → ApiResult B × S) : Type 0 where
  unchanged : (s : S) → is_bad_request (h s).0 ≡ true → (h s).1 ≡ s

module _ {S B : Type 0} where
  reply-Refuses : (r : ApiResult B) → Refuses {S = S} {B = B} (reply r)
  reply-Refuses r = record { unchanged = λ s h. refl }

  checked-Refuses :
      {A : Type 0} (o : ApiResult A) (f : A → S → ApiResult B × S)
      → ((a : A) → Refuses (f a))
      → Refuses (checked o f)
  checked-Refuses (done a) f k = record { unchanged = λ s h. (k a).unchanged s h }
  checked-Refuses (failed e) f k = record { unchanged = λ s h. refl }

  if-Refuses :
      (b : Bool) (f g : S → ApiResult B × S) → Refuses f → Refuses g → Refuses (if b then f else g)
  if-Refuses true f g kf kg = kf
  if-Refuses false f g kf kg = kg

  -- No operation of the engine ends in a 400.
  called_never :
      {A : Type 0} (f : A → ApiResult B) (r : Result A × S)
      → ((a : A) → is_bad_request (f a) ≡ false)
      → is_bad_request (called f r).0 ≡ false
  called_never f (ok a, s) k = k a
  called_never f (err e, s) k = refl

  calling-Refuses :
      {A : Type 0} (f : A → ApiResult B) (op : S → Result A × S)
      → ((a : A) → is_bad_request (f a) ≡ false)
      → Refuses (calling f op)
  unfolding calling
  calling-Refuses f op k = record {
    unchanged = λ s h. let never = called_never f (op s) k in ground arith;
  }

module _ (uuids : Uuids) (parse_rfc3339 : Text → Option Time) {S : Type 0}
    (engine : MemoryEngine S) where
  add_tagged-Refuses :
      (dynamic : Bool) (req : AddMemoryRequest) (tag : Text)
      → Refuses (add_tagged uuids parse_rfc3339 engine dynamic req tag)
  unfolding add_tagged
  add_tagged-Refuses true req tag = calling-Refuses _ _ (λ r. refl)
  add_tagged-Refuses false req tag = calling-Refuses _ _ (λ r. refl)

  add_memory-Refuses :
      (req : AddMemoryRequest) → Refuses (add_memory uuids parse_rfc3339 engine req)
  unfolding add_memory
  add_memory-Refuses req = if-Refuses (is_empty (trim req.content)) _ _ (reply-Refuses _) (
      checked-Refuses (resolve_container_tag req.container_tag req.container_tags) _
        (add_tagged-Refuses (is_dynamic req.dreaming) req))

  forget_by-Refuses :
      (actor_id : Text) (id content reason : Option Text)
      → Refuses (forget_by uuids parse_rfc3339 engine actor_id id content reason)
  unfolding forget_by
  forget_by-Refuses actor_id (some t) content reason =
      checked-Refuses (parsed_id uuids parse_rfc3339 engine t) _
        (λ id. calling-Refuses _ _ (λ b. refl))
  forget_by-Refuses actor_id none (some c) reason = calling-Refuses _ _ (λ ids. refl)
  forget_by-Refuses actor_id none none reason = reply-Refuses _

  forget_memory-Refuses :
      (req : ForgetRequest) → Refuses (forget_memory uuids parse_rfc3339 engine req)
  unfolding forget_memory
  forget_memory-Refuses req =
      checked-Refuses (resolve_container_tag req.container_tag req.container_tags) _ (λ tag.
        forget_by-Refuses (parse_container_tag tag).actor_id (trimmed_field req.id)
          (trimmed_field req.content) req.reason)

  made_or_missing :
      (content : Text) (o : Option MemoryVersion)
      → is_bad_request (updated_or_missing uuids parse_rfc3339 engine content o) ≡ false
  made_or_missing content none = refl
  made_or_missing content (some v) = refl

  update_memory-Refuses :
      (req : UpdateMemoryRequest) → Refuses (update_memory uuids parse_rfc3339 engine req)
  unfolding update_memory
  update_memory-Refuses req =
      checked-Refuses (resolve_container_tag req.container_tag req.container_tags) _ (λ tag.
        if-Refuses (is_empty (trim req.new_content)) _ _ (reply-Refuses _) (
          checked-Refuses (required_id uuids parse_rfc3339 engine (trimmed_field req.id)) _ (λ id.
            checked-Refuses
              (parse_rfc3339_opt uuids parse_rfc3339 engine req.forget_after (codes "forgetAfter"))
              _
              (λ fa.
                checked-Refuses (document_date_of uuids parse_rfc3339 engine req.temporal_context) _
                  (λ dd.
                    checked-Refuses (event_date_of uuids parse_rfc3339 engine req.temporal_context)
                      _ (λ ed. calling-Refuses _ _ (made_or_missing (trim req.new_content))))))))

  ingest_conversation-Refuses :
      (req : ConversationRequest) → Refuses (ingest_conversation uuids parse_rfc3339 engine req)
  unfolding ingest_conversation
  ingest_conversation-Refuses req =
      checked-Refuses (resolve_container_tag req.container_tag req.container_tags) _ (λ tag.
        if-Refuses (is_empty (trim (conversation_text uuids parse_rfc3339 engine req.messages))) _ _
          (reply-Refuses _) (calling-Refuses _ _ (λ r. refl)))

  tool_forget-Refuses :
      (custom_id : Option Text) (actor_id : Text) (req : MemoryToolRequest)
      → Refuses (tool_forget uuids parse_rfc3339 engine custom_id actor_id req)
  unfolding tool_forget
  tool_forget-Refuses (some c) actor_id req = reply-Refuses _
  tool_forget-Refuses none actor_id req = calling-Refuses _ _ (λ ids. refl)

  memory_tool-Refuses :
      (req : MemoryToolRequest) → Refuses (memory_tool uuids parse_rfc3339 engine req)
  unfolding memory_tool
  memory_tool-Refuses req = if-Refuses (is_empty (trim req.content)) _ _ (reply-Refuses _) (
      checked-Refuses (resolve_container_tag req.container_tag req.container_tags) _ (λ tag.
        if-Refuses (text_eq req.action (codes "save")) _ _ (calling-Refuses _ _ (λ r. refl)) (
          if-Refuses (text_eq req.action (codes "forget")) _ _
            (tool_forget-Refuses req.custom_id (parse_container_tag tag).actor_id req)
            (reply-Refuses _))))

-- A request to write that is answered with 400, whatever is wrong with it (its tag, an empty content, an
-- id or a date that does not parse, an unknown action), leaves the engine's state as it was.
pub handle_refused :
    (uuids : Uuids) (parse_rfc3339 : Text → Option Time) (S : Type 0) (engine : MemoryEngine S)
    (req : Request) (s : S)
    → is_bad_request (handle uuids parse_rfc3339 engine req s).0 ≡ true
    → (handle uuids parse_rfc3339 engine req s).1 ≡ s
unfolding handle
handle_refused uuids parse_rfc3339 S engine (add req) s h =
    (add_memory-Refuses uuids parse_rfc3339 engine req).unchanged s h
handle_refused uuids parse_rfc3339 S engine (forget req) s h =
    (forget_memory-Refuses uuids parse_rfc3339 engine req).unchanged s h
handle_refused uuids parse_rfc3339 S engine (update req) s h =
    (update_memory-Refuses uuids parse_rfc3339 engine req).unchanged s h
handle_refused uuids parse_rfc3339 S engine (converse req) s h =
    (ingest_conversation-Refuses uuids parse_rfc3339 engine req).unchanged s h
handle_refused uuids parse_rfc3339 S engine (use_tool req) s h =
    (memory_tool-Refuses uuids parse_rfc3339 engine req).unchanged s h
