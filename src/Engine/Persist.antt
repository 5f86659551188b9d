-- ===== src/Engine/Persist.antt =====
-- `persist_candidates`, `persist` and the retry loop of `add_at`. The extractor, the embedder and
-- the relation classifier run outside the transaction: their results are the request's.
pub mod Retry
pub mod Keeps
pub mod Laws
use pg_mnestic.Prelude.{
  ℕ, zero, suc, ◌+◌, ◌-◌, ◌<◌, Bool, true, false, ◌&&◌, not, List, [], ◌∷◌, Option, none, some, ltb,
  ◌==◌, if◌then◌else◌, length, is_empty, filter,
}
use pg_mnestic.Text.{Text, codes, trim}
use pg_mnestic.Core.Types.{Time, Candidate}
use pg_mnestic.Core.Ontology.{normalize_subject, canonical_attribute}
use pg_mnestic.Store.Db.{
  Db, Error, SqlState, db, bad_id, model, embedding_count_mismatch, embedding_dim, empty_document,
  supersede_failed, conflict_retries_exhausted, exclusion_violation, serialization_failure,
  deadlock_detected, check_violation, range_error, other, Result, ok, err, Tx, ◌>>=◌, ◌>>◌, return,
  fail, lift, get_db,
}
use pg_mnestic.Store.Memories.{Uuids}
use pg_mnestic.Store.Sources.{insert_source, source_id_by_custom_id}
use pg_mnestic.Store.Profile.{refresh_profile}
use pg_mnestic.Engine.Write.{
  AddResult, empty_result, MemoryWrite, resolve_write, embedding_size, max_conflict_retries,
  static_confidence, static_facts_cap, dynamic_ctx_cap,
}

-- `WriteRequest`; `clock` has the reading of `Utc::now` for each candidate.
pub record WriteRequest : Type 0 where
  pub tenant_id : ℕ
  pub actor_id : Text
  pub container_tags : List Text
  pub content : Text
  pub kind : Text
  pub custom_id : Option Text
  pub as_of : Option Time
  pub metadata : Text
  pub candidates : List Candidate
  pub embeddings : List (List ℕ)
  pub clock : ℕ → Time

-- `check_embedding_dim`.
unfoldable pub check_embedding_dim : List ℕ → Result (Unit {0})
check_embedding_dim v =
    if length v == embedding_size then ok tt else err (embedding_dim embedding_size (length v))

-- `filter(|s| !s.is_empty())`.
abbrev pub nonempty_key : Option Text → Option Text
nonempty_key none = none
nonempty_key (some s) = if is_empty s then none else some s

abbrev pub opt_map : (Text → Text) → Option Text → Option Text
opt_map f none = none
opt_map f (some s) = some (f s)

abbrev pub is_some : Option Text → Bool
is_some none = false
is_some (some s) = true

-- `unwrap_or("")` and `unwrap_or_default()`; the default UUID is the nil one, here 0.
abbrev pub text_or_empty : Option Text → Text
text_or_empty none = []
text_or_empty (some s) = s

abbrev pub id_or_nil : Option ℕ → ℕ
id_or_nil none = 0
id_or_nil (some n) = n

-- `candidates.retain(|c| !c.content.trim().is_empty())` of `extract_and_embed`.
unfoldable pub retain_nonblank : List Candidate → List Candidate
retain_nonblank = filter (λ c. not (is_empty (trim c.content)))

-- `Error::is_transient_conflict`.
unfoldable pub is_transient_conflict : Error → Bool
is_transient_conflict (db exclusion_violation) = true
is_transient_conflict (db serialization_failure) = true
is_transient_conflict (db deadlock_detected) = true
is_transient_conflict (db check_violation) = false
is_transient_conflict (db range_error) = false
is_transient_conflict (db other) = false
is_transient_conflict (model s) = false
is_transient_conflict (bad_id s) = false
is_transient_conflict (embedding_count_mismatch m n) = false
is_transient_conflict (embedding_dim m n) = false
is_transient_conflict empty_document = false
is_transient_conflict (supersede_failed n) = false
is_transient_conflict (conflict_retries_exhausted n) = false

-- `for attempt in 0..MAX_CONFLICT_RETRIES` with the attempts left; `run` is one attempt. A result
-- that is returned at once is the last of the list of attempts.
unfoldable pub retry : {A : Type 0} → (ℕ → Result A) → ℕ → ℕ → Result A
retry run zero attempt = err (conflict_retries_exhausted max_conflict_retries)
retry run (suc left) attempt =
    let again = retry run left (suc attempt) in
    elim (run attempt) [
      | ok r ↦ ok r
      | err e ↦
          if is_transient_conflict e && ltb (attempt + 1) max_conflict_retries then again else err e
    ]

module _ (uuids : Uuids) (to_lowercase : Text → Text) (synonyms : List (Text × Text)) where
  abbrev pub subject_key : Candidate → Option Text
  subject_key cand = nonempty_key (opt_map (normalize_subject to_lowercase) cand.subject)

  abbrev pub attribute_key : Candidate → Option Text
  attribute_key cand =
      nonempty_key (opt_map (canonical_attribute to_lowercase synonyms) cand.attribute)

  -- The `MemoryWrite` of one candidate.
  unfoldable pub to_write : WriteRequest → ℕ → ℕ → Candidate → List ℕ → MemoryWrite
  to_write req source_id index cand embedding = record {
    tenant_id = req.tenant_id;
    actor_id = req.actor_id;
    container_tags = req.container_tags;
    source_id = source_id;
    embedding = embedding;
    metadata = req.metadata;
    subject = subject_key cand;
    attribute = attribute_key cand;
    single_valued =
        cand.single_valued && is_some (subject_key cand) && is_some (attribute_key cand);
    as_of = req.as_of;
    cand = cand;
    written_at = req.clock index;
  }

  -- `for (cand, embedding) in req.candidates.iter().zip(req.embeddings)`.
  unfoldable pub persist_each :
      WriteRequest → ℕ → ℕ → List Candidate → List (List ℕ) → AddResult → Tx AddResult
  unfolding check_embedding_dim to_write resolve_write
  persist_each req source_id index [] vs result = return result
  persist_each req source_id index (c ∷ cs) [] result = return result
  persist_each req source_id index (c ∷ cs) (v ∷ vs) result = do
    _ ← lift (check_embedding_dim v)
    result' ← resolve_write uuids (to_write req source_id index c v) result
    persist_each req source_id (suc index) cs vs result'

  unfoldable pub persist_candidates : WriteRequest → ℕ → Tx AddResult
  unfolding persist_each
  persist_candidates req source_id = do
    result ← persist_each req source_id 0 req.candidates req.embeddings (empty_result source_id)
    refresh_profile req.tenant_id req.actor_id static_confidence static_facts_cap dynamic_ctx_cap
    return result

  -- `persist`: what it returns, and the database that it commits.
  unfoldable pub persist : WriteRequest → Tx AddResult
  unfolding persist_candidates
  persist req = do
    source ←
        insert_source req.tenant_id req.actor_id req.container_tags req.kind req.content
          req.custom_id false req.metadata
    elim source [
      | some source_id ↦ persist_candidates req source_id
      | none ↦ (do
        existing ← source_id_by_custom_id req.tenant_id (text_or_empty req.custom_id)
        return (record (empty_result (id_or_nil existing)) { idempotent_skip = true }))
    ]

  -- The loop of `add_at`, less the relation pass after a commit, whose failure is only logged.
  -- `seen n` is the committed database that attempt `n` starts from.
  unfoldable pub add_at : WriteRequest → (ℕ → Db) → Result (AddResult × Db)
  unfolding persist retry
  add_at req seen = retry (λ attempt. persist req (seen attempt)) max_conflict_retries 0
