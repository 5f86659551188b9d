-- ===== src/Engine/Documents.antt =====
-- `ingest_document`: a document is cut into chunks, and stored with them in one transaction.
pub mod Chunks
pub mod Keeps
use pg_mnestic.Prelude.{
  ℕ, suc, Bool, true, false, List, [], ◌∷◌, ◌++◌, Option, none, some, ◌==◌, if◌then◌else◌, is_empty,
  length,
}
use pg_mnestic.Text.{Text, codes, trim}
use pg_mnestic.Core.Chunk.{chunk_text}
use pg_mnestic.Store.Db.{
  Db, Error, embedding_count_mismatch, empty_document, Result, ok, err, Tx, ◌>>=◌, return, lift,
}
use pg_mnestic.Store.Sources.{insert_source, source_id_by_custom_id}
use pg_mnestic.Store.Documents.{NewChunk, insert_document, document_id_by_source, insert_chunk}
use pg_mnestic.Engine.Persist.{check_embedding_dim, text_or_empty, id_or_nil}
use pg_mnestic.Engine.Extract.{embed_all}

abbrev pub doc_chunk_chars : ℕ
doc_chunk_chars = 1000

abbrev pub doc_chunk_overlap : ℕ
doc_chunk_overlap = 100

-- `DocumentResult`.
pub record DocumentResult : Type 0 where
  pub source_id : ℕ
  pub document_id : ℕ
  pub chunk_ids : List ℕ
  pub idempotent_skip : Bool

-- The arguments of `ingest_document`.
pub record DocumentRequest : Type 0 where
  pub tenant_id : ℕ
  pub actor_id : Text
  pub container_tags : List Text
  pub title : Option Text
  pub uri : Option Text
  pub content : Text
  pub custom_id : Option Text
  pub metadata : Text

-- The chunks; the loop of `chunk_text` never runs out of its fuel (Core/Chunk/Content).
abbrev pub chunks_or_none : Option (List Text) → List Text
chunks_or_none none = []
chunks_or_none (some ts) = ts

-- The embedder's answer, with one vector for each chunk.
abbrev pub checked_vectors : List Text → Result (List (List ℕ)) → Result (List (List ℕ))
checked_vectors chunks (err e) = err e
checked_vectors chunks (ok vectors) =
    if length vectors == length chunks
    then ok vectors
    else err (embedding_count_mismatch (length chunks) (length vectors))

abbrev pub new_chunk : DocumentRequest → ℕ → ℕ → Text → List ℕ → NewChunk
new_chunk req document_id ord chunk embedding = record {
  tenant_id = req.tenant_id;
  actor_id = req.actor_id;
  document_id = document_id;
  container_tags = req.container_tags;
  ord = ord;
  content = chunk;
  embedding = embedding;
}

-- `for (ord, (chunk, embedding)) in chunks.iter().zip(&embeddings).enumerate()`.
unfoldable pub store_chunks :
    DocumentRequest → ℕ → ℕ → List Text → List (List ℕ) → List ℕ → Tx (List ℕ)
unfolding check_embedding_dim insert_chunk
store_chunks req document_id ord [] vs chunk_ids = return chunk_ids
store_chunks req document_id ord (t ∷ ts) [] chunk_ids = return chunk_ids
store_chunks req document_id ord (t ∷ ts) (v ∷ vs) chunk_ids = do
  _ ← lift (check_embedding_dim v)
  id ← insert_chunk (new_chunk req document_id ord t v)
  store_chunks req document_id (suc ord) ts vs (chunk_ids ++ id ∷ [])

unfoldable pub store_document : DocumentRequest → List Text → List (List ℕ) → ℕ → Tx DocumentResult
unfolding store_chunks insert_document
store_document req chunks vectors source_id = do
  document_id ←
      insert_document req.tenant_id req.actor_id (some source_id) req.container_tags req.title
        req.uri req.metadata
  chunk_ids ← store_chunks req document_id 0 chunks vectors []
  return (record {
    source_id = source_id;
    document_id = document_id;
    chunk_ids = chunk_ids;
    idempotent_skip = false;
  })

-- The document of a custom id that was used before.
unfoldable pub skip_document : DocumentRequest → Tx DocumentResult
unfolding source_id_by_custom_id document_id_by_source
skip_document req = do
  existing ← source_id_by_custom_id req.tenant_id (text_or_empty req.custom_id)
  document ← document_id_by_source req.tenant_id (id_or_nil existing)
  return (record {
    source_id = id_or_nil existing;
    document_id = id_or_nil document;
    chunk_ids = [];
    idempotent_skip = true;
  })

-- The transaction, once the chunks are embedded.
unfoldable pub ingest_chunks : DocumentRequest → List Text → List (List ℕ) → Tx DocumentResult
unfolding insert_source store_document skip_document
ingest_chunks req chunks vectors = do
  source ←
      insert_source req.tenant_id req.actor_id req.container_tags (codes "document") req.content
        req.custom_id false req.metadata
  elim source [
    | some source_id ↦ store_document req chunks vectors source_id
    | none ↦ skip_document req
  ]

-- `ingest_document`.
unfoldable pub ingest_document :
    (List Text → Result (List (List ℕ))) → DocumentRequest → Tx DocumentResult
unfolding ingest_chunks chunk_text embed_all
ingest_document embed req = if is_empty (trim req.content) then lift (err empty_document) else (do
  let chunks = chunks_or_none (chunk_text req.content doc_chunk_chars doc_chunk_overlap)
  vectors ← lift (checked_vectors chunks (embed_all embed chunks))
  ingest_chunks req chunks vectors)
