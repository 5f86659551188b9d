-- ===== src/Engine/Documents/Keeps.antt =====
-- An ingest keeps what each of its statements keeps.
use pg_mnestic.Prelude.{
  ℕ, suc, ◌≡◌, refl, subst, true, false, List, [], ◌∷◌, ◌++◌, Option, none, some, arith, is_empty,
}
use pg_mnestic.Text.{Text, codes, trim}
use pg_mnestic.Core.Chunk.{chunk_text}
use pg_mnestic.Store.Db.{Db, Result, err, empty_document}
use pg_mnestic.Store.Memories.Invariant.{IsValid}
use pg_mnestic.Store.Documents.{insert_document, insert_chunk, NewChunk, document_id_by_source}
use pg_mnestic.Store.Preserve.{
  Keeps, Changes, Storing, >>=-Keeps, return-Keeps, lift-Keeps, if-Keeps,
}
use pg_mnestic.Engine.Extract.{embed_all}
use pg_mnestic.Engine.Persist.{check_embedding_dim, text_or_empty, id_or_nil}
use pg_mnestic.Engine.Persist.Keeps.{source_id-Keeps}
use pg_mnestic.Engine.Persist.Laws.{IdsBelow-mono}
use pg_mnestic.Engine.Documents.{
  DocumentRequest, doc_chunk_chars, doc_chunk_overlap, chunks_or_none, checked_vectors, new_chunk,
  store_chunks, store_document, skip_document, ingest_chunks, ingest_document,
}

module _ (P : Db → Type 0) (req : DocumentRequest) (changes : Changes P req.tenant_id)
    (storing : Storing P req.tenant_id) where
  store_chunks-Keeps :
      (document_id ord : ℕ) (ts : List Text) (vs : List (List ℕ)) (ids : List ℕ)
      → Keeps P (store_chunks req document_id ord ts vs ids)
  unfolding store_chunks
  store_chunks-Keeps document_id ord [] vs ids = return-Keeps P ids
  store_chunks-Keeps document_id ord (t ∷ ts) [] ids = return-Keeps P ids
  store_chunks-Keeps document_id ord (t ∷ ts) (v ∷ vs) ids =
      >>=-Keeps P _ _ (lift-Keeps P (check_embedding_dim v)) λ _.
        >>=-Keeps P _ _ (storing.on_chunk (new_chunk req document_id ord t v) refl)
          λ id. store_chunks-Keeps document_id (suc ord) ts vs (ids ++ id ∷ [])

  store_document-Keeps :
      (ts : List Text) (vs : List (List ℕ)) (source_id : ℕ)
      → Keeps P (store_document req ts vs source_id)
  unfolding store_document
  store_document-Keeps ts vs source_id =
      >>=-Keeps P _ _
        (storing.on_document req.actor_id (some source_id) req.container_tags req.title req.uri
          req.metadata)
        λ id. >>=-Keeps P _ _ (store_chunks-Keeps id 0 ts vs []) λ ids. return-Keeps P _

  document_id-Keeps : (source_id : ℕ) → Keeps P (document_id_by_source req.tenant_id source_id)
  unfolding document_id_by_source
  document_id-Keeps source_id d d' u h v = let same : d ≡ d' = ground arith in subst P same v

  skip_document-Keeps : Keeps P (skip_document req)
  unfolding skip_document
  skip_document-Keeps =
      >>=-Keeps P _ _ (source_id-Keeps P req.tenant_id (text_or_empty req.custom_id)) λ e.
        >>=-Keeps P _ _ (document_id-Keeps (id_or_nil e)) λ x. return-Keeps P (record {
          source_id = id_or_nil e;
          document_id = id_or_nil x;
          chunk_ids = [];
          idempotent_skip = true;
        })

  ingest_chunks-Keeps : (ts : List Text) (vs : List (List ℕ)) → Keeps P (ingest_chunks req ts vs)
  unfolding ingest_chunks
  ingest_chunks-Keeps ts vs =
      >>=-Keeps P _ _
        (changes.on_source req.actor_id req.container_tags (codes "document") req.content
          req.custom_id false req.metadata)
        (elim [
          | some source_id ↦ store_document-Keeps ts vs source_id
          | none ↦ skip_document-Keeps
        ])

  pub ingest_document-Keeps :
      (embed : List Text → Result (List (List ℕ))) → Keeps P (ingest_document embed req)
  unfolding ingest_document
  ingest_document-Keeps embed =
      if-Keeps P (is_empty (trim req.content)) _ _ (lift-Keeps P (err empty_document)) (
        >>=-Keeps P _ _
          (lift-Keeps P (
            checked_vectors
              (chunks_or_none (chunk_text req.content doc_chunk_chars doc_chunk_overlap))
              (embed_all embed
                (chunks_or_none (chunk_text req.content doc_chunk_chars doc_chunk_overlap)))))
          λ vs. ingest_chunks-Keeps _ vs)

more_ids :
    (d d' : Db) → d'.memories ≡ d.memories → d'.next_id ≡ suc d.next_id → IsValid d → IsValid d'
more_ids d d' rows next v =
    rw (rows, next)
      (record {
        ids = IdsBelow-mono d.next_id (suc d.next_id) d.memories (omega arith) v.ids;
        exclusive = v.exclusive;
        checked = v.checked;
      })

document-IsValid :
    (tenant_id : ℕ) (actor_id : Text) (source_id : Option ℕ) (tags : List Text)
    (title uri : Option Text) (metadata : Text)
    → Keeps IsValid (insert_document tenant_id actor_id source_id tags title uri metadata)
unfolding insert_document
document-IsValid tenant_id actor_id source_id tags title uri metadata d d' id h v =
    more_ids d d' (ground arith) (ground arith) v

chunk-IsValid : (c : NewChunk) → Keeps IsValid (insert_chunk c)
unfolding insert_chunk
chunk-IsValid c d d' id h v = more_ids d d' (ground arith) (ground arith) v

pub IsValid-Storing : (tenant_id : ℕ) → Storing IsValid tenant_id
IsValid-Storing tenant_id = record {
  on_document = document-IsValid tenant_id;
  on_chunk = λ c own. chunk-IsValid c;
}
