-- ===== src/Store/Isolation/Texts.antt =====
-- The statements that store a document leave the other tenants' rows as they are.
use pg_mnestic.Prelude.{ℕ, ◌≡◌, ◌∙◌, List, ◌∷◌, Option, arith, refl, filter, ap}
use pg_mnestic.Text.{Text}
use pg_mnestic.Store.Db.{Db, DocumentRow, ChunkRow, ok}
use pg_mnestic.Store.Documents.{NewChunk, insert_document, insert_chunk}
use pg_mnestic.Store.Preserve.{Storing}
use pg_mnestic.Store.Isolation.{
  outside, outside_texts, HasOutside, Rows, other_document, other_chunk,
}

module _ (tenant_id : ℕ) where
  own_document :
      (x : DocumentRow) (xs : List DocumentRow)
      → x.tenant_id ≡ tenant_id
      → filter (other_document tenant_id) (x ∷ xs) ≡ filter (other_document tenant_id) xs
  own_document x xs own = ground arith

  own_chunk :
      (x : ChunkRow) (xs : List ChunkRow)
      → x.tenant_id ≡ tenant_id
      → filter (other_chunk tenant_id) (x ∷ xs) ≡ filter (other_chunk tenant_id) xs
  own_chunk x xs own = ground arith

  insert_document-outside :
      (actor_id : Text) (source_id : Option ℕ) (tags : List Text) (title uri : Option Text)
      (metadata : Text) (d d' : Db) (id : ℕ)
      → insert_document tenant_id actor_id source_id tags title uri metadata d ≡ ok (id, d')
      → outside tenant_id d' ≡ outside tenant_id d
  unfolding insert_document
  insert_document-outside actor_id source_id tags title uri metadata d d' id h =
      let x : DocumentRow = record {
        id = d.next_id;
        tenant_id = tenant_id;
        actor_id = actor_id;
        source_id = source_id;
        container_tags = tags;
        title = title;
        uri = uri;
        metadata = metadata;
        created_at = d.now;
      } in
      let put : d'.documents ≡ x ∷ d.documents = ground arith in
      let same : d'.chunks ≡ d.chunks = ground arith in
      outside_texts tenant_id d d' (ground arith) (ground arith) (ground arith) (ground arith)
        (ap (filter (other_document tenant_id)) put ∙ own_document x d.documents refl)
        (ap (filter (other_chunk tenant_id)) same)

  insert_chunk-outside :
      (c : NewChunk) (d d' : Db) (id : ℕ)
      → c.tenant_id ≡ tenant_id
      → insert_chunk c d ≡ ok (id, d')
      → outside tenant_id d' ≡ outside tenant_id d
  unfolding insert_chunk
  insert_chunk-outside c d d' id own h =
      let x : ChunkRow = record {
        id = d.next_id;
        tenant_id = c.tenant_id;
        actor_id = c.actor_id;
        document_id = c.document_id;
        container_tags = c.container_tags;
        ord = c.ord;
        content = c.content;
        embedding = c.embedding;
        created_at = d.now;
      } in
      let put : d'.chunks ≡ x ∷ d.chunks = ground arith in
      let same : d'.documents ≡ d.documents = ground arith in
      outside_texts tenant_id d d' (ground arith) (ground arith) (ground arith) (ground arith)
        (ap (filter (other_document tenant_id)) same)
        (ap (filter (other_chunk tenant_id)) put ∙ own_chunk x d.chunks own)

  pub Outside-Storing : (v : Rows) → Storing (HasOutside tenant_id v) tenant_id
  Outside-Storing v = record {
    on_document = λ actor_id source_id tags title uri metadata d d' id h e.
        insert_document-outside actor_id source_id tags title uri metadata d d' id h ∙ e;
    on_chunk = λ c own d d' id h e. insert_chunk-outside c d d' id own h ∙ e;
  }
