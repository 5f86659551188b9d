-- ===== src/Store/Documents.antt =====
-- The statements on mnestic_document and mnestic_chunk that store a document.
use pg_mnestic.Prelude.{ℕ, suc, Bool, false, ◌&&◌, List, ◌∷◌, Option, none, some, ◌==◌, find}
use pg_mnestic.Text.{Text}
use pg_mnestic.Store.Db.{DocumentRow, Tx, ok}

-- `insert_document_tx`.
unfoldable pub insert_document :
    ℕ → Text → Option ℕ → List Text → Option Text → Option Text → Text → Tx ℕ
insert_document tenant_id actor_id source_id container_tags title uri metadata d = ok (
  d.next_id,
  record d {
    documents =
        record {
          id = d.next_id;
          tenant_id = tenant_id;
          actor_id = actor_id;
          source_id = source_id;
          container_tags = container_tags;
          title = title;
          uri = uri;
          metadata = metadata;
          created_at = d.now;
        }
        ∷ d.documents;
    next_id = suc d.next_id;
  },
)

abbrev pub is_document_of : ℕ → ℕ → DocumentRow → Bool
is_document_of tenant_id source_id x =
    x.tenant_id == tenant_id && (elim x.source_id [ none ↦ false | some s ↦ s == source_id ])

-- `document_id_by_source_tx`.
unfoldable pub document_id_by_source : ℕ → ℕ → Tx (Option ℕ)
document_id_by_source tenant_id source_id d = ok (
  (elim (find (is_document_of tenant_id source_id) d.documents) [
    | none ↦ none
    | some x ↦ some x.id
  ]),
  d,
)

-- `NewChunk`.
pub record NewChunk : Type 0 where
  pub tenant_id : ℕ
  pub actor_id : Text
  pub document_id : ℕ
  pub container_tags : List Text
  pub ord : ℕ
  pub content : Text
  pub embedding : List ℕ

-- `insert_chunk_tx`.
unfoldable pub insert_chunk : NewChunk → Tx ℕ
insert_chunk c d = ok (
  d.next_id,
  record d {
    chunks =
        record {
          id = d.next_id;
          tenant_id = c.tenant_id;
          actor_id = c.actor_id;
          document_id = c.document_id;
          container_tags = c.container_tags;
          ord = c.ord;
          content = c.content;
          embedding = c.embedding;
          created_at = d.now;
        }
        ∷ d.chunks;
    next_id = suc d.next_id;
  },
)
