-- ===== src/Server/Results.antt =====
-- The requests and answers of crates/mnestic-server/src/query.rs, and the rows of the store and the
-- engine that they are made of.
use pg_mnestic.Prelude.{ℕ, Bool, not, List, ◌++◌, map, Option, filter, ℤ}
use pg_mnestic.Text.{Text, codes}
use pg_mnestic.Core.Types.{Time}
use pg_mnestic.Store.Db.{Result}
use pg_mnestic.Store.MetaFilter.{MetaFilter}
use pg_mnestic.Store.Lineage.{LineageRow, RelEdge, RelatedRow}
use pg_mnestic.Engine.Context.{MemoryContext}
use pg_mnestic.Server.Filter.{FilterNode}

pub record ContextNode : Type 0 where
  pub memory : Option Text
  pub relation : Text
  pub updated_at : Option Time
  pub metadata : Text
  pub version : ℕ

-- `MemoryContext` of the response.
pub record ContextNodes : Type 0 where
  pub parents : List ContextNode
  pub children : List ContextNode
  pub related : List ContextNode

pub record DocumentRef : Type 0 where
  pub id : Text
  pub created_at : Time
  pub updated_at : Time
  pub metadata : Text
  pub doc_type : Option Text

-- `to_context_node`, `edge_to_context_node` and `related_to_context_node`.
abbrev pub to_context_node : LineageRow → ContextNode
to_context_node r = record {
  memory = r.content;
  relation = codes "updates";
  updated_at = r.updated_at;
  metadata = r.metadata;
  version = r.version;
}

abbrev pub edge_to_context_node : RelEdge → ContextNode
edge_to_context_node e = record {
  memory = e.neighbor_content;
  relation = e.relation;
  updated_at = e.neighbor_updated_at;
  metadata = e.neighbor_metadata;
  version = e.neighbor_version;
}

abbrev pub related_to_context_node : RelatedRow → ContextNode
related_to_context_node r = record {
  memory = r.content;
  relation = codes "related";
  updated_at = r.updated_at;
  metadata = r.metadata;
  version = r.version;
}

-- The two partitions of a memory's context.
unfoldable pub to_context_nodes : MemoryContext → ContextNodes
to_context_nodes ctx = record {
  parents =
      map to_context_node (filter (λ (l : LineageRow). l.is_parent) ctx.lineage)
      ++ map edge_to_context_node (filter (λ (e : RelEdge). e.outgoing) ctx.edges);
  children =
      map to_context_node (filter (λ (l : LineageRow). not l.is_parent) ctx.lineage)
      ++ map edge_to_context_node (filter (λ (e : RelEdge). not e.outgoing) ctx.edges);
  related = map related_to_context_node ctx.related;
}

pub record SearchRequest (F : Type 0) : Type 0 where
  pub q : Text
  pub container_tag : Option Text
  pub container_tags : Option (List Text)
  pub limit : Option ℤ
  pub filters : Option FilterNode
  pub search_mode : Option Text
  pub threshold : Option F
  pub forgotten_memories : Option Bool
  pub rerank : Option Bool
  pub aggregate : Option Bool

pub record RecallHit (F : Type 0) : Type 0 where
  pub id : ℕ
  pub content : Option Text
  pub recorded_at : Option Time
  pub score : F
  pub metadata : Text

pub record ChunkHit (F : Type 0) : Type 0 where
  pub id : ℕ
  pub content : Text
  pub score : F
  pub document_metadata : Text
  pub document_created_at : Option Time

pub record SearchResult (F : Type 0) : Type 0 where
  pub id : Text
  pub memory : Option Text
  pub chunk : Option Text
  pub similarity : F
  pub updated_at : Option Time
  pub metadata : Text
  pub context : Option ContextNodes
  pub documents : Option (List DocumentRef)
  pub is_aggregated : Option Bool

-- `timing`, a reading of the clock, is left out.
pub record SearchResponse (F : Type 0) : Type 0 where
  pub container_tag : Text
  pub results : List (SearchResult F)
  pub total : ℕ

-- What the handlers call of the engine, for the tenant: `recall_scoped`, `search_documents` and
-- `memory_context`.
pub record SearchEngine (F : Type 0) : Type 0 where
  pub recall_scoped :
      Text → List Text → Text → ℕ → Option MetaFilter → Bool → Bool → Result (List (RecallHit F))
  pub search_documents :
      Text → List Text → Text → ℕ → Option MetaFilter → Result (List (ChunkHit F))
  pub memory_context : Text → ℕ → Result MemoryContext
