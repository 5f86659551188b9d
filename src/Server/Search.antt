-- ===== src/Server/Search.antt =====
-- crates/mnestic-server/src/query.rs: `search` and `profile`, after the request is authenticated. The
-- engine is an argument; scores are numbers of a type of which only what is used is known.
pub mod Pipeline
pub mod Tests
use pg_mnestic.Prelude.{
  ℕ, Bool, true, false, ◌&&◌, not, List, [], ◌∷◌, ◌++◌, map, Option, none, some, if◌then◌else◌,
  is_empty, length, filter, take, get_last?, ℤ,
}
use pg_mnestic.Text.{Text, codes, text_eq, trim}
use pg_mnestic.Core.Types.{Time}
use pg_mnestic.Store.Db.{Error, Result, ok, err}
use pg_mnestic.Store.Memories.{Uuids}
use pg_mnestic.Store.MetaFilter.{MetaFilter}
use pg_mnestic.Server.ContainerTag.{Scope, parse_container_tag}
use pg_mnestic.Server.Filter.{FilterNode, to_meta_filter}
use pg_mnestic.Server.Api.{
  ApiError, bad_request, internal, ApiResult, done, failed, ◌>>=◌, of_engine, clamp_limit,
  filter_pool, resolve_container_tag,
}
use pg_mnestic.Store.Lineage.{LineageRow, RelEdge, RelatedRow, SourceDocument}
use pg_mnestic.Engine.Context.{MemoryContext}
use pg_mnestic.Server.Results.{
  ContextNode, ContextNodes, DocumentRef, to_context_node, edge_to_context_node,
  related_to_context_node, to_context_nodes, SearchRequest, RecallHit, ChunkHit, SearchResult,
  SearchResponse, SearchEngine,
}

-- f64: `f64::max`, `> 0.0`, and `score / top >= threshold`.
pub record Scores : Type 1 where
  pub F : Type 0
  pub zero : F
  pub max : F → F → F
  pub is_positive : F → Bool
  pub reaches : F → F → F → Bool

abbrev pub unwrap_or : Bool → Option Bool → Bool
unwrap_or b none = b
unwrap_or b (some c) = c

abbrev pub pushed_filter : Option FilterNode → Option MetaFilter
pushed_filter none = none
pushed_filter (some f) = some (to_meta_filter f)

module _ (uuids : Uuids) (F : Type 0) where
  -- `to_result`.
  abbrev pub to_result : RecallHit F → SearchResult F
  to_result h = record {
    id = uuids.to_string h.id;
    memory = h.content;
    chunk = none;
    similarity = h.score;
    updated_at = h.recorded_at;
    metadata = h.metadata;
    context = none;
    documents = none;
    is_aggregated = none;
  }

  -- `to_doc_result`.
  abbrev pub to_doc_result : ChunkHit F → SearchResult F
  to_doc_result h = record {
    id = uuids.to_string h.id;
    memory = none;
    chunk = some h.content;
    similarity = h.score;
    updated_at = h.document_created_at;
    metadata = h.document_metadata;
    context = none;
    documents = none;
    is_aggregated = none;
  }

  -- `ctx.source.into_iter().map(to_document_ref)`.
  abbrev pub to_document_refs : Option SourceDocument → List DocumentRef
  to_document_refs none = []
  to_document_refs (some s) =
      record {
        id = uuids.to_string s.id;
        created_at = s.ingested_at;
        updated_at = s.ingested_at;
        metadata = s.metadata;
        doc_type = some s.kind;
      }
      ∷ []

  abbrev pub mapped : {A B : Type 0} → (A → B) → Result (List A) → ApiResult (List B)
  mapped f (ok xs) = done (map f xs)
  mapped f (err e) = failed (internal e)

  abbrev pub joined : {A : Type 0} → ApiResult (List A) → ApiResult (List A) → ApiResult (List A)
  joined (failed e) ys = failed e
  joined (done xs) (failed e) = failed e
  joined (done xs) (done ys) = done (xs ++ ys)

  -- One memory of the aggregate view.
  abbrev pub enriched : SearchResult F → MemoryContext → SearchResult F
  enriched r ctx = record r {
    context = some (to_context_nodes ctx);
    documents = some (to_document_refs ctx.source);
    is_aggregated = some true;
  }

  module _ (engine : SearchEngine F) where
    -- The `match` on the search mode: memories come before documents.
    unfoldable pub fetch : SearchRequest F → Scope → ℕ → ApiResult (List (SearchResult F))
    fetch req scope limit =
        let flt = pushed_filter req.filters in
        let mem = mapped to_result (
          engine.recall_scoped scope.actor_id scope.container_tags req.q limit flt
            (unwrap_or false req.forgotten_memories) (unwrap_or true req.rerank)) in
        let docs =
          mapped to_doc_result
            (engine.search_documents scope.actor_id scope.container_tags req.q limit flt) in
        elim req.search_mode [
          | none ↦ mem
          | some mode ↦
              if text_eq mode (codes "documents")
              then docs
              else if text_eq mode (codes "hybrid")
              then joined mem docs
              else mem
        ]

    -- One hit of the aggregate view; a chunk, or an id that does not parse, stays as it is.
    unfoldable pub enrich_memory :
        Text → SearchResult F → Option Text → Option ℕ → ApiResult (SearchResult F)
    unfolding to_context_nodes
    enrich_memory actor_id r (some c) id = done r
    enrich_memory actor_id r none none = done r
    enrich_memory actor_id r none (some id) = elim (engine.memory_context actor_id id) [
      | err e ↦ failed (internal e)
      | ok ctx ↦ done (enriched r ctx)
    ]

    unfoldable pub enrich_all : Text → List (SearchResult F) → ApiResult (List (SearchResult F))
    unfolding enrich_memory
    enrich_all actor_id [] = done []
    enrich_all actor_id (r ∷ rs) = do
      r' ← enrich_memory actor_id r r.chunk (uuids.parse_str r.id)
      rs' ← enrich_all actor_id rs
      done (r' ∷ rs')

    unfoldable pub enrich_if :
        Option Bool → Text → List (SearchResult F) → ApiResult (List (SearchResult F))
    unfolding enrich_all
    enrich_if (some true) actor_id rs = enrich_all actor_id rs
    enrich_if _ actor_id rs = done rs

module _ (scores : Scores) where
  open scores use {F, zero, is_positive, reaches}

  -- `results.iter().map(|r| r.similarity).fold(0.0_f64, f64::max)`.
  unfoldable pub top_from : F → List (SearchResult F) → F
  top_from top [] = top
  top_from top (r ∷ rs) = top_from (scores.max top r.similarity) rs

  -- The relative cutoff.
  unfoldable pub cut : Option F → List (SearchResult F) → List (SearchResult F)
  unfolding top_from
  cut none rs = rs
  cut (some threshold) rs =
      let top = top_from zero rs in
      if is_positive top
      then filter (λ (r : SearchResult F). reaches r.similarity top threshold) rs
      else rs

  abbrev pub pool_size : Option F → ℕ → ℕ
  pool_size none limit = limit
  pool_size (some t) limit = filter_pool limit

  module _ (uuids : Uuids) (engine : SearchEngine F) where
    -- `search`, once the tag is resolved.
    unfoldable pub search_tag : SearchRequest F → Text → ApiResult (SearchResponse F)
    unfolding fetch cut enrich_if clamp_limit filter_pool parse_container_tag
    search_tag req tag = do
      let scope = parse_container_tag tag
      let limit = clamp_limit req.limit
      found ← fetch uuids F engine req scope (pool_size req.threshold limit)
      results ←
          enrich_if uuids F engine req.aggregate scope.actor_id
            (take limit (cut req.threshold found))
      done (record { container_tag = tag; results = results; total = length results })

    unfoldable pub search : SearchRequest F → ApiResult (SearchResponse F)
    unfolding search_tag resolve_container_tag
    search req =
        if is_empty (trim req.q)
        then failed (bad_request (codes "q is empty"))
        else (resolve_container_tag req.container_tag req.container_tags >>= search_tag req)
