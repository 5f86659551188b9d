-- ===== src/Engine/Context.antt =====
-- `memory_context`: what the store knows around one memory.
use pg_mnestic.Prelude.{ℕ, List, Option}
use pg_mnestic.Text.{Text}
use pg_mnestic.Store.Db.{Db, Result, ok, err}
use pg_mnestic.Store.Lineage.{
  LineageRow, RelEdge, RelatedRow, SourceDocument, version_chain, relation_edges_for,
  source_for_memory,
}

-- `MemoryContext`.
pub record MemoryContext : Type 0 where
  pub lineage : List LineageRow
  pub edges : List RelEdge
  pub related : List RelatedRow
  pub source : Option SourceDocument

abbrev pub with_related :
    List LineageRow
    → List RelEdge
    → Option SourceDocument
    → Result (List RelatedRow)
    → Result MemoryContext
with_related lineage edges source (err e) = err e
with_related lineage edges source (ok related) =
    ok (record { lineage = lineage; edges = edges; related = related; source = source })

-- `memory_context`: each read sees the database of its own transaction; the memories that share an
-- entity of the graph are an argument.
unfoldable pub memory_context :
    (ℕ → Text → ℕ → Result (List RelatedRow)) → ℕ → Text → ℕ → (ℕ → Db) → Result MemoryContext
unfolding version_chain relation_edges_for source_for_memory
memory_context related_memory_ids tenant_id actor_id memory_id seen =
    with_related (version_chain tenant_id actor_id memory_id (seen 0).memories)
      (relation_edges_for tenant_id actor_id memory_id (seen 1).memories (seen 1).edges)
      (source_for_memory tenant_id actor_id memory_id (seen 3).memories (seen 3).sources)
      (related_memory_ids tenant_id actor_id memory_id)
