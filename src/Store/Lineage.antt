-- ===== src/Store/Lineage.antt =====
-- The reads of one memory's context: its versions, its edges and its source.
pub mod Parents
use pg_mnestic.Prelude.{
  ℕ, Bool, true, false, ◌&&◌, ◌||◌, not, List, [], ◌∷◌, map, reverse, compare, Ordering, Option,
  none, some, ltb, ◌==◌, if◌then◌else◌, filter, find,
}
use pg_mnestic.Text.{Text, text_eq}
use pg_mnestic.Core.Types.{Time}
use pg_mnestic.Store.Span.{lower}
use pg_mnestic.Store.Db.{MemoryRow, EdgeRow, SourceRow}
use pg_mnestic.Store.Memories.{is_current, is_null}
use pg_mnestic.Store.Versions.{root_or, is_source}
use pg_mnestic.Store.Profile.{owned_by, order_by}

-- `LineageRow`.
pub record LineageRow : Type 0 where
  pub id : ℕ
  pub content : Option Text
  pub version : ℕ
  pub updated_at : Option Time
  pub metadata : Text
  pub is_parent : Bool

pub record RelEdge : Type 0 where
  pub neighbor_content : Option Text
  pub neighbor_version : ℕ
  pub neighbor_updated_at : Option Time
  pub neighbor_metadata : Text
  pub relation : Text
  pub outgoing : Bool

pub record RelatedRow : Type 0 where
  pub content : Option Text
  pub version : ℕ
  pub updated_at : Option Time
  pub metadata : Text

-- The `SourceRow` of a memory's provenance.
pub record SourceDocument : Type 0 where
  pub id : ℕ
  pub ingested_at : Time
  pub kind : Text
  pub metadata : Text

abbrev pub is_memory : ℕ → Text → ℕ → MemoryRow → Bool
is_memory tenant_id actor_id id r = owned_by tenant_id actor_id r && r.id == id

abbrev pub is_root : ℕ → Option ℕ → Bool
is_root root none = false
is_root root (some n) = n == root

-- The WHERE of the second query of `version_chain`.
unfoldable pub is_chained : ℕ → Text → ℕ → ℕ → MemoryRow → Bool
is_chained tenant_id actor_id root memory_id r =
    owned_by tenant_id actor_id r
    && (is_root root r.root_memory_id || r.id == root)
    && not (r.id == memory_id)

abbrev pub by_version : MemoryRow → MemoryRow → Ordering
by_version r s = compare r.version s.version

abbrev pub to_lineage : ℕ → MemoryRow → LineageRow
to_lineage my_version r = record {
  id = r.id;
  content = r.content;
  version = r.version;
  updated_at = lower r.recorded_time;
  metadata = r.metadata;
  is_parent = ltb r.version my_version;
}

unfoldable pub chain_of : ℕ → Text → ℕ → List MemoryRow → Option MemoryRow → List LineageRow
unfolding is_chained order_by
chain_of tenant_id actor_id memory_id rows none = []
chain_of tenant_id actor_id memory_id rows (some head) = map (to_lineage head.version) (
    order_by by_version
      (filter (is_chained tenant_id actor_id (root_or head.root_memory_id head.id) memory_id) rows))

-- `version_chain`.
unfoldable pub version_chain : ℕ → Text → ℕ → List MemoryRow → List LineageRow
unfolding chain_of
version_chain tenant_id actor_id memory_id rows =
    chain_of tenant_id actor_id memory_id rows (find (is_memory tenant_id actor_id memory_id) rows)

abbrev pub touches_memory : ℕ → Text → ℕ → EdgeRow → Bool
touches_memory tenant_id actor_id memory_id e =
    e.tenant_id == tenant_id
    && text_eq e.actor_id actor_id
    && (e.from_id == memory_id || e.to_id == memory_id)

abbrev pub is_live : ℕ → ℕ → MemoryRow → Bool
is_live tenant_id id n =
    n.tenant_id == tenant_id && n.id == id && is_current n && not (is_null n.content)

abbrev pub to_rel_edge : Text → Bool → MemoryRow → RelEdge
to_rel_edge relation outgoing n = record {
  neighbor_content = n.content;
  neighbor_version = n.version;
  neighbor_updated_at = lower n.recorded_time;
  neighbor_metadata = n.metadata;
  relation = relation;
  outgoing = outgoing;
}

-- The join, within the rows that the row-level policy leaves visible: an edge whose other end is not
-- live is left out.
unfoldable pub join_neighbors : ℕ → ℕ → List MemoryRow → List EdgeRow → List RelEdge
join_neighbors tenant_id memory_id rows [] = []
join_neighbors tenant_id memory_id rows (e ∷ es) =
    let outgoing = e.from_id == memory_id in
    elim (find (is_live tenant_id (if outgoing then e.to_id else e.from_id)) rows) [
      | none ↦ join_neighbors tenant_id memory_id rows es
      | some n ↦ to_rel_edge e.relation outgoing n ∷ join_neighbors tenant_id memory_id rows es
    ]

-- `relation_edges_for`: the table has the newest edge first.
unfoldable pub relation_edges_for : ℕ → Text → ℕ → List MemoryRow → List EdgeRow → List RelEdge
unfolding join_neighbors
relation_edges_for tenant_id actor_id memory_id rows edges =
    join_neighbors tenant_id memory_id rows
      (reverse (filter (touches_memory tenant_id actor_id memory_id) edges))

abbrev pub to_source_document : SourceRow → SourceDocument
to_source_document s = record {
  id = s.id;
  ingested_at = s.ingested_at;
  kind = s.kind;
  metadata = s.metadata;
}

-- The join, within the rows that the row-level policy leaves visible.
unfoldable pub source_of : ℕ → List SourceRow → Option MemoryRow → Option SourceDocument
source_of tenant_id sources none = none
source_of tenant_id sources (some m) =
    elim (find (λ s. s.tenant_id == tenant_id && is_source m.source_id s) sources) [
      | none ↦ none
      | some s ↦ some (to_source_document s)
    ]

-- `source_for_memory`.
unfoldable pub source_for_memory :
    ℕ → Text → ℕ → List MemoryRow → List SourceRow → Option SourceDocument
unfolding source_of
source_for_memory tenant_id actor_id memory_id rows sources =
    source_of tenant_id sources (find (is_memory tenant_id actor_id memory_id) rows)
