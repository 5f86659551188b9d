-- ===== src/Store/Versions.antt =====
-- Edits of a memory and the forgetting of a source's memories.
pub mod Keeps
pub mod Edits
pub mod Forgotten
pub mod Tests
use pg_mnestic.Prelude.{
  ℕ, suc, ◌+◌, Bool, true, false, ◌&&◌, ◌||◌, not, List, [], ◌∷◌, map, Option, none, some, ◌==◌,
  if◌then◌else◌, filter, find, any,
}
use pg_mnestic.Text.{Text, text_eq}
use pg_mnestic.Core.Types.{Time}
use pg_mnestic.Store.Span.{span}
use pg_mnestic.Store.Db.{
  MemoryRow, SourceRow, EdgeRow, active, superseded, Db, Tx, ok, ◌>>=◌, ◌>>◌, return, get_db,
}
use pg_mnestic.Store.Memories.{is_active, insert_row, close_recorded, tombstone}
use pg_mnestic.Store.Sources.{same_custom_id}

-- What an edit gives: the text and what comes with it.
pub record Edit : Type 0 where
  pub content : Text
  pub embedding : Option (List ℕ)
  pub forget_after : Option Time
  pub forget_reason : Option Text
  pub metadata : Text
  pub document_date : Option Time
  pub event_date : Option Time

-- `MemoryVersion`.
pub record MemoryVersion : Type 0 where
  pub id : ℕ
  pub created_at : Time
  pub version : ℕ
  pub root_memory_id : ℕ
  pub parent_memory_id : ℕ
  pub forget_after : Option Time
  pub forget_reason : Option Text

-- The row that the SELECT .. FOR UPDATE looks for.
unfoldable pub is_editable : ℕ → Text → ℕ → MemoryRow → Bool
is_editable tenant_id actor_id prior_id r =
    r.tenant_id == tenant_id
    && text_eq r.actor_id actor_id
    && r.id == prior_id
    && r.is_latest
    && is_active r.status

abbrev pub root_or : Option ℕ → ℕ → ℕ
root_or none prior_id = prior_id
root_or (some root) prior_id = root

-- The INSERT, with the columns' defaults.
unfoldable pub version_row : ℕ → Text → ℕ → Edit → MemoryRow → ℕ → Time → MemoryRow
version_row tenant_id actor_id prior_id edit prior id now = record {
  id = id;
  tenant_id = tenant_id;
  actor_id = actor_id;
  container_tags = prior.container_tags;
  content = some edit.content;
  subject = none;
  attribute = none;
  value = none;
  single_valued = false;
  confidence = prior.confidence;
  is_static = prior.is_static;
  mem_type = prior.mem_type;
  embedding = edit.embedding;
  source_id = none;
  valid_time = span (some now) none;
  recorded_time = span (some now) none;
  is_latest = true;
  supersedes_id = some prior_id;
  forget_after = edit.forget_after;
  forget_reason = edit.forget_reason;
  status = active;
  version = prior.version + 1;
  root_memory_id = some (root_or prior.root_memory_id prior_id);
  document_date = edit.document_date;
  event_date = edit.event_date;
  metadata = edit.metadata;
}

-- The UPDATE of the prior.
unfoldable pub replaced : ℕ → ℕ → Time → MemoryRow → MemoryRow
unfolding close_recorded
replaced tenant_id prior_id now r =
    if r.tenant_id == tenant_id && r.id == prior_id
    then record r {
      is_latest = false;
      status = superseded;
      recorded_time = close_recorded now r.recorded_time;
    }
    else r

unfoldable pub replace_prior : ℕ → ℕ → Tx (Unit {0})
unfolding replaced
replace_prior tenant_id prior_id d =
    ok (tt, record d { memories = map (replaced tenant_id prior_id d.now) d.memories })

-- The statements after the prior was found.
unfoldable pub new_version : ℕ → Text → ℕ → Edit → MemoryRow → Tx (Option MemoryVersion)
unfolding insert_row version_row replace_prior
new_version tenant_id actor_id prior_id edit prior = do
  d ← get_db
  id ← insert_row (version_row tenant_id actor_id prior_id edit prior d.next_id d.now)
  replace_prior tenant_id prior_id
  return (
      some (record {
        id = id;
        created_at = d.now;
        version = prior.version + 1;
        root_memory_id = root_or prior.root_memory_id prior_id;
        parent_memory_id = prior_id;
        forget_after = edit.forget_after;
        forget_reason = edit.forget_reason;
      }))

-- `supersede_with_new_version_tx`.
unfoldable pub supersede_with_new_version : ℕ → Text → ℕ → Edit → Tx (Option MemoryVersion)
unfolding is_editable new_version
supersede_with_new_version tenant_id actor_id prior_id edit d =
    elim (find (is_editable tenant_id actor_id prior_id) d.memories) [
      | none ↦ ok (none, d)
      | some prior ↦ new_version tenant_id actor_id prior_id edit prior d
    ]

abbrev pub is_source : Option ℕ → SourceRow → Bool
is_source none s = false
is_source (some id) s = s.id == id

-- The WHERE of `forget_source_memories_tx`, with its join.
unfoldable pub from_source : ℕ → Text → Text → List SourceRow → MemoryRow → Bool
from_source tenant_id actor_id custom_id sources r =
    any (λ s. is_source r.source_id s && same_custom_id tenant_id (some custom_id) s) sources
    && r.tenant_id == tenant_id
    && text_eq r.actor_id actor_id
    && is_active r.status

abbrev pub touches : ℕ → List ℕ → EdgeRow → Bool
touches tenant_id ids e =
    e.tenant_id == tenant_id && any (λ id. e.from_id == id || e.to_id == id) ids

-- `forget_source_memories_tx`.
unfoldable pub forget_source_memories : ℕ → Text → Text → Option Text → Tx (List ℕ)
unfolding from_source tombstone
forget_source_memories tenant_id actor_id custom_id reason d =
    let gone = from_source tenant_id actor_id custom_id d.sources in
    let ids = map (λ (r : MemoryRow). r.id) (filter gone d.memories) in
    ok (
      ids,
      record d {
        memories = map (λ r. if gone r then tombstone reason d.now r else r) d.memories;
        edges = filter (λ e. not (touches tenant_id ids e)) d.edges;
      },
    )
