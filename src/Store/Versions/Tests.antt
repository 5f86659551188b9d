-- ===== src/Store/Versions/Tests.antt =====
-- Edits and forgetting on a table of one row.
use pg_mnestic.Prelude.{
  ℕ, ◌≡◌, refl, true, false, ◌&&◌, ◌==◌, List, [], ◌∷◌, Option, none, any, map, filter, All, arith,
}
use pg_mnestic.Text.{Text, codes, text_eq, opt_text_eq}
use pg_mnestic.Store.Span.{lower}
use pg_mnestic.Store.Db.{Db, MemoryRow, Result, ok}
use pg_mnestic.Store.Memories.{
  insert_row, passes_checks, conflicts, is_guarded, new_row, close_recorded, tombstone,
}
use pg_mnestic.Store.Versions.{
  Edit, MemoryVersion, is_editable, version_row, replaced, replace_prior, new_version,
  supersede_with_new_version, from_source, forget_source_memories,
}
use pg_mnestic.Store.Versions.Edits.{supersede_with_new_version_once}
use pg_mnestic.Store.Lineage.{LineageRow, version_chain}
use pg_mnestic.Store.Lineage.Parents.{version_chain-supersede_with_new_version}
use pg_mnestic.Store.Versions.Forgotten.{links, forget_source_memories_gone}
use pg_mnestic.Engine.Write.{write_row}
use pg_mnestic.Engine.Samples.{nyc_db, after_first, pending_row}

abbrev edit_to : Text → Edit
edit_to content = record {
  content = content;
  embedding = none;
  forget_after = none;
  forget_reason = none;
  metadata = codes "{}";
  document_date = none;
  event_date = none;
}

abbrev sourced_db : Db
sourced_db = record nyc_db {
  sources = pending_row 1 30 ∷ [];
  edges =
      record {
        tenant_id = 1;
        actor_id = codes "alice";
        from_id = 1;
        to_id = 9;
        relation = codes "extends";
      }
      ∷ [];
}

abbrev edited : Result (Option MemoryVersion × Db)
edited = supersede_with_new_version 1 (codes "alice") 1 (edit_to (codes "Lives in NYC")) sourced_db

abbrev the_version : MemoryVersion
the_version = record {
  id = 2;
  created_at = 100;
  version = 2;
  root_memory_id = 1;
  parent_memory_id = 1;
  forget_after = none;
  forget_reason = none;
}

supersede_with_new_version_once_example :
    supersede_with_new_version 1
      (codes "alice")
      1
      (edit_to (codes "Lives in LA"))
      (after_first edited)
    ≡ ok (none, after_first edited)
unfolding insert_row passes_checks conflicts is_guarded new_row close_recorded is_editable
    version_row replaced replace_prior new_version supersede_with_new_version text_eq opt_text_eq
    write_row lower
supersede_with_new_version_once_example =
    supersede_with_new_version_once 1 (codes "alice") 1 (edit_to (codes "Lives in NYC"))
      (edit_to (codes "Lives in LA")) sourced_db (after_first edited) the_version refl

version_chain-supersede_with_new_version_example :
    any
      (λ (l : LineageRow). l.id == 1 && l.is_parent)
      (version_chain 1 (codes "alice") 2 (after_first edited).memories)
    ≡ true
unfolding insert_row passes_checks conflicts is_guarded new_row close_recorded is_editable
    version_row replaced replace_prior new_version supersede_with_new_version text_eq opt_text_eq
    write_row lower
version_chain-supersede_with_new_version_example =
    version_chain-supersede_with_new_version 1 (codes "alice") 1 (edit_to (codes "Lives in NYC"))
      sourced_db (after_first edited) the_version (omega arith) refl

abbrev cleared : Result (List ℕ × Db)
cleared = forget_source_memories 1 (codes "alice") (1 ∷ []) none sourced_db

forget_source_memories_gone_example :
    (any
        (from_source 1 (codes "alice") (1 ∷ []) (after_first cleared).sources)
        (after_first cleared).memories
      ≡ false)
    × All
        (λ e.
          All
            (λ r.
              from_source 1 (codes "alice") (1 ∷ []) sourced_db.sources r ≡ true
              → links 1 r e ≡ false)
            sourced_db.memories)
        (after_first cleared).edges
    × (1 ∷ []
        ≡ map
            (λ (r : MemoryRow). r.id)
            (filter
              (from_source 1 (codes "alice") (1 ∷ []) sourced_db.sources)
              sourced_db.memories))
unfolding forget_source_memories from_source tombstone text_eq opt_text_eq new_row write_row
forget_source_memories_gone_example =
    forget_source_memories_gone 1 (codes "alice") (1 ∷ []) none sourced_db (after_first cleared)
      (1 ∷ []) refl
