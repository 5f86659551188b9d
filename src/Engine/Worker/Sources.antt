-- ===== src/Engine/Worker/Sources.antt =====
-- A write of memories does not touch mnestic_source.
use pg_mnestic.Prelude.{ℕ, ◌≡◌, ◌∙◌, List, some, arith, Option-cases, inl, inr}
use pg_mnestic.Text.{Text}
use pg_mnestic.Core.Types.{Time}
use pg_mnestic.Store.Span.{tstzrange}
use pg_mnestic.Store.Db.{Db, MemoryRow, SourceRow, ok}
use pg_mnestic.Store.Preserve.{Keeps, Statements}
use pg_mnestic.Store.Memories.{
  Uuids, NewMemoryFull, new_row, insert_row, insert_memory_full, close_prior, bump_confidence,
}
use pg_mnestic.Store.Profile.{refresh_profile}
use pg_mnestic.Engine.Persist.{WriteRequest, persist_candidates}
use pg_mnestic.Engine.Persist.Keeps.{persist_candidates-Keeps}

abbrev HasSources : List SourceRow → Db → Type 0
HasSources ss d = d.sources ≡ ss

insert_row-sources :
    (r : MemoryRow) (d d' : Db) (id : ℕ) → insert_row r d ≡ ok (id, d') → d'.sources ≡ d.sources
unfolding insert_row
insert_row-sources r d d' id h = ground arith

insert-HasSources :
    (ss : List SourceRow) (m : NewMemoryFull) → Keeps (HasSources ss) (insert_memory_full m)
unfolding insert_memory_full insert_row
insert-HasSources ss m d d' id h v =
    elim (Option-cases (tstzrange (some m.valid_from) m.valid_until)) [
      | inl e ↦ ground arith
      | inr (t, e) ↦ insert_row-sources (new_row m t d.next_id d.now) d d' id (ground arith) ∙ v
    ]

close-HasSources :
    (ss : List SourceRow) (tenant_id prior_id : ℕ) (at : Time)
    → Keeps (HasSources ss) (close_prior tenant_id prior_id at)
unfolding close_prior
close-HasSources ss tenant_id prior_id at d d' n h v = ground arith

bump-HasSources :
    (ss : List SourceRow) (tenant_id id delta : ℕ)
    → Keeps (HasSources ss) (bump_confidence tenant_id id delta)
unfolding bump_confidence
bump-HasSources ss tenant_id id delta d d' n h v = ground arith

refresh-HasSources :
    (ss : List SourceRow) (tenant_id : ℕ) (actor_id : Text) (a b c : ℕ)
    → Keeps (HasSources ss) (refresh_profile tenant_id actor_id a b c)
unfolding refresh_profile
refresh-HasSources ss tenant_id actor_id a b c d d' n h v = ground arith

HasSources-Statements : (ss : List SourceRow) (tenant_id : ℕ) → Statements (HasSources ss) tenant_id
HasSources-Statements ss tenant_id = record {
  on_insert = λ m own. insert-HasSources ss m;
  on_close = close-HasSources ss tenant_id;
  on_bump = bump-HasSources ss tenant_id;
  on_refresh = refresh-HasSources ss tenant_id;
}

pub persist_candidates-sources :
    (uuids : Uuids) (to_lowercase : Text → Text) (synonyms : List (Text × Text))
    (req : WriteRequest) (source_id : ℕ)
    → (ss : List SourceRow)
    → Keeps (HasSources ss) (persist_candidates uuids to_lowercase synonyms req source_id)
persist_candidates-sources uuids to_lowercase synonyms req source_id ss =
    persist_candidates-Keeps (HasSources ss) uuids to_lowercase synonyms req
      (HasSources-Statements ss req.tenant_id) source_id
