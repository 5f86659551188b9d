-- ===== src/Engine/Steps/Tests.antt =====
-- Steps on small databases.
use pg_mnestic.Prelude.{ℕ, ◌≡◌, refl, true, List, [], ◌∷◌, none, some, arith, map}
use pg_mnestic.Text.{
  Text, is_whitespace, text_eq, opt_text_eq, to_ascii_lowercase, eq_ignore_ascii_case,
  trim_start_matches, trim_end_matches, trim_matches, trim, words_of, split_whitespace, codes,
}
use pg_mnestic.Core.Types.{temporal_from, temporal_until, as_of}
use pg_mnestic.Core.Resolve.{duplicate_of, prior_ids, supersede_or_insert, decide}
use pg_mnestic.Core.Ontology.{
  is_punctuation, get, normalize_key, with_synonyms, normalize_subject, canonical_attribute,
  starter,
}
use pg_mnestic.Store.Span.{tstzrange, starts_before_end, overlaps, lower}
use pg_mnestic.Store.Db.{Result, ok}
use pg_mnestic.Store.Memories.{
  conflicts, insert_row, insert_memory_full, closes, closed_row, close_prior, bump_row,
  bump_confidence, close_recorded, latest_matches, segment_starts, has_key, is_guarded,
  passes_checks, close_rows, new_row,
}
use pg_mnestic.Store.Memories.Invariant.{IsValid}
use pg_mnestic.Store.Sources.{
  insert_source, source_id_by_custom_id, enqueue_source, oldest, mark_source_extracted,
  claim_pending_source,
}
use pg_mnestic.Engine.Write.{
  interval_until, write_insert, newest_start, next_segment, record_keyed, record_history, parse_id,
  close_priors, supersede_newer, apply_supersede, apply_action, match_keyed, find_matches,
  empty_result, write_row, interval_from, resolve_write,
}
use pg_mnestic.Engine.Persist.{
  check_embedding_dim, to_write, persist_each, persist_candidates, WriteRequest, persist,
}
use pg_mnestic.Engine.Samples.{
  parse_single, ids, empty_db, ascii_lower, lives_in, request, after_first, first_result, nyc_db,
}
use pg_mnestic.Store.Profile.{
  rendered, present, cmp_recent, cmp_confident, insert_sorted, order_by, static_facts, dynamic_ctx,
  refresh_profile,
}
use pg_mnestic.Engine.Extract.{embed_all}
use pg_mnestic.Store.Isolation.{outside}
use pg_mnestic.Engine.Forget.Content.{
  value_matches, forget_matches, forget_keyed, forget_each, forget_by_content,
}
use pg_mnestic.Core.Chunk.{chunk_text, chunk_loop, push_chunk, next_start, window_end, window_size}
use pg_mnestic.Core.Chunk.Coverage.{IsCovered}
use pg_mnestic.Store.Db.{Result, ok}
use pg_mnestic.Store.Documents.{insert_document, insert_chunk}
use pg_mnestic.Engine.Extract.{embed_all}
use pg_mnestic.Engine.Documents.{
  DocumentRequest, DocumentResult, doc_chunk_chars, doc_chunk_overlap, ingest_document,
  ingest_chunks, store_document, store_chunks,
}
use pg_mnestic.Engine.Documents.Chunks.{IsStored, ingest_document-covers}
use pg_mnestic.Engine.Samples.{vector}
use pg_mnestic.Engine.Forget.{refresh_if}
use pg_mnestic.Engine.Forget.Forgotten.{Forgotten}
use pg_mnestic.Engine.Forget.Named.{is_named_in, forget_by_content-named}
use pg_mnestic.Store.Memories.{forgets, tombstone, forget_memory_by_id}
use pg_mnestic.Engine.Steps.{
  added, content_forgotten, empty_at, start, step, Step-outside, Reachable-IsValid,
}

abbrev first_write : WriteRequest
first_write = request (lives_in (codes "NYC") (as_of 50) ∷ [])

Reachable-IsValid_example :
    IsValid (after_first (persist ids ascii_lower (starter ascii_lower) first_write (empty_at 100)))
unfolding is_whitespace text_eq opt_text_eq to_ascii_lowercase eq_ignore_ascii_case
    trim_start_matches trim_end_matches trim_matches trim words_of split_whitespace temporal_from
    temporal_until duplicate_of prior_ids supersede_or_insert decide is_punctuation get
    normalize_key with_synonyms normalize_subject canonical_attribute starter lower tstzrange
    starts_before_end overlaps has_key latest_matches segment_starts is_guarded conflicts
    passes_checks insert_row new_row insert_memory_full closes closed_row close_rows close_prior
    bump_row bump_confidence close_recorded insert_source source_id_by_custom_id enqueue_source
    oldest claim_pending_source mark_source_extracted rendered present cmp_recent cmp_confident
    insert_sorted order_by static_facts dynamic_ctx refresh_profile interval_from interval_until
    write_row write_insert newest_start next_segment record_keyed record_history parse_id
    close_priors supersede_newer apply_supersede apply_action match_keyed find_matches resolve_write
    check_embedding_dim to_write persist_each persist_candidates persist parse_single ids
    ascii_lower
Reachable-IsValid_example =
    Reachable-IsValid ids ascii_lower (starter ascii_lower)
      (after_first (persist ids ascii_lower (starter ascii_lower) first_write (empty_at 100)))
      (step 1 (start 100) (
        added first_write
          (first_result (empty_result 0)
            (persist ids ascii_lower (starter ascii_lower) first_write (empty_at 100)))
          refl refl))

Step-outside_example :
    outside 1 (
      after_first (
        forget_by_content ids 1
          (codes "alice")
          ascii_lower
          (starter ascii_lower)
          (lives_in (codes " nyc") (as_of 50) ∷ [])
          nyc_db))
    ≡ outside 1 nyc_db
unfolding is_whitespace text_eq opt_text_eq to_ascii_lowercase eq_ignore_ascii_case
    trim_start_matches trim_end_matches trim_matches trim words_of split_whitespace temporal_from
    temporal_until duplicate_of prior_ids supersede_or_insert decide is_punctuation get
    normalize_key with_synonyms normalize_subject canonical_attribute starter lower tstzrange
    starts_before_end overlaps has_key latest_matches segment_starts is_guarded conflicts
    passes_checks insert_row new_row insert_memory_full closes closed_row close_rows close_prior
    bump_row bump_confidence close_recorded insert_source source_id_by_custom_id enqueue_source
    oldest claim_pending_source mark_source_extracted rendered present cmp_recent cmp_confident
    insert_sorted order_by static_facts dynamic_ctx refresh_profile interval_from interval_until
    write_row write_insert newest_start next_segment record_keyed record_history parse_id
    close_priors supersede_newer apply_supersede apply_action match_keyed find_matches resolve_write
    check_embedding_dim to_write persist_each persist_candidates persist parse_single ids
    ascii_lower refresh_if value_matches forget_matches forget_keyed forget_each forget_by_content
    forgets tombstone forget_memory_by_id
Step-outside_example =
    Step-outside ids ascii_lower (starter ascii_lower) 1 nyc_db
      (after_first (
        forget_by_content ids 1 (codes "alice") ascii_lower (starter ascii_lower)
          (lives_in (codes " nyc") (as_of 50) ∷ []) nyc_db))
      (content_forgotten (codes "alice") (lives_in (codes " nyc") (as_of 50) ∷ []) (1 ∷ []) refl)

nyc_forgotten :
    first_result [] (
      forget_by_content ids 1
        (codes "alice")
        ascii_lower
        (starter ascii_lower)
        (lives_in (codes " nyc") (as_of 50) ∷ [])
        nyc_db)
    ≡ 1 ∷ []
unfolding is_whitespace text_eq opt_text_eq to_ascii_lowercase eq_ignore_ascii_case
    trim_start_matches trim_end_matches trim_matches trim words_of split_whitespace temporal_from
    temporal_until duplicate_of prior_ids supersede_or_insert decide is_punctuation get
    normalize_key with_synonyms normalize_subject canonical_attribute starter lower tstzrange
    starts_before_end overlaps has_key latest_matches segment_starts is_guarded conflicts
    passes_checks insert_row new_row insert_memory_full closes closed_row close_rows close_prior
    bump_row bump_confidence close_recorded insert_source source_id_by_custom_id enqueue_source
    oldest claim_pending_source mark_source_extracted rendered present cmp_recent cmp_confident
    insert_sorted order_by static_facts dynamic_ctx refresh_profile interval_from interval_until
    write_row write_insert newest_start next_segment record_keyed record_history parse_id
    close_priors supersede_newer apply_supersede apply_action match_keyed find_matches resolve_write
    check_embedding_dim to_write persist_each persist_candidates persist parse_single ids
    ascii_lower refresh_if value_matches forget_matches forget_keyed forget_each forget_by_content
    forgets tombstone forget_memory_by_id
nyc_forgotten = refl

forget_by_content-named_example :
    Forgotten
      (is_named_in ids ascii_lower
        (starter ascii_lower)
        1
        (codes "alice")
        (lives_in (codes " nyc") (as_of 50) ∷ []))
      nyc_db.now
      nyc_db.memories
      (after_first (
        forget_by_content ids 1
          (codes "alice")
          ascii_lower
          (starter ascii_lower)
          (lives_in (codes " nyc") (as_of 50) ∷ [])
          nyc_db)).memories
unfolding is_whitespace text_eq opt_text_eq to_ascii_lowercase eq_ignore_ascii_case
    trim_start_matches trim_end_matches trim_matches trim words_of split_whitespace temporal_from
    temporal_until duplicate_of prior_ids supersede_or_insert decide is_punctuation get
    normalize_key with_synonyms normalize_subject canonical_attribute starter lower tstzrange
    starts_before_end overlaps has_key latest_matches segment_starts is_guarded conflicts
    passes_checks insert_row new_row insert_memory_full closes closed_row close_rows close_prior
    bump_row bump_confidence close_recorded insert_source source_id_by_custom_id enqueue_source
    oldest claim_pending_source mark_source_extracted rendered present cmp_recent cmp_confident
    insert_sorted order_by static_facts dynamic_ctx refresh_profile interval_from interval_until
    write_row write_insert newest_start next_segment record_keyed record_history parse_id
    close_priors supersede_newer apply_supersede apply_action match_keyed find_matches resolve_write
    check_embedding_dim to_write persist_each persist_candidates persist parse_single ids
    ascii_lower refresh_if value_matches forget_matches forget_keyed forget_each forget_by_content
    forgets tombstone forget_memory_by_id
forget_by_content-named_example =
    forget_by_content-named ids ascii_lower (starter ascii_lower) 1 (codes "alice")
      (lives_in (codes " nyc") (as_of 50) ∷ []) nyc_db
      (after_first (
        forget_by_content ids 1 (codes "alice") ascii_lower (starter ascii_lower)
          (lives_in (codes " nyc") (as_of 50) ∷ []) nyc_db))
      (1 ∷ []) refl (record { ids = (omega arith, tt); exclusive = (tt, tt); checked = (refl, tt) })

abbrev note : DocumentRequest
note = record {
  tenant_id = 1;
  actor_id = codes "alice";
  container_tags = [];
  title = none;
  uri = none;
  content = codes " a b";
  custom_id = none;
  metadata = codes "{}";
}

abbrev no_result : DocumentResult
no_result = record { source_id = 0; document_id = 0; chunk_ids = []; idempotent_skip = true }

abbrev as_vectors : List Text → Result (List (List ℕ))
as_vectors ts = ok (map (λ t. vector) ts)

ingest_document-covers_example :
    (ts : List Text) × (chunk_text note.content doc_chunk_chars doc_chunk_overlap ≡ some ts)
    × IsStored note
        (first_result no_result (ingest_document as_vectors note empty_db)).document_id
        0
        ts
        empty_db
        (after_first (ingest_document as_vectors note empty_db))
    × IsCovered note.content (window_size doc_chunk_chars) ts 3
unfolding ingest_document chunk_text chunk_loop push_chunk next_start window_end trim trim_matches
    trim_start_matches trim_end_matches is_whitespace text_eq embed_all insert_source ingest_chunks
    store_document store_chunks insert_document insert_chunk check_embedding_dim
ingest_document-covers_example =
    ingest_document-covers as_vectors note empty_db
      (after_first (ingest_document as_vectors note empty_db))
      (first_result no_result (ingest_document as_vectors note empty_db)) 3 98 refl refl refl refl
