-- ===== src/Engine/Tests.antt =====
-- The write path, recall and the worker on small inputs.
use pg_mnestic.Prelude.{
  length, ℕ, ◌≡◌, refl, true, false, List, [], ◌∷◌, Option, none, some, arith, map, take, All, inl,
  ◌==◌,
}
use mathlib.Core.List.{Perm}
use pg_mnestic.Text.{
  Text, is_whitespace, text_eq, opt_text_eq, to_ascii_lowercase, eq_ignore_ascii_case,
  trim_start_matches, trim_end_matches, trim_matches, trim, words_of, split_whitespace, codes,
}
use pg_mnestic.Core.Types.{temporal_from, temporal_until, as_of, unknown, ExistingMatch}
use pg_mnestic.Core.Resolve.{duplicate_of, prior_ids, supersede_or_insert, decide}
use pg_mnestic.Core.Ontology.{
  is_punctuation, get, normalize_key, with_synonyms, normalize_subject, canonical_attribute,
  starter,
}
use pg_mnestic.Store.Span.{tstzrange, starts_before_end, overlaps, lower}
use pg_mnestic.Store.Db.{Db, MemoryRow, Result, ok, err, db, exclusion_violation}
use pg_mnestic.Store.Memories.{
  conflicts, insert_row, insert_memory_full, closes, closed_row, close_prior, bump_row,
  bump_confidence, close_recorded, latest_matches, segment_starts, has_key, is_guarded,
  passes_checks, close_rows, new_row,
}
use pg_mnestic.Store.Memories.Invariant.{IsValid}
use pg_mnestic.Store.Sources.{
  pending_of, insert_source, source_id_by_custom_id, enqueue_source, oldest, mark_source_extracted,
  claim_pending_source,
}
use pg_mnestic.Store.Sources.Lease.{claim_pending_source_other}
use pg_mnestic.Engine.Write.{
  interval_until, write_insert, newest_start, next_segment, record_keyed, record_history, parse_id,
  close_priors, supersede_newer, apply_supersede, apply_action, match_keyed, find_matches,
  AddResult, empty_result, write_row, interval_from, resolve_write,
}
use pg_mnestic.Engine.Write.Latest.{resolve_write-latest}
use pg_mnestic.Engine.Write.Segments.{holds_at}
use pg_mnestic.Engine.Write.History.{HistoryRow, resolve_write-history, resolve_write-refused}
use pg_mnestic.Engine.Persist.{
  check_embedding_dim, to_write, persist_each, persist_candidates, WriteRequest, persist, add_at,
}
use pg_mnestic.Engine.Persist.Retry.{Attempts, add_at-Attempts}
use pg_mnestic.Engine.Persist.Laws.{persist-IsValid, persist_repeat}
use pg_mnestic.Engine.Rerank.{order_hits}
use pg_mnestic.Engine.Rerank.Laws.{InRange, IsFresh, order_hits-Perm, order_hits-order}
use pg_mnestic.Engine.Worker.{
  enqueue, claimed_request, persist_marked, process_claimed, persist_into_source,
}
use pg_mnestic.Engine.Worker.Commit.{Outcome, persist_into_source-Outcome, persist_into_source_once}
use pg_mnestic.Engine.Samples.{
  parse_single, ids, empty_db, ascii_lower, lives_in, request, after_first, first_result, write_of,
  nyc_row, nyc_db, pending_db, pending_row,
}
use pg_mnestic.Store.Profile.{
  rendered, present, cmp_recent, cmp_confident, insert_sorted, order_by, static_facts, dynamic_ctx,
  refresh_profile,
}
use pg_mnestic.Core.Types.{Candidate}
use pg_mnestic.Prelude.{is_empty}
use pg_mnestic.Engine.Persist.{retain_nonblank}
use pg_mnestic.Engine.Extract.{extract_and_embed, embed_extracted, embed_all, check_count}
use pg_mnestic.Engine.Extract.Laws.{extract_and_embed-eq-ok}

-- Two facts of one request: the later one supersedes.
abbrev moved : WriteRequest
moved = request (lives_in (codes "NYC") unknown ∷ lives_in (codes "SF") (as_of 70) ∷ [])

moved_ids :
    first_result (empty_result 0) (persist ids ascii_lower (starter ascii_lower) moved empty_db)
    ≡ record {
      source_id = 1;
      inserted = 2 ∷ 3 ∷ [];
      superseded = 2 ∷ [];
      deduped = [];
      idempotent_skip = false;
    }
unfolding is_whitespace text_eq opt_text_eq to_ascii_lowercase eq_ignore_ascii_case
    trim_start_matches trim_end_matches trim_matches trim words_of split_whitespace temporal_from
    temporal_until duplicate_of prior_ids supersede_or_insert decide is_punctuation get
    normalize_key with_synonyms normalize_subject canonical_attribute starter lower tstzrange
    starts_before_end overlaps has_key latest_matches segment_starts is_guarded conflicts
    passes_checks insert_row new_row insert_memory_full closes closed_row close_rows close_prior
    bump_row bump_confidence close_recorded insert_source source_id_by_custom_id enqueue_source
    oldest claim_pending_source mark_source_extracted rendered present cmp_recent cmp_confident
    insert_sorted order_by static_facts dynamic_ctx refresh_profile interval_from interval_until
    write_row write_insert newest_start next_segment record_keyed record_history parse_id
    close_priors supersede_newer apply_supersede apply_action match_keyed find_matches resolve_write
    check_embedding_dim to_write persist_each persist_candidates persist enqueue claimed_request
    persist_marked persist_into_source process_claimed parse_single ids ascii_lower
moved_ids = refl

-- Two contradicting facts with one start: the second is refused.
refused :
    persist ids ascii_lower
      (starter ascii_lower)
      (request (lives_in (codes "NYC") unknown ∷ lives_in (codes "SF") unknown ∷ []))
      empty_db
    ≡ err (db exclusion_violation)
unfolding is_whitespace text_eq opt_text_eq to_ascii_lowercase eq_ignore_ascii_case
    trim_start_matches trim_end_matches trim_matches trim words_of split_whitespace temporal_from
    temporal_until duplicate_of prior_ids supersede_or_insert decide is_punctuation get
    normalize_key with_synonyms normalize_subject canonical_attribute starter lower tstzrange
    starts_before_end overlaps has_key latest_matches segment_starts is_guarded conflicts
    passes_checks insert_row new_row insert_memory_full closes closed_row close_rows close_prior
    bump_row bump_confidence close_recorded insert_source source_id_by_custom_id enqueue_source
    oldest claim_pending_source mark_source_extracted rendered present cmp_recent cmp_confident
    insert_sorted order_by static_facts dynamic_ctx refresh_profile interval_from interval_until
    write_row write_insert newest_start next_segment record_keyed record_history parse_id
    close_priors supersede_newer apply_supersede apply_action match_keyed find_matches resolve_write
    check_embedding_dim to_write persist_each persist_candidates persist enqueue claimed_request
    persist_marked persist_into_source process_claimed parse_single ids ascii_lower
refused = refl

empty_db-IsValid : IsValid empty_db
empty_db-IsValid = record { ids = tt; exclusive = tt; checked = tt }

nyc_db-IsValid : IsValid nyc_db
unfolding new_row write_row passes_checks
nyc_db-IsValid = record { ids = (omega arith, tt); exclusive = (tt, tt); checked = (refl, tt) }

persist-IsValid_example :
    IsValid (after_first (persist ids ascii_lower (starter ascii_lower) moved empty_db))
unfolding is_whitespace text_eq opt_text_eq to_ascii_lowercase eq_ignore_ascii_case
    trim_start_matches trim_end_matches trim_matches trim words_of split_whitespace temporal_from
    temporal_until duplicate_of prior_ids supersede_or_insert decide is_punctuation get
    normalize_key with_synonyms normalize_subject canonical_attribute starter lower tstzrange
    starts_before_end overlaps has_key latest_matches segment_starts is_guarded conflicts
    passes_checks insert_row new_row insert_memory_full closes closed_row close_rows close_prior
    bump_row bump_confidence close_recorded insert_source source_id_by_custom_id enqueue_source
    oldest claim_pending_source mark_source_extracted rendered present cmp_recent cmp_confident
    insert_sorted order_by static_facts dynamic_ctx refresh_profile interval_from interval_until
    write_row write_insert newest_start next_segment record_keyed record_history parse_id
    close_priors supersede_newer apply_supersede apply_action match_keyed find_matches resolve_write
    check_embedding_dim to_write persist_each persist_candidates persist enqueue claimed_request
    persist_marked persist_into_source process_claimed parse_single ids ascii_lower
persist-IsValid_example =
    persist-IsValid ids ascii_lower (starter ascii_lower) moved empty_db
      (after_first (persist ids ascii_lower (starter ascii_lower) moved empty_db))
      (first_result (empty_result 0) (persist ids ascii_lower (starter ascii_lower) moved empty_db))
      refl empty_db-IsValid

resolve_write-latest_example :
    All
      (λ (m : ExistingMatch). m.value ≡ some (codes "SF"))
      (latest_matches ids 1
        (codes "alice")
        (codes "user")
        (codes "location")
        (after_first
          (resolve_write ids (write_of (codes "SF") (as_of 70)) (empty_result 1) nyc_db)).memories)
unfolding is_whitespace text_eq opt_text_eq to_ascii_lowercase eq_ignore_ascii_case
    trim_start_matches trim_end_matches trim_matches trim words_of split_whitespace temporal_from
    temporal_until duplicate_of prior_ids supersede_or_insert decide is_punctuation get
    normalize_key with_synonyms normalize_subject canonical_attribute starter lower tstzrange
    starts_before_end overlaps has_key latest_matches segment_starts is_guarded conflicts
    passes_checks insert_row new_row insert_memory_full closes closed_row close_rows close_prior
    bump_row bump_confidence close_recorded insert_source source_id_by_custom_id enqueue_source
    oldest claim_pending_source mark_source_extracted rendered present cmp_recent cmp_confident
    insert_sorted order_by static_facts dynamic_ctx refresh_profile interval_from interval_until
    write_row write_insert newest_start next_segment record_keyed record_history parse_id
    close_priors supersede_newer apply_supersede apply_action match_keyed find_matches resolve_write
    check_embedding_dim to_write persist_each persist_candidates persist enqueue claimed_request
    persist_marked persist_into_source process_claimed parse_single ids ascii_lower
resolve_write-latest_example =
    resolve_write-latest ids (write_of (codes "SF") (as_of 70)) (codes "user") (codes "location")
      (empty_result 1)
      (first_result (empty_result 1)
        (resolve_write ids (write_of (codes "SF") (as_of 70)) (empty_result 1) nyc_db))
      nyc_db
      (after_first (resolve_write ids (write_of (codes "SF") (as_of 70)) (empty_result 1) nyc_db))
      refl refl refl refl refl nyc_db-IsValid refl

abbrev sf_from : ℕ → Result (AddResult × Db)
sf_from t = resolve_write ids (write_of (codes "SF") (as_of t)) (empty_result 1) nyc_db

resolve_write-history_example :
    (row : MemoryRow) × ((after_first (sf_from 30)).memories ≡ row ∷ nyc_db.memories)
    × HistoryRow
        (write_of (codes "SF") (as_of 30))
        (segment_starts 1 (codes "alice") (codes "user") (codes "location") nyc_db.memories)
        row
    × (latest_matches ids 1
          (codes "alice")
          (codes "user")
          (codes "location")
          (after_first (sf_from 30)).memories
        ≡ latest_matches ids 1 (codes "alice") (codes "user") (codes "location") nyc_db.memories)
unfolding is_whitespace text_eq opt_text_eq to_ascii_lowercase eq_ignore_ascii_case
    trim_start_matches trim_end_matches trim_matches trim words_of split_whitespace temporal_from
    temporal_until duplicate_of prior_ids supersede_or_insert decide is_punctuation get
    normalize_key with_synonyms normalize_subject canonical_attribute starter lower tstzrange
    starts_before_end overlaps has_key latest_matches segment_starts is_guarded conflicts
    passes_checks insert_row new_row insert_memory_full closes closed_row close_rows close_prior
    bump_row bump_confidence close_recorded insert_source source_id_by_custom_id enqueue_source
    oldest claim_pending_source mark_source_extracted rendered present cmp_recent cmp_confident
    insert_sorted order_by static_facts dynamic_ctx refresh_profile interval_from interval_until
    write_row write_insert newest_start next_segment record_keyed record_history parse_id
    close_priors supersede_newer apply_supersede apply_action match_keyed find_matches resolve_write
    check_embedding_dim to_write persist_each persist_candidates persist enqueue claimed_request
    persist_marked persist_into_source process_claimed parse_single ids ascii_lower
resolve_write-history_example =
    resolve_write-history ids (write_of (codes "SF") (as_of 30)) (codes "user") (codes "location")
      ((1 ∷ []) ∷ []) (empty_result 1) (first_result (empty_result 1) (sf_from 30)) nyc_db
      (after_first (sf_from 30)) refl refl refl refl refl

resolve_write-refused_example : sf_from 50 ≡ err (db exclusion_violation)
unfolding is_whitespace text_eq opt_text_eq to_ascii_lowercase eq_ignore_ascii_case
    trim_start_matches trim_end_matches trim_matches trim words_of split_whitespace temporal_from
    temporal_until duplicate_of prior_ids supersede_or_insert decide is_punctuation get
    normalize_key with_synonyms normalize_subject canonical_attribute starter lower tstzrange
    starts_before_end overlaps has_key latest_matches segment_starts is_guarded conflicts
    passes_checks insert_row new_row insert_memory_full closes closed_row close_rows close_prior
    bump_row bump_confidence close_recorded insert_source source_id_by_custom_id enqueue_source
    oldest claim_pending_source mark_source_extracted rendered present cmp_recent cmp_confident
    insert_sorted order_by static_facts dynamic_ctx refresh_profile interval_from interval_until
    write_row write_insert newest_start next_segment record_keyed record_history parse_id
    close_priors supersede_newer apply_supersede apply_action match_keyed find_matches resolve_write
    check_embedding_dim to_write persist_each persist_candidates persist enqueue claimed_request
    persist_marked persist_into_source process_claimed parse_single ids ascii_lower holds_at
resolve_write-refused_example =
    resolve_write-refused ids (write_of (codes "SF") (as_of 50)) (codes "user") (codes "location")
      ((1 ∷ []) ∷ []) (empty_result 1) nyc_db nyc_row refl refl refl (omega arith) refl refl
      (inl refl) refl refl refl

add_at-Attempts_example :
    Attempts
      (λ n. persist ids ascii_lower (starter ascii_lower) moved empty_db)
      (add_at ids ascii_lower (starter ascii_lower) moved (λ n. empty_db))
      0
add_at-Attempts_example =
    add_at-Attempts ids ascii_lower (starter ascii_lower) moved (λ n. empty_db)

abbrev repeated : WriteRequest
repeated = record moved { custom_id = some (1 ∷ []) }

persist_repeat_example :
    persist ids ascii_lower (starter ascii_lower) repeated pending_db
    ≡ ok (record (empty_result 1) { idempotent_skip = true }, pending_db)
unfolding is_whitespace text_eq opt_text_eq to_ascii_lowercase eq_ignore_ascii_case
    trim_start_matches trim_end_matches trim_matches trim words_of split_whitespace temporal_from
    temporal_until duplicate_of prior_ids supersede_or_insert decide is_punctuation get
    normalize_key with_synonyms normalize_subject canonical_attribute starter lower tstzrange
    starts_before_end overlaps has_key latest_matches segment_starts is_guarded conflicts
    passes_checks insert_row new_row insert_memory_full closes closed_row close_rows close_prior
    bump_row bump_confidence close_recorded insert_source source_id_by_custom_id enqueue_source
    oldest claim_pending_source mark_source_extracted rendered present cmp_recent cmp_confident
    insert_sorted order_by static_facts dynamic_ctx refresh_profile interval_from interval_until
    write_row write_insert newest_start next_segment record_keyed record_history parse_id
    close_priors supersede_newer apply_supersede apply_action match_keyed find_matches resolve_write
    check_embedding_dim to_write persist_each persist_candidates persist enqueue claimed_request
    persist_marked persist_into_source process_claimed parse_single ids ascii_lower
persist_repeat_example =
    persist_repeat ids ascii_lower (starter ascii_lower) repeated pending_db (1 ∷ [])
      (pending_row 1 30) refl refl

order_hits-Perm_example :
    (all : List ℕ) × Perm all (7 ∷ 8 ∷ 9 ∷ [])
    × (order_hits true (some (some (2 ∷ 5 ∷ 2 ∷ []))) 2 (7 ∷ 8 ∷ 9 ∷ []) ≡ take 2 all)
order_hits-Perm_example = order_hits-Perm true (some (some (2 ∷ 5 ∷ 2 ∷ []))) 2 (7 ∷ 8 ∷ 9 ∷ [])

order_hits-order_example :
    map {A = ℕ} some (take 2 (order_hits true (some (some (2 ∷ 0 ∷ []))) 1 (7 ∷ 8 ∷ 9 ∷ [])))
    ≡ some 9 ∷ []
unfolding InRange IsFresh
order_hits-order_example =
    order_hits-order {A = ℕ} 1 (7 ∷ 8 ∷ 9 ∷ []) (2 ∷ 0 ∷ []) (omega arith, (omega arith, tt))
      (refl, (refl, tt))

abbrev claimed_db : Db
claimed_db = after_first (claim_pending_source 1 60 (λ id. false) pending_db)

abbrev worked : Result (Option AddResult × Db)
worked = persist_into_source ids ascii_lower (starter ascii_lower) moved 1 100 claimed_db

persist_into_source-Outcome_example :
    Outcome 1 1 100 claimed_db (after_first worked) (first_result none worked)
unfolding is_whitespace text_eq opt_text_eq to_ascii_lowercase eq_ignore_ascii_case
    trim_start_matches trim_end_matches trim_matches trim words_of split_whitespace temporal_from
    temporal_until duplicate_of prior_ids supersede_or_insert decide is_punctuation get
    normalize_key with_synonyms normalize_subject canonical_attribute starter lower tstzrange
    starts_before_end overlaps has_key latest_matches segment_starts is_guarded conflicts
    passes_checks insert_row new_row insert_memory_full closes closed_row close_rows close_prior
    bump_row bump_confidence close_recorded insert_source source_id_by_custom_id enqueue_source
    oldest claim_pending_source mark_source_extracted rendered present cmp_recent cmp_confident
    insert_sorted order_by static_facts dynamic_ctx refresh_profile interval_from interval_until
    write_row write_insert newest_start next_segment record_keyed record_history parse_id
    close_priors supersede_newer apply_supersede apply_action match_keyed find_matches resolve_write
    check_embedding_dim to_write persist_each persist_candidates persist enqueue claimed_request
    persist_marked persist_into_source process_claimed parse_single ids ascii_lower
persist_into_source-Outcome_example =
    persist_into_source-Outcome ids ascii_lower (starter ascii_lower) moved 1 100 claimed_db
      (after_first worked) (first_result none worked) refl

abbrev some_or {ℓ} : {A : Type ℓ} → A → Option A → A
some_or a none = a
some_or a (some b) = b

abbrev worked_again : Result (Option AddResult × Db)
worked_again =
    persist_into_source ids ascii_lower (starter ascii_lower) moved 1 100 (after_first worked)

persist_into_source_once_example :
    (first_result none worked_again ≡ none) × (after_first worked_again ≡ after_first worked)
unfolding is_whitespace text_eq opt_text_eq to_ascii_lowercase eq_ignore_ascii_case
    trim_start_matches trim_end_matches trim_matches trim words_of split_whitespace temporal_from
    temporal_until duplicate_of prior_ids supersede_or_insert decide is_punctuation get
    normalize_key with_synonyms normalize_subject canonical_attribute starter lower tstzrange
    starts_before_end overlaps has_key latest_matches segment_starts is_guarded conflicts
    passes_checks insert_row new_row insert_memory_full closes closed_row close_rows close_prior
    bump_row bump_confidence close_recorded insert_source source_id_by_custom_id enqueue_source
    oldest claim_pending_source mark_source_extracted rendered present cmp_recent cmp_confident
    insert_sorted order_by static_facts dynamic_ctx refresh_profile interval_from interval_until
    write_row write_insert newest_start next_segment record_keyed record_history parse_id
    close_priors supersede_newer apply_supersede apply_action match_keyed find_matches resolve_write
    check_embedding_dim to_write persist_each persist_candidates persist enqueue claimed_request
    persist_marked persist_into_source process_claimed parse_single ids ascii_lower
persist_into_source_once_example =
    persist_into_source_once ids ascii_lower (starter ascii_lower) moved moved 1 100 claimed_db
      (after_first worked) (after_first worked_again)
      (some_or (empty_result 0) (first_result none worked)) (first_result none worked_again) refl
      refl refl

-- The oldest source is claimed first; within the lease the next claim gets the other one.
claim_pending_source_other_example : (2 == 1) ≡ false
unfolding is_whitespace text_eq opt_text_eq to_ascii_lowercase eq_ignore_ascii_case
    trim_start_matches trim_end_matches trim_matches trim words_of split_whitespace temporal_from
    temporal_until duplicate_of prior_ids supersede_or_insert decide is_punctuation get
    normalize_key with_synonyms normalize_subject canonical_attribute starter lower tstzrange
    starts_before_end overlaps has_key latest_matches segment_starts is_guarded conflicts
    passes_checks insert_row new_row insert_memory_full closes closed_row close_rows close_prior
    bump_row bump_confidence close_recorded insert_source source_id_by_custom_id enqueue_source
    oldest claim_pending_source mark_source_extracted rendered present cmp_recent cmp_confident
    insert_sorted order_by static_facts dynamic_ctx refresh_profile interval_from interval_until
    write_row write_insert newest_start next_segment record_keyed record_history parse_id
    close_priors supersede_newer apply_supersede apply_action match_keyed find_matches resolve_write
    check_embedding_dim to_write persist_each persist_candidates persist enqueue claimed_request
    persist_marked persist_into_source process_claimed parse_single ids ascii_lower
claim_pending_source_other_example =
    claim_pending_source_other 1 60 (λ id. false) (λ id. id == 3) pending_db claimed_db
      (after_first (claim_pending_source 1 60 (λ id. id == 3) (record claimed_db { now = 160 })))
      (pending_of (pending_row 1 30) 100) (pending_of (pending_row 2 40) 160) 160 refl (omega arith)
      refl

abbrev two_found : Text → Result (List Candidate)
two_found content = ok (lives_in content unknown ∷ [])

abbrev one_each : List Text → Result (List (List ℕ))
one_each ts = ok (map (λ t. 1 ∷ []) ts)

extract_and_embed-eq-ok_example :
    (found : List Candidate) × (two_found (codes "NYC") ≡ ok found)
    × ((lives_in (codes "NYC") unknown ∷ []) ≡ retain_nonblank found)
    × All
        (λ (c : Candidate). is_empty (trim c.content) ≡ false)
        (lives_in (codes "NYC") unknown ∷ [])
    × (length {A = List ℕ} ((1 ∷ []) ∷ []) ≡ length (lives_in (codes "NYC") unknown ∷ []))
unfolding extract_and_embed embed_extracted embed_all check_count retain_nonblank trim trim_matches
    trim_start_matches trim_end_matches is_whitespace
extract_and_embed-eq-ok_example =
    extract_and_embed-eq-ok two_found one_each (codes "NYC") (lives_in (codes "NYC") unknown ∷ [])
      ((1 ∷ []) ∷ []) refl
