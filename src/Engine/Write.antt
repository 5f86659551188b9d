-- ===== src/Engine/Write.antt =====
-- `add_at` and what it calls: `persist`, `persist_candidates`, `apply_supersede`.
pub mod Keeps
pub mod Current
pub mod Closing
pub mod Latest
pub mod Segments
pub mod History
use pg_mnestic.Prelude.{
  ℕ, zero, suc, ◌+◌, ◌<◌, min, ◌≡◌, Bool, true, false, ◌&&◌, not, List, [], ◌∷◌, ◌++◌, map, Option,
  none, some, ltb, ◌==◌, if◌then◌else◌, filter, any, length, is_empty,
}
use pg_mnestic.Text.{Text, text_eq, codes}
use pg_mnestic.Core.Types.{
  Time, MemType, Temporal, Candidate, ExistingMatch, ResolveAction, dedup, supersede, insert,
  temporal_from, temporal_until,
}
use pg_mnestic.Core.Resolve.{decide}
use pg_mnestic.Store.Db.{
  Db, Error, SqlState, db, bad_id, embedding_dim, supersede_failed, conflict_retries_exhausted,
  exclusion_violation, serialization_failure, deadlock_detected, Result, ok, err, Tx, ◌>>=◌, ◌>>◌,
  return, fail, lift, get_db, or_fail,
}
use pg_mnestic.Store.Memories.{
  Uuids, NewMemoryFull, latest_matches, segment_starts, insert_memory_full, close_prior,
  bump_confidence,
}
use pg_mnestic.Store.Sources.{insert_source, source_id_by_custom_id}
use pg_mnestic.Store.Profile.{refresh_profile}

abbrev pub embedding_size : ℕ
embedding_size = 1536

abbrev pub dedup_confidence_bump : ℕ
dedup_confidence_bump = 100

abbrev pub max_conflict_retries : ℕ
max_conflict_retries = 3

abbrev pub static_confidence : ℕ
static_confidence = 800

abbrev pub static_facts_cap : ℕ
static_facts_cap = 50

abbrev pub dynamic_ctx_cap : ℕ
dynamic_ctx_cap = 20

pub record AddResult : Type 0 where
  pub source_id : ℕ
  pub inserted : List ℕ
  pub superseded : List ℕ
  pub deduped : List ℕ
  pub idempotent_skip : Bool

abbrev pub empty_result : ℕ → AddResult
empty_result source_id = record {
  source_id = source_id;
  inserted = [];
  superseded = [];
  deduped = [];
  idempotent_skip = false;
}

-- `MemoryWrite`, with `written_at` for the reading of `Utc::now`.
pub record MemoryWrite : Type 0 where
  pub tenant_id : ℕ
  pub actor_id : Text
  pub container_tags : List Text
  pub source_id : ℕ
  pub embedding : List ℕ
  pub metadata : Text
  pub subject : Option Text
  pub attribute : Option Text
  pub single_valued : Bool
  pub as_of : Option Time
  pub cand : Candidate
  pub written_at : Time

abbrev pub or_time : Option Time → Option Time → Option Time
or_time (some a) b = some a
or_time none b = b

abbrev pub or_default : Option Time → Time → Time
or_default (some a) b = a
or_default none b = b

-- `filter(|u| *u > from)`.
abbrev pub after_start : Time → Option Time → Option Time
after_start from none = none
after_start from (some u) = if ltb from u then some u else none

-- `interval`.
unfoldable pub interval_from : MemoryWrite → Time
interval_from w = or_default (or_time (temporal_from w.cand.temporal) w.as_of) w.written_at

unfoldable pub interval_until : MemoryWrite → Option Time
unfolding interval_from
interval_until w = after_start (interval_from w) (temporal_until w.cand.temporal)

-- The row that `MemoryWrite::insert` asks for.
unfoldable pub write_row : MemoryWrite → Bool → Option ℕ → Time → Option Time → NewMemoryFull
write_row w is_latest supersedes_id valid_from valid_until = record {
  tenant_id = w.tenant_id;
  actor_id = w.actor_id;
  container_tags = w.container_tags;
  content = w.cand.content;
  subject = w.subject;
  attribute = w.attribute;
  value = w.cand.value;
  single_valued = w.single_valued;
  confidence = w.cand.confidence;
  is_static = w.cand.is_static;
  mem_type = w.cand.mem_type;
  embedding = some w.embedding;
  source_id = some w.source_id;
  valid_from = valid_from;
  valid_until = valid_until;
  is_latest = is_latest;
  supersedes_id = supersedes_id;
  forget_after = w.cand.forget_after;
  metadata = w.metadata;
}

unfoldable pub write_insert : MemoryWrite → Bool → Option ℕ → Time → Option Time → Tx ℕ
unfolding write_row
write_insert w is_latest supersedes_id valid_from valid_until =
    insert_memory_full (write_row w is_latest supersedes_id valid_from valid_until)

-- `filter_map(|p| p.valid_from).max()`.
abbrev pub later_of : Option Time → Option Time → Option Time
later_of none b = b
later_of (some a) none = some a
later_of (some a) (some b) = if ltb a b then some b else some a

unfoldable pub newest_start : List ExistingMatch → Option Time
newest_start [] = none
newest_start (p ∷ ps) = later_of p.valid_from (newest_start ps)

-- `newest_vf.is_none_or(|nf| cand_vf > nf)`.
abbrev pub is_newer : Time → Option Time → Bool
is_newer from none = true
is_newer from (some newest) = ltb newest from

abbrev pub same_time : Option Time → Option Time → Bool
same_time none none = true
same_time (some a) (some b) = a == b
same_time _ _ = false

-- `starts.filter(|s| *s > cand_vf).min()`.
unfoldable pub next_segment : Time → List Time → Option Time
next_segment from [] = none
next_segment from (s ∷ ss) =
    let rest = next_segment from ss in
    if ltb from s then (elim rest [ none ↦ some s | some t ↦ some (min s t) ]) else rest

-- `upper` of the historical row.
abbrev pub earlier_end : Option Time → Option Time → Option Time
earlier_end (some vu) (some ns) = some (min vu ns)
earlier_end (some vu) none = some vu
earlier_end none ns = ns

abbrev pub count_is_one : ℕ → Result (Unit {0})
count_is_one n = if n == 1 then ok tt else err (supersede_failed n)

-- `match (&write.subject, &write.attribute)` where the candidate is not newer: it is recorded as
-- history, up to the next known start; without a key nothing is written.
unfoldable pub record_keyed : MemoryWrite → Option Text → Option Text → AddResult → Tx AddResult
unfolding write_insert
record_keyed w none attribute result = return result
record_keyed w (some s) none result = return result
record_keyed w (some s) (some a) result = do
  d ← get_db
  let starts = segment_starts w.tenant_id w.actor_id s a d.memories
  id ←
      write_insert w false none (interval_from w)
        (earlier_end (interval_until w) (next_segment (interval_from w) starts))
  return (record result { inserted = result.inserted ++ id ∷ [] })

unfoldable pub record_history : MemoryWrite → AddResult → Tx AddResult
unfolding record_keyed
record_history w result = record_keyed w w.subject w.attribute result

abbrev pub chosen_priors : List Text → List ExistingMatch → List ExistingMatch
chosen_priors prior_ids matches = filter (λ m. any (text_eq m.id) prior_ids) matches

module _ (uuids : Uuids) where
  open uuids use {parse_str}

  -- `parse_id`.
  unfoldable pub parse_id : Text → Result ℕ
  parse_id s = or_fail (parse_str s) (bad_id s)

  -- `for p in &priors { .. }` of `apply_supersede`: the ids closed so far, and the newest prior's.
  unfoldable pub close_priors :
      ℕ → Time → Option Time → List ExistingMatch → List ℕ → Option ℕ → Tx (List ℕ × Option ℕ)
  close_priors tenant_id at newest [] closed newest_prior = return (closed, newest_prior)
  close_priors tenant_id at newest (p ∷ ps) closed newest_prior = do
    pid ← lift (parse_id p.id)
    n ← close_prior tenant_id pid at
    _ ← lift (count_is_one n)
    close_priors tenant_id at newest ps (closed ++ pid ∷ [])
        (if same_time p.valid_from newest then some pid else newest_prior)

  -- The candidate starts after every prior: the priors are closed and it becomes the latest row.
  unfoldable pub supersede_newer : MemoryWrite → List ExistingMatch → AddResult → Tx AddResult
  unfolding close_priors write_insert
  supersede_newer w priors result = do
    (closed, newest_prior) ←
        close_priors w.tenant_id (interval_from w) (newest_start priors) priors result.superseded
          none
    id ← write_insert w true newest_prior (interval_from w) (interval_until w)
    return (record result { superseded = closed; inserted = result.inserted ++ id ∷ [] })

  -- `apply_supersede`.
  unfoldable pub apply_supersede :
      MemoryWrite → List ExistingMatch → List Text → AddResult → Tx AddResult
  unfolding supersede_newer record_history
  apply_supersede w matches prior_ids result =
      let priors = chosen_priors prior_ids matches in
      if is_newer (interval_from w) (newest_start priors)
      then supersede_newer w priors result
      else record_history w result

  -- The `match decide(..)` of `persist_candidates`.
  unfoldable pub apply_action :
      MemoryWrite → List ExistingMatch → ResolveAction → AddResult → Tx AddResult
  unfolding apply_supersede write_insert
  apply_action w matches (dedup id) result = do
    n ← lift (parse_id id)
    bump_confidence w.tenant_id n dedup_confidence_bump
    return (record result { deduped = result.deduped ++ n ∷ [] })
  apply_action w matches (supersede prior_ids) result = apply_supersede w matches prior_ids result
  apply_action w matches insert result = do
    id ← write_insert w true none (interval_from w) (interval_until w)
    return (record result { inserted = result.inserted ++ id ∷ [] })

  -- Only a structured fact is matched.
  unfoldable pub match_keyed : MemoryWrite → Option Text → Option Text → Tx (List ExistingMatch)
  match_keyed w none attribute d = ok ([], d)
  match_keyed w (some s) none d = ok ([], d)
  match_keyed w (some s) (some a) d =
      ok (latest_matches uuids w.tenant_id w.actor_id s a d.memories, d)

  unfoldable pub find_matches : MemoryWrite → Tx (List ExistingMatch)
  unfolding match_keyed
  find_matches w = match_keyed w w.subject w.attribute

  -- What `persist_candidates` does with one candidate, once its keys are canonical.
  unfoldable pub resolve_write : MemoryWrite → AddResult → Tx AddResult
  unfolding find_matches apply_action
  resolve_write w result = do
    matches ← find_matches w
    apply_action w matches (decide w.cand matches) result
