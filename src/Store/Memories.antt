-- ===== src/Store/Memories.antt =====
-- The statements on mnestic_memory and mnestic_memory_relation that the write path runs.
pub mod Frame
pub mod Invariant
use pg_mnestic.Prelude.{
  ℕ, zero, suc, ◌+◌, min, ◌≡◌, Bool, true, false, ◌&&◌, ◌||◌, not, List, [], ◌∷◌, ◌++◌, map, Option,
  none, some, ltb, ◌==◌, if◌then◌else◌, filter, any, length,
}
use pg_mnestic.Text.{Text, text_eq, opt_text_eq}
use pg_mnestic.Core.Types.{Time, MemType, ExistingMatch}
use pg_mnestic.Store.Span.{Span, span, lower, tstzrange, overlaps}
use pg_mnestic.Store.Db.{
  Status, active, superseded, expired, forgotten, MemoryRow, SourceRow, EdgeRow, Db, Error,
  SqlState, db, check_violation, exclusion_violation, range_error, Result, ok, err, Tx, ◌>>=◌, ◌>>◌,
  return, fail, lift, get_db, or_fail,
}

-- The uuid crate: printing and parsing of ids. Parsing reads back what is printed.
pub record Uuids : Type 0 where
  pub to_string : ℕ → Text
  pub parse_str : Text → Option ℕ
  pub parse_str-to_string : (id : ℕ) → parse_str (to_string id) ≡ some id

abbrev pub is_active : Status → Bool
is_active active = true
is_active _ = false

abbrev pub opt_is : Option ℕ → ℕ → Bool
opt_is none n = false
opt_is (some m) n = m == n

-- The WHERE clause shared by the lookups of a key: NULL equals nothing.
unfoldable pub has_key : ℕ → Text → Text → Text → MemoryRow → Bool
has_key tenant_id actor_id subject attribute r =
    r.tenant_id == tenant_id
    && text_eq r.actor_id actor_id
    && opt_text_eq r.subject (some subject)
    && opt_text_eq r.attribute (some attribute)

abbrev pub is_current : MemoryRow → Bool
is_current r = r.is_latest && is_active r.status

module _ (uuids : Uuids) where
  abbrev pub to_match : MemoryRow → ExistingMatch
  to_match r = record {
    id = uuids.to_string r.id;
    value = r.value;
    single_valued = r.single_valued;
    valid_from = lower r.valid_time;
  }

  -- `latest_matches_tx`.
  unfoldable pub latest_matches : ℕ → Text → Text → Text → List MemoryRow → List ExistingMatch
  latest_matches tenant_id actor_id subject attribute rows =
      map to_match
        (filter (λ r. has_key tenant_id actor_id subject attribute r && is_current r) rows)

-- `into_iter().flatten()`.
abbrev pub flatten_times : List (Option Time) → List Time
flatten_times [] = []
flatten_times (none ∷ ts) = flatten_times ts
flatten_times (some t ∷ ts) = t ∷ flatten_times ts

-- `segment_starts_tx`: of every status.
unfoldable pub segment_starts : ℕ → Text → Text → Text → List MemoryRow → List Time
segment_starts tenant_id actor_id subject attribute rows =
    flatten_times
      (map (λ r. lower r.valid_time) (filter (has_key tenant_id actor_id subject attribute) rows))

-- The partial index of `no_overlap_single_valued`.
unfoldable pub is_guarded : MemoryRow → Bool
is_guarded r = is_active r.status && r.single_valued

abbrev pub opt_key_eq : Option Text → Option Text → Bool
opt_key_eq (some s) (some t) = text_eq s t
opt_key_eq _ _ = false

-- Two guarded rows of one key over overlapping validity (EXCLUDE ... WITH =, ... WITH &&).
unfoldable pub conflicts : MemoryRow → MemoryRow → Bool
unfolding is_guarded
conflicts r s =
    is_guarded r
    && is_guarded s
    && r.tenant_id == s.tenant_id
    && text_eq r.actor_id s.actor_id
    && opt_key_eq r.subject s.subject
    && opt_key_eq r.attribute s.attribute
    && overlaps r.valid_time s.valid_time

abbrev pub is_null : Option Text → Bool
is_null none = true
is_null (some t) = false

-- The CHECK constraints `single_valued_needs_triple`, `content_present` and that on confidence.
unfoldable pub passes_checks : MemoryRow → Bool
passes_checks r =
    not (ltb 1000 r.confidence)
    && (not r.single_valued || not (is_null r.subject) && not (is_null r.attribute))
    && not (is_null r.content)

-- INSERT of a row with the next id.
unfoldable pub insert_row : MemoryRow → Tx ℕ
unfolding passes_checks
insert_row r d =
    if not (passes_checks r)
    then err (db check_violation)
    else if any (conflicts r) d.memories
    then err (db exclusion_violation)
    else ok (r.id, record d { memories = r ∷ d.memories; next_id = suc r.id })

pub record NewMemoryFull : Type 0 where
  pub tenant_id : ℕ
  pub actor_id : Text
  pub container_tags : List Text
  pub content : Text
  pub subject : Option Text
  pub attribute : Option Text
  pub value : Option Text
  pub single_valued : Bool
  pub confidence : ℕ
  pub is_static : Bool
  pub mem_type : MemType
  pub embedding : Option (List ℕ)
  pub source_id : Option ℕ
  pub valid_from : Time
  pub valid_until : Option Time
  pub is_latest : Bool
  pub supersedes_id : Option ℕ
  pub forget_after : Option Time
  pub metadata : Text

-- The row that `insert_memory_full_tx` writes: `status`, `version` and `recorded_time` by default.
unfoldable pub new_row : NewMemoryFull → Span → ℕ → Time → MemoryRow
new_row m valid_time id now = record {
  id = id;
  tenant_id = m.tenant_id;
  actor_id = m.actor_id;
  container_tags = m.container_tags;
  content = some m.content;
  subject = m.subject;
  attribute = m.attribute;
  value = m.value;
  single_valued = m.single_valued;
  confidence = m.confidence;
  is_static = m.is_static;
  mem_type = m.mem_type;
  embedding = m.embedding;
  source_id = m.source_id;
  valid_time = valid_time;
  recorded_time = span (some now) none;
  is_latest = m.is_latest;
  supersedes_id = m.supersedes_id;
  forget_after = m.forget_after;
  forget_reason = none;
  status = active;
  version = 1;
  root_memory_id = none;
  document_date = none;
  event_date = none;
  metadata = m.metadata;
}

-- `insert_memory_full_tx`.
unfoldable pub insert_memory_full : NewMemoryFull → Tx ℕ
insert_memory_full m = do
  d ← get_db
  valid_time ← lift (or_fail (tstzrange (some m.valid_from) m.valid_until) (db range_error))
  insert_row (new_row m valid_time d.next_id d.now)

-- Does the UPDATE of `close_prior_tx` hit the row?
unfoldable pub closes : ℕ → ℕ → Time → MemoryRow → Bool
closes tenant_id prior_id at r =
    r.tenant_id == tenant_id
    && r.id == prior_id
    && (elim (lower r.valid_time) [ none ↦ false | some from ↦ ltb from at ])

-- The row after it: the recorded range is closed whatever the clock says.
unfoldable pub closed_row : Time → Time → MemoryRow → Result MemoryRow
closed_row at now r = elim (tstzrange (lower r.valid_time) (some at)) [
  | none ↦ err (db range_error)
  | some valid_time ↦ elim (tstzrange (lower r.recorded_time) (some now)) [
    | none ↦ err (db range_error)
    | some recorded_time ↦ ok (record r {
      valid_time = valid_time;
      recorded_time = recorded_time;
      status = superseded;
      is_latest = false;
    })
  ]
]

-- The UPDATE over the table, with the number of rows hit.
unfoldable pub close_rows : ℕ → ℕ → Time → Time → List MemoryRow → Result (List MemoryRow × ℕ)
unfolding closes closed_row
close_rows tenant_id prior_id at now [] = ok ([], 0)
close_rows tenant_id prior_id at now (r ∷ rs) = elim (close_rows tenant_id prior_id at now rs) [
  | err e ↦ err e
  | ok (rest, n) ↦
      if closes tenant_id prior_id at r
      then (elim (closed_row at now r) [ err e ↦ err e | ok r' ↦ ok (r' ∷ rest, suc n) ])
      else ok (r ∷ rest, n)
]

-- `close_prior_tx`.
unfoldable pub close_prior : ℕ → ℕ → Time → Tx ℕ
unfolding close_rows
close_prior tenant_id prior_id at d = elim (close_rows tenant_id prior_id at d.now d.memories) [
  | err e ↦ err e
  | ok (rows, n) ↦ ok (n, record d { memories = rows })
]

-- `bump_confidence_tx`, capped at 1.0.
unfoldable pub bump_row : ℕ → ℕ → ℕ → MemoryRow → MemoryRow
bump_row tenant_id id delta r =
    if r.tenant_id == tenant_id && r.id == id
    then record r { confidence = min 1000 (r.confidence + delta) }
    else r

unfoldable pub bump_confidence : ℕ → ℕ → ℕ → Tx (Unit {0})
unfolding bump_row
bump_confidence tenant_id id delta d =
    ok (tt, record d { memories = map (bump_row tenant_id id delta) d.memories })

-- `CASE WHEN now() > lower(recorded_time) THEN tstzrange(lower(recorded_time), now()) ELSE
-- recorded_time END`.
unfoldable pub close_recorded : Time → Span → Span
close_recorded now r = elim (lower r) [
  | none ↦ r
  | some from ↦ if ltb from now then span (some from) (some now) else r
]

-- The tombstone of `forget_memory_by_id_tx` and `forget_source_memories_tx`.
unfoldable pub tombstone : Option Text → Time → MemoryRow → MemoryRow
unfolding close_recorded
tombstone reason now r = record r {
  status = forgotten;
  is_latest = false;
  forget_reason = reason;
  recorded_time = close_recorded now r.recorded_time;
}

unfoldable pub forgets : ℕ → Text → ℕ → MemoryRow → Bool
forgets tenant_id actor_id id r =
    r.tenant_id == tenant_id && text_eq r.actor_id actor_id && r.id == id && is_active r.status

-- `forget_memory_by_id_tx`: the edges go whether or not a row was hit, and whoever owns the id.
unfoldable pub forget_memory_by_id : ℕ → Text → ℕ → Option Text → Tx ℕ
unfolding forgets tombstone
forget_memory_by_id tenant_id actor_id id reason d = ok (
  length (filter (forgets tenant_id actor_id id) d.memories),
  record d {
    memories =
        map (λ r. if forgets tenant_id actor_id id r then tombstone reason d.now r else r)
          d.memories;
    edges =
        filter (λ e. not (e.tenant_id == tenant_id && (e.from_id == id || e.to_id == id))) d.edges;
  },
)

-- `insert_relation_tx`: no self-edge, and a repeat does nothing.
unfoldable pub same_edge : EdgeRow → EdgeRow → Bool
same_edge e f =
    e.tenant_id == f.tenant_id
    && e.from_id == f.from_id
    && e.to_id == f.to_id
    && text_eq e.relation f.relation

unfoldable pub insert_relation : ℕ → Text → ℕ → ℕ → Text → Tx (Unit {0})
unfolding same_edge
insert_relation tenant_id actor_id from_id to_id relation d =
    let e : EdgeRow = record {
      tenant_id = tenant_id;
      actor_id = actor_id;
      from_id = from_id;
      to_id = to_id;
      relation = relation;
    } in
    if from_id == to_id
    then ok (tt, d)
    else if any (same_edge e) d.edges
    then ok (tt, d)
    else ok (tt, record d { edges = e ∷ d.edges })
