-- ===== src/Store/Sources.antt =====
-- The statements on mnestic_source.
pub mod Lease
pub mod Waiting
use pg_mnestic.Prelude.{
  ℕ, suc, ◌+◌, ◌-◌, ◌≤◌, Bool, true, false, ◌&&◌, ◌||◌, not, List, [], ◌∷◌, map, Option, none, some,
  max, ltb, leb, ◌==◌, if◌then◌else◌, filter, find, any, length,
}
use pg_mnestic.Text.{Text, text_eq, opt_text_eq}
use pg_mnestic.Core.Types.{Time}
use pg_mnestic.Store.Db.{SourceRow, Db, Tx, ok, ◌>>=◌, return}

-- UNIQUE (tenant_id, custom_id): a NULL custom_id equals nothing.
abbrev pub same_custom_id : ℕ → Option Text → SourceRow → Bool
same_custom_id tenant_id none s = false
same_custom_id tenant_id (some c) s = s.tenant_id == tenant_id && opt_text_eq s.custom_id (some c)

-- `insert_source_tx`: ON CONFLICT DO NOTHING RETURNING id.
unfoldable pub insert_source :
    ℕ → Text → List Text → Text → Text → Option Text → Bool → Text → Tx (Option ℕ)
insert_source tenant_id actor_id container_tags kind content custom_id needs_extraction metadata d =
    if any (same_custom_id tenant_id custom_id) d.sources
    then ok (none, d)
    else ok (
      some d.next_id,
      record d {
        sources =
            record {
              id = d.next_id;
              tenant_id = tenant_id;
              actor_id = actor_id;
              container_tags = container_tags;
              kind = kind;
              raw = content;
              custom_id = custom_id;
              needs_extraction = needs_extraction;
              ingested_at = d.now;
              claimed_at = none;
              metadata = metadata;
            }
            ∷ d.sources;
        next_id = suc d.next_id;
      },
    )

-- `source_id_by_custom_id_tx`.
unfoldable pub source_id_by_custom_id : ℕ → Text → Tx (Option ℕ)
source_id_by_custom_id tenant_id custom_id d = ok (
  (elim (find (same_custom_id tenant_id (some custom_id)) d.sources) [
    | none ↦ none
    | some s ↦ some s.id
  ]),
  d,
)

-- `enqueue_source`.
unfoldable pub enqueue_source :
    ℕ → Text → List Text → Text → Text → Option Text → Text → Tx (Option ℕ)
unfolding insert_source
enqueue_source tenant_id actor_id container_tags kind content custom_id metadata =
    insert_source tenant_id actor_id container_tags kind content custom_id true metadata

-- `PendingSource`.
pub record PendingSource : Type 0 where
  pub id : ℕ
  pub actor_id : Text
  pub container_tags : List Text
  pub content : Text
  pub claimed_at : Time
  pub metadata : Text

-- `claimed_at IS NULL OR claimed_at < now() - lease`.
abbrev pub is_lapsed : Time → ℕ → Option Time → Bool
is_lapsed now lease none = true
is_lapsed now lease (some at) = ltb (at + lease) now

abbrev pub is_claimable : ℕ → Time → ℕ → SourceRow → Bool
is_claimable tenant_id now lease s =
    s.tenant_id == tenant_id && s.needs_extraction && is_lapsed now lease s.claimed_at

-- `ORDER BY ingested_at LIMIT 1`.
unfoldable pub oldest : List SourceRow → Option SourceRow
oldest [] = none
oldest (s ∷ ss) = elim (oldest ss) [
  | none ↦ some s
  | some t ↦ if leb s.ingested_at t.ingested_at then some s else some t
]

abbrev pub pending_of : SourceRow → Time → PendingSource
pending_of s at = record {
  id = s.id;
  actor_id = s.actor_id;
  container_tags = s.container_tags;
  content = s.raw;
  claimed_at = at;
  metadata = s.metadata;
}

-- `WHERE id = ..`, within the rows that the row-level policy leaves visible.
abbrev pub stamp : ℕ → ℕ → Time → SourceRow → SourceRow
stamp tenant_id id at s =
    if s.tenant_id == tenant_id && s.id == id then record s { claimed_at = some at } else s

-- `FOR UPDATE SKIP LOCKED`: the rows with a `locked` id are locked by other transactions, and passed
-- over.
abbrev pub is_offered : ℕ → Time → ℕ → (ℕ → Bool) → SourceRow → Bool
is_offered tenant_id now lease locked s = is_claimable tenant_id now lease s && not (locked s.id)

-- `claim_pending_source`; `lease` is `lease_secs` in the unit of `Time`.
unfoldable pub claim_pending_source : ℕ → ℕ → (ℕ → Bool) → Tx (Option PendingSource)
unfolding oldest
claim_pending_source tenant_id lease locked d =
    elim (oldest (filter (is_offered tenant_id d.now lease locked) d.sources)) [
      | none ↦ ok (none, d)
      | some s ↦ ok (
        some (pending_of s d.now),
        record d { sources = map (stamp tenant_id s.id d.now) d.sources },
      )
    ]

abbrev pub is_at : Time → Option Time → Bool
is_at at none = false
is_at at (some t) = t == at

-- `tenant_id = $1 AND id = $2 AND claimed_at = $3`.
abbrev pub is_held : ℕ → ℕ → Time → SourceRow → Bool
is_held tenant_id id at s = s.tenant_id == tenant_id && s.id == id && is_at at s.claimed_at

abbrev pub extracted : SourceRow → SourceRow
extracted s = record s { needs_extraction = false; claimed_at = none }

-- `mark_source_extracted_tx`.
unfoldable pub mark_source_extracted : ℕ → ℕ → Time → Tx Bool
mark_source_extracted tenant_id id at d = ok (
  any (is_held tenant_id id at) d.sources,
  record d { sources = map (λ s. if is_held tenant_id id at s then extracted s else s) d.sources },
)
