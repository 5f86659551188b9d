-- ===== src/Engine/Persist/Laws.antt =====
-- A write as a whole: the invariant, and the repeat of a custom id.
use pg_mnestic.Prelude.{
  ℕ, ◌≤◌, ◌≡◌, ◌∙◌, ap, Bool, true, false, List, [], ◌∷◌, Option, none, some, arith, find, any,
  filter, Option-cases, inl, inr,
}
use pg_mnestic.Text.{Text}
use pg_mnestic.Core.Types.{Time}
use pg_mnestic.Store.Db.{Db, SourceRow, Tx, ok, err, ◌>>=◌, MemoryRow}
use pg_mnestic.Store.Memories.{Uuids, insert_relation}
use pg_mnestic.Store.Versions.Keeps.{
  supersede_with_new_version-IsValid, forget_source_memories-IsValid,
}
use pg_mnestic.Store.Preserve.{Keeps, Statements, Changes}
use pg_mnestic.Store.Memories.Invariant.{
  IsValid, IdsBelow, insert_memory_full-Keeps, close_prior-Keeps, bump_confidence-Keeps,
  forget_memory_by_id-Keeps,
}
use pg_mnestic.Store.Sources.{
  oldest, is_offered, claim_pending_source, mark_source_extracted, insert_source,
  source_id_by_custom_id, same_custom_id,
}
use pg_mnestic.Store.Profile.{refresh_profile}
use pg_mnestic.Engine.Write.{AddResult, empty_result}
use pg_mnestic.Engine.Persist.Keeps.{persist-Keeps}
use pg_mnestic.Engine.Persist.{WriteRequest, persist, text_or_empty}

pub IdsBelow-mono : (m n : ℕ) (rs : List MemoryRow) → m ≤ n → IdsBelow m rs → IdsBelow n rs
IdsBelow-mono m n [] h b = tt
IdsBelow-mono m n (r ∷ rs) h b = (omega arith, b.1)

pub insert_source-Keeps :
    (tenant_id : ℕ) (actor_id : Text) (tags : List Text) (kind content : Text)
    (custom_id : Option Text) (pending : Bool) (metadata : Text)
    → Keeps IsValid (insert_source tenant_id actor_id tags kind content custom_id pending metadata)
unfolding insert_source
insert_source-Keeps tenant_id actor_id tags kind content custom_id pending metadata d d' o h v =
    let rows : d'.memories ≡ d.memories = ground arith in
    let next : d.next_id ≤ d'.next_id = ground arith in
    rw rows (record {
      ids = IdsBelow-mono d.next_id d'.next_id d.memories next v.ids;
      exclusive = v.exclusive;
      checked = v.checked;
    })

pub refresh_profile-Keeps :
    (tenant_id : ℕ) (actor_id : Text) (a b c : ℕ)
    → Keeps IsValid (refresh_profile tenant_id actor_id a b c)
unfolding refresh_profile
refresh_profile-Keeps tenant_id actor_id a b c d d' u h v =
    let rows : d'.memories ≡ d.memories = ground arith in
    let next : d'.next_id ≡ d.next_id = ground arith in rw (rows, next) v

pub IsValid-Statements : (tenant_id : ℕ) → Statements IsValid tenant_id
IsValid-Statements tenant_id = record {
  on_insert = λ m own. insert_memory_full-Keeps m;
  on_close = close_prior-Keeps tenant_id;
  on_bump = bump_confidence-Keeps tenant_id;
  on_refresh = refresh_profile-Keeps tenant_id;
}

untouched : (d d' : Db) → d'.memories ≡ d.memories → d'.next_id ≡ d.next_id → IsValid d → IsValid d'
untouched d d' rows next v = rw (rows, next) v

claim-Keeps :
    (tenant_id lease : ℕ) (locked : ℕ → Bool)
    → Keeps IsValid (claim_pending_source tenant_id lease locked)
unfolding claim_pending_source
claim-Keeps tenant_id lease locked d d' o h v =
    elim (Option-cases (oldest (filter (is_offered tenant_id d.now lease locked) d.sources))) [
      | inl e ↦ untouched d d' (ground arith) (ground arith) v
      | inr (s, e) ↦ untouched d d' (ground arith) (ground arith) v
    ]

mark-Keeps : (tenant_id id : ℕ) (at : Time) → Keeps IsValid (mark_source_extracted tenant_id id at)
unfolding mark_source_extracted
mark-Keeps tenant_id id at d d' b h v = untouched d d' (ground arith) (ground arith) v

relation-Keeps :
    (tenant_id : ℕ) (actor_id : Text) (from_id to_id : ℕ) (relation : Text)
    → Keeps IsValid (insert_relation tenant_id actor_id from_id to_id relation)
unfolding insert_relation
relation-Keeps tenant_id actor_id from_id to_id relation d d' u h v =
    untouched d d' (ground arith) (ground arith) v

pub IsValid-Changes : (tenant_id : ℕ) → Changes IsValid tenant_id
IsValid-Changes tenant_id = record {
  on_source = insert_source-Keeps tenant_id;
  on_claim = claim-Keeps tenant_id;
  on_extracted = mark-Keeps tenant_id;
  on_forget = forget_memory_by_id-Keeps tenant_id;
  on_forget_source = forget_source_memories-IsValid tenant_id;
  on_version = supersede_with_new_version-IsValid tenant_id;
  on_relation = relation-Keeps tenant_id;
}

-- A write that commits keeps the table valid: ids stay distinct, every row passes the CHECK
-- constraints, and no two active single-valued rows of one key overlap in validity.
pub persist-IsValid :
    (uuids : Uuids) (to_lowercase : Text → Text) (synonyms : List (Text × Text))
    (req : WriteRequest) (d d' : Db) (r : AddResult)
    → persist uuids to_lowercase synonyms req d ≡ ok (r, d')
    → IsValid d
    → IsValid d'
persist-IsValid uuids to_lowercase synonyms req d d' r h v =
    persist-Keeps IsValid uuids to_lowercase synonyms req (IsValid-Statements req.tenant_id)
      (λ custom_id.
        insert_source-Keeps req.tenant_id req.actor_id req.container_tags req.kind req.content
          custom_id false req.metadata)
      d d' r h v

any-find :
    (p : SourceRow → Bool) (ss : List SourceRow) (s : SourceRow)
    → find p ss ≡ some s
    → any p ss ≡ true
any-find p [] s h = cc
any-find p (x ∷ xs) s h = ground (arith, any-find p xs s)

insert_source-used :
    (tenant_id : ℕ) (actor_id : Text) (tags : List Text) (kind content : Text)
    (custom_id : Option Text) (pending : Bool) (metadata : Text) (d : Db)
    → any (same_custom_id tenant_id custom_id) d.sources ≡ true
    → insert_source tenant_id actor_id tags kind content custom_id pending metadata d ≡ ok (none, d)
unfolding insert_source
insert_source-used tenant_id actor_id tags kind content custom_id pending metadata d used = rw used

source_id_found :
    (tenant_id : ℕ) (c : Text) (d : Db) (s : SourceRow)
    → find (same_custom_id tenant_id (some c)) d.sources ≡ some s
    → source_id_by_custom_id tenant_id c d ≡ ok (some s.id, d)
unfolding source_id_by_custom_id
source_id_found tenant_id c d s seen = rw (seen, source_id_by_custom_id)

bind_ok :
    {A B : Type 0} (m : Tx A) (f : A → Tx B) (d : Db) {a : A} {d' : Db}
    → m d ≡ ok (a, d')
    → (m >>= f) d ≡ f a d'
bind_ok m f d e = ap (λ o. elim o [ ok (a, d') ↦ f a d' | err e ↦ err e ]) e

-- A write whose custom id the tenant has used returns that source's id, marked as skipped, and
-- leaves the database as it was.
pub persist_repeat :
    (uuids : Uuids) (to_lowercase : Text → Text) (synonyms : List (Text × Text))
    (req : WriteRequest) (d : Db) (c : Text) (s : SourceRow)
    → req.custom_id ≡ some c
    → find (same_custom_id req.tenant_id (some c)) d.sources ≡ some s
    → persist uuids to_lowercase synonyms req d
      ≡ ok (record (empty_result s.id) { idempotent_skip = true }, d)
unfolding persist
persist_repeat uuids to_lowercase synonyms req d c s custom seen =
    let used : any (same_custom_id req.tenant_id req.custom_id) d.sources ≡ true =
      ap (λ o. any (same_custom_id req.tenant_id o) d.sources) custom
      ∙ any-find (same_custom_id req.tenant_id (some c)) d.sources s seen in
    let named : source_id_by_custom_id req.tenant_id (text_or_empty req.custom_id) d
        ≡ ok (some s.id, d) =
      ap (λ o. source_id_by_custom_id req.tenant_id (text_or_empty o) d) custom
      ∙ source_id_found req.tenant_id c d s seen in
    bind_ok
      (insert_source req.tenant_id req.actor_id req.container_tags req.kind req.content
        req.custom_id false req.metadata)
      _ d
      (insert_source-used req.tenant_id req.actor_id req.container_tags req.kind req.content
        req.custom_id false req.metadata d used)
    ∙ bind_ok (source_id_by_custom_id req.tenant_id (text_or_empty req.custom_id)) _ d named
