-- ===== src/Store/Isolation/Edits.antt =====
-- The statements on sources, and those of edits and forgetting, leave the other tenants' rows as they
-- are.
use pg_mnestic.Prelude.{
  ℕ, ◌≡◌, refl, sym, ◌∙◌, ap, Bool, ◌&&◌, ◌||◌, not, List, map, Option, if◌then◌else◌, filter, find,
  any, ◌==◌, arith, Bool-cases, Option-cases, inl, inr,
}
use pg_mnestic.Text.{Text}
use pg_mnestic.Core.Types.{Time}
use pg_mnestic.Store.Db.{EdgeRow, MemoryRow, Db, ok, Result-cases}
use pg_mnestic.Store.Memories.{
  insert_row, insert_relation, same_edge, forgets, tombstone, forget_memory_by_id,
}
use pg_mnestic.Store.Sources.{
  PendingSource, claim_pending_source, oldest, stamp, is_offered, insert_source, same_custom_id,
  mark_source_extracted, is_held, extracted,
}
use pg_mnestic.Store.Versions.{
  Edit, MemoryVersion, is_editable, version_row, replaced, replace_prior, new_version,
  supersede_with_new_version, from_source, touches, forget_source_memories,
}
use pg_mnestic.Store.Isolation.{
  other_memory, other_source, other_edge, other_profile, outside, outside_same, outside_memories,
  HasOutside, Rows, filter-map_outside, filter-filter_outside,
}
use pg_mnestic.Store.Preserve.{Changes}
use pg_mnestic.Store.Isolation.Writes.{insert_row-outside}

module _ (tenant_id : ℕ) where
  pub insert_source-outside :
      (actor_id : Text) (tags : List Text) (kind content : Text) (custom_id : Option Text)
      (pending : Bool) (metadata : Text) (d d' : Db) (o : Option ℕ)
      → insert_source tenant_id actor_id tags kind content custom_id pending metadata d ≡ ok (o, d')
      → outside tenant_id d' ≡ outside tenant_id d
  unfolding insert_source
  insert_source-outside actor_id tags kind content custom_id pending metadata d d' o h =
      let memories : d'.memories ≡ d.memories = ground arith in
      let edges : d'.edges ≡ d.edges = ground arith in
      let profiles : d'.profiles ≡ d.profiles = ground arith in
      outside_same tenant_id d d' (ground arith) (ground arith)
        (ap (filter (other_memory tenant_id)) memories)
        (elim (Bool-cases (any (same_custom_id tenant_id custom_id) d.sources)) [
          | inl e ↦ ground arith
          | inr e ↦ ground arith
        ])
        (ap (filter (other_edge tenant_id)) edges) (ap (filter (other_profile tenant_id)) profiles)

  pub mark_source_extracted-outside :
      (id : ℕ) (at : Time) (d d' : Db) (b : Bool)
      → mark_source_extracted tenant_id id at d ≡ ok (b, d')
      → outside tenant_id d' ≡ outside tenant_id d
  unfolding mark_source_extracted
  mark_source_extracted-outside id at d d' b h =
      let memories : d'.memories ≡ d.memories = ground arith in
      let edges : d'.edges ≡ d.edges = ground arith in
      let profiles : d'.profiles ≡ d.profiles = ground arith in
      let sources : d'.sources
          ≡ map (λ s. if is_held tenant_id id at s then extracted s else s) d.sources =
        ground arith in
      outside_same tenant_id d d' (ground arith) (ground arith)
        (ap (filter (other_memory tenant_id)) memories)
        (ap (filter (other_source tenant_id)) sources
          ∙ filter-map_outside (other_source tenant_id) _ d.sources (λ s e. ground arith)
              (λ s e. ground arith))
        (ap (filter (other_edge tenant_id)) edges) (ap (filter (other_profile tenant_id)) profiles)

  pub forget_memory_by_id-outside :
      (actor_id : Text) (id : ℕ) (reason : Option Text) (d d' : Db) (n : ℕ)
      → forget_memory_by_id tenant_id actor_id id reason d ≡ ok (n, d')
      → outside tenant_id d' ≡ outside tenant_id d
  unfolding forget_memory_by_id forgets tombstone
  forget_memory_by_id-outside actor_id id reason d d' n h =
      let memories : d'.memories
          ≡ map (λ r. if forgets tenant_id actor_id id r then tombstone reason d.now r else r)
              d.memories =
        ground arith in
      let sources : d'.sources ≡ d.sources = ground arith in
      let edges : d'.edges
          ≡ filter (λ e. not (e.tenant_id == tenant_id && (e.from_id == id || e.to_id == id)))
              d.edges =
        ground arith in
      let profiles : d'.profiles ≡ d.profiles = ground arith in
      outside_same tenant_id d d' (ground arith) (ground arith)
        (ap (filter (other_memory tenant_id)) memories
          ∙ filter-map_outside (other_memory tenant_id) _ d.memories (λ s e. ground arith)
              (λ s e. ground arith))
        (ap (filter (other_source tenant_id)) sources)
        (ap (filter (other_edge tenant_id)) edges
          ∙ filter-filter_outside (other_edge tenant_id) _ d.edges (λ s e. ground arith))
        (ap (filter (other_profile tenant_id)) profiles)

  pub forget_source_memories-outside :
      (actor_id custom_id : Text) (reason : Option Text) (d d' : Db) (ids : List ℕ)
      → forget_source_memories tenant_id actor_id custom_id reason d ≡ ok (ids, d')
      → outside tenant_id d' ≡ outside tenant_id d
  unfolding forget_source_memories from_source tombstone
  forget_source_memories-outside actor_id custom_id reason d d' ids h =
      let gone = from_source tenant_id actor_id custom_id d.sources in
      let memories : d'.memories
          ≡ map (λ r. if gone r then tombstone reason d.now r else r) d.memories =
        ground arith in
      let sources : d'.sources ≡ d.sources = ground arith in
      let edges : d'.edges
          ≡ filter
              (λ e.
                not (touches tenant_id (map (λ (r : MemoryRow). r.id) (filter gone d.memories)) e))
              d.edges =
        ground arith in
      let profiles : d'.profiles ≡ d.profiles = ground arith in
      outside_same tenant_id d d' (ground arith) (ground arith)
        (ap (filter (other_memory tenant_id)) memories
          ∙ filter-map_outside (other_memory tenant_id) _ d.memories (λ s e. ground arith)
              (λ s e. ground arith))
        (ap (filter (other_source tenant_id)) sources)
        (ap (filter (other_edge tenant_id)) edges
          ∙ filter-filter_outside (other_edge tenant_id) _ d.edges (λ s e. ground arith))
        (ap (filter (other_profile tenant_id)) profiles)

  replace_prior-outside :
      (prior_id : ℕ) (d d' : Db) (u : Unit {0})
      → replace_prior tenant_id prior_id d ≡ ok (u, d')
      → outside tenant_id d' ≡ outside tenant_id d
  unfolding replace_prior replaced
  replace_prior-outside prior_id d d' u h =
      let memories : d'.memories ≡ map (replaced tenant_id prior_id d.now) d.memories =
        ground arith in
      outside_memories tenant_id d d' (ground arith) (ground arith) (ground arith) (ground arith)
        (ground arith)
        (ap (filter (other_memory tenant_id)) memories
          ∙ filter-map_outside (other_memory tenant_id) _ d.memories (λ s e. ground arith)
              (λ s e. ground arith))

  pub supersede_with_new_version-outside :
      (actor_id : Text) (prior_id : ℕ) (edit : Edit) (d d' : Db) (o : Option MemoryVersion)
      → supersede_with_new_version tenant_id actor_id prior_id edit d ≡ ok (o, d')
      → outside tenant_id d' ≡ outside tenant_id d
  unfolding supersede_with_new_version new_version version_row replace_prior
  supersede_with_new_version-outside actor_id prior_id edit d d' o h =
      elim (Option-cases (find (is_editable tenant_id actor_id prior_id) d.memories)) [
        | inl e ↦ let same : d ≡ d' = ground arith in ap (outside tenant_id) (sym same)
        | inr (prior, e) ↦
            elim (Result-cases
              (insert_row (version_row tenant_id actor_id prior_id edit prior d.next_id d.now) d)) [
                | inr (x, g) ↦ ground arith
                | inl ((id, mid), g) ↦
                    let last : replace_prior tenant_id prior_id mid ≡ ok (tt, d') = ground arith in
                    replace_prior-outside prior_id mid d' tt last
                    ∙ insert_row-outside tenant_id
                        (version_row tenant_id actor_id prior_id edit prior d.next_id d.now) d mid
                        id refl g
              ]
      ]

  pub claim_pending_source-outside :
      (lease : ℕ) (locked : ℕ → Bool) (d d' : Db) (o : Option PendingSource)
      → claim_pending_source tenant_id lease locked d ≡ ok (o, d')
      → outside tenant_id d' ≡ outside tenant_id d
  unfolding claim_pending_source
  claim_pending_source-outside lease locked d d' o h =
      elim (Option-cases (oldest (filter (is_offered tenant_id d.now lease locked) d.sources))) [
        | inl e ↦ let same : d ≡ d' = ground arith in ap (outside tenant_id) (sym same)
        | inr (s, e) ↦
            let memories : d'.memories ≡ d.memories = ground arith in
            let edges : d'.edges ≡ d.edges = ground arith in
            let profiles : d'.profiles ≡ d.profiles = ground arith in
            let sources : d'.sources ≡ map (stamp tenant_id s.id d.now) d.sources = ground arith in
            outside_same tenant_id d d' (ground arith) (ground arith)
              (ap (filter (other_memory tenant_id)) memories)
              (ap (filter (other_source tenant_id)) sources
                ∙ filter-map_outside (other_source tenant_id) _ d.sources (λ s e. ground arith)
                    (λ s e. ground arith))
              (ap (filter (other_edge tenant_id)) edges)
              (ap (filter (other_profile tenant_id)) profiles)
      ]

  pub insert_relation-outside :
      (actor_id : Text) (from_id to_id : ℕ) (relation : Text) (d d' : Db) (u : Unit {0})
      → insert_relation tenant_id actor_id from_id to_id relation d ≡ ok (u, d')
      → outside tenant_id d' ≡ outside tenant_id d
  unfolding insert_relation
  insert_relation-outside actor_id from_id to_id relation d d' u h =
      let memories : d'.memories ≡ d.memories = ground arith in
      let sources : d'.sources ≡ d.sources = ground arith in
      let profiles : d'.profiles ≡ d.profiles = ground arith in
      let e : EdgeRow = record {
        tenant_id = tenant_id;
        actor_id = actor_id;
        from_id = from_id;
        to_id = to_id;
        relation = relation;
      } in
      outside_same tenant_id d d' (ground arith) (ground arith)
        (ap (filter (other_memory tenant_id)) memories)
        (ap (filter (other_source tenant_id)) sources)
        (elim (Bool-cases (from_id == to_id)) [
          | inl a ↦ ground arith
          | inr a ↦ (elim (Bool-cases (any (same_edge e) d.edges)) [
            | inl b ↦ ground arith
            | inr b ↦ ground arith
          ])
        ])
        (ap (filter (other_profile tenant_id)) profiles)

  pub Outside-Changes : (v : Rows) → Changes (HasOutside tenant_id v) tenant_id
  Outside-Changes v = record {
    on_source = λ actor_id tags kind content custom_id pending metadata d d' o h e.
        insert_source-outside actor_id tags kind content custom_id pending metadata d d' o h ∙ e;
    on_claim = λ lease locked d d' o h e. claim_pending_source-outside lease locked d d' o h ∙ e;
    on_extracted = λ id at d d' b h e. mark_source_extracted-outside id at d d' b h ∙ e;
    on_forget = λ actor_id id reason d d' n h e.
        forget_memory_by_id-outside actor_id id reason d d' n h ∙ e;
    on_forget_source = λ actor_id custom_id reason d d' ids h e.
        forget_source_memories-outside actor_id custom_id reason d d' ids h ∙ e;
    on_version = λ actor_id prior_id edit d d' o h e.
        supersede_with_new_version-outside actor_id prior_id edit d d' o h ∙ e;
    on_relation = λ actor_id from_id to_id relation d d' u h e.
        insert_relation-outside actor_id from_id to_id relation d d' u h ∙ e;
  }
