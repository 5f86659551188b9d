-- ===== src/Store/Versions/Keeps.antt =====
-- Edits and forgetting keep the table of memories valid.
use pg_mnestic.Prelude.{
  ℕ, ◌≡◌, refl, Bool, true, false, ◌&&◌, List, Option, ◌==◌, if◌then◌else◌, arith, Bool-cases,
  Option-cases, inl, inr, subst, find,
}
use pg_mnestic.Text.{Text}
use pg_mnestic.Core.Types.{Time}
use pg_mnestic.Store.Db.{MemoryRow, Db, ok, ok-injective_db, Result-cases}
use pg_mnestic.Store.Preserve.{Keeps}
use pg_mnestic.Store.Memories.{tombstone, is_guarded, passes_checks, insert_row}
use pg_mnestic.Store.Memories.Invariant.{
  IsValid, Weakens, Weakens-refl, Weakens-unguarded, Weakened-IsWellFormed, map-Weakened,
  tombstone-Weakens, insert_row-Keeps_at,
}
use pg_mnestic.Store.Versions.{
  Edit, MemoryVersion, is_editable, version_row, replaced, replace_prior, new_version,
  supersede_with_new_version, from_source, forget_source_memories,
}

replaced-Weakens :
    (tenant_id prior_id : ℕ) (now : Time) (r : MemoryRow)
    → Weakens r (replaced tenant_id prior_id now r)
unfolding replaced is_guarded passes_checks
replaced-Weakens tenant_id prior_id now r =
    elim (Bool-cases (r.tenant_id == tenant_id && r.id == prior_id)) [
      | inl e ↦ rw e (Weakens-unguarded r _ refl (λ h. h) refl)
      | inr e ↦ rw e (Weakens-refl r)
    ]

replace_prior-Keeps : (tenant_id prior_id : ℕ) → Keeps IsValid (replace_prior tenant_id prior_id)
unfolding replace_prior
replace_prior-Keeps tenant_id prior_id d d' u h v = subst IsValid (ok-injective_db h) (
    Weakened-IsWellFormed d.next_id d.memories _
      (map-Weakened _ (replaced-Weakens tenant_id prior_id d.now) d.memories) v)

-- An edit that commits keeps the table valid.
pub supersede_with_new_version-IsValid :
    (tenant_id : ℕ) (actor_id : Text) (prior_id : ℕ) (edit : Edit) (d d' : Db)
    (o : Option MemoryVersion)
    → supersede_with_new_version tenant_id actor_id prior_id edit d ≡ ok (o, d')
    → IsValid d
    → IsValid d'
unfolding supersede_with_new_version new_version version_row replace_prior
supersede_with_new_version-IsValid tenant_id actor_id prior_id edit d d' o h v =
    elim (Option-cases (find (is_editable tenant_id actor_id prior_id) d.memories)) [
      | inl e ↦ let same : d ≡ d' = ground arith in subst IsValid same v
      | inr (prior, e) ↦
          elim (Result-cases
            (insert_row (version_row tenant_id actor_id prior_id edit prior d.next_id d.now) d)) [
              | inr (x, g) ↦ ground arith
              | inl ((id, mid), g) ↦
                  let inserted =
                    insert_row-Keeps_at
                      (version_row tenant_id actor_id prior_id edit prior d.next_id d.now) d mid id
                      refl g v in
                  let last : replace_prior tenant_id prior_id mid ≡ ok (tt, d') = ground arith in
                  replace_prior-Keeps tenant_id prior_id mid d' tt last inserted
            ]
    ]

-- Forgetting a source's memories keeps the table valid.
pub forget_source_memories-IsValid :
    (tenant_id : ℕ) (actor_id custom_id : Text) (reason : Option Text) (d d' : Db) (ids : List ℕ)
    → forget_source_memories tenant_id actor_id custom_id reason d ≡ ok (ids, d')
    → IsValid d
    → IsValid d'
unfolding forget_source_memories
forget_source_memories-IsValid tenant_id actor_id custom_id reason d d' ids h v =
    subst IsValid (ok-injective_db h) (
      Weakened-IsWellFormed d.next_id d.memories _
        (map-Weakened _ (λ r. either (from_source tenant_id actor_id custom_id d.sources r) r)
          d.memories)
        v)
  where
    either : (b : Bool) (r : MemoryRow) → Weakens r (if b then tombstone reason d.now r else r)
    either true r = tombstone-Weakens reason d.now r
    either false r = Weakens-refl r
