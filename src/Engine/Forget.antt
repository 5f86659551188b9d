-- ===== src/Engine/Forget.antt =====
-- `forget`, `forget_by_id` and `update_memory`: one statement and the refresh of the profile, in one
-- transaction.
pub mod Keeps
pub mod Content
pub mod Forgotten
pub mod Named
use pg_mnestic.Prelude.{
  ℕ, Bool, true, false, not, List, [], ◌∷◌, Option, none, some, ltb, if◌then◌else◌, is_empty,
  get_last?,
}
use pg_mnestic.Text.{Text}
use pg_mnestic.Store.Db.{Db, Tx, ◌>>=◌, ◌>>◌, return, lift}
use pg_mnestic.Store.Memories.{forget_memory_by_id}
use pg_mnestic.Store.Versions.{
  Edit, MemoryVersion, supersede_with_new_version, forget_source_memories,
}
use pg_mnestic.Store.Profile.{refresh_profile}
use pg_mnestic.Engine.Write.{static_confidence, static_facts_cap, dynamic_ctx_cap}
use pg_mnestic.Engine.Persist.{check_embedding_dim}

-- The refresh, where something changed.
unfoldable pub refresh_if : Bool → ℕ → Text → Tx (Unit {0})
refresh_if true tenant_id actor_id =
    refresh_profile tenant_id actor_id static_confidence static_facts_cap dynamic_ctx_cap
refresh_if false tenant_id actor_id = return tt

-- `forget`.
unfoldable pub forget : ℕ → Text → Text → Option Text → Tx (List ℕ)
unfolding refresh_if
forget tenant_id actor_id custom_id reason = do
  ids ← forget_source_memories tenant_id actor_id custom_id reason
  refresh_if (not (is_empty ids)) tenant_id actor_id
  return ids

-- `forget_by_id`.
unfoldable pub forget_by_id : ℕ → Text → ℕ → Option Text → Tx Bool
unfolding refresh_if
forget_by_id tenant_id actor_id id reason = do
  n ← forget_memory_by_id tenant_id actor_id id reason
  refresh_if (ltb 0 n) tenant_id actor_id
  return (ltb 0 n)

abbrev pub is_made : Option MemoryVersion → Bool
is_made none = false
is_made (some v) = true

-- `pop().unwrap_or_default()` of the embedder's answer.
abbrev pub last_or_empty : List (List ℕ) → List ℕ
last_or_empty vectors = elim (get_last? vectors) [ none ↦ [] | some v ↦ v ]

-- `update_memory`, for the embedder's answer; `edit` has the rest of the request.
unfoldable pub update_memory : ℕ → Text → ℕ → List (List ℕ) → Edit → Tx (Option MemoryVersion)
unfolding refresh_if check_embedding_dim
update_memory tenant_id actor_id prior_id vectors edit = do
  _ ← lift (check_embedding_dim (last_or_empty vectors))
  updated ←
      supersede_with_new_version tenant_id actor_id prior_id
        (record edit { embedding = some (last_or_empty vectors) })
  refresh_if (is_made updated) tenant_id actor_id
  return updated
