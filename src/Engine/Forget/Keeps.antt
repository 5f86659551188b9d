-- ===== src/Engine/Forget/Keeps.antt =====
-- Forgetting and edits, with the refresh, keep what each of their statements keeps.
use pg_mnestic.Prelude.{
  ℕ, Bool, true, false, not, List, [], ◌∷◌, Option, none, some, ltb, is_empty, ◌==◌, ◌++◌,
  if◌then◌else◌, Bool-cases, inl, inr,
}
use pg_mnestic.Text.{Text}
use pg_mnestic.Core.Types.{Candidate, ExistingMatch}
use pg_mnestic.Store.Db.{Db}
use pg_mnestic.Store.Memories.{Uuids}
use pg_mnestic.Store.Preserve.{
  Keeps, Statements, Changes, >>=-Keeps, return-Keeps, lift-Keeps, get_db-Keeps,
}
use pg_mnestic.Store.Versions.{Edit}
use pg_mnestic.Engine.Write.{parse_id}
use pg_mnestic.Engine.Persist.{check_embedding_dim}
use pg_mnestic.Engine.Forget.{
  refresh_if, forget, forget_by_id, update_memory, last_or_empty, is_made,
}
use pg_mnestic.Engine.Forget.Content.{
  value_matches, forget_matches, forget_keyed, forget_each, forget_by_content,
}

module _ (P : Db → Type 0) (tenant_id : ℕ) (statements : Statements P tenant_id)
    (changes : Changes P tenant_id) (actor_id : Text) where
  refresh_if-Keeps : (b : Bool) → Keeps P (refresh_if b tenant_id actor_id)
  unfolding refresh_if
  refresh_if-Keeps true = statements.on_refresh actor_id _ _ _
  refresh_if-Keeps false = return-Keeps P tt

  pub forget-Keeps :
      (custom_id : Text) (reason : Option Text)
      → Keeps P (forget tenant_id actor_id custom_id reason)
  unfolding forget
  forget-Keeps custom_id reason =
      >>=-Keeps P _ _ (changes.on_forget_source actor_id custom_id reason)
        λ ids. >>=-Keeps P _ _ (refresh_if-Keeps (not (is_empty ids))) λ _. return-Keeps P ids

  pub forget_by_id-Keeps :
      (id : ℕ) (reason : Option Text) → Keeps P (forget_by_id tenant_id actor_id id reason)
  unfolding forget_by_id
  forget_by_id-Keeps id reason =
      >>=-Keeps P _ _ (changes.on_forget actor_id id reason)
        λ n. >>=-Keeps P _ _ (refresh_if-Keeps (ltb 0 n)) λ _. return-Keeps P (ltb 0 n)

  pub update_memory-Keeps :
      (id : ℕ) (vectors : List (List ℕ)) (edit : Edit)
      → Keeps P (update_memory tenant_id actor_id id vectors edit)
  unfolding update_memory
  update_memory-Keeps id vectors edit =
      >>=-Keeps P _ _ (lift-Keeps P (check_embedding_dim (last_or_empty vectors))) λ _.
        >>=-Keeps P _ _
          (changes.on_version actor_id id
            (record edit { embedding = some (last_or_empty vectors) }))
          λ updated.
            >>=-Keeps P _ _ (refresh_if-Keeps (is_made updated)) λ _. return-Keeps P updated

  module _ (uuids : Uuids) where
    forget_matches-Keeps :
        (want : Option Text) (ms : List ExistingMatch) (forgotten : List ℕ)
        → Keeps P (forget_matches uuids tenant_id actor_id want ms forgotten)
    unfolding forget_matches
    forget_matches-Keeps want [] forgotten = return-Keeps P forgotten
    forget_matches-Keeps want (m ∷ ms) forgotten = elim (Bool-cases (value_matches want m.value)) [
      | inr e ↦ rw e (forget_matches-Keeps want ms forgotten)
      | inl e ↦ rw e (
          >>=-Keeps P _ _ (lift-Keeps P (parse_id uuids m.id)) λ id.
            >>=-Keeps P _ _ (changes.on_forget actor_id id _) λ n.
              forget_matches-Keeps want ms (if n == 1 then forgotten ++ id ∷ [] else forgotten))
    ]

    forget_keyed-Keeps :
        (s a want : Option Text) (forgotten : List ℕ)
        → Keeps P (forget_keyed uuids tenant_id actor_id s a want forgotten)
    unfolding forget_keyed
    forget_keyed-Keeps none a want forgotten = return-Keeps P forgotten
    forget_keyed-Keeps (some s) none want forgotten = return-Keeps P forgotten
    forget_keyed-Keeps (some s) (some a) want forgotten =
        >>=-Keeps P _ _ (get_db-Keeps P) λ d. forget_matches-Keeps want _ forgotten

    module _ (to_lowercase : Text → Text) (synonyms : List (Text × Text)) where
      forget_each-Keeps :
          (cs : List Candidate) (forgotten : List ℕ)
          → Keeps P (forget_each uuids tenant_id actor_id to_lowercase synonyms cs forgotten)
      unfolding forget_each
      forget_each-Keeps [] forgotten = return-Keeps P forgotten
      forget_each-Keeps (c ∷ cs) forgotten =
          >>=-Keeps P _ _ (forget_keyed-Keeps _ _ _ forgotten) λ more. forget_each-Keeps cs more

      pub forget_by_content-Keeps :
          (cs : List Candidate)
          → Keeps P (forget_by_content uuids tenant_id actor_id to_lowercase synonyms cs)
      unfolding forget_by_content
      forget_by_content-Keeps cs = >>=-Keeps P _ _ (forget_each-Keeps cs []) λ forgotten.
          >>=-Keeps P _ _ (refresh_if-Keeps (not (is_empty forgotten)))
            λ _. return-Keeps P forgotten
