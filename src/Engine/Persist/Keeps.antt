-- ===== src/Engine/Persist/Keeps.antt =====
-- A write as a whole keeps what each of its statements keeps.
use pg_mnestic.Prelude.{ℕ, suc, ◌≡◌, false, List, [], ◌∷◌, Option, none, some, arith, subst}
use pg_mnestic.Text.{Text}
use pg_mnestic.Core.Types.{Candidate}
use pg_mnestic.Store.Db.{Db}
use pg_mnestic.Store.Preserve.{Keeps, Statements, >>=-Keeps, return-Keeps, lift-Keeps}
use pg_mnestic.Store.Memories.{Uuids}
use pg_mnestic.Store.Sources.{insert_source, source_id_by_custom_id}
use pg_mnestic.Engine.Write.{AddResult, empty_result}
use pg_mnestic.Engine.Write.Keeps.{resolve_write-Keeps}
use pg_mnestic.Engine.Persist.{
  WriteRequest, persist_each, persist_candidates, persist, check_embedding_dim, to_write,
  text_or_empty,
}

pub source_id-Keeps :
    (P : Db → Type 0) (tenant_id : ℕ) (c : Text) → Keeps P (source_id_by_custom_id tenant_id c)
unfolding source_id_by_custom_id
source_id-Keeps P tenant_id c d d' u h v = let same : d ≡ d' = ground arith in subst P same v

module _ (P : Db → Type 0) (uuids : Uuids) (to_lowercase : Text → Text)
    (synonyms : List (Text × Text)) (req : WriteRequest)
    (statements : Statements P req.tenant_id) where
  persist_each-Keeps :
      (source_id index : ℕ) (cs : List Candidate) (vs : List (List ℕ)) (result : AddResult)
      → Keeps P (persist_each uuids to_lowercase synonyms req source_id index cs vs result)
  unfolding persist_each to_write
  persist_each-Keeps source_id index [] vs result = return-Keeps P result
  persist_each-Keeps source_id index (c ∷ cs) [] result = return-Keeps P result
  persist_each-Keeps source_id index (c ∷ cs) (v ∷ vs) result =
      >>=-Keeps P _ _ (lift-Keeps P (check_embedding_dim v)) λ _.
        >>=-Keeps P _ _
          (resolve_write-Keeps P (to_write uuids to_lowercase synonyms req source_id index c v)
            statements uuids result)
          λ r. persist_each-Keeps source_id (suc index) cs vs r

  pub persist_candidates-Keeps :
      (source_id : ℕ) → Keeps P (persist_candidates uuids to_lowercase synonyms req source_id)
  unfolding persist_candidates
  persist_candidates-Keeps source_id =
      >>=-Keeps P _ _
        (persist_each-Keeps source_id 0 req.candidates req.embeddings (empty_result source_id))
        λ r. >>=-Keeps P _ _ (statements.on_refresh req.actor_id _ _ _) λ _. return-Keeps P r

  pub persist-Keeps :
      (inserted : (custom_id : Option Text)
        → Keeps P (
            insert_source req.tenant_id req.actor_id req.container_tags req.kind req.content
              custom_id false req.metadata))
      → Keeps P (persist uuids to_lowercase synonyms req)
  unfolding persist
  persist-Keeps inserted = >>=-Keeps P _ _ (inserted req.custom_id) (elim [
    | some source_id ↦ persist_candidates-Keeps source_id
    | none ↦
        >>=-Keeps P _ _ (source_id-Keeps P req.tenant_id (text_or_empty req.custom_id))
          λ e. return-Keeps P _
  ])
