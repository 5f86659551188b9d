-- ===== src/Engine/Write/Keeps.antt =====
-- The write of one candidate keeps what each of its statements keeps.
use pg_mnestic.Prelude.{
  ℕ, ◌≡◌, refl, Bool, true, false, List, [], ◌∷◌, ◌++◌, Option, none, some, arith, subst,
  if◌then◌else◌, Bool-cases, inl, inr,
}
use pg_mnestic.Text.{Text}
use pg_mnestic.Core.Types.{Time, ExistingMatch, ResolveAction, dedup, supersede, insert}
use pg_mnestic.Core.Resolve.{decide}
use pg_mnestic.Store.Db.{Db}
use pg_mnestic.Store.Memories.{Uuids}
use pg_mnestic.Store.Preserve.{Keeps, Statements, >>=-Keeps, return-Keeps, lift-Keeps, get_db-Keeps}
use pg_mnestic.Engine.Write.{
  MemoryWrite, AddResult, write_insert, write_row, close_priors, supersede_newer, record_history,
  record_keyed, apply_supersede, apply_action, find_matches, match_keyed, resolve_write,
  interval_from, newest_start, same_time, chosen_priors, is_newer, parse_id, count_is_one,
  dedup_confidence_bump,
}

module _ (P : Db → Type 0) (w : MemoryWrite) (statements : Statements P w.tenant_id) where
  write_insert-Keeps :
      (latest : Bool) (prior : Option ℕ) (from : Time) (until : Option Time)
      → Keeps P (write_insert w latest prior from until)
  unfolding write_insert write_row
  write_insert-Keeps latest prior from until =
      statements.on_insert (write_row w latest prior from until) refl

  record_keyed-Keeps :
      (s a : Option Text) (result : AddResult) → Keeps P (record_keyed w s a result)
  unfolding record_keyed
  record_keyed-Keeps none a result = return-Keeps P result
  record_keyed-Keeps (some s) none result = return-Keeps P result
  record_keyed-Keeps (some s) (some a) result =
      >>=-Keeps P _ _ (get_db-Keeps P)
        λ d. >>=-Keeps P _ _ (write_insert-Keeps false none _ _) λ id. return-Keeps P _

  module _ (uuids : Uuids) where
    close_priors-Keeps :
        (at : Time) (newest : Option Time) (ps : List ExistingMatch) (closed : List ℕ)
        (prior : Option ℕ)
        → Keeps P (close_priors uuids w.tenant_id at newest ps closed prior)
    unfolding close_priors
    close_priors-Keeps at newest [] closed prior = return-Keeps P (closed, prior)
    close_priors-Keeps at newest (p ∷ ps) closed prior =
        >>=-Keeps P _ _ (lift-Keeps P (parse_id uuids p.id)) λ pid.
          >>=-Keeps P _ _ (statements.on_close pid at) λ n.
            >>=-Keeps P _ _ (lift-Keeps P (count_is_one n)) λ _.
              close_priors-Keeps at newest ps (closed ++ pid ∷ [])
                (if same_time p.valid_from newest then some pid else prior)

    supersede_newer-Keeps :
        (ps : List ExistingMatch) (result : AddResult) → Keeps P (supersede_newer uuids w ps result)
    unfolding supersede_newer
    supersede_newer-Keeps ps result =
        >>=-Keeps P _ _ (close_priors-Keeps _ _ ps _ none)
          λ r. >>=-Keeps P _ _ (write_insert-Keeps true r.1 _ _) λ id. return-Keeps P _

    apply_action-Keeps :
        (ms : List ExistingMatch) (act : ResolveAction) (result : AddResult)
        → Keeps P (apply_action uuids w ms act result)
    unfolding apply_action apply_supersede record_history
    apply_action-Keeps ms (dedup id) result =
        >>=-Keeps P _ _ (lift-Keeps P (parse_id uuids id))
          λ n. >>=-Keeps P _ _ (statements.on_bump n dedup_confidence_bump) λ _. return-Keeps P _
    apply_action-Keeps ms (supersede prior_ids) result =
        elim (Bool-cases (is_newer (interval_from w) (newest_start (chosen_priors prior_ids ms)))) [
          | inl e ↦ rw e (supersede_newer-Keeps (chosen_priors prior_ids ms) result)
          | inr e ↦ rw e (record_keyed-Keeps w.subject w.attribute result)
        ]
    apply_action-Keeps ms insert result =
        >>=-Keeps P _ _ (write_insert-Keeps true none _ _) λ id. return-Keeps P _

    match_keyed-Keeps : (s a : Option Text) → Keeps P (match_keyed uuids w s a)
    unfolding match_keyed
    match_keyed-Keeps none a d d' ms h v = let same : d ≡ d' = ground arith in subst P same v
    match_keyed-Keeps (some s) none d d' ms h v = let same : d ≡ d' = ground arith in subst P same v
    match_keyed-Keeps (some s) (some a) d d' ms h v =
        let same : d ≡ d' = ground arith in subst P same v

    pub resolve_write-Keeps : (result : AddResult) → Keeps P (resolve_write uuids w result)
    unfolding resolve_write find_matches
    resolve_write-Keeps result =
        >>=-Keeps P _ _ (match_keyed-Keeps w.subject w.attribute)
          λ ms. apply_action-Keeps ms (decide w.cand ms) result
