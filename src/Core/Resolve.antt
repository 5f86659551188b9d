-- ===== src/Core/Resolve.antt =====
-- crates/mnestic-core/src/resolve.rs: `decide`.
pub mod Laws
use pg_mnestic.Prelude.{
  Bool, not, List, [], ◌∷◌, map, Option, none, some, if◌then◌else◌, filter, find,
}
use pg_mnestic.Text.{Text, opt_text_eq}
use pg_mnestic.Core.Types.{Candidate, ExistingMatch, ResolveAction, dedup, supersede, insert}

-- The first match with the candidate's value, if the candidate has one.
unfoldable pub duplicate_of : Option Text → List ExistingMatch → Option ExistingMatch
duplicate_of none matches = none
duplicate_of (some cv) matches = find (λ m. opt_text_eq m.value (some cv)) matches

-- The ids of the matches with another value.
unfoldable pub prior_ids : Option Text → List ExistingMatch → List Text
prior_ids value matches = map (λ m. m.id) (filter (λ m. not (opt_text_eq m.value value)) matches)

-- `if !prior_ids.is_empty() { return Supersede }`, then `Insert`.
unfoldable pub supersede_or_insert : List Text → ResolveAction
supersede_or_insert [] = insert
supersede_or_insert (id ∷ ids) = supersede (id ∷ ids)

unfoldable pub decide : Candidate → List ExistingMatch → ResolveAction
unfolding duplicate_of prior_ids supersede_or_insert
decide candidate matches = elim (duplicate_of candidate.value matches) [
  | some m ↦ dedup m.id
  | none ↦
      if candidate.single_valued
      then supersede_or_insert (prior_ids candidate.value matches)
      else insert
]
