-- ===== src/Engine/Rerank.antt =====
-- The last stage of `recall_scoped`: what is done with the hits that the store returns.
pub mod Laws
use pg_mnestic.Prelude.{
  ℕ, zero, suc, max, Bool, true, false, ◌&&◌, not, List, [], ◌∷◌, ◌++◌, Option, none, some, ltb,
  ◌==◌, if◌then◌else◌, any, take, get_elem?,
}

-- `RERANK_POOL`.
abbrev pub rerank_pool : ℕ
rerank_pool = 50

-- How many hits are asked of the store; `limit` is the request's after `max(0)`.
unfoldable pub pool_size : Bool → Bool → ℕ → ℕ
pool_size has_reranker rerank limit =
    if has_reranker && rerank then max limit rerank_pool else limit

module _ {ℓ} {A : Type ℓ} where
  -- `for (i, hit) in hits.iter().enumerate()`: the hits from position `i` on that are not seen.
  unfoldable pub unseen : ℕ → List ℕ → List A → List A
  unseen i seen [] = []
  unseen i seen (h ∷ hits) =
      let rest = unseen (suc i) seen hits in if any (λ j. j == i) seen then rest else h ∷ rest

  -- Take `hits[index]`, where it is within bounds and not seen before.
  unfoldable pub reorder : List A → List ℕ → List ℕ → List A
  unfolding unseen
  reorder hits seen [] = unseen 0 seen hits
  reorder hits seen (index ∷ scored) =
      let skipped = reorder hits seen scored in
      let taken = reorder hits (index ∷ seen) scored in
      elim (get_elem? hits index) [
        | none ↦ skipped
        | some hit ↦ if any (λ j. j == index) seen then skipped else hit ∷ taken
      ]

  -- What the reranker answered: nothing where there is none, and `none` where it failed.
  unfoldable pub reranked : Bool → Option (Option (List ℕ)) → List A → List A
  unfolding reorder
  reranked true (some (some scored)) hits = reorder hits [] scored
  reranked true (some none) hits = hits
  reranked true none hits = hits
  reranked false answer hits = hits

  -- The reordering, then `hits.truncate(limit.max(0) as usize)`.
  unfoldable pub order_hits : Bool → Option (Option (List ℕ)) → ℕ → List A → List A
  unfolding reranked
  order_hits rerank answer limit hits = take limit (reranked rerank answer hits)
