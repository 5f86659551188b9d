-- ===== src/Engine/Rerank/Laws.antt =====
-- Reordering neither loses nor repeats a hit.
use pg_mnestic.Prelude.{
  ℕ, zero, suc, ◌+◌, ◌<◌, ◌≡◌, refl, ◌∙◌, ap, subst, Bool, true, false, List, [], ◌∷◌, Option, none,
  some, ◌==◌, any, take, map, get_elem?, length, Bool-cases, Option-cases, inl, inr, arith,
}
use mathlib.Core.List.{Perm}
use mathlib.Core.List.Perm
use pg_mnestic.Engine.Rerank.{unseen, reorder, reranked, order_hits}

-- The indices differ from those seen and from each other.
unfoldable pub IsFresh : List ℕ → List ℕ → Type 0
IsFresh seen [] = Unit {0}
IsFresh seen (index ∷ scored) = (any (λ j. j == index) seen ≡ false) × IsFresh (index ∷ seen) scored

module _ {ℓ} {A : Type ℓ} where
  -- An index below every position that is left changes nothing.
  unseen_skip :
      (i k : ℕ) (seen : List ℕ) (hits : List A)
      → i < k
      → unseen k (i ∷ seen) hits ≡ unseen k seen hits
  unfolding unseen
  unseen_skip i k seen [] h = refl
  unseen_skip i k seen (x ∷ hits) h =
      let differs : (i == k) ≡ false = ground arith in
      rw (differs, unseen_skip i (suc k) seen hits (omega arith)) refl

  -- A hit that is not seen can be moved to the front.
  unseen-Perm :
      (k n m : ℕ) (seen : List ℕ) (hits : List A) (hit : A)
      → m ≡ k + n
      → get_elem? hits n ≡ some hit
      → any (λ j. j == m) seen ≡ false
      → Perm (hit ∷ unseen k (m ∷ seen) hits) (unseen k seen hits)
  unfolding unseen
  unseen-Perm k n m seen [] hit at h fresh = ground arith
  unseen-Perm k zero m seen (x ∷ hits) hit at h fresh =
      let same : m ≡ k = omega arith in
      let found : (m == k) ≡ true = ground arith in
      let free : any (λ j. j == k) seen ≡ false =
        subst (λ i. any (λ j. j == i) seen ≡ false) same fresh in
      let first : x ≡ hit = ground arith in
      rw (found, free, unseen_skip m (suc k) seen hits (omega arith), first) Perm.rfl
  unseen-Perm k (suc n) m seen (x ∷ hits) hit at h fresh =
      let differs : (m == k) ≡ false = ground arith in
      let ih = unseen-Perm (suc k) n m seen hits hit (omega arith) h fresh in
      elim (Bool-cases (any (λ j. j == k) seen)) [
        | inl e ↦ rw (differs, e) ih
        | inr e ↦
            rw (differs, e)
              (Perm.trans (Perm.swap x hit (unseen (suc k) (m ∷ seen) hits)) (Perm.cons x ih))
      ]

  reorder-Perm :
      (hits : List A) (seen scored : List ℕ) → Perm (reorder hits seen scored) (unseen 0 seen hits)
  unfolding reorder
  reorder-Perm hits seen [] = Perm.rfl
  reorder-Perm hits seen (index ∷ scored) = elim (Option-cases (get_elem? hits index)) [
    | inl e ↦ rw (e, reorder) (reorder-Perm hits seen scored)
    | inr (hit, e) ↦ elim (Bool-cases (any (λ j. j == index) seen)) [
      | inl s ↦ rw (e, s, reorder) (reorder-Perm hits seen scored)
      | inr s ↦
          rw (e, s, reorder)
            (Perm.trans (Perm.cons hit (reorder-Perm hits (index ∷ seen) scored))
              (unseen-Perm 0 index index seen hits hit (omega arith) e s))
    ]
  ]

  unseen_all : (k : ℕ) (hits : List A) → unseen k [] hits ≡ hits
  unfolding unseen
  unseen_all k [] = refl
  unseen_all k (h ∷ hits) = ap (λ r. h ∷ r) (unseen_all (suc k) hits)

  reranked-Perm :
      (rerank : Bool) (answer : Option (Option (List ℕ))) (hits : List A)
      → Perm (reranked rerank answer hits) hits
  unfolding reranked
  reranked-Perm true (some (some scored)) hits =
      subst (λ xs. Perm (reorder hits [] scored) xs) (unseen_all 0 hits)
        (reorder-Perm hits [] scored)
  reranked-Perm true (some none) hits = Perm.rfl
  reranked-Perm true none hits = Perm.rfl
  reranked-Perm false answer hits = Perm.rfl

  -- Whatever indices the reranker answers, out of range, repeated or missing, and where it fails or
  -- is not asked: the result is the first `limit` hits of a permutation of those retrieved.
  pub order_hits-Perm :
      (rerank : Bool) (answer : Option (Option (List ℕ))) (limit : ℕ) (hits : List A)
      → (all : List A) × Perm all hits × (order_hits rerank answer limit hits ≡ take limit all)
  unfolding order_hits
  order_hits-Perm rerank answer limit hits =
      (reranked rerank answer hits, reranked-Perm rerank answer hits, refl)

  -- The indices are within bounds.
  unfoldable pub InRange : List A → List ℕ → Type 0
  InRange hits [] = Unit {0}
  InRange hits (index ∷ scored) = (index < length hits) × InRange hits scored

  get_elem?-some :
      (hits : List A) (n : ℕ) → n < length hits → (hit : A) × (get_elem? hits n ≡ some hit)
  get_elem?-some [] n h = ground arith
  get_elem?-some (x ∷ hits) zero h = (x, refl)
  get_elem?-some (x ∷ hits) (suc n) h = get_elem?-some hits n (omega arith)

  take_comm : (m n : ℕ) (xs : List A) → take m (take n xs) ≡ take n (take m xs)
  take_comm zero zero xs = refl
  take_comm zero (suc n) xs = refl
  take_comm (suc m) zero xs = refl
  take_comm (suc m) (suc n) [] = refl
  take_comm (suc m) (suc n) (x ∷ xs) = ap (λ r. x ∷ r) (take_comm m n xs)

  reorder-order :
      (hits : List A) (seen scored : List ℕ)
      → InRange hits scored
      → IsFresh seen scored
      → map some (take (length scored) (reorder hits seen scored)) ≡ map (get_elem? hits) scored
  unfolding reorder InRange IsFresh
  reorder-order hits seen [] r f = refl
  reorder-order hits seen (index ∷ scored) r f =
      let (hit, e) = get_elem?-some hits index r.0 in
      let ih = reorder-order hits (index ∷ seen) scored r.1 f.1 in
      rw (e, f.0, reorder) (ap (λ xs. some hit ∷ xs) ih)

  map-take : (n : ℕ) (xs : List A) → map some (take n xs) ≡ take n (map some xs)
  map-take zero xs = refl
  map-take (suc n) [] = refl
  map-take (suc n) (x ∷ xs) = ap (λ r. some x ∷ r) (map-take n xs)

  -- A reranker that answers different indices within bounds decides the order: the first hits of
  -- the result are those at its indices, one by one, of which the first `limit` are given.
  pub order_hits-order :
      (limit : ℕ) (hits : List A) (scored : List ℕ)
      → InRange hits scored
      → IsFresh [] scored
      → map some (take (length scored) (order_hits true (some (some scored)) limit hits))
        ≡ take limit (map (get_elem? hits) scored)
  unfolding order_hits reranked
  order_hits-order limit hits scored r f =
      let all = reorder hits [] scored in
      ap (map some) (take_comm (length scored) limit all)
      ∙ map-take limit (take (length scored) all)
      ∙ ap (take limit) (reorder-order hits [] scored r f)
