-- ===== src/Store/MetaFilter/Placed.antt =====
-- Values that stand under the numbers of parameters.
use pg_mnestic.Prelude.{
  ℕ, suc, ◌+◌, ◌-◌, ◌≡◌, refl, ◌∙◌, ap, subst, List, [], ◌∷◌, ◌++◌, append_assoc, Option, some,
  length, length-append, get_elem?, arith,
}
use pg_mnestic.Text.{Text}

-- The parameter `$n` of a filter that was rendered from `first` on.
abbrev pub bound_at : ℕ → List Text → ℕ → Option Text
bound_at first binds n = get_elem? binds (n - first)

-- The values stand under the numbers from `next` on.
unfoldable pub StandAt : (ℕ → Option Text) → ℕ → List Text → Type 0
StandAt args next [] = Unit
StandAt args next (v ∷ vs) = (args next ≡ some v) × StandAt args (next + 1) vs

pub StandAt-left :
    (args : ℕ → Option Text) (next : ℕ) (vs ws : List Text)
    → StandAt args next (vs ++ ws)
    → StandAt args next vs
unfolding StandAt
StandAt-left args next [] ws h = tt
StandAt-left args next (v ∷ vs) ws h = (h.0, StandAt-left args (next + 1) vs ws h.1)

pub StandAt-right :
    (args : ℕ → Option Text) (next : ℕ) (vs ws : List Text)
    → StandAt args next (vs ++ ws)
    → StandAt args (next + length vs) ws
unfolding StandAt
StandAt-right args next [] ws h =
    let same : next ≡ next + 0 = omega arith in subst (λ n. StandAt args n ws) same h
StandAt-right args next (v ∷ vs) ws h =
    let same : (next + 1) + length vs ≡ next + suc (length vs) = omega arith in
    subst (λ n. StandAt args n ws) same (StandAt-right args (next + 1) vs ws h.1)

get_elem?-append_self :
    (xs : List Text) (v : Text) (ys : List Text) → get_elem? (xs ++ v ∷ ys) (length xs) ≡ some v
get_elem?-append_self [] v ys = refl
get_elem?-append_self (x ∷ xs) v ys = get_elem?-append_self xs v ys

pub bound_at-StandAt :
    (first next : ℕ) (xs vs : List Text)
    → next ≡ first + length xs
    → StandAt (bound_at first (xs ++ vs)) next vs
unfolding StandAt
bound_at-StandAt first next xs [] h = tt
bound_at-StandAt first next xs (v ∷ vs) h =
    let place : next - first ≡ length xs = omega arith in
    let more : next + 1 ≡ first + length (xs ++ v ∷ []) =
      omega (arith, length-append xs (v ∷ [])) in
    (
      ap (get_elem? (xs ++ v ∷ vs)) place ∙ get_elem?-append_self xs v vs,
      subst (λ ys. StandAt (bound_at first ys) (next + 1) vs) (append_assoc xs (v ∷ []) vs)
          (bound_at-StandAt first (next + 1) (xs ++ v ∷ []) vs more),
    )
