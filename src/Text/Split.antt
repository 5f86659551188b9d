-- ===== src/Text/Split.antt =====
-- `join` undoes `split`.
use pg_mnestic.Prelude.{
  ℕ, ◌≡◌, refl, sym, ap, false, List, [], ◌∷◌, ◌++◌, arith, ==_iff, ◌==◌, Bool-cases, inl, inr,
  is_empty,
}
use pg_mnestic.Text.{Text, split, join, onto_first}

-- `split` gives at least one piece.
pub split-is_cons : (sep : ℕ) (s : Text) → is_empty (split sep s) ≡ false
unfolding split
split-is_cons sep [] = refl
split-is_cons sep (c ∷ s) = elim (Bool-cases (c == sep)) [
  | inl e ↦ rw e
  | inr e ↦ rw e (onto_first-is_cons (split sep s))
]
  where
    onto_first-is_cons : (ws : List Text) → is_empty (onto_first c ws) ≡ false
    onto_first-is_cons [] = refl
    onto_first-is_cons (w ∷ ws) = refl

pub join-onto_first :
    (sep : Text) (c : ℕ) (ws : List Text) → join sep (onto_first c ws) ≡ c ∷ join sep ws
unfolding join
join-onto_first sep c [] = refl
join-onto_first sep c (w ∷ []) = refl
join-onto_first sep c (w ∷ v ∷ ws) = refl

pub join-cons :
    (sep w : Text) (ws : List Text)
    → is_empty ws ≡ false
    → join sep (w ∷ ws) ≡ w ++ (sep ++ join sep ws)
unfolding join
join-cons sep w [] h = ground arith
join-cons sep w (v ∷ ws) h = refl

pub join-split : (sep : ℕ) (s : Text) → join (sep ∷ []) (split sep s) ≡ s
unfolding split join
join-split sep [] = refl
join-split sep (c ∷ s) = elim (Bool-cases (c == sep)) [
  | inl e ↦
      rw (e, join-cons (sep ∷ []) [] (split sep s) (split-is_cons sep s), join-split sep s)
        (ap (λ x. x ∷ s) (sym ((==_iff c sep).0 e)))
  | inr e ↦ rw (e, join-onto_first (sep ∷ []) c (split sep s), join-split sep s)
]
