-- ===== src/Server/ContainerTag/RoundTrip.antt =====
-- Parsing loses nothing.
use pg_mnestic.Prelude.{
  ◌≡◌, refl, sym, ◌∙◌, ap, false, List, [], ◌∷◌, ◌++◌, append_assoc, is_empty, Bool-cases, inl, inr,
}
use pg_mnestic.Text.{Text, text_eq, split, join}
use pg_mnestic.Text.Equality.{text_eq_sound}
use pg_mnestic.Text.Split.{join-split, join-cons}
use pg_mnestic.Server.ContainerTag.{
  colon, user_prefix, pair, pair_up, split_last_two, scope_of_last_two, scope_of_segments,
  parse_container_tag, reconstruct_container_tag,
}

abbrev joined : List Text → Text
joined = join (colon ∷ [])

-- The segments, put together again.
abbrev whole : List Text × Text × Text → List Text
whole (front, a, b) = front ++ (a ∷ b ∷ [])

split_last_two-whole :
    (s t : Text) (segments : List Text) → whole (split_last_two s t segments) ≡ s ∷ t ∷ segments
unfolding split_last_two
split_last_two-whole s t [] = refl
split_last_two-whole s t (u ∷ segments) = ap (λ r. s ∷ r) (split_last_two-whole t u segments)

snoc-is_cons : (xs : List Text) (y : Text) → is_empty (xs ++ y ∷ []) ≡ false
snoc-is_cons [] y = refl
snoc-is_cons (x ∷ xs) y = refl

two_more-is_cons : (xs : List Text) (y z : Text) → is_empty (xs ++ y ∷ z ∷ []) ≡ false
two_more-is_cons [] y z = refl
two_more-is_cons (x ∷ xs) y z = refl

-- Pairing up changes nothing that joining shows.
joined-pair_up :
    (front : List Text) (u b : Text)
    → joined (pair_up front ++ pair u b ∷ []) ≡ joined (front ++ (u ∷ b ∷ []))
unfolding pair_up join
joined-pair_up [] u b = refl
joined-pair_up (s ∷ []) u b = refl
joined-pair_up (s ∷ t ∷ front) u b =
    join-cons (colon ∷ []) (pair s t) (pair_up front ++ pair u b ∷ [])
      (snoc-is_cons (pair_up front) (pair u b))
    ∙ ap (λ r. pair s t ++ colon ∷ r) (joined-pair_up front u b)
    ∙ append_assoc s (colon ∷ t) (colon ∷ joined (front ++ u ∷ b ∷ []))
    ∙ ap (λ r. s ++ colon ∷ r)
        (sym (join-cons (colon ∷ []) t (front ++ u ∷ b ∷ []) (two_more-is_cons front u b)))

reconstruct-snoc :
    (tags : List Text) (actor : Text)
    → reconstruct_container_tag (record { actor_id = actor; container_tags = tags })
      ≡ joined (tags ++ actor ∷ [])
unfolding reconstruct_container_tag join
reconstruct-snoc [] actor = refl
reconstruct-snoc (t ∷ tags) actor = refl

reconstruct-scope_of_last_two :
    (front : List Text) (a b : Text)
    → reconstruct_container_tag (scope_of_last_two (front, a, b)) ≡ joined (front ++ (a ∷ b ∷ []))
unfolding scope_of_last_two
reconstruct-scope_of_last_two front a b = elim (Bool-cases (text_eq a user_prefix)) [
  | inl e ↦ rw e (
      reconstruct-snoc (pair_up front) (pair user_prefix b)
      ∙ joined-pair_up front user_prefix b
      ∙ ap (λ u. joined (front ++ (u ∷ b ∷ []))) (sym (text_eq_sound a user_prefix e)))
  | inr e ↦
      rw e (reconstruct-snoc (front ++ a ∷ []) b ∙ ap joined (append_assoc front (a ∷ []) (b ∷ [])))
]

reconstruct-scope_of_segments :
    (tag : Text) (segments : List Text)
    → joined segments ≡ tag
    → reconstruct_container_tag (scope_of_segments tag segments) ≡ tag
unfolding scope_of_segments join
reconstruct-scope_of_segments tag [] h = reconstruct-snoc [] tag
reconstruct-scope_of_segments tag (s ∷ []) h = reconstruct-snoc [] tag
reconstruct-scope_of_segments tag (s ∷ t ∷ segments) h =
    let (front, a, b) = split_last_two s t segments in
    reconstruct-scope_of_last_two front a b ∙ ap joined (split_last_two-whole s t segments) ∙ h

-- Reconstructing the scope that a container tag parses to gives the tag back, whatever its shape.
pub reconstruct-parse_container_tag :
    (tag : Text) → reconstruct_container_tag (parse_container_tag tag) ≡ tag
unfolding parse_container_tag
reconstruct-parse_container_tag tag =
    reconstruct-scope_of_segments tag (split colon tag) (join-split colon tag)
