-- ===== src/Server/Api/Tags.antt =====
-- What the handlers may rely on in a container tag and a limit.
use pg_mnestic.Prelude.{
  ◌≤◌, ◌≡◌, refl, inl, inr, true, List, [], ◌∷◌, Option, none, some, ltb, length, all, arith,
  Bool-cases, ◌⊎◌,
}
use pg_mnestic.Text.{Text}
use pg_mnestic.Server.Api.{
  ApiResult, done, failed, ◌>>=◌, is_tag_char, validate_container_tag, pick_plural, pick_tag,
  resolve_container_tag,
}

validated :
    (tag : Text)
    → validate_container_tag tag ≡ done tt
    → (1 ≤ length tag) × (length tag ≤ 100) × (all is_tag_char tag ≡ true)
unfolding validate_container_tag
validated [] h = ground arith
validated (c ∷ tag) h = elim (Bool-cases (ltb 100 (length (c ∷ tag)))) [
  | inl e ↦ ground arith
  | inr e ↦ elim (Bool-cases (all is_tag_char (c ∷ tag))) [
    | inl g ↦ (omega arith, ground arith, g)
    | inr g ↦ ground arith
  ]
]

-- The tag is the singular field, or else the only one of the plural.
unfoldable pub IsSent : Option Text → Option (List Text) → Text → Type 0
IsSent singular plural tag =
    (singular ≡ some tag)
    ⊎ ((plural ≡ some (tag ∷ [])) × ((singular ≡ none) ⊎ (singular ≡ some [])))

picked_plural :
    (plural : Option (List Text)) (tag : Text)
    → pick_plural plural ≡ done tag
    → plural ≡ some (tag ∷ [])
unfolding pick_plural
picked_plural none tag h = ground arith
picked_plural (some []) tag h = ground arith
picked_plural (some (t ∷ [])) tag h = ground arith
picked_plural (some (t ∷ u ∷ ts)) tag h = ground arith

picked :
    (singular : Option Text) (plural : Option (List Text)) (tag : Text)
    → pick_tag singular plural ≡ done tag
    → IsSent singular plural tag
unfolding pick_tag IsSent
picked none plural tag h = inr (picked_plural plural tag h, inl refl)
picked (some []) plural tag h = inr (picked_plural plural tag h, inr refl)
picked (some (c ∷ t)) plural tag h = inl (ground arith)

-- A resolved container tag is one that the request sent, has 1 to 100 characters, and only letters,
-- digits, `_`, `:` and `-`.
pub resolve_container_tag-IsSent :
    (singular : Option Text) (plural : Option (List Text)) (tag : Text)
    → resolve_container_tag singular plural ≡ done tag
    → IsSent singular plural tag
      × (1 ≤ length tag)
      × (length tag ≤ 100)
      × (all is_tag_char tag ≡ true)
unfolding resolve_container_tag
resolve_container_tag-IsSent singular plural tag h = go (pick_tag singular plural) refl h
  where
    go :
        (o : ApiResult Text)
        → pick_tag singular plural ≡ o
        → (o >>= λ t. validate_container_tag t >>= λ _. done t) ≡ done tag
        → IsSent singular plural tag
          × (1 ≤ length tag)
          × (length tag ≤ 100)
          × (all is_tag_char tag ≡ true)
    go (failed e) p g = ground arith
    go (done t) p g = at t (validate_container_tag t) p refl g
      where
        at :
            (t : Text) (o : ApiResult (Unit {0}))
            → pick_tag singular plural ≡ done t
            → validate_container_tag t ≡ o
            → (o >>= λ _. done t) ≡ done tag
            → IsSent singular plural tag
              × (1 ≤ length tag)
              × (length tag ≤ 100)
              × (all is_tag_char tag ≡ true)
        at t (failed e) p v g = ground arith
        at t (done u) p v g =
            let same : t ≡ tag = ground arith in
            let (low, high, good) = validated t v in
            rw (← same) (picked singular plural t p, low, high, good)
