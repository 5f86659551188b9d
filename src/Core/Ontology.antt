-- ===== src/Core/Ontology.antt =====
-- crates/mnestic-core/src/ontology.rs. `str::to_lowercase` (the Unicode tables) is a parameter.
use pg_mnestic.Prelude.{Bool, ◌||◌, List, [], ◌∷◌, Option, none, some, ◌==◌, if◌then◌else◌, ℕ}
use pg_mnestic.Text.{Text, codes, text_eq, trim, trim_matches, split_whitespace, join}

-- `matches!(c, '.' | ':' | ',' | ';' | '?' | '!')`.
unfoldable pub is_punctuation : ℕ → Bool
is_punctuation c = c == b'.' || c == b':' || c == b',' || c == b';' || c == b'?' || c == b'!'

-- `synonyms.get(key)`; an insertion goes in front, so it hides an older entry of its key.
unfoldable pub get : Text → List (Text × Text) → Option Text
get key [] = none
get key ((k, v) ∷ rest) = if text_eq k key then some v else get key rest

module _ (to_lowercase : Text → Text) where
  unfoldable pub normalize_key : Text → Text
  unfolding trim trim_matches is_punctuation split_whitespace join
  normalize_key s =
      let lowered = to_lowercase (trim s) in
      let collapsed = join (codes " ") (split_whitespace lowered) in
      trim (trim_matches is_punctuation collapsed)

  -- `with_synonyms`: both sides are normalized.
  unfoldable pub with_synonyms : List (Text × Text) → List (Text × Text) → List (Text × Text)
  unfolding normalize_key
  with_synonyms synonyms [] = synonyms
  with_synonyms synonyms ((surface, canonical) ∷ pairs) =
      with_synonyms ((normalize_key surface, normalize_key canonical) ∷ synonyms) pairs

  unfoldable pub normalize_subject : Text → Text
  unfolding normalize_key
  normalize_subject subject = normalize_key subject

  -- `get(&key).cloned().unwrap_or(key)`.
  unfoldable pub canonical_attribute : List (Text × Text) → Text → Text
  unfolding normalize_key get
  canonical_attribute synonyms attribute =
      let key = normalize_key attribute in
      elim (get key synonyms) [ none ↦ key | some canonical ↦ canonical ]

  -- `Ontology::starter`.
  unfoldable pub starter : List (Text × Text)
  unfolding with_synonyms
  starter = with_synonyms [] (
      (codes "lives in", codes "location")
      ∷ (codes "current city", codes "location")
      ∷ (codes "located in", codes "location")
      ∷ (codes "residence", codes "location")
      ∷ (codes "works at", codes "employer")
      ∷ (codes "works for", codes "employer")
      ∷ (codes "company", codes "employer")
      ∷ (codes "job title", codes "role")
      ∷ (codes "title", codes "role")
      ∷ (codes "position", codes "role")
      ∷ (codes "speaks", codes "language")
      ∷ (codes "languages", codes "language")
      ∷ (codes "full name", codes "name")
      ∷ (codes "e-mail", codes "email")
      ∷ [])
