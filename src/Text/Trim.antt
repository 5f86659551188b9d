-- ===== src/Text/Trim.antt =====
-- What trimming leaves.
use pg_mnestic.Prelude.{
  ℕ, ◌≤◌, ◌≡◌, refl, Bool, true, false, [], ◌∷◌, arith, length, is_empty, Bool-cases, inl, inr,
}
use pg_mnestic.Text.{Text, trim_start_matches, trim_end_matches, trim_matches, trim, is_whitespace}

-- The first (the last) character, if there is one, does not match.
abbrev pub StartsOutside : (ℕ → Bool) → Text → Type 0
StartsOutside p [] = Unit
StartsOutside p (c ∷ s) = p c ≡ false

abbrev pub EndsOutside : (ℕ → Bool) → Text → Type 0
EndsOutside p [] = Unit
EndsOutside p (c ∷ []) = p c ≡ false
EndsOutside p (c ∷ d ∷ s) = EndsOutside p (d ∷ s)

pub record IsTrimmed (p : ℕ → Bool) (s : Text) : Type 0 where
  pub starts : StartsOutside p s
  pub ends : EndsOutside p s

module _ (p : ℕ → Bool) where
  trim_start_matches-StartsOutside : (s : Text) → StartsOutside p (trim_start_matches p s)
  unfolding trim_start_matches
  trim_start_matches-StartsOutside [] = tt
  trim_start_matches-StartsOutside (c ∷ s) = elim (Bool-cases (p c)) [
    | inl e ↦ rw e (trim_start_matches-StartsOutside s)
    | inr e ↦ rw e e
  ]

  EndsOutside-cons :
      (c : ℕ) (s : Text) → is_empty s ≡ false → EndsOutside p s → EndsOutside p (c ∷ s)
  EndsOutside-cons c [] h e = ground arith
  EndsOutside-cons c (d ∷ s) h e = e

  EndsOutside-single : (c : ℕ) (s : Text) → is_empty s ≡ true → p c ≡ false → EndsOutside p (c ∷ s)
  EndsOutside-single c [] h e = e
  EndsOutside-single c (d ∷ s) h e = ground arith

  trim_end_matches-EndsOutside : (s : Text) → EndsOutside p (trim_end_matches p s)
  unfolding trim_end_matches
  trim_end_matches-EndsOutside [] = tt
  trim_end_matches-EndsOutside (c ∷ s) = elim (Bool-cases (is_empty (trim_end_matches p s))) [
    | inr e ↦ elim (Bool-cases (p c)) [
      | inl m ↦ rw (m, e) (EndsOutside-cons c _ e (trim_end_matches-EndsOutside s))
      | inr m ↦ rw m (EndsOutside-cons c _ e (trim_end_matches-EndsOutside s))
    ]
    | inl e ↦ elim (Bool-cases (p c)) [
      | inl m ↦ rw (m, e) tt
      | inr m ↦ rw m (EndsOutside-single c _ e m)
    ]
  ]

  trim_end_matches-StartsOutside :
      (s : Text) → StartsOutside p s → StartsOutside p (trim_end_matches p s)
  unfolding trim_end_matches
  trim_end_matches-StartsOutside [] h = tt
  trim_end_matches-StartsOutside (c ∷ s) h = rw h h

  pub trim_matches-IsTrimmed : (s : Text) → IsTrimmed p (trim_matches p s)
  unfolding trim_matches
  trim_matches-IsTrimmed s = record {
    starts = trim_end_matches-StartsOutside _ (trim_start_matches-StartsOutside s);
    ends = trim_end_matches-EndsOutside (trim_start_matches p s);
  }

  trim_end_matches_fixed : (s : Text) → EndsOutside p s → trim_end_matches p s ≡ s
  unfolding trim_end_matches
  trim_end_matches_fixed [] h = refl
  trim_end_matches_fixed (c ∷ []) h = rw h
  trim_end_matches_fixed (c ∷ d ∷ s) h = rw (trim_end_matches_fixed (d ∷ s) h) (ground arith)

  -- A trimmed text is left alone.
  pub trim_matches_fixed : (s : Text) → IsTrimmed p s → trim_matches p s ≡ s
  unfolding trim_matches trim_start_matches trim_end_matches
  trim_matches_fixed [] h = refl
  trim_matches_fixed (c ∷ s) h = rw h.starts (trim_end_matches_fixed (c ∷ s) h.ends)

  length-trim_start_matches : (s : Text) → length (trim_start_matches p s) ≤ length s
  unfolding trim_start_matches
  length-trim_start_matches [] = omega arith
  length-trim_start_matches (c ∷ s) = ground (arith, length-trim_start_matches s)

  length-trim_end_matches : (s : Text) → length (trim_end_matches p s) ≤ length s
  unfolding trim_end_matches
  length-trim_end_matches [] = omega arith
  length-trim_end_matches (c ∷ s) = ground (arith, length-trim_end_matches s)

  pub length-trim_matches : (s : Text) → length (trim_matches p s) ≤ length s
  unfolding trim_matches
  length-trim_matches s =
      omega (arith, length-trim_end_matches (trim_start_matches p s), length-trim_start_matches s)

pub trim-IsTrimmed : (s : Text) → IsTrimmed is_whitespace (trim s)
unfolding trim
trim-IsTrimmed s = trim_matches-IsTrimmed is_whitespace s

pub length-trim : (s : Text) → length (trim s) ≤ length s
unfolding trim
length-trim s = length-trim_matches is_whitespace s

pub trim_fixed : (s : Text) → IsTrimmed is_whitespace s → trim s ≡ s
unfolding trim
trim_fixed s h = trim_matches_fixed is_whitespace s h
