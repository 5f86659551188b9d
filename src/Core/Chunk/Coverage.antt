-- ===== src/Core/Chunk/Coverage.antt =====
-- No passage is lost: the window around each character is kept.
use pg_mnestic.Prelude.{
  ℕ, zero, suc, ◌+◌, ◌-◌, ◌≤◌, ◌<◌, ◌≡◌, refl, sym, ◌∙◌, Bool, true, false, ◌&&◌, not, List, [],
  ◌∷◌, ◌++◌, some, arith, ltb, ◌==◌, length, take, drop, get_elem?, is_empty, In, Bool-cases, inl,
  inr, subst, ltb-eq_false, ltb→lt,
}
use pg_mnestic.Text.{Text, trim, trim_matches, trim_start_matches, trim_end_matches, is_whitespace}
use pg_mnestic.Text.Equality.{text_eq_sound}
use pg_mnestic.Core.Chunk.{
  chunk_text, push_chunk, slice, is_last, window_size, clamp_overlap, window_end,
}
use pg_mnestic.Core.Chunk.Window.{window_end_bounds, next_start_bounds}
use pg_mnestic.Core.Chunk.Loop.{chunk_loop_rule}

In-append_left : (t : Text) (xs ys : List Text) → In t xs → In t (xs ++ ys)
In-append_left t [] ys h = absurd h
In-append_left t (x ∷ xs) ys (inl e) = inl e
In-append_left t (x ∷ xs) ys (inr h) = inr (In-append_left t xs ys h)

In-snoc : (t : Text) (xs : List Text) → In t (xs ++ t ∷ [])
In-snoc t [] = inl refl
In-snoc t (x ∷ xs) = inr (In-snoc t xs)

In-is_last : (t : Text) (xs : List Text) → is_last xs t ≡ true → In t xs
In-is_last t [] h = ground arith
In-is_last t (x ∷ []) h = inl (sym (text_eq_sound x t h))
In-is_last t (x ∷ y ∷ xs) h = inr (In-is_last t (y ∷ xs) h)

-- A push keeps what is there, and a non-blank piece is there afterwards.
In-push_chunk_old : (t : Text) (xs : List Text) (s : Text) → In t xs → In t (push_chunk xs s)
unfolding push_chunk
In-push_chunk_old t xs s h = elim (Bool-cases (not (is_empty s) && not (is_last xs s))) [
  | inl e ↦ rw e (In-append_left t xs _ h)
  | inr e ↦ rw e h
]

In-push_chunk_new : (s : Text) (xs : List Text) → is_empty s ≡ false → In s (push_chunk xs s)
unfolding push_chunk
In-push_chunk_new s xs h = elim (Bool-cases (is_last xs s)) [
  | inl e ↦ rw (h, e) (In-is_last s xs e)
  | inr e ↦ rw (h, e) (In-snoc s xs)
]

-- A text with a character outside `p` is not trimmed away.
module _ (p : ℕ → Bool) (c : ℕ) (solid : p c ≡ false) where
  trim_start_keeps :
      (s : Text) (i : ℕ)
      → get_elem? s i ≡ some c
      → (j : ℕ) × (get_elem? (trim_start_matches p s) j ≡ some c)
  unfolding trim_start_matches
  trim_start_keeps [] i h = cc
  trim_start_keeps (d ∷ s) zero h = elim (Bool-cases (p d)) [
    | inl e ↦ ground arith
    | inr e ↦ (0, rw e h)
  ]
  trim_start_keeps (d ∷ s) (suc i) h = elim (Bool-cases (p d)) [
    | inl e ↦ rw e (trim_start_keeps s i h)
    | inr e ↦ (suc i, rw e h)
  ]

  trim_end_keeps :
      (s : Text) (i : ℕ) → get_elem? s i ≡ some c → is_empty (trim_end_matches p s) ≡ false
  unfolding trim_end_matches
  trim_end_keeps [] i h = cc
  trim_end_keeps (d ∷ s) zero h = ground arith
  trim_end_keeps (d ∷ s) (suc i) h = ground (arith, trim_end_keeps s i h)

solid_trim :
    (s : Text) (i c : ℕ)
    → get_elem? s i ≡ some c
    → is_whitespace c ≡ false
    → is_empty (trim s) ≡ false
unfolding trim trim_matches
solid_trim s i c h solid =
    let (j, at) = trim_start_keeps is_whitespace c solid s i h in
    trim_end_keeps is_whitespace c solid _ j at

get_elem?-drop : (xs : Text) (n i : ℕ) → get_elem? (drop n xs) i ≡ get_elem? xs (n + i)
get_elem?-drop xs zero i = ground arith
get_elem?-drop [] (suc n) i = refl
get_elem?-drop (x ∷ xs) (suc n) i =
    get_elem?-drop xs n i ∙ (let e : suc n + i ≡ suc (n + i) = omega arith in rw e)

get_elem?-take : (n : ℕ) (xs : Text) (i : ℕ) → i < n → get_elem? (take n xs) i ≡ get_elem? xs i
get_elem?-take zero xs i h = absurd (omega arith)
get_elem?-take (suc n) [] i h = refl
get_elem?-take (suc n) (x ∷ xs) zero h = refl
get_elem?-take (suc n) (x ∷ xs) (suc i) h = get_elem?-take n xs i (omega arith)

get_elem?-slice :
    (chars : Text) (start end i : ℕ)
    → start ≤ i
    → i < end
    → get_elem? (slice chars start end) (i - start) ≡ get_elem? chars i
get_elem?-slice chars start end i lo hi =
    get_elem?-take (end - start) (drop start chars) (i - start) (omega arith)
    ∙ get_elem?-drop chars start (i - start)
    ∙ (let e : start + (i - start) ≡ i = omega arith in rw e)

module _ (chars : Text) (max_chars : ℕ) where
  -- Some window of at most `max_chars` characters around `i` is, trimmed, one of the chunks.
  pub record IsCovered (ts : List Text) (i : ℕ) : Type 0 where
    pub start : ℕ
    pub end : ℕ
    pub from_start : start ≤ i
    pub to_end : i < end
    pub fits : end ≤ start + max_chars
    pub kept : In (trim (slice chars start end)) ts

  abbrev CoveredBelow : ℕ → List Text → Type 0
  CoveredBelow k ts =
      (i c : ℕ) → i < k → get_elem? chars i ≡ some c → is_whitespace c ≡ false → IsCovered ts i

  IsCovered-push :
      (ts : List Text) (s : Text) (i : ℕ) → IsCovered ts i → IsCovered (push_chunk ts s) i
  IsCovered-push ts s i v = record {
    start = v.start;
    end = v.end;
    from_start = v.from_start;
    to_end = v.to_end;
    fits = v.fits;
    kept = In-push_chunk_old _ ts s v.kept;
  }

  CoveredBelow-push :
      (start end : ℕ) (ts : List Text)
      → end ≤ start + max_chars
      → CoveredBelow start ts
      → CoveredBelow end (push_chunk ts (trim (slice chars start end)))
  CoveredBelow-push start end ts fits old i c below at solid = elim (Bool-cases (ltb i start)) [
    | inl e ↦ IsCovered-push ts _ i (old i c (ltb→lt _ _ e) at solid)
    | inr e ↦
        let lo : start ≤ i = ltb-eq_false i start e in
        record {
          start = start;
          end = end;
          from_start = lo;
          to_end = below;
          fits = fits;
          kept =
              In-push_chunk_new _ ts (
                solid_trim _ (i - start) c (get_elem?-slice chars start end i lo below ∙ at) solid);
        }
  ]

chunk_text_total_covers :
    (chars : Text) (max_chars overlap : ℕ)
    → (ts : List Text) × (chunk_text chars max_chars overlap ≡ some ts)
      × ((i c : ℕ)
          → get_elem? chars i ≡ some c
          → is_whitespace c ≡ false
          → IsCovered chars (window_size max_chars) ts i)
unfolding chunk_text
chunk_text_total_covers [] max_chars overlap = ([], refl, λ i c at. cc)
chunk_text_total_covers (d ∷ chars) max_chars overlap =
    let some_text : (suc (length chars) == 0) ≡ false = ground arith in
    rw some_text (
      chunk_loop_rule text size (clamp_overlap max_chars overlap) (omega arith)
        (CoveredBelow text size)
        (λ ts.
          (i c : ℕ)
          → get_elem? text i ≡ some c
          → is_whitespace c ≡ false
          → IsCovered text size ts i)
        (λ start ts h old.
          let b = window_end_bounds text size start (omega arith) h in
          let nb =
            next_start_bounds (clamp_overlap max_chars overlap) start (window_end text size start)
              b.0 in
          let new = CoveredBelow-push text size start (window_end text size start) ts b.1 old in
          (
            λ more i c below at solid. new i c (omega arith) at solid,
            λ done i c at solid. new i c (within text i (omega arith) at) at solid,
          ))
        (suc (length text)) 0 [] (omega arith) (omega arith) (λ i c below. absurd (omega arith)))
  where
    text : Text
    text = d ∷ chars

    size : ℕ
    size = window_size max_chars

    within : (xs : Text) (i : ℕ) {k c : ℕ} → length xs ≤ k → get_elem? xs i ≡ some c → i < k
    within [] i h e = cc
    within (x ∷ xs) zero h e = omega arith
    within (x ∷ xs) (suc i) {k} h e = let r : i < k - 1 = within xs i (omega arith) e in omega arith

-- Every non-whitespace character of the text stands in a window of at most `max_chars` characters
-- whose trimmed content is one of the chunks that `chunk_text` returns.
pub chunk_text_covers :
    (chars : Text) (max_chars overlap i c : ℕ) {ts : List Text}
    → chunk_text chars max_chars overlap ≡ some ts
    → get_elem? chars i ≡ some c
    → is_whitespace c ≡ false
    → IsCovered chars (window_size max_chars) ts i
chunk_text_covers chars max_chars overlap i c {ts} result at solid =
    let (ts', total, covers) = chunk_text_total_covers chars max_chars overlap in
    let same : ts' ≡ ts = cc in
    subst (λ ts. IsCovered chars (window_size max_chars) ts i) same (covers i c at solid)
