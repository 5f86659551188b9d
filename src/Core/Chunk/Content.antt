-- ===== src/Core/Chunk/Content.antt =====
-- Each chunk on its own, and next to its neighbour.
use pg_mnestic.Prelude.{
  ℕ, suc, ◌-◌, ◌≤◌, ◌<◌, ◌≡◌, ◌≢◌, false, List, [], ◌∷◌, ◌++◌, some, arith, ◌==◌, length, drop,
  length-take, is_empty, All, All-append, Bool-cases, inl, inr,
}
use pg_mnestic.Text.{Text, trim, is_whitespace}
use pg_mnestic.Text.Equality.{text_eq_self}
use pg_mnestic.Text.Trim.{IsTrimmed, trim-IsTrimmed, length-trim}
use pg_mnestic.Core.Chunk.{
  chunk_text, push_chunk, slice, is_last, window_size, clamp_overlap, window_end,
}
use pg_mnestic.Core.Chunk.Window.{window_end_bounds}
use pg_mnestic.Core.Chunk.Loop.{chunk_loop_rule}

-- Not blank, no longer than a window, and without whitespace at either end.
pub record IsChunk (max_chars : ℕ) (t : Text) : Type 0 where
  pub nonempty : 0 < length t
  pub fits : length t ≤ max_chars
  pub trimmed : IsTrimmed is_whitespace t

-- Neighbours differ.
abbrev pub NoRepeat : List Text → Type 0
NoRepeat [] = Unit
NoRepeat (t ∷ []) = Unit
NoRepeat (t ∷ u ∷ ts) = (t ≢ u) × NoRepeat (u ∷ ts)

NoRepeat-snoc :
    (ts : List Text) (t : Text) → NoRepeat ts → is_last ts t ≡ false → NoRepeat (ts ++ t ∷ [])
NoRepeat-snoc [] t h e = tt
NoRepeat-snoc (u ∷ []) t h e = (λ p. ground (arith, text_eq_self t), tt)
NoRepeat-snoc (u ∷ v ∷ ts) t h e = (h.0, NoRepeat-snoc (v ∷ ts) t h.1 e)

abbrev Chunks : ℕ → List Text → Type 0
Chunks max_chars ts = All (IsChunk max_chars) ts × NoRepeat ts

nonempty_length : (t : Text) → is_empty t ≡ false → 0 < length t
nonempty_length [] e = ground arith
nonempty_length (c ∷ t) e = omega arith

push_chunk-Chunks :
    (max_chars : ℕ) (ts : List Text) (s : Text)
    → length s ≤ max_chars
    → Chunks max_chars ts
    → Chunks max_chars (push_chunk ts (trim s))
unfolding push_chunk
push_chunk-Chunks max_chars ts s fits c = elim (Bool-cases (is_empty (trim s))) [
  | inl e ↦ rw e c
  | inr e ↦ elim (Bool-cases (is_last ts (trim s))) [
    | inl l ↦ rw (e, l) c
    | inr l ↦
        rw (e, l)
          (
            All-append _ ts _ c.0 (
              record {
                nonempty = nonempty_length (trim s) e;
                fits = omega (arith, length-trim s);
                trimmed = trim-IsTrimmed s;
              },
              tt,
            ),
            NoRepeat-snoc ts (trim s) c.1 l,
          )
  ]
]

length-slice : (chars : Text) (start end : ℕ) → length (slice chars start end) ≤ end - start
length-slice chars start end = omega (arith, length-take (end - start) (drop start chars))

-- For every text, window size and overlap the loop ends, each chunk is non-blank, trimmed and at
-- most `max_chars` long (1 where `max_chars` is 0), and no chunk repeats the one before it.
pub chunk_text_chunks :
    (chars : Text) (max_chars overlap : ℕ)
    → (ts : List Text) × (chunk_text chars max_chars overlap ≡ some ts)
      × (All (IsChunk (window_size max_chars)) ts × NoRepeat ts)
unfolding chunk_text
chunk_text_chunks chars max_chars overlap = elim (Bool-cases (length chars == 0)) [
  | inl e ↦ ([], rw e, (tt, tt))
  | inr e ↦ rw e (
      chunk_loop_rule chars (window_size max_chars) (clamp_overlap max_chars overlap) (omega arith)
        (λ start ts. Chunks (window_size max_chars) ts) (Chunks (window_size max_chars))
        (λ start ts h c.
          let b = window_end_bounds chars (window_size max_chars) start (omega arith) h in
          let end = window_end chars (window_size max_chars) start in
          let kept =
            push_chunk-Chunks (window_size max_chars) ts (slice chars start end)
              (omega (arith, length-slice chars start end)) c in
          (λ _. kept, λ _. kept))
        (suc (length chars)) 0 [] (omega arith) (ground arith) (tt, tt))
]
