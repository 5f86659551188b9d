-- ===== src/Core/Chunk/Count.antt =====
-- How many chunks there are, and how far a window moves.
use native.Mathlib.Nat.{mul-le-mul_right}
use pg_mnestic.Prelude.{
  ℕ, zero, suc, ◌+◌, ◌-◌, ◌*◌, ◌≤◌, ◌<◌, min, ◌≡◌, true, false, List, [], ◌∷◌, some, arith, ◌==◌,
  length, length-append, Bool-cases, inl, inr,
}
use pg_mnestic.Text.{Text, trim}
use pg_mnestic.Core.Chunk.{
  chunk_text, push_chunk, slice, is_space_at, last_space, window_size, clamp_overlap, window_end,
  next_start,
}
use pg_mnestic.Core.Chunk.Window.{window_end_bounds, next_start_bounds, last_space-none}
use pg_mnestic.Core.Chunk.Loop.{chunk_loop_rule}

length-push_chunk : (ts : List Text) (t : Text) → length (push_chunk ts t) ≤ length ts + 1
unfolding push_chunk
length-push_chunk ts t = ground (arith, length-append ts (t ∷ []))

-- For every text there is at most one chunk to a character.
pub chunk_text-length_le :
    (chars : Text) (max_chars overlap : ℕ)
    → (ts : List Text) × (chunk_text chars max_chars overlap ≡ some ts) × (length ts ≤ length chars)
unfolding chunk_text
chunk_text-length_le chars max_chars overlap = elim (Bool-cases (length chars == 0)) [
  | inl e ↦ ([], rw e, omega arith)
  | inr e ↦ rw e (
      chunk_loop_rule chars (window_size max_chars) (clamp_overlap max_chars overlap) (omega arith)
        (λ start ts. length ts ≤ start) (λ ts. length ts ≤ length chars)
        (λ start ts h c.
          let end = window_end chars (window_size max_chars) start in
          let b = window_end_bounds chars (window_size max_chars) start (omega arith) h in
          let nb = next_start_bounds (clamp_overlap max_chars overlap) start end b.0 in
          let l = length-push_chunk ts (trim (slice chars start end)) in
          (λ more. omega arith, λ done. omega arith))
        (suc (length chars)) 0 [] (omega arith) (ground arith) (omega arith))
]

times_mono : (stride k k' : ℕ) → k' ≤ k + 1 → k' * stride ≤ k * stride + stride
times_mono stride k k' h = omega (arith, mul-le-mul_right stride h)

next_start_far :
    (overlap start size end : ℕ)
    → end ≡ start + size
    → overlap < size
    → start + (size - overlap) ≤ next_start overlap start end
unfolding next_start
next_start_far overlap start size end e h = ground arith

module _ (chars : Text) (solid : (i : ℕ) → is_space_at chars i ≡ false) where
  -- Without whitespace every window but the last is full.
  window_end_full :
      (max_chars start : ℕ)
      → window_end chars max_chars start ≡ min (start + max_chars) (length chars)
  unfolding window_end
  window_end_full max_chars start =
      rw
        (
          last_space-none chars start (min (start + max_chars) (length chars) - start) solid,
          window_end,
        )
        (ground arith)

  stride_keep :
      (size overlap start : ℕ) (ts : List Text)
      → overlap < size
      → start < length chars
      → length ts * (size - overlap) ≤ start
      → let end = window_end chars size start in
        let pushed = push_chunk ts (trim (slice chars start end)) in
        (end < length chars → length pushed * (size - overlap) ≤ next_start overlap start end)
        × (length chars ≤ end → length pushed * (size - overlap) < length chars + (size - overlap))
  stride_keep size overlap start ts small h c =
      let end = window_end chars size start in
      let pushed = push_chunk ts (trim (slice chars start end)) in
      let full = window_end_full size start in
      let l : length pushed ≤ length ts + 1 = length-push_chunk ts (trim (slice chars start end)) in
      let m = times_mono (size - overlap) (length ts) (length pushed) l in
      (
        λ more. let far = next_start_far overlap start size end (omega arith) small in omega arith,
        λ done. omega arith,
      )

  -- In a text without whitespace the windows advance by `max_chars` less the clamped overlap: the
  -- number of chunks times that stride is less than the number of characters plus the stride.
  pub chunk_text_stride :
      (max_chars overlap : ℕ)
      → let stride = window_size max_chars - clamp_overlap max_chars overlap in
        (ts : List Text) × (chunk_text chars max_chars overlap ≡ some ts)
        × (length ts * stride < length chars + stride)
  unfolding chunk_text
  chunk_text_stride max_chars overlap =
      let size = window_size max_chars in
      let back = clamp_overlap max_chars overlap in
      let small : back < size = omega arith in
      elim (Bool-cases (length chars == 0)) [
        | inl e ↦ ([], rw e, omega arith)
        | inr e ↦ rw e (
            chunk_loop_rule chars size back (omega arith)
              (λ start ts. length ts * (size - back) ≤ start)
              (λ ts. length ts * (size - back) < length chars + (size - back))
              (λ start ts h c. stride_keep size back start ts small h c) (suc (length chars)) 0 []
              (omega arith) (ground arith) (omega arith))
      ]

last_space-one :
    (chars : Text) (k : ℕ)
    → is_space_at chars 1 ≡ true
    → ((i : ℕ) → 2 ≤ i → i < k + 2 → is_space_at chars i ≡ false)
    → last_space chars 0 (suc (suc k)) ≡ some 1
unfolding last_space
last_space-one chars zero at none_later = rw at
last_space-one chars (suc k) at none_later =
    let shifted : 0 + suc (suc k) ≡ suc (suc k) = omega arith in
    rw (shifted, none_later (suc (suc k)) (omega arith) (omega arith))
      (last_space-one chars k at (λ i lo hi. none_later i lo (omega arith)))

-- A window whose only later whitespace is its second character ends there, and the next window
-- starts one character on, for every non-zero overlap and whatever the window size.
pub next_start_short :
    (chars : Text) (max_chars overlap : ℕ)
    → 2 ≤ max_chars
    → max_chars < length chars
    → 0 < overlap
    → is_space_at chars 1 ≡ true
    → ((i : ℕ) → 2 ≤ i → i < max_chars → is_space_at chars i ≡ false)
    → next_start overlap 0 (window_end chars max_chars 0) ≡ 1
unfolding next_start window_end
next_start_short chars max_chars overlap wide more back at none_later =
    let hard : min (0 + max_chars) (length chars) - 0 ≡ suc (suc (max_chars - 2)) = omega arith in
    rw
      (
        hard,
        last_space-one chars (max_chars - 2) at (λ i lo hi. none_later i lo (omega arith)),
        window_end,
      )
      (ground arith)
