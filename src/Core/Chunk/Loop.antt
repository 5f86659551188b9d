-- ===== src/Core/Chunk/Loop.antt =====
-- The rule for the loop: it ends, and what every window keeps holds of the result.
use pg_mnestic.Prelude.{
  ℕ, zero, suc, ◌-◌, ◌≤◌, ◌<◌, ◌≡◌, List, some, arith, leb, length, Bool-cases, inl, inr, lt→ltb,
  leb→le,
}
use pg_mnestic.Text.{Text, trim}
use pg_mnestic.Core.Chunk.{window_end, next_start, push_chunk, slice, chunk_loop}
use pg_mnestic.Core.Chunk.Window.{window_end_bounds, next_start_bounds}

module _ {κ μ} (chars : Text) (max_chars overlap : ℕ) (pos : 0 < max_chars)
    (P : ℕ → List Text → Type κ) (Q : List Text → Type μ)
    (keep : (start : ℕ) (chunks : List Text)
      → start < length chars
      → P start chunks
      → let end = window_end chars max_chars start in
        let pushed = push_chunk chunks (trim (slice chars start end)) in
        (end < length chars → P (next_start overlap start end) pushed)
        × (length chars ≤ end → Q pushed)) where
  -- One unit of fuel for each character left is enough.
  pub chunk_loop_rule :
      (fuel start : ℕ) (chunks : List Text)
      → length chars - start < fuel
      → start < length chars
      → P start chunks
      → (r : List Text) × (chunk_loop chars max_chars overlap fuel start chunks ≡ some r) × Q r
  unfolding chunk_loop
  chunk_loop_rule zero start chunks enough h p = absurd (omega arith)
  chunk_loop_rule (suc fuel) start chunks enough h p =
      let end = window_end chars max_chars start in
      let pushed = push_chunk chunks (trim (slice chars start end)) in
      let b = window_end_bounds chars max_chars start pos h in
      let nb = next_start_bounds overlap start end b.0 in
      elim (Bool-cases (leb (length chars) end)) [
        | inl e ↦ (pushed, rw (lt→ltb _ _ h, e), (keep start chunks h p).1 (leb→le _ _ e))
        | inr e ↦
            let more : end < length chars = ground arith in
            rw (lt→ltb _ _ h, e)
              (chunk_loop_rule fuel (next_start overlap start end) pushed (omega arith)
                (omega arith) ((keep start chunks h p).0 more))
      ]
