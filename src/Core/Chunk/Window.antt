-- ===== src/Core/Chunk/Window.antt =====
-- Where a window ends and the next one starts.
use pg_mnestic.Prelude.{
  ℕ, zero, suc, ◌+◌, ◌-◌, ◌≤◌, ◌<◌, min, ◌≡◌, refl, false, none, some, arith, length, Option-cases,
  inl, inr,
}
use pg_mnestic.Text.{Text}
use pg_mnestic.Core.Chunk.{is_space_at, last_space, window_end, next_start}

last_space_bounds :
    (chars : Text) (start k ws : ℕ)
    → last_space chars start k ≡ some ws
    → (start ≤ ws) × (ws < start + k)
unfolding last_space
last_space_bounds chars start zero ws h = ground arith
last_space_bounds chars start (suc k) ws h = ground (arith, last_space_bounds chars start k ws)

-- With no whitespace in the text none is found.
pub last_space-none :
    (chars : Text) (start k : ℕ)
    → ((i : ℕ) → is_space_at chars i ≡ false)
    → last_space chars start k ≡ none
unfolding last_space
last_space-none chars start zero h = refl
last_space-none chars start (suc k) h = rw (h (start + k)) (last_space-none chars start k h)

-- A window is not empty, is at most `max_chars` long, and lies inside the text.
pub window_end_bounds :
    (chars : Text) (max_chars start : ℕ)
    → 0 < max_chars
    → start < length chars
    → (start < window_end chars max_chars start)
      × (window_end chars max_chars start ≤ start + max_chars)
      × (window_end chars max_chars start ≤ length chars)
unfolding window_end
window_end_bounds chars max_chars start pos h =
    let hard_end = min (start + max_chars) (length chars) in
    elim (Option-cases (last_space chars start (hard_end - start))) [
      | inl e ↦ rw (e, window_end) (ground arith)
      | inr (ws, e) ↦
          let b = last_space_bounds chars start (hard_end - start) ws e in
          rw (e, window_end) (ground arith)
    ]

-- The next window starts behind this one's start, and not behind its end.
pub next_start_bounds :
    (overlap start end : ℕ)
    → start < end
    → (start < next_start overlap start end) × (next_start overlap start end ≤ end)
unfolding next_start
next_start_bounds overlap start end h = ground arith
