-- ===== src/Core/Chunk.antt =====
-- crates/mnestic-core/src/chunk.rs: `chunk_text`, over the characters of the text. Positions stay
-- below the number of characters, so `start + max_chars` is taken without overflow: it is computed
-- at `start = 0` first, and at a later start only if the text is longer than `max_chars`.
pub mod Window
pub mod Loop
pub mod Content
pub mod Coverage
pub mod Count
use pg_mnestic.Prelude.{
  ℕ, zero, suc, ◌+◌, ◌-◌, ◌/◌, min, max, Bool, true, false, ◌&&◌, not, List, [], ◌∷◌, ◌++◌, Option,
  none, some, ltb, leb, ◌==◌, if◌then◌else◌, length, get_elem?, take, drop, is_empty, get_last?,
}
use pg_mnestic.Text.{Text, is_whitespace, text_eq, trim}

-- `chars[i].is_whitespace()`, read at positions inside the text only.
unfoldable pub is_space_at : Text → ℕ → Bool
is_space_at chars i = elim (get_elem? chars i) [ none ↦ false | some c ↦ is_whitespace c ]

-- `(start..start + k).rev().find(|&i| chars[i].is_whitespace())`.
unfoldable pub last_space : Text → ℕ → ℕ → Option ℕ
last_space chars start zero = none
last_space chars start (suc k) =
    let earlier = last_space chars start k in
    if is_space_at chars (start + k) then some (start + k) else earlier

-- `end`: the hard end of the window, or the last whitespace before it.
unfoldable pub window_end : Text → ℕ → ℕ → ℕ
window_end chars max_chars start =
    let hard_end = min (start + max_chars) (length chars) in
    if ltb hard_end (length chars)
    then (elim (last_space chars start (hard_end - start)) [
      | none ↦ hard_end
      | some ws ↦ if ltb start ws then ws else hard_end
    ])
    else hard_end

-- `chars[start..end]`.
abbrev pub slice : Text → ℕ → ℕ → Text
slice chars start end = take (end - start) (drop start chars)

-- `chunks.last() == Some(trimmed)`.
abbrev pub is_last : List Text → Text → Bool
is_last chunks t = elim (get_last? chunks) [ none ↦ false | some c ↦ text_eq c t ]

-- The push, unless the piece is blank or repeats the previous chunk.
unfoldable pub push_chunk : List Text → Text → List Text
push_chunk chunks t =
    if not (is_empty t) && not (is_last chunks t) then chunks ++ t ∷ [] else chunks

-- `start` of the next window: back by the overlap, and always forward.
unfoldable pub next_start : ℕ → ℕ → ℕ → ℕ
next_start overlap start end = if ltb start (end - overlap) then end - overlap else end

-- The `while` loop; `none` means that the fuel ran out.
unfoldable pub chunk_loop : Text → ℕ → ℕ → ℕ → ℕ → List Text → Option (List Text)
chunk_loop chars max_chars overlap zero start chunks = none
chunk_loop chars max_chars overlap (suc fuel) start chunks =
    let end = window_end chars max_chars start in
    let pushed = push_chunk chunks (trim (slice chars start end)) in
    let rest = chunk_loop chars max_chars overlap fuel (next_start overlap start end) pushed in
    if ltb start (length chars)
    then (if leb (length chars) end then some pushed else rest)
    else some chunks

abbrev pub window_size : ℕ → ℕ
window_size max_chars = max max_chars 1

abbrev pub clamp_overlap : ℕ → ℕ → ℕ
clamp_overlap max_chars overlap = min overlap (window_size max_chars / 2)

unfoldable pub chunk_text : Text → ℕ → ℕ → Option (List Text)
chunk_text chars max_chars overlap =
    if length chars == 0
    then some []
    else chunk_loop chars (window_size max_chars) (clamp_overlap max_chars overlap)
        (suc (length chars)) 0 []
