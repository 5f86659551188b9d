-- ===== src/Core/Tests.antt =====
-- Chunking and resolution on small inputs.
use pg_mnestic.Prelude.{
  ℕ, zero, suc, ◌+◌, ◌-◌, ◌*◌, ◌≤◌, ◌<◌, ◌≡◌, refl, true, false, List, [], ◌∷◌, none, some, arith,
  length, All,
}
use pg_mnestic.Text.{Text, codes, is_whitespace, trim, text_eq}
use pg_mnestic.Core.Types.{Candidate, ExistingMatch, fact, unknown}
use pg_mnestic.Core.Resolve.{decide}
use pg_mnestic.Core.Resolve.Laws.{Resolves, decide-Resolves}
use pg_mnestic.Core.Chunk.{
  chunk_text, window_size, clamp_overlap, next_start, window_end, is_space_at, chunk_loop,
  push_chunk, last_space,
}
use pg_mnestic.Core.Chunk.Content.{IsChunk, NoRepeat, chunk_text_chunks}
use pg_mnestic.Core.Chunk.Coverage.{IsCovered, chunk_text_covers}
use pg_mnestic.Core.Chunk.Count.{chunk_text-length_le, chunk_text_stride, next_start_short}

chunk_text_words :
    chunk_text (codes "ab cd ef") 5 1 ≡ some (codes "ab" ∷ codes "b cd" ∷ codes "d ef" ∷ [])
unfolding chunk_text chunk_loop window_end last_space is_space_at is_whitespace next_start
    push_chunk trim text_eq
chunk_text_words = refl

chunk_text_chunks_example :
    (ts : List Text) × (chunk_text (codes "ab cd ef") 5 1 ≡ some ts)
    × (All (IsChunk (window_size 5)) ts × NoRepeat ts)
chunk_text_chunks_example = chunk_text_chunks (codes "ab cd ef") 5 1

chunk_text_covers_example : IsCovered (codes "a b") (window_size 2) (codes "a" ∷ codes "b" ∷ []) 2
unfolding chunk_text chunk_loop window_end last_space is_space_at is_whitespace next_start
    push_chunk trim text_eq
chunk_text_covers_example = chunk_text_covers (codes "a b") 2 0 2 b'b' refl refl refl

chunk_text-length_le_example :
    (ts : List Text) × (chunk_text (codes "ab cd ef") 5 1 ≡ some ts)
    × (length ts ≤ length (codes "ab cd ef"))
chunk_text-length_le_example = chunk_text-length_le (codes "ab cd ef") 5 1

abbrev candidate : Candidate
candidate = record {
  content = codes "Lives in SF";
  subject = some (codes "user");
  attribute = some (codes "location");
  value = some (codes "SF");
  single_valued = true;
  mem_type = fact;
  confidence = 900;
  is_static = false;
  temporal = unknown;
  forget_after = none;
}

abbrev match : Text → Text → ExistingMatch
match id value = record { id = id; value = some value; single_valued = true; valid_from = some 1 }

decide-Resolves_example :
    Resolves candidate
      (match (codes "m1") (codes "NYC") ∷ match (codes "m2") (codes "LA") ∷ [])
      (decide candidate (match (codes "m1") (codes "NYC") ∷ match (codes "m2") (codes "LA") ∷ []))
decide-Resolves_example =
    decide-Resolves candidate
      (match (codes "m1") (codes "NYC") ∷ match (codes "m2") (codes "LA") ∷ [])

next_start_short_example : next_start 1 0 (window_end (codes "a bcdef") 4 0) ≡ 1
unfolding is_space_at is_whitespace
next_start_short_example =
    next_start_short (codes "a bcdef") 4 1 (omega arith) (omega arith) (omega arith) refl solid
  where
    solid : (i : ℕ) → 2 ≤ i → i < 4 → is_space_at (codes "a bcdef") i ≡ false
    solid zero h k = ground arith
    solid (suc zero) h k = ground arith
    solid (suc (suc zero)) h k = refl
    solid (suc (suc (suc zero))) h k = refl
    solid (suc (suc (suc (suc n)))) h k = absurd (omega (arith, k))

abc_solid : (i : ℕ) → is_space_at (codes "abc") i ≡ false
unfolding is_space_at is_whitespace
abc_solid zero = refl
abc_solid (suc zero) = refl
abc_solid (suc (suc zero)) = refl
abc_solid (suc (suc (suc n))) = refl

chunk_text_stride_example :
    let stride = window_size 2 - clamp_overlap 2 1 in
    (ts : List Text) × (chunk_text (codes "abc") 2 1 ≡ some ts)
    × (length ts * stride < length (codes "abc") + stride)
chunk_text_stride_example = chunk_text_stride (codes "abc") abc_solid 2 1
