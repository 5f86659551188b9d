-- ===== src/Engine/Extract.antt =====
-- `extract_and_embed`: the extractor's and the embedder's answers are put together.
pub mod Laws
use pg_mnestic.Prelude.{
  ℕ, Bool, true, false, List, [], ◌∷◌, map, ◌==◌, if◌then◌else◌, length, is_empty,
}
use pg_mnestic.Text.{Text}
use pg_mnestic.Core.Types.{Candidate}
use pg_mnestic.Store.Db.{Error, embedding_count_mismatch, Result, ok, err}
use pg_mnestic.Engine.Persist.{retain_nonblank}

abbrev pub texts_of : List Candidate → List Text
texts_of = map (λ (c : Candidate). c.content)

-- The embedder is not asked about nothing.
unfoldable pub embed_all : (List Text → Result (List (List ℕ))) → List Text → Result (List (List ℕ))
embed_all embed [] = ok []
embed_all embed (t ∷ ts) = embed (t ∷ ts)

unfoldable pub check_count :
    List Candidate → Result (List (List ℕ)) → Result (List Candidate × List (List ℕ))
check_count candidates (err e) = err e
check_count candidates (ok vectors) =
    if length vectors == length candidates
    then ok (candidates, vectors)
    else err (embedding_count_mismatch (length candidates) (length vectors))

unfoldable pub embed_extracted :
    (List Text → Result (List (List ℕ)))
    → Result (List Candidate)
    → Result (List Candidate × List (List ℕ))
unfolding embed_all check_count retain_nonblank
embed_extracted embed (err e) = err e
embed_extracted embed (ok found) =
    let candidates = retain_nonblank found in
    check_count candidates (embed_all embed (texts_of candidates))

-- `extract_and_embed`, for the extractor's answer on the content.
unfoldable pub extract_and_embed :
    (Text → Result (List Candidate))
    → (List Text → Result (List (List ℕ)))
    → Text
    → Result (List Candidate × List (List ℕ))
unfolding embed_extracted
extract_and_embed extract embed content = embed_extracted embed (extract content)
