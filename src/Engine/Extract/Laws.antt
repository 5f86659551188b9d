-- ===== src/Engine/Extract/Laws.antt =====
-- What reaches the transaction.
use pg_mnestic.Prelude.{
  ℕ, ◌≡◌, sym, ◌∙◌, ap, false, List, [], ◌∷◌, length, is_empty, All, arith, Bool-cases, inl, inr,
  subst,
}
use pg_mnestic.Text.{Text, trim}
use pg_mnestic.Core.Types.{Candidate}
use pg_mnestic.Store.Db.{Result, ok, err, Result-cases}
use pg_mnestic.Engine.Persist.{retain_nonblank}
use pg_mnestic.Engine.Extract.{embed_all, check_count, embed_extracted, extract_and_embed, texts_of}

kept_nonblank :
    (cs : List Candidate)
    → All (λ (c : Candidate). is_empty (trim c.content) ≡ false) (retain_nonblank cs)
unfolding retain_nonblank
kept_nonblank [] = tt
kept_nonblank (c ∷ cs) = elim (Bool-cases (is_empty (trim c.content))) [
  | inl e ↦ rw e (kept_nonblank cs)
  | inr e ↦ rw e (e, kept_nonblank cs)
]

check_count-eq-ok :
    (cs : List Candidate) (r : Result (List (List ℕ))) (ds : List Candidate) (vs : List (List ℕ))
    → check_count cs r ≡ ok (ds, vs)
    → (ds ≡ cs) × (length vs ≡ length cs)
unfolding check_count
check_count-eq-ok cs (err e) ds vs h = ground arith
check_count-eq-ok cs (ok ws) ds vs h = (ground arith, ground arith)

-- Where extraction and embedding succeed, every candidate has text that is not blank, there is one
-- vector for each, and the candidates are the extracted ones less the blank.
pub extract_and_embed-eq-ok :
    (extract : Text → Result (List Candidate)) (embed : List Text → Result (List (List ℕ)))
    (content : Text) (cs : List Candidate) (vs : List (List ℕ))
    → extract_and_embed extract embed content ≡ ok (cs, vs)
    → (found : List Candidate) × (extract content ≡ ok found)
      × (cs ≡ retain_nonblank found)
      × All (λ (c : Candidate). is_empty (trim c.content) ≡ false) cs
      × (length vs ≡ length cs)
unfolding extract_and_embed embed_extracted
extract_and_embed-eq-ok extract embed content cs vs h = elim (Result-cases (extract content)) [
  | inr (x, e) ↦ ground arith
  | inl (found, e) ↦
      let answer = embed_all embed (texts_of (retain_nonblank found)) in
      let checked : check_count (retain_nonblank found) answer ≡ ok (cs, vs) =
        sym (ap (embed_extracted embed) e) ∙ h in
      let parts = check_count-eq-ok (retain_nonblank found) answer cs vs checked in
      (
        found,
        e,
        parts.0,
        subst (λ ds. All (λ (c : Candidate). is_empty (trim c.content) ≡ false) ds) (sym parts.0)
            (kept_nonblank found),
        parts.1 ∙ ap length (sym parts.0),
      )
]
