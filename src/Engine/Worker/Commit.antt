-- ===== src/Engine/Worker/Commit.antt =====
-- When a worker's write commits.
use pg_mnestic.Prelude.{
  ℕ, ◌≡◌, refl, sym, ◌∙◌, ap, ◌⊎◌, inl, inr, Bool, true, false, List, [], ◌∷◌, map, Option, none,
  some, arith, if◌then◌else◌, any, Bool-cases,
}
use pg_mnestic.Text.{Text}
use pg_mnestic.Core.Types.{Time}
use pg_mnestic.Store.Db.{Db, SourceRow, ok, Result-cases}
use pg_mnestic.Store.Memories.{Uuids}
use pg_mnestic.Store.Sources.{is_held, extracted, mark_source_extracted}
use pg_mnestic.Engine.Write.{AddResult}
use pg_mnestic.Engine.Persist.{WriteRequest, persist_candidates}
use pg_mnestic.Engine.Worker.{persist_marked, persist_into_source}
use pg_mnestic.Engine.Worker.Sources.{persist_candidates-sources}

released :
    (tenant_id id : ℕ) (at : Time) (ss : List SourceRow)
    → any
        (is_held tenant_id id at)
        (map (λ s. if is_held tenant_id id at s then extracted s else s) ss)
      ≡ false
released tenant_id id at [] = refl
released tenant_id id at (s ∷ ss) =
    let ih = released tenant_id id at ss in
    elim (Bool-cases (is_held tenant_id id at s)) [ inl e ↦ ground arith | inr e ↦ ground arith ]

-- What a write of the worker did: it committed, and its claim is released, or nothing.
pub Outcome : ℕ → ℕ → Time → Db → Db → Option AddResult → Type 0
Outcome tenant_id id at d d' o =
    ((any (is_held tenant_id id at) d.sources ≡ true)
      × (any (is_held tenant_id id at) d'.sources ≡ false)
      × ((r : AddResult) × (o ≡ some r)))
    ⊎ ((any (is_held tenant_id id at) d.sources ≡ false) × (o ≡ none) × (d' ≡ d))

module _ (uuids : Uuids) (to_lowercase : Text → Text) (synonyms : List (Text × Text)) where
  persist_marked-eq-ok :
      (req : WriteRequest) (source_id : ℕ) (claimed_at : Time) (d d' : Db) (r : AddResult)
      (held : Bool)
      → persist_marked uuids to_lowercase synonyms req source_id claimed_at d ≡ ok ((r, held), d')
      → (held ≡ any (is_held req.tenant_id source_id claimed_at) d.sources)
        × (any (is_held req.tenant_id source_id claimed_at) d'.sources ≡ false)
  unfolding persist_marked mark_source_extracted
  persist_marked-eq-ok req source_id claimed_at d d' r held h =
      elim (Result-cases (persist_candidates uuids to_lowercase synonyms req source_id d)) [
        | inr (x, e) ↦ ground arith
        | inl ((a, mid), e) ↦
            let same =
              persist_candidates-sources uuids to_lowercase synonyms req source_id d.sources d mid a
                e refl in
            let p = is_held req.tenant_id source_id claimed_at in
            let flag : held ≡ any p mid.sources = ground arith in
            let rows : d'.sources ≡ map (λ s. if p s then extracted s else s) mid.sources =
              ground arith in
            (
              flag ∙ ap (any p) same,
              ap (any p) rows ∙ released req.tenant_id source_id claimed_at mid.sources,
            )
      ]

  -- A worker's write commits exactly when its claim still holds, and a commit releases the claim:
  -- where another worker has taken the source over, what this one wrote is rolled back.
  pub persist_into_source-Outcome :
      (req : WriteRequest) (source_id : ℕ) (claimed_at : Time) (d d' : Db) (o : Option AddResult)
      → persist_into_source uuids to_lowercase synonyms req source_id claimed_at d ≡ ok (o, d')
      → Outcome req.tenant_id source_id claimed_at d d' o
  unfolding persist_into_source Outcome
  persist_into_source-Outcome req source_id claimed_at d d' o h =
      elim (Result-cases (persist_marked uuids to_lowercase synonyms req source_id claimed_at d)) [
        | inr (x, e) ↦ ground arith
        | inl (((r, true), mid), e) ↦
            let parts = persist_marked-eq-ok req source_id claimed_at d mid r true e in
            let commits : d' ≡ mid = ground arith in
            inl (
              sym parts.0,
              ap (λ x. any (is_held req.tenant_id source_id claimed_at) x.sources) commits
                  ∙ parts.1,
              (r, ground arith),
            )
        | inl (((r, false), mid), e) ↦
            let parts = persist_marked-eq-ok req source_id claimed_at d mid r false e in
            inr (sym parts.0, ground arith, ground arith)
      ]

  -- A source's memories are committed at most once under one claim: after a commit, a further write
  -- with the same stamp leaves the database as it is.
  pub persist_into_source_once :
      (req req' : WriteRequest) (source_id : ℕ) (claimed_at : Time) (d d' d'' : Db) (r : AddResult)
      (o : Option AddResult)
      → req'.tenant_id ≡ req.tenant_id
      → persist_into_source uuids to_lowercase synonyms req source_id claimed_at d ≡ ok (some r, d')
      → persist_into_source uuids to_lowercase synonyms req' source_id claimed_at d' ≡ ok (o, d'')
      → (o ≡ none) × (d'' ≡ d')
  unfolding Outcome
  persist_into_source_once req req' source_id claimed_at d d' d'' r o tenant h g =
      elim (persist_into_source-Outcome req source_id claimed_at d d' (some r) h) [
        | inr (held, none_made, same) ↦ ground arith
        | inl (held, free, made) ↦
            elim (persist_into_source-Outcome req' source_id claimed_at d' d'' o g) [
              | inr (held', none_made, same) ↦ (none_made, same)
              | inl (held', free', made') ↦
                  let still : any (is_held req.tenant_id source_id claimed_at) d'.sources ≡ true =
                    ap (λ t. any (is_held t source_id claimed_at) d'.sources) (sym tenant)
                    ∙ held' in
                  ground arith
            ]
      ]
