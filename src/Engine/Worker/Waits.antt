-- ===== src/Engine/Worker/Waits.antt =====
-- No transaction of a round of the worker lets a further source wait.
use pg_mnestic.Prelude.{
  ℕ, zero, suc, ◌+◌, ◌≤◌, ◌≡◌, refl, ◌∙◌, ap, inl, inr, Bool, true, false, ◌&&◌, List, map, Option,
  arith, if◌then◌else◌, ltb, Bool-cases,
}
use pg_mnestic.Text.{Text}
use pg_mnestic.Core.Types.{Time, Candidate}
use pg_mnestic.Store.Db.{Db, SourceRow, Result, ok, err, Result-cases}
use pg_mnestic.Store.Memories.{Uuids}
use pg_mnestic.Store.Sources.{PendingSource, is_held, extracted, mark_source_extracted}
use pg_mnestic.Store.Sources.Waiting.{waiting, release-waiting}
use pg_mnestic.Engine.Write.{AddResult, max_conflict_retries}
use pg_mnestic.Engine.Persist.{WriteRequest, retry, is_transient_conflict, persist_candidates}
use pg_mnestic.Engine.Worker.Sources.{persist_candidates-sources}
use pg_mnestic.Engine.Worker.{
  persist_marked, persist_into_source, process_claimed, process_extracted, after_claimed,
  claimed_request,
}

retry-ok :
    {A : Type 0} (run : ℕ → Result A) (left attempt : ℕ) (r : A)
    → retry run left attempt ≡ ok r
    → (n : ℕ) × (run n ≡ ok r)
unfolding retry
retry-ok run zero attempt r h = ground arith
retry-ok run (suc left) attempt r h = elim (Result-cases (run attempt)) [
  | inl (a, e) ↦ (attempt, ground arith)
  | inr (x, e) ↦
      elim (Bool-cases (is_transient_conflict x && ltb (attempt + 1) max_conflict_retries)) [
        | inl t ↦ retry-ok run left (suc attempt) r (ground arith)
        | inr t ↦ ground arith
      ]
]

pub after_claimed-waiting :
    (tenant_id lease : ℕ) (now : Time) (processed : ℕ) (d : Db) (r : Result (Option AddResult × Db))
    → ((d' : Db) (o : Option AddResult)
        → r ≡ ok (o, d')
        → waiting tenant_id lease now d'.sources ≤ waiting tenant_id lease now d.sources)
    → (waiting tenant_id lease now (after_claimed processed d r).1.sources
        ≤ waiting tenant_id lease now d.sources)
      × ((after_claimed processed d r).0 ≤ suc processed)
unfolding after_claimed
after_claimed-waiting tenant_id lease now processed d (ok (o, d')) h = (h d' o refl, omega arith)
after_claimed-waiting tenant_id lease now processed d (err e) h = (omega arith, omega arith)

module _ (uuids : Uuids) (to_lowercase : Text → Text) (synonyms : List (Text × Text)) where
  persist_marked-rows :
      (req : WriteRequest) (source_id : ℕ) (claimed_at : Time) (d d' : Db) (r : AddResult × Bool)
      → persist_marked uuids to_lowercase synonyms req source_id claimed_at d ≡ ok (r, d')
      → d'.sources
        ≡ map
            (λ s. if is_held req.tenant_id source_id claimed_at s then extracted s else s)
            d.sources
  unfolding persist_marked mark_source_extracted
  persist_marked-rows req source_id claimed_at d d' r h =
      elim (Result-cases (persist_candidates uuids to_lowercase synonyms req source_id d)) [
        | inr (x, e) ↦ ground arith
        | inl ((a, mid), e) ↦
            let same =
              persist_candidates-sources uuids to_lowercase synonyms req source_id d.sources d mid a
                e refl in
            let mark = λ (s : SourceRow).
              if is_held req.tenant_id source_id claimed_at s then extracted s else s in
            let rows : d'.sources ≡ map mark mid.sources = ground arith in rows ∙ ap (map mark) same
      ]

  -- No write of the worker lets a further source wait.
  persist_into_source-waiting :
      (tenant_id lease : ℕ) (now : Time) (req : WriteRequest) (source_id : ℕ) (claimed_at : Time)
      (d d' : Db) (o : Option AddResult)
      → persist_into_source uuids to_lowercase synonyms req source_id claimed_at d ≡ ok (o, d')
      → waiting tenant_id lease now d'.sources ≤ waiting tenant_id lease now d.sources
  unfolding persist_into_source
  persist_into_source-waiting tenant_id lease now req source_id claimed_at d d' o h =
      elim (Result-cases (persist_marked uuids to_lowercase synonyms req source_id claimed_at d)) [
        | inr (x, e) ↦ ground arith
        | inl (((r, true), mid), e) ↦
            let commits : d' ≡ mid = ground arith in
            let rows =
              ap (λ (x : Db). x.sources) commits
              ∙ persist_marked-rows req source_id claimed_at d mid (r, true) e in
            let same = ap (waiting tenant_id lease now) rows in
            let less =
              release-waiting tenant_id source_id lease req.tenant_id claimed_at now d.sources in
            omega arith
        | inl (((r, false), mid), e) ↦
            let undone : d' ≡ d = ground arith in
            let same = ap (λ (x : Db). waiting tenant_id lease now x.sources) undone in omega arith
      ]

  module _ (extract : PendingSource → Text → Result (List Candidate))
      (embed : PendingSource → List Text → Result (List (List ℕ))) (clock : ℕ → Time)
      (others : ℕ → ℕ → Db → Db) (tenant_id : ℕ) where
    pub process_extracted-waiting :
        (lease : ℕ) (now : Time)
        → ((round step : ℕ) (d : Db)
            → waiting tenant_id lease now (others round step d).sources
              ≤ waiting tenant_id lease now d.sources)
        → (round : ℕ) (pending : PendingSource) → (found : Result (List Candidate × List (List ℕ)))
        → (d d' : Db) (o : Option AddResult)
        → process_extracted uuids to_lowercase synonyms extract embed clock others tenant_id round
            pending found d
          ≡ ok (o, d')
        → waiting tenant_id lease now d'.sources ≤ waiting tenant_id lease now d.sources
    unfolding process_extracted process_claimed
    process_extracted-waiting lease now quiet round pending (err e) d d' o h = ground arith
    process_extracted-waiting lease now quiet round pending (ok (candidates, embeddings)) d d' o h =
        let req = claimed_request tenant_id pending candidates embeddings clock in
        let (n, e) =
          retry-ok
            (λ attempt.
              persist_into_source uuids to_lowercase synonyms req pending.id pending.claimed_at
                (others round (suc attempt) d))
            max_conflict_retries 0 (o, d') h in
        let less =
          persist_into_source-waiting tenant_id lease now req pending.id pending.claimed_at
            (others round (suc n) d) d' o e in
        let before = quiet round (suc n) d in omega arith
