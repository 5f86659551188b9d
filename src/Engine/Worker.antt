-- ===== src/Engine/Worker.antt =====
-- The worker: the loop of `process_pending`, and its write, `persist_into_source`, which clears the
-- source's flag in the commit that has its memories.
pub mod Sources
pub mod Commit
pub mod Waits
pub mod Batch
pub mod Tests
use pg_mnestic.Prelude.{
  ℕ, zero, suc, ◌+◌, Bool, true, false, List, [], ◌∷◌, Option, none, some, if◌then◌else◌, max, ◌*◌,
  ℤ, pos, negsuc,
}
use pg_mnestic.Text.{Text, codes}
use pg_mnestic.Core.Types.{Time, Candidate}
use pg_mnestic.Store.Db.{Db, Error, Result, ok, err, Tx, ◌>>=◌, return}
use pg_mnestic.Store.Memories.{Uuids}
use pg_mnestic.Store.Sources.{
  enqueue_source, source_id_by_custom_id, PendingSource, claim_pending_source,
  mark_source_extracted,
}
use pg_mnestic.Engine.Write.{AddResult, max_conflict_retries}
use pg_mnestic.Engine.Extract.{extract_and_embed}
use pg_mnestic.Engine.Persist.{WriteRequest, persist_candidates, retry, text_or_empty, id_or_nil}

-- `EnqueueResult`.
pub record EnqueueResult : Type 0 where
  pub source_id : ℕ
  pub queued : Bool

-- `enqueue`.
unfoldable pub enqueue : ℕ → Text → List Text → Text → Text → Option Text → Text → Tx EnqueueResult
unfolding enqueue_source source_id_by_custom_id
enqueue tenant_id actor_id container_tags content kind custom_id metadata = do
  source ← enqueue_source tenant_id actor_id container_tags kind content custom_id metadata
  elim source [
    | some source_id ↦ return (record { source_id = source_id; queued = true })
    | none ↦ (do
      existing ← source_id_by_custom_id tenant_id (text_or_empty custom_id)
      return (record { source_id = id_or_nil existing; queued = false }))
  ]

-- The request of `process_claimed`, from what the model answered for the source's content.
unfoldable pub claimed_request :
    ℕ → PendingSource → List Candidate → List (List ℕ) → (ℕ → Time) → WriteRequest
claimed_request tenant_id pending candidates embeddings clock = record {
  tenant_id = tenant_id;
  actor_id = pending.actor_id;
  container_tags = pending.container_tags;
  content = pending.content;
  kind = codes "conversation";
  custom_id = none;
  as_of = none;
  metadata = pending.metadata;
  candidates = candidates;
  embeddings = embeddings;
  clock = clock;
}

-- The last step of `persist_into_source`: commit where the claim still holds, else roll back to `d`.
abbrev pub commit_if_held : Db → Result ((AddResult × Bool) × Db) → Result (Option AddResult × Db)
commit_if_held d (ok ((result, true), d')) = ok (some result, d')
commit_if_held d (ok ((result, false), d')) = ok (none, d)
commit_if_held d (err e) = err e

-- A round of `process_pending` after its claim: the sources processed, and the database. What a
-- failed source wrote is rolled back.
unfoldable pub after_claimed : ℕ → Db → Result (Option AddResult × Db) → ℕ × Db
after_claimed processed d (ok (o, d')) = (suc processed, d')
after_claimed processed d (err e) = (processed, d)

-- The lease of at least a second, in microseconds.
unfoldable pub lease_of : ℤ → ℕ
lease_of (pos secs) = max secs 1 * 1000000
lease_of (negsuc n) = 1000000

module _ (uuids : Uuids) (to_lowercase : Text → Text) (synonyms : List (Text × Text)) where
  unfoldable pub persist_marked : WriteRequest → ℕ → Time → Tx (AddResult × Bool)
  unfolding persist_candidates mark_source_extracted
  persist_marked req source_id claimed_at = do
    result ← persist_candidates uuids to_lowercase synonyms req source_id
    still_ours ← mark_source_extracted req.tenant_id source_id claimed_at
    return (result, still_ours)

  -- `persist_into_source`: what it returns, and the database that it leaves.
  unfoldable pub persist_into_source : WriteRequest → ℕ → Time → Tx (Option AddResult)
  unfolding persist_marked
  persist_into_source req source_id claimed_at d =
      commit_if_held d (persist_marked req source_id claimed_at d)

  -- `process_claimed` after the extraction, less the relation pass; `seen n` is the committed
  -- database that attempt `n` starts from.
  unfoldable pub process_claimed :
      WriteRequest → PendingSource → (ℕ → Db) → Result (Option AddResult × Db)
  unfolding persist_into_source retry
  process_claimed req pending seen =
      retry (λ attempt. persist_into_source req pending.id pending.claimed_at (seen attempt))
        max_conflict_retries 0

  module _ (extract : PendingSource → Text → Result (List Candidate))
      (embed : PendingSource → List Text → Result (List (List ℕ))) (clock : ℕ → Time)
      (others : ℕ → ℕ → Db → Db) (tenant_id : ℕ) where
    -- `process_claimed`, from the extraction on.
    unfoldable pub process_extracted :
        ℕ
        → PendingSource
        → Result (List Candidate × List (List ℕ))
        → Db
        → Result (Option AddResult × Db)
    unfolding process_claimed claimed_request
    process_extracted round pending (err e) d = err e
    process_extracted round pending (ok (candidates, embeddings)) d =
        process_claimed (claimed_request tenant_id pending candidates embeddings clock) pending
          (λ attempt. others round (suc attempt) d)

    -- `locks round` are the sources that other transactions hold locked when the round claims, and
    -- `outage round` is the failure of the connection or the server that its claim meets.
    module _ (locks : ℕ → ℕ → Bool) (outage : ℕ → Option Error) where
      -- `self.store.claim_pending_source(..)` of a round.
      unfoldable pub claim_in_round : ℕ → ℕ → Tx (Option PendingSource)
      unfolding claim_pending_source
      claim_in_round lease round d = elim (outage round) [
        | some e ↦ err e
        | none ↦ claim_pending_source tenant_id lease (locks round) d
      ]

      -- The loop of `process_pending`, with the rounds left. `others round step d` is the database
      -- that a transaction of the round starts from, where `d` is what the worker left before: step
      -- 0 is the claim, the others are the attempts. A failure to claim aborts the batch, no source
      -- offered ends it.
      unfoldable pub process_rounds : ℕ → ℕ → ℕ → ℕ → Db → Result (ℕ × Db)
      unfolding process_extracted after_claimed claim_in_round extract_and_embed
      process_rounds lease zero round processed d = ok (processed, d)
      process_rounds lease (suc left) round processed d =
          elim (claim_in_round lease round (others round 0 d)) [
            | err e ↦ err e
            | ok (none, d') ↦ ok (processed, d')
            | ok (some pending, d') ↦
                let next = after_claimed processed d' (
                  process_extracted round pending
                    (extract_and_embed (extract pending) (embed pending) pending.content) d') in
                process_rounds lease left (suc round) next.0 next.1
          ]

      -- `process_pending`: how many sources were processed, and the database.
      unfoldable pub process_pending : ℤ → ℕ → Db → Result (ℕ × Db)
      unfolding process_rounds lease_of
      process_pending lease_secs max_sources d =
          process_rounds (lease_of lease_secs) max_sources 0 0 d
