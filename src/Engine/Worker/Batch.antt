-- ===== src/Engine/Worker/Batch.antt =====
-- A batch of the worker reaches every source that waits.
use pg_mnestic.Prelude.{ℕ, ◌≤◌, ◌<◌, ◌≡◌, Bool, false, List, Option, some, any, ◌⊎◌}
use pg_mnestic.Text.{Text}
use pg_mnestic.Core.Types.{Time, Candidate}
use pg_mnestic.Store.Db.{Db, Error, Result, ok, err}
use pg_mnestic.Store.Memories.{Uuids}
use pg_mnestic.Store.Sources.{PendingSource, is_claimable, is_offered}

module _ (uuids : Uuids) (to_lowercase : Text → Text) (synonyms : List (Text × Text)) where
  module _ (extract : PendingSource → Text → Result (List Candidate))
      (embed : PendingSource → List Text → Result (List (List ℕ))) (clock : ℕ → Time)
      (others : ℕ → ℕ → Db → Db) (tenant_id : ℕ) where
    module _ (locks : ℕ → ℕ → Bool) (outage : ℕ → Option Error) where
      -- Of the sources that could be claimed at `start` none is left, or none but those that others
      -- held locked in a round before `last`.
      pub Drained : ℕ → Time → ℕ → Db → Type 0
      Drained lease start last d =
          (any (is_claimable tenant_id start lease) d.sources ≡ false)
          ⊎ ((round : ℕ) × (round < last)
              × (any (is_offered tenant_id start lease (locks round)) d.sources ≡ false))

      -- How a batch ends: it has processed `n` sources, and the database is drained; or the claim of a
      -- round before `last` failed.
      pub Ends : ℕ → Time → ℕ → ℕ → Result (ℕ × Db) → Type 0
      Ends lease start most last r =
          ((n : ℕ) × (d' : Db) × (r ≡ ok (n, d')) × (n ≤ most) × Drained lease start last d')
          ⊎ ((round : ℕ) × (e : Error) × (round < last) × (outage round ≡ some e) × (r ≡ err e))
