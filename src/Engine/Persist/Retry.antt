-- ===== src/Engine/Persist/Retry.antt =====
-- The bounded retry.
use pg_mnestic.Prelude.{
  ℕ, zero, suc, ◌+◌, ◌<◌, ◌≡◌, ◌⊎◌, inl, inr, Bool, true, false, List, arith, Bool-cases, lt→ltb,
}
use pg_mnestic.Text.{Text}
use pg_mnestic.Store.Db.{Db, Result, ok, err, Result-cases}
use pg_mnestic.Store.Memories.{Uuids}
use pg_mnestic.Engine.Write.{max_conflict_retries}
use pg_mnestic.Engine.Persist.{WriteRequest, retry, is_transient_conflict, persist, add_at}

-- Does the attempt end in a conflict that another may clear?
unfoldable pub has_conflict : {A : Type 0} → Result A → Bool
has_conflict (ok a) = false
has_conflict (err e) = is_transient_conflict e

-- From `attempt` on: each attempt before the last ends in a transient conflict, the last one is the
-- result, and it is no transient conflict unless it is attempt number `max_conflict_retries`.
pub data Attempts {A : Type 0} (run : ℕ → Result A) (result : Result A) : ℕ → Type 0 where
  final :
      {attempt : ℕ}
      → attempt < max_conflict_retries
      → result ≡ run attempt
      → (has_conflict (run attempt) ≡ false) ⊎ (attempt + 1 ≡ max_conflict_retries)
      → Attempts run result attempt
  again :
      {attempt : ℕ}
      → attempt + 1 < max_conflict_retries
      → has_conflict (run attempt) ≡ true
      → Attempts run result (suc attempt)
      → Attempts run result attempt

retry-Attempts :
    {A : Type 0} (run : ℕ → Result A) (left attempt : ℕ)
    → attempt + suc left ≡ max_conflict_retries
    → Attempts run (retry run (suc left) attempt) attempt
unfolding retry has_conflict
retry-Attempts run zero attempt h = elim (Result-cases (run attempt)) [
  | inl (a, e) ↦ final (omega arith) (rw (e, retry)) (inl (rw (e, has_conflict)))
  | inr (x, e) ↦ final (omega arith) (rw (e, retry) (ground arith)) (inr (omega arith))
]
retry-Attempts run (suc left) attempt h = elim (Result-cases (run attempt)) [
  | inl (a, e) ↦ final (omega arith) (rw (e, retry)) (inl (rw (e, has_conflict)))
  | inr (x, e) ↦ elim (Bool-cases (is_transient_conflict x)) [
    | inr t ↦ final (omega arith) (rw (e, retry, t)) (inl (rw (e, has_conflict) t))
    | inl t ↦
        let more : attempt + 1 < max_conflict_retries = omega arith in
        again more (rw (e, has_conflict) t)
          (rw (e, retry, t, lt→ltb _ _ more) (retry-Attempts run left (suc attempt) (omega arith)))
  ]
]

-- `add_at` makes at most three attempts, each after a transient conflict of the one before, and
-- returns the result of the last one: the first that is no transient conflict, or the third.
pub add_at-Attempts :
    (uuids : Uuids) (to_lowercase : Text → Text) (synonyms : List (Text × Text))
    (req : WriteRequest) (seen : ℕ → Db)
    → Attempts
        (λ n. persist uuids to_lowercase synonyms req (seen n))
        (add_at uuids to_lowercase synonyms req seen)
        0
unfolding add_at
add_at-Attempts uuids to_lowercase synonyms req seen = retry-Attempts _ 2 0 (omega arith)
