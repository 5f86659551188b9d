-- ===== src/Store/Db.antt =====
-- The rows, the errors and the transaction monad. Ids stand for UUIDs: `gen_random_uuid()` is the
-- next unused number. A tenant's rows carry its id, and every statement of the model filters by
-- tenant as its SQL does; the row-level security policies, which repeat that filter, are left out,
-- but for the one statement that does without it (`stamp` of Sources).
use pg_mnestic.Prelude.{ℕ, ◌≡◌, refl, ◌⊎◌, inl, inr, Bool, List, Option, none, some, arith}
use pg_mnestic.Text.{Text}
use pg_mnestic.Core.Types.{Time, MemType}
use pg_mnestic.Store.Span.{Span}

pub data Status : Type 0 where
  active superseded expired forgotten : Status

-- A row of mnestic_memory (0001_init.sql, 0004_memory_version.sql). `metadata` and the components of
-- the embedding are opaque.
pub record MemoryRow : Type 0 where
  pub id : ℕ
  pub tenant_id : ℕ
  pub actor_id : Text
  pub container_tags : List Text
  pub content : Option Text
  pub subject : Option Text
  pub attribute : Option Text
  pub value : Option Text
  pub single_valued : Bool
  pub confidence : ℕ
  pub is_static : Bool
  pub mem_type : MemType
  pub embedding : Option (List ℕ)
  pub source_id : Option ℕ
  pub valid_time : Span
  pub recorded_time : Span
  pub is_latest : Bool
  pub supersedes_id : Option ℕ
  pub forget_after : Option Time
  pub forget_reason : Option Text
  pub status : Status
  pub version : ℕ
  pub root_memory_id : Option ℕ
  pub document_date : Option Time
  pub event_date : Option Time
  pub metadata : Text

-- A row of mnestic_source (0001_init.sql, 0003_source_claim.sql, 0005_source_metadata.sql).
pub record SourceRow : Type 0 where
  pub id : ℕ
  pub tenant_id : ℕ
  pub actor_id : Text
  pub container_tags : List Text
  pub kind : Text
  pub raw : Text
  pub custom_id : Option Text
  pub needs_extraction : Bool
  pub ingested_at : Time
  pub claimed_at : Option Time
  pub metadata : Text

-- A row of mnestic_memory_relation (0006_memory_relation.sql).
pub record EdgeRow : Type 0 where
  pub tenant_id : ℕ
  pub actor_id : Text
  pub from_id : ℕ
  pub to_id : ℕ
  pub relation : Text

-- A row of mnestic_profile.
pub record ProfileRow : Type 0 where
  pub tenant_id : ℕ
  pub actor_id : Text
  pub static_facts : List Text
  pub dynamic_ctx : List Text
  pub refreshed_at : Time

-- A row of mnestic_document (0001_init.sql).
pub record DocumentRow : Type 0 where
  pub id : ℕ
  pub tenant_id : ℕ
  pub actor_id : Text
  pub source_id : Option ℕ
  pub container_tags : List Text
  pub title : Option Text
  pub uri : Option Text
  pub metadata : Text
  pub created_at : Time

-- A row of mnestic_chunk (0001_init.sql).
pub record ChunkRow : Type 0 where
  pub id : ℕ
  pub tenant_id : ℕ
  pub actor_id : Text
  pub document_id : ℕ
  pub container_tags : List Text
  pub ord : ℕ
  pub content : Text
  pub embedding : List ℕ
  pub created_at : Time

-- What a transaction sees; `now` is `now()`, fixed for the transaction. Newer rows come first: the
-- statements without ORDER BY promise no order.
pub record Db : Type 0 where
  pub memories : List MemoryRow
  pub sources : List SourceRow
  pub edges : List EdgeRow
  pub profiles : List ProfileRow
  pub documents : List DocumentRow
  pub chunks : List ChunkRow
  pub next_id : ℕ
  pub now : Time

-- The SQLSTATE of a database error, as far as the code tells them apart.
pub data SqlState : Type 0 where
  exclusion_violation serialization_failure deadlock_detected check_violation range_error : SqlState
  other : SqlState

-- crates/mnestic-engine/src/error.rs.
pub data Error : Type 0 where
  model : Text → Error
  db : SqlState → Error
  bad_id : Text → Error
  embedding_count_mismatch : ℕ → ℕ → Error
  embedding_dim : ℕ → ℕ → Error
  empty_document : Error
  supersede_failed : ℕ → Error
  conflict_retries_exhausted : ℕ → Error

pub data Result {ℓ} (A : Type ℓ) : Type ℓ where
  ok : A → Result A
  err : Error → Result A

-- Statements on one transaction: an error aborts it, and its database is dropped.
abbrev pub Tx : Type 0 → Type 0
Tx A = Db → Result (A × Db)

infixl 5 ◌>>=◌ ◌>>◌
abbrev pub ◌>>=◌ : {A B : Type 0} → Tx A → (A → Tx B) → Tx B
◌>>=◌ m f d = elim (m d) [ ok (a, d') ↦ f a d' | err e ↦ err e ]

abbrev pub ◌>>◌ : {B : Type 0} → Tx (Unit {0}) → Tx B → Tx B
m >> k = m >>= λ _. k

abbrev pub return : {A : Type 0} → A → Tx A
return a d = ok (a, d)

abbrev pub fail : {A : Type 0} → Error → Tx A
fail e d = err e

abbrev pub get_db : Tx Db
get_db d = ok (d, d)

abbrev pub lift : {A : Type 0} → Result A → Tx A
lift (ok a) d = ok (a, d)
lift (err e) d = err e

-- `.ok_or(e)`.
abbrev pub or_fail {ℓ} : {A : Type ℓ} → Option A → Error → Result A
or_fail none e = err e
or_fail (some a) e = ok a

-- The parts of a successful sequence.
pub >>=-eq-ok :
    {A B : Type 0} (m : Tx A) (f : A → Tx B) (d : Db) {r : B × Db}
    → (m >>= f) d ≡ ok r
    → (a : A) × (d' : Db) × (m d ≡ ok (a, d')) × (f a d' ≡ ok r)
>>=-eq-ok {A} m f d {r} h = go (m d) refl h
  where
    go :
        (o : Result (A × Db))
        → m d ≡ o
        → (elim o [ ok (a, d') ↦ f a d' | err e ↦ err e ]) ≡ ok r
        → (a : A) × (d' : Db) × (m d ≡ ok (a, d')) × (f a d' ≡ ok r)
    go (ok (a, d')) e g = (a, d', e, g)
    go (err e') e g = cc

pub ok-injective_db :
    {A : Type 0} {a b : A} {d d' : Db} → ◌≡◌ {A = Result (A × Db)} (ok (a, d)) (ok (b, d')) → d ≡ d'
ok-injective_db h = cc

pub Result-cases :
    {A : Type 0} (o : Result A) → ((a : A) × (o ≡ ok a)) ⊎ ((e : Error) × (o ≡ err e))
Result-cases (ok a) = inl (a, refl)
Result-cases (err e) = inr (e, refl)

pub lift-eq-ok :
    {A : Type 0} (r : Result A) {a : A} {d d' : Db} → lift r d ≡ ok (a, d') → (r ≡ ok a) × (d ≡ d')
lift-eq-ok (ok b) h = (ground arith, ground arith)
lift-eq-ok (err e) h = cc
