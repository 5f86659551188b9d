-- ===== src/Store/Preserve.antt =====
-- What a transaction's statements keep: any property of the database that each of them keeps is
-- kept by a sequence of them.
use pg_mnestic.Prelude.{ℕ, ◌≡◌, subst, arith, Bool, true, false, if◌then◌else◌, List, Option}
use pg_mnestic.Text.{Text}
use pg_mnestic.Core.Types.{Time}
use pg_mnestic.Store.Db.{Db, Tx, Result, ok, err, ◌>>=◌, >>=-eq-ok, lift, get_db}
use pg_mnestic.Store.Memories.{
  NewMemoryFull, insert_memory_full, close_prior, bump_confidence, forget_memory_by_id,
  insert_relation,
}
use pg_mnestic.Store.Sources.{insert_source, claim_pending_source, mark_source_extracted}
use pg_mnestic.Store.Versions.{Edit, supersede_with_new_version, forget_source_memories}
use pg_mnestic.Store.Documents.{NewChunk, insert_document, insert_chunk}
use pg_mnestic.Store.Profile.{refresh_profile}

-- The statement keeps `P`, if it succeeds.
abbrev pub Keeps : (Db → Type 0) → {A : Type 0} → Tx A → Type 0
Keeps P {A} m = (d d' : Db) (a : A) → m d ≡ ok (a, d') → P d → P d'

-- The statements of a write of memories, for one tenant.
pub record Statements (P : Db → Type 0) (tenant_id : ℕ) : Type 0 where
  pub on_insert : (m : NewMemoryFull) → m.tenant_id ≡ tenant_id → Keeps P (insert_memory_full m)
  pub on_close : (prior_id : ℕ) (at : Time) → Keeps P (close_prior tenant_id prior_id at)
  pub on_bump : (id delta : ℕ) → Keeps P (bump_confidence tenant_id id delta)
  pub on_refresh :
      (actor_id : Text) (a b c : ℕ) → Keeps P (refresh_profile tenant_id actor_id a b c)

-- The statements of the other operations, for one tenant.
pub record Changes (P : Db → Type 0) (tenant_id : ℕ) : Type 0 where
  pub on_source :
      (actor_id : Text) (tags : List Text) (kind content : Text) (custom_id : Option Text)
      (pending : Bool) (metadata : Text)
      → Keeps P (insert_source tenant_id actor_id tags kind content custom_id pending metadata)
  pub on_claim :
      (lease : ℕ) (locked : ℕ → Bool) → Keeps P (claim_pending_source tenant_id lease locked)
  pub on_extracted : (id : ℕ) (at : Time) → Keeps P (mark_source_extracted tenant_id id at)
  pub on_forget :
      (actor_id : Text) (id : ℕ) (reason : Option Text)
      → Keeps P (forget_memory_by_id tenant_id actor_id id reason)
  pub on_forget_source :
      (actor_id custom_id : Text) (reason : Option Text)
      → Keeps P (forget_source_memories tenant_id actor_id custom_id reason)
  pub on_version :
      (actor_id : Text) (prior_id : ℕ) (edit : Edit)
      → Keeps P (supersede_with_new_version tenant_id actor_id prior_id edit)
  pub on_relation :
      (actor_id : Text) (from_id to_id : ℕ) (relation : Text)
      → Keeps P (insert_relation tenant_id actor_id from_id to_id relation)

-- The statements that store a document, for one tenant.
pub record Storing (P : Db → Type 0) (tenant_id : ℕ) : Type 0 where
  pub on_document :
      (actor_id : Text) (source_id : Option ℕ) (tags : List Text) (title uri : Option Text)
      (metadata : Text)
      → Keeps P (insert_document tenant_id actor_id source_id tags title uri metadata)
  pub on_chunk : (c : NewChunk) → c.tenant_id ≡ tenant_id → Keeps P (insert_chunk c)

module _ (P : Db → Type 0) where
  pub >>=-Keeps :
      {A B : Type 0} (m : Tx A) (f : A → Tx B)
      → Keeps P m
      → ((a : A) → Keeps P (f a))
      → Keeps P (m >>= f)
  >>=-Keeps m f km kf d d' b h v =
      let (a, mid, e, g) = >>=-eq-ok m f d h in kf a mid d' b g (km d mid a e v)

  pub return-Keeps : {A : Type 0} (a : A) → Keeps P (λ d. ok (a, d))
  return-Keeps a d d' b h v = let same : d ≡ d' = ground arith in subst P same v

  pub lift-Keeps : {A : Type 0} (r : Result A) → Keeps P (lift r)
  lift-Keeps (ok a) d d' b h v = let same : d ≡ d' = ground arith in subst P same v
  lift-Keeps (err e) d d' b h v = ground arith

  pub if-Keeps :
      {A : Type 0} (b : Bool) (m n : Tx A) → Keeps P m → Keeps P n → Keeps P (if b then m else n)
  if-Keeps true m n km kn = km
  if-Keeps false m n km kn = kn

  pub get_db-Keeps : Keeps P get_db
  get_db-Keeps d d' e h v = let same : d ≡ d' = ground arith in subst P same v
