-- ===== src/Engine/Steps.antt =====
-- The transactions that the engine commits, as steps of the database.
pub mod Tests
use pg_mnestic.Prelude.{
  ℕ, ◌≤◌, ◌≡◌, refl, sym, ◌∙◌, ap, subst, Bool, true, false, List, [], Option, none, some, arith,
  inl, inr,
}
use pg_mnestic.Text.{Text}
use pg_mnestic.Core.Types.{Time, Candidate, RelationEdge}
use pg_mnestic.Store.Db.{Db, SourceRow, Result, ok, err, Result-cases}
use pg_mnestic.Store.Memories.{Uuids}
use pg_mnestic.Store.Memories.Invariant.{IsValid}
use pg_mnestic.Store.Preserve.{Keeps, Statements, Changes, Storing, >>=-Keeps, return-Keeps}
use pg_mnestic.Store.Sources.{PendingSource, insert_source, claim_pending_source}
use pg_mnestic.Store.Versions.{Edit, MemoryVersion}
use pg_mnestic.Store.Isolation.{outside, HasOutside}
use pg_mnestic.Store.Isolation.Writes.{Outside-Statements}
use pg_mnestic.Store.Isolation.Edits.{Outside-Changes}
use pg_mnestic.Engine.Write.{AddResult}
use pg_mnestic.Engine.Persist.{WriteRequest, persist, text_or_empty, id_or_nil}
use pg_mnestic.Engine.Persist.Keeps.{persist-Keeps, persist_candidates-Keeps, source_id-Keeps}
use pg_mnestic.Engine.Persist.Laws.{IsValid-Statements, IsValid-Changes}
use pg_mnestic.Engine.Worker.{EnqueueResult, enqueue, persist_marked, persist_into_source}
use pg_mnestic.Store.Isolation.Texts.{Outside-Storing}
use pg_mnestic.Engine.Documents.{DocumentRequest, DocumentResult, ingest_document}
use pg_mnestic.Engine.Documents.Keeps.{ingest_document-Keeps, IsValid-Storing}
use pg_mnestic.Engine.Relate.{write_edges}
use pg_mnestic.Engine.Relate.Keeps.{write_edges-Keeps}
use pg_mnestic.Engine.Forget.{forget, forget_by_id, update_memory}
use pg_mnestic.Engine.Forget.Content.{forget_by_content}
use pg_mnestic.Engine.Forget.Keeps.{
  forget-Keeps, forget_by_id-Keeps, update_memory-Keeps, forget_by_content-Keeps,
}

-- The database before the first write.
abbrev pub empty_at : Time → Db
empty_at now = record {
  memories = [];
  sources = [];
  edges = [];
  profiles = [];
  documents = [];
  chunks = [];
  next_id = 0;
  now = now;
}

module _ (uuids : Uuids) (to_lowercase : Text → Text) (synonyms : List (Text × Text)) where
  -- A transaction of the tenant that starts from `d` and commits.
  pub data Step (tenant_id : ℕ) (d : Db) : Db → Type 0 where
    added :
        {d' : Db} (req : WriteRequest) (r : AddResult)
        → req.tenant_id ≡ tenant_id
        → persist uuids to_lowercase synonyms req d ≡ ok (r, d')
        → Step tenant_id d d'
    enqueued :
        {d' : Db} (actor_id : Text) (tags : List Text) (content kind : Text)
        (custom_id : Option Text) (metadata : Text) (r : EnqueueResult)
        → enqueue tenant_id actor_id tags content kind custom_id metadata d ≡ ok (r, d')
        → Step tenant_id d d'
    claimed :
        {d' : Db} (lease : ℕ) (locked : ℕ → Bool) (o : Option PendingSource)
        → claim_pending_source tenant_id lease locked d ≡ ok (o, d')
        → Step tenant_id d d'
    worked :
        {d' : Db} (req : WriteRequest) (source_id : ℕ) (claimed_at : Time) (o : Option AddResult)
        → req.tenant_id ≡ tenant_id
        → persist_into_source uuids to_lowercase synonyms req source_id claimed_at d ≡ ok (o, d')
        → Step tenant_id d d'
    source_forgotten :
        {d' : Db} (actor_id custom_id : Text) (reason : Option Text) (ids : List ℕ)
        → forget tenant_id actor_id custom_id reason d ≡ ok (ids, d')
        → Step tenant_id d d'
    id_forgotten :
        {d' : Db} (actor_id : Text) (id : ℕ) (reason : Option Text) (b : Bool)
        → forget_by_id tenant_id actor_id id reason d ≡ ok (b, d')
        → Step tenant_id d d'
    content_forgotten :
        {d' : Db} (actor_id : Text) (candidates : List Candidate) (ids : List ℕ)
        → forget_by_content uuids tenant_id actor_id to_lowercase synonyms candidates d
          ≡ ok (ids, d')
        → Step tenant_id d d'
    updated :
        {d' : Db} (actor_id : Text) (id : ℕ) (vectors : List (List ℕ)) (edit : Edit)
        (o : Option MemoryVersion)
        → update_memory tenant_id actor_id id vectors edit d ≡ ok (o, d')
        → Step tenant_id d d'
    ingested :
        {d' : Db} (embed : List Text → Result (List (List ℕ))) (req : DocumentRequest)
        (r : DocumentResult)
        → req.tenant_id ≡ tenant_id
        → ingest_document embed req d ≡ ok (r, d')
        → Step tenant_id d d'
    related :
        {d' : Db} (actor_id : Text) (id : ℕ) (neighbors : List (ℕ × Text))
        (edges : List RelationEdge) (u : Unit {0})
        → write_edges tenant_id actor_id id neighbors edges d ≡ ok (u, d')
        → Step tenant_id d d'

  module _ (P : Db → Type 0) (tenant_id : ℕ) (statements : Statements P tenant_id)
      (changes : Changes P tenant_id) where
    enqueue-Keeps :
        (actor_id : Text) (tags : List Text) (content kind : Text) (custom_id : Option Text)
        (metadata : Text)
        → Keeps P (enqueue tenant_id actor_id tags content kind custom_id metadata)
    unfolding enqueue
    enqueue-Keeps actor_id tags content kind custom_id metadata =
        >>=-Keeps P _ _ (changes.on_source actor_id tags kind content custom_id true metadata)
          (elim [
            | some source_id ↦ return-Keeps P _
            | none ↦
                >>=-Keeps P _ _ (source_id-Keeps P tenant_id (text_or_empty custom_id))
                  λ e. return-Keeps P (record { source_id = id_or_nil e; queued = false })
          ])

  module _ (P : Db → Type 0) (req : WriteRequest) (statements : Statements P req.tenant_id)
      (changes : Changes P req.tenant_id) where
    persist_into_source-Keeps :
        (source_id : ℕ) (claimed_at : Time)
        → Keeps P (persist_into_source uuids to_lowercase synonyms req source_id claimed_at)
    unfolding persist_into_source persist_marked
    persist_into_source-Keeps source_id claimed_at d d' o h v =
        let kept : Keeps P (persist_marked uuids to_lowercase synonyms req source_id claimed_at) =
          >>=-Keeps P _ _
            (persist_candidates-Keeps P uuids to_lowercase synonyms req statements source_id)
            λ result.
              >>=-Keeps P _ _ (changes.on_extracted source_id claimed_at)
                λ ours. return-Keeps P (result, ours) in
        elim (Result-cases
          (persist_marked uuids to_lowercase synonyms req source_id claimed_at d)) [
            | inr (x, e) ↦ ground arith
            | inl (((r, true), mid), e) ↦
                let same : mid ≡ d' = ground arith in subst P same (kept d mid (r, true) e v)
            | inl (((r, false), mid), e) ↦ let same : d ≡ d' = ground arith in subst P same v
          ]

  -- A step keeps what each of its statements keeps.
  Step-keeps :
      (P : Db → Type 0) (tenant_id : ℕ) (d d' : Db)
      → Statements P tenant_id
      → Changes P tenant_id
      → Storing P tenant_id
      → Step tenant_id d d'
      → P d
      → P d'
  Step-keeps P tenant_id d d' st ch so (added req r own h) v =
      let changes = subst (Changes P) (sym own) ch in
      persist-Keeps P uuids to_lowercase synonyms req (subst (Statements P) (sym own) st)
        (λ custom_id.
          changes.on_source req.actor_id req.container_tags req.kind req.content custom_id false
            req.metadata)
        d d' r h v
  Step-keeps P tenant_id d d' st ch so (enqueued actor_id tags content kind custom_id metadata r h)
        v =
      enqueue-Keeps P tenant_id st ch actor_id tags content kind custom_id metadata d d' r h v
  Step-keeps P tenant_id d d' st ch so (claimed lease locked o h) v =
      ch.on_claim lease locked d d' o h v
  Step-keeps P tenant_id d d' st ch so (worked req source_id claimed_at o own h) v =
      persist_into_source-Keeps P req (subst (Statements P) (sym own) st)
        (subst (Changes P) (sym own) ch) source_id claimed_at d d' o h v
  Step-keeps P tenant_id d d' st ch so (source_forgotten actor_id custom_id reason ids h) v =
      forget-Keeps P tenant_id st ch actor_id custom_id reason d d' ids h v
  Step-keeps P tenant_id d d' st ch so (id_forgotten actor_id id reason b h) v =
      forget_by_id-Keeps P tenant_id st ch actor_id id reason d d' b h v
  Step-keeps P tenant_id d d' st ch so (content_forgotten actor_id candidates ids h) v =
      forget_by_content-Keeps P tenant_id st ch actor_id uuids to_lowercase synonyms candidates d d'
        ids h v
  Step-keeps P tenant_id d d' st ch so (updated actor_id id vectors edit o h) v =
      update_memory-Keeps P tenant_id st ch actor_id id vectors edit d d' o h v
  Step-keeps P tenant_id d d' st ch so (ingested embed req r own h) v =
      ingest_document-Keeps P req (subst (Changes P) (sym own) ch) (subst (Storing P) (sym own) so)
        embed d d' r h v
  Step-keeps P tenant_id d d' st ch so (related actor_id id neighbors edges u h) v =
      write_edges-Keeps P tenant_id ch actor_id id neighbors edges d d' u h v

  -- A transaction of one tenant, whichever it is, leaves every row of the six tables that belongs to the
  -- other tenants as it was, and in the same order.
  pub Step-outside :
      (tenant_id : ℕ) (d d' : Db) → Step tenant_id d d' → outside tenant_id d' ≡ outside tenant_id d
  Step-outside tenant_id d d' s =
      let v = outside tenant_id d in
      Step-keeps (HasOutside tenant_id v) tenant_id d d' (Outside-Statements tenant_id v)
        (Outside-Changes tenant_id v) (Outside-Storing tenant_id v) s refl

  -- Databases that the engine's transactions, of any tenants in any order, lead to from the empty
  -- one, while the clock moves.
  pub data Reachable : Db → Type 0 where
    start : (now : Time) → Reachable (empty_at now)
    step : {d d' : Db} (tenant_id : ℕ) → Reachable d → Step tenant_id d d' → Reachable d'
    tick : {d : Db} (now : Time) → Reachable d → d.now ≤ now → Reachable (record d { now = now })

  -- In every reachable database the ids of memories are distinct, every row passes the CHECK
  -- constraints, and no two active single-valued rows of one key overlap in validity.
  pub Reachable-IsValid : (d : Db) → Reachable d → IsValid d
  Reachable-IsValid d (start now) = record { ids = tt; exclusive = tt; checked = tt }
  Reachable-IsValid d (step {d = c} tenant_id r s) =
      Step-keeps IsValid tenant_id c d (IsValid-Statements tenant_id) (IsValid-Changes tenant_id)
        (IsValid-Storing tenant_id) s (Reachable-IsValid c r)
  Reachable-IsValid d (tick {d = c} now r later) = Reachable-IsValid c r
