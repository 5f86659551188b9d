-- ===== src/Engine/Documents/Chunks.antt =====
-- The chunks that an ingested document leaves.
use pg_mnestic.Prelude.{
  ℕ, suc, ◌≡◌, refl, sym, ◌∙◌, ap, subst, true, false, List, [], ◌∷◌, ◌++◌, Option, none, some,
  ◌==◌, map, is_empty, length, get_elem?, All, All-append, append_assoc, arith, Bool-cases, inl,
  inr,
}
use pg_mnestic.Text.{Text, codes, trim, is_whitespace}
use pg_mnestic.Core.Chunk.{chunk_text, window_size}
use pg_mnestic.Core.Chunk.Content.{chunk_text_chunks}
use pg_mnestic.Core.Chunk.Coverage.{IsCovered, chunk_text_covers}
use pg_mnestic.Store.Db.{
  ◌>>=◌, return, Db, ChunkRow, Result, ok, err, Tx, lift, >>=-eq-ok, lift-eq-ok,
}
use pg_mnestic.Store.Sources.{insert_source, source_id_by_custom_id}
use pg_mnestic.Store.Documents.{insert_document, insert_chunk, document_id_by_source}
use pg_mnestic.Engine.Write.{embedding_size}
use pg_mnestic.Engine.Persist.{check_embedding_dim}
use pg_mnestic.Engine.Extract.{embed_all}
use pg_mnestic.Engine.Documents.{
  DocumentRequest, DocumentResult, doc_chunk_chars, doc_chunk_overlap, chunks_or_none,
  checked_vectors, new_chunk, store_chunks, store_document, skip_document, ingest_chunks,
  ingest_document,
}

-- The table's newest rows first: the pieces of the document, numbered from `ord` on.
unfoldable pub numbered : ℕ → ℕ → List Text → List (ℕ × ℕ × Text)
numbered document_id ord [] = []
numbered document_id ord (t ∷ ts) = numbered document_id (suc ord) ts ++ (document_id, ord, t) ∷ []

abbrev pub place : ChunkRow → ℕ × ℕ × Text
place c = (c.document_id, c.ord, c.content)

-- A chunk of the request's actor, with a vector of the index's size.
abbrev pub Fits : DocumentRequest → ChunkRow → Type 0
Fits req c =
    (c.tenant_id ≡ req.tenant_id)
    × (c.actor_id ≡ req.actor_id)
    × (length c.embedding ≡ embedding_size)

-- The pieces are stored, in order, on top of the chunks that were there.
unfoldable pub IsStored : DocumentRequest → ℕ → ℕ → List Text → Db → Db → Type 0
IsStored req document_id ord ts d d' =
    (new : List ChunkRow) × (d'.chunks ≡ new ++ d.chunks)
    × (map place new ≡ numbered document_id ord ts)
    × All (Fits req) new

checked_size :
    (v : List ℕ) {d d' : Db} {u : Unit {0}}
    → lift (check_embedding_dim v) d ≡ ok (u, d')
    → (length v ≡ embedding_size) × (d ≡ d')
unfolding check_embedding_dim
checked_size v h = elim (Bool-cases (length v == embedding_size)) [
  | inl e ↦ (ground arith, ground arith)
  | inr e ↦ ground arith
]

map-append-one :
    (xs : List ChunkRow) (x : ChunkRow) → map place (xs ++ x ∷ []) ≡ map place xs ++ place x ∷ []
map-append-one [] x = refl
map-append-one (y ∷ xs) x = rw (map-append-one xs x) refl

store_chunks-IsStored :
    (req : DocumentRequest) (document_id ord : ℕ) (ts : List Text) (vs : List (List ℕ))
    (ids ids' : List ℕ) (d d' : Db)
    → length vs ≡ length ts
    → store_chunks req document_id ord ts vs ids d ≡ ok (ids', d')
    → IsStored req document_id ord ts d d'
unfolding store_chunks IsStored numbered insert_chunk
store_chunks-IsStored req document_id ord [] vs ids ids' d d' n h =
    let same : d ≡ d' = ground arith in ([], rw same refl, refl, tt)
store_chunks-IsStored req document_id ord (t ∷ ts) [] ids ids' d d' n h = ground arith
store_chunks-IsStored req document_id ord (t ∷ ts) (v ∷ vs) ids ids' d d' n h =
    let (u, d0, e0, h0) = >>=-eq-ok (lift (check_embedding_dim v)) _ d h in
    let (id, d1, e1, h1) =
      >>=-eq-ok (insert_chunk (new_chunk req document_id ord t v))
        (λ id. store_chunks req document_id (suc ord) ts vs (ids ++ id ∷ [])) d0 h0 in
    let size = checked_size v e0 in
    let (new, rows, keys, fits) =
      store_chunks-IsStored req document_id (suc ord) ts vs (ids ++ id ∷ []) ids' d1 d'
        (omega (arith, n)) h1 in
    let row : ChunkRow = record {
      id = d0.next_id;
      tenant_id = req.tenant_id;
      actor_id = req.actor_id;
      document_id = document_id;
      container_tags = req.container_tags;
      ord = ord;
      content = t;
      embedding = v;
      created_at = d0.now;
    } in
    let put : d1.chunks ≡ row ∷ d0.chunks = ground arith in
    (
      new ++ row ∷ [],
      rows
          ∙ ap (λ cs. new ++ cs) (put ∙ ap (λ x. row ∷ x.chunks) (sym size.1))
          ∙ sym (append_assoc new (row ∷ []) d.chunks),
      map-append-one new row ∙ ap (λ ks. ks ++ (document_id, ord, t) ∷ []) keys,
      All-append (Fits req) new (row ∷ []) fits ((refl, refl, size.0), tt),
    )

store_document-IsStored :
    (req : DocumentRequest) (ts : List Text) (vs : List (List ℕ)) (source_id : ℕ) (d d' : Db)
    (r : DocumentResult)
    → length vs ≡ length ts
    → store_document req ts vs source_id d ≡ ok (r, d')
    → IsStored req r.document_id 0 ts d d'
unfolding store_document insert_document IsStored
store_document-IsStored req ts vs source_id d d' r n h =
    let (id, d1, e1, h1) =
      >>=-eq-ok
        (insert_document req.tenant_id req.actor_id (some source_id) req.container_tags req.title
          req.uri req.metadata)
        (λ id. store_chunks req id 0 ts vs [] >>= λ ids. return (record {
          source_id = source_id;
          document_id = id;
          chunk_ids = ids;
          idempotent_skip = false;
        }))
        d h in
    let (ids, d2, e2, h2) =
      >>=-eq-ok (store_chunks req id 0 ts vs [])
        (λ ids. return (record {
          source_id = source_id;
          document_id = id;
          chunk_ids = ids;
          idempotent_skip = false;
        }))
        d1 h1 in
    let (new, rows, keys, fits) = store_chunks-IsStored req id 0 ts vs [] ids d1 d2 n e2 in
    let same : d1.chunks ≡ d.chunks = ground arith in
    let last : d'.chunks ≡ d2.chunks = ground arith in
    let named : r.document_id ≡ id = ground arith in
    (new, last ∙ rows ∙ ap (λ cs. new ++ cs) same, rw named keys, fits)

skip_document-skips :
    (req : DocumentRequest) (d d' : Db) (r : DocumentResult)
    → skip_document req d ≡ ok (r, d')
    → (r.idempotent_skip ≡ true) × (d' ≡ d)
unfolding skip_document source_id_by_custom_id document_id_by_source
skip_document-skips req d d' r h = (ground arith, ground arith)

IsStored-on :
    (req : DocumentRequest) (document_id : ℕ) (ts : List Text) (d0 d d' : Db)
    → d.chunks ≡ d0.chunks
    → IsStored req document_id 0 ts d d'
    → IsStored req document_id 0 ts d0 d'
unfolding IsStored
IsStored-on req document_id ts d0 d d' same (new, rows, keys, fits) =
    (new, rows ∙ ap (λ cs. new ++ cs) same, keys, fits)

insert_source-chunks :
    (req : DocumentRequest) (d d' : Db) (o : Option ℕ)
    → insert_source req.tenant_id req.actor_id req.container_tags
        (codes "document")
        req.content
        req.custom_id
        false
        req.metadata
        d
      ≡ ok (o, d')
    → d'.chunks ≡ d.chunks
unfolding insert_source
insert_source-chunks req d d' o h = ground arith

ingest_chunks-IsStored :
    (req : DocumentRequest) (ts : List Text) (vs : List (List ℕ)) (d d' : Db) (r : DocumentResult)
    → length vs ≡ length ts
    → ingest_chunks req ts vs d ≡ ok (r, d')
    → r.idempotent_skip ≡ false
    → IsStored req r.document_id 0 ts d d'
unfolding ingest_chunks
ingest_chunks-IsStored req ts vs d d' r n h fresh =
    let (o, mid, e1, h1) =
      >>=-eq-ok
        (insert_source req.tenant_id req.actor_id req.container_tags (codes "document") req.content
          req.custom_id false req.metadata)
        (elim [ some source_id ↦ store_document req ts vs source_id | none ↦ skip_document req ]) d
        h in
    let same = insert_source-chunks req d mid o e1 in by_source o mid same h1
  where
    by_source :
        (o : Option ℕ) (mid : Db)
        → mid.chunks ≡ d.chunks
        → (elim o as (λ x. Tx DocumentResult) [
          | some source_id ↦ store_document req ts vs source_id
          | none ↦ skip_document req
        ])
            mid
          ≡ ok (r, d')
        → IsStored req r.document_id 0 ts d d'
    by_source (some source_id) mid same g =
        IsStored-on req r.document_id ts d mid d' same
          (store_document-IsStored req ts vs source_id mid d' r n g)
    by_source none mid same g =
        let (skips, kept) = skip_document-skips req mid d' r g in ground arith

checked-length :
    (ts : List Text) (o : Result (List (List ℕ))) (vs : List (List ℕ))
    → checked_vectors ts o ≡ ok vs
    → length vs ≡ length ts
checked-length ts (ok ws) vs h = ground arith
checked-length ts (err e) vs h = ground arith

-- An ingest that commits a new document stores exactly the pieces that `chunk_text` cuts its text
-- into, numbered from 0 in their order, on top of the chunks that were there, each for the request's
-- tenant and actor and with a vector of the index's size; and every non-whitespace character of the
-- document stands in a window of at most 1000 characters whose trimmed text is one of them.
pub ingest_document-covers :
    (embed : List Text → Result (List (List ℕ))) (req : DocumentRequest) (d d' : Db)
    (r : DocumentResult) (i c : ℕ)
    → ingest_document embed req d ≡ ok (r, d')
    → r.idempotent_skip ≡ false
    → get_elem? req.content i ≡ some c
    → is_whitespace c ≡ false
    → (ts : List Text) × (chunk_text req.content doc_chunk_chars doc_chunk_overlap ≡ some ts)
      × IsStored req r.document_id 0 ts d d'
      × IsCovered req.content (window_size doc_chunk_chars) ts i
unfolding ingest_document
ingest_document-covers embed req d d' r i c h fresh at solid =
    let (ts, cut, good) = chunk_text_chunks req.content doc_chunk_chars doc_chunk_overlap in
    elim (Bool-cases (is_empty (trim req.content))) [
      | inl e ↦ ground arith
      | inr e ↦
          let pieces = chunks_or_none (chunk_text req.content doc_chunk_chars doc_chunk_overlap) in
          let rest : (lift (checked_vectors pieces (embed_all embed pieces))
                  >>= ingest_chunks req pieces)
                d
              ≡ ok (r, d') =
            ground arith in
          let (vs, mid, e1, h1) =
            >>=-eq-ok (lift (checked_vectors pieces (embed_all embed pieces)))
              (ingest_chunks req pieces) d rest in
          let (counted, same) = lift-eq-ok (checked_vectors pieces (embed_all embed pieces)) e1 in
          let n = checked-length pieces (embed_all embed pieces) vs counted in
          let whole : pieces ≡ ts = ap chunks_or_none cut in
          let stored = ingest_chunks-IsStored req pieces vs mid d' r n h1 fresh in
          (
            ts,
            cut,
            subst (λ x. IsStored req r.document_id 0 x d d') whole
                (IsStored-on req r.document_id pieces d mid d'
                  (ap (λ (x : Db). x.chunks) (sym same)) stored),
            chunk_text_covers req.content doc_chunk_chars doc_chunk_overlap i c cut at solid,
          )
    ]
