-- ===== src/Lib.antt =====
-- Mnestic, a memory store for agents on Postgres: conversations are cut into facts by a model, the
-- facts are resolved against those known and written as rows with a validity in time, and recalled.
--
-- The parts, and the files that model them:
--   * crates/mnestic-core/src: the data of a fact (`types.rs`, in Core/Types), the cutting of documents
--     (`chunk.rs`, in Core/Chunk), the decision what to do with a fact (`resolve.rs`, in Core/Resolve)
--     and the canonical keys (`ontology.rs`, in Core/Ontology).
--   * crates/mnestic-store/src/lib.rs and migrations: the tables as lists of rows (Store/Db),
--     ranges of time (Store/Span), the statements on memories (Store/Memories), edits and
--     forgetting (Store/Versions), the reads around one memory (Store/Lineage), the statements on
--     sources (Store/Sources), on documents and their chunks (Store/Documents) and on the cached
--     profile (Store/Profile), and the metadata filter as SQL text with binds (Store/MetaFilter),
--     with the expressions of SQL that such text prints, their printing and their value
--     (Store/MetaFilter/Sql). A statement is a function from the database that its transaction sees
--     to a result and the database after it, or an error.
--     Store/Isolation is about the rows of other tenants.
--   * crates/mnestic-engine/src/lib.rs: what the models hand on (`extract_and_embed`, in
--     Engine/Extract), the write of one fact (`apply_supersede` and the body of the loop of
--     `persist_candidates`, in Engine/Write), of a request (`persist_candidates`, `persist`,
--     `add_at`, in Engine/Persist), by a worker (`enqueue`, `persist_into_source`,
--     `process_claimed`, `process_pending`, in Engine/Worker), the last stage of recall
--     (`recall_scoped`, in Engine/Rerank), `memory_context` (in Engine/Context), `forget`,
--     `forget_by_id`, `update_memory` and `forget_by_content` (in Engine/Forget),
--     `ingest_document` (in Engine/Documents) and `classify_relations` with `into_edges` of
--     crates/mnestic-model/src/classify.rs (in Engine/Relate). Engine/Steps has every transaction
--     of these as a step between databases.
--   * crates/mnestic-server/src: `container_tag.rs` in Server/ContainerTag, `rate_limit.rs` in
--     Server/RateLimit, `filter.rs` in Server/Filter, `error.rs` and what the handlers share of
--     `lib.rs` in Server/Api, `search` of `query.rs` in Server/Results and Server/Search,
--     `memories.rs` and `memory_tool.rs` in Server/Requests and Server/Memories.
--   * crates/mnestic-eval/src: `score.rs` in Eval/Score, `compare.rs` in Eval/Compare.
-- Text has the text operations of the standard library on lists of code points, Json the values of
-- serde_json, Prelude the shared names and lemmas. Store/Preserve is the interface between the
-- statements and the code that runs them: what each statement keeps, a transaction keeps. It is used
-- with the invariant of the table of memories, with the rows of sources and with the rows of other
-- tenants. The handlers see the engine through a record of its operations.
--
-- The engine calls the store inside one transaction for each write; the server's `add` and the
-- worker call the engine. Other transactions enter as the database that an attempt starts from, as the
-- rows that they hold locked when a source is claimed, and as what they commit between the reads of
-- the relation pass, its question to the classifier and its write.
-- `add_at` retries at most three times, with the source's own counter. The loop of `chunk_text` runs
-- on fuel of one step more than there are characters, which is always enough: every step moves the
-- start by a character.
--
-- UUIDs are numbers, new ones unused; the printing and parsing of ids is a parameter with its round
-- trip (`Uuids`). Times are microseconds, confidences thousandths; the f64 tokens of the rate limiter
-- are exact in units of a 60*10^9-th of a token. Parameters too are Unicode lower-casing, the f64 of
-- filters and scores, the parsing of RFC 3339 times and the functions of Postgres that a rendered
-- filter calls. The answers of the extractor, the embedder, the classifier and the reranker are
-- arguments, and so are the failures of the connection that a claim or the relation pass meets.
-- Chunk numbers are taken below 2^31, where `ord as i32` keeps them.
--
-- Not modelled: the SQL that ranks (recall, chunk search, the graph), the policies for tenants, which
-- repeat the filters of the statements, the handlers for profiles, documents and MCP,
-- authentication, the clients of the models, and the runner, the datasets and the markdown of the
-- evaluation.
pub mod Prelude
pub mod Text
pub mod Json
pub mod Core
pub mod Store
pub mod Engine
pub mod Server
pub mod Eval
