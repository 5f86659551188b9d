-- ===== src/Engine.antt =====
-- crates/mnestic-engine/src/lib.rs: the write path, recall and the worker.
pub mod Write
pub mod Persist
pub mod Rerank
pub mod Worker
pub mod Extract
pub mod Forget
pub mod Context
pub mod Documents
pub mod Samples
pub mod Relate
pub mod Steps
pub mod Tests
