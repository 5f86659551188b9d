-- ===== src/Core.antt =====
-- crates/mnestic-core: the pure parts.
pub mod Types
pub mod Chunk
pub mod Resolve
pub mod Ontology
pub mod Tests
