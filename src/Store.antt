-- ===== src/Store.antt =====
-- crates/mnestic-store: the tables of migrations/ as lists of rows, and the statements of
-- crates/mnestic-store/src/lib.rs over them.
pub mod Span
pub mod Db
pub mod Memories
pub mod Sources
pub mod Profile
pub mod Documents
pub mod Lineage
pub mod Preserve
pub mod Isolation
pub mod MetaFilter
pub mod Versions
pub mod Tests
