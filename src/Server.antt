-- ===== src/Server.antt =====
-- crates/mnestic-server: the parts that compute.
pub mod ContainerTag
pub mod RateLimit
pub mod Filter
pub mod Api
pub mod Results
pub mod Requests
pub mod Search
pub mod Memories
pub mod Tests
