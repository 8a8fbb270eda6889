-- ===== src/Query.antt =====
-- src/query/: the reusable query engine over one opened generation.
pub mod Exec
pub mod Context
pub mod Opened
pub mod Stream
pub mod Extract
pub mod Find
pub mod Metadata
pub mod Compare
pub mod Toggles
