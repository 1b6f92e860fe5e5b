-- ===== src/Api.antt =====
-- internal/api: what the handlers decide.
pub mod Sse
pub mod Validation
pub mod Fields
pub mod Upload
pub mod Runs
