-- ===== src/Store.antt =====
-- internal/store: the MySQL tables and the conditional updates that move a row between states.
pub mod Errors
pub mod Table
pub mod Page
pub mod Rows
pub mod Runs
pub mod Documents
pub mod Candidates
pub mod Incidents
pub mod Listings
pub mod Audit
