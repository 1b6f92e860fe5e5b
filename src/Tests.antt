-- ===== src/Tests.antt =====
-- Runs of the models on concrete inputs, and the theorems applied to them.
mod Runs
mod Documents
mod Sweeps
mod Texts
mod Investigation
mod Chunks
mod Messages
mod Ingestion
mod Listings
mod Steps
mod Streams
mod Consumer
mod Requests
mod Orders
mod Vectors
mod Logs
mod Labs
mod Completions
mod Uploads
mod Creations
