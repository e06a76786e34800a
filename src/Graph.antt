-- ===== src/Graph.antt =====
-- internal/graph: the client of the Graph API: its records, retries, listings, uploads, downloads.
pub mod Models
pub mod Retries
pub mod Backoff
pub mod Chunks
pub mod Download
pub mod Ranges
pub mod Pages
pub mod Origin
pub mod Intact
pub mod Tiling
