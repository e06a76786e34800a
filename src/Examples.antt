-- ===== src/Examples.antt =====
-- Concrete runs of the model of internal/fs.
mod Trees
mod Sessions
mod Changes
mod Listings
mod Files
mod Operations
mod Requests
