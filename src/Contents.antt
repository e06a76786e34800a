-- ===== src/Contents.antt =====
-- internal/fs/content_cache.go and content_eviction.go: the files that hold contents, and the
-- eviction of the oldest ones.
pub mod Cache
pub mod Evict
pub mod Files
pub mod Bytes
pub mod Accounting
pub mod Victims
pub mod Oldest
pub mod Eviction
pub mod Sweep
pub mod Ages
pub mod Index
pub mod Writes
pub mod Operations
pub mod Runs
pub mod Start
pub mod RoundTrip
pub mod ReadBack
pub mod Shutdown
pub mod Drift
