-- ===== src/Delta.antt =====
-- internal/fs/delta.go: the changes that the server reports, applied to the inode cache and to the
-- content cache. The content cache is an interface, over a state `K`.
pub mod Apply
pub mod Poll
pub mod Resolve
pub mod Deletion
pub mod Retry
pub mod Local
pub mod Stale
pub mod Database
pub mod Links
pub mod Progress
