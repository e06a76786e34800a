-- ===== src/Inodes.antt =====
-- internal/fs/inode.go and cache.go: the metadata tree, its cache and its persistence.
pub mod Inode
pub mod Cache
pub mod Ttl
pub mod SizeLimit
pub mod Tree
pub mod Fetch
pub mod Bolt
pub mod Pressure
pub mod Stored
pub mod Hits
