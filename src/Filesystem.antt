-- ===== src/Filesystem.antt =====
-- internal/fs/fs_ops.go, drive_item_node.go and root.go: the operations of FUSE over the inode cache,
-- the content cache, the uploads and the server.
pub mod State
pub mod Listing
pub mod Directory
pub mod Node
pub mod Saving
pub mod WriteBack
pub mod Removal
pub mod Moved
pub mod Renaming
pub mod Offline
