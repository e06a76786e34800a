-- ===== src/Uploads.antt =====
-- internal/fs/upload_session.go and upload_manager.go: the background uploads.
pub mod Session
pub mod Manager
pub mod Remote
pub mod Execute
pub mod Slots
pub mod Retries
pub mod Stored
pub mod Durable
pub mod Crash
pub mod Restart
