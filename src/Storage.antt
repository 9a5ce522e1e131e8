-- ===== src/Storage.antt =====
-- The encrypted persistence (internal/storage/storage.c).
pub mod Buffer
pub mod Cursor
pub mod Reads
pub mod Records
pub mod Journal
pub mod Restored
pub mod Replay
pub mod Packet
pub mod Envelope
pub mod Sealed
pub mod Contents
pub mod Written
pub mod Checkpoint
pub mod Reload
pub mod Load
pub mod Restart
pub mod Saved
pub mod Persist
pub mod Exchange
pub mod Exchanged
