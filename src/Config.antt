-- ===== src/Config.antt =====
-- The bootstrap configuration, internal/config/config.c, config.h and constants.h.
pub mod Fields
pub mod Values
pub mod Apply
pub mod Validate
pub mod Load
pub mod Template
pub mod Validated
pub mod Settings
mod Shown
mod Lines
pub mod Steps
pub mod Printable
pub mod Reread
