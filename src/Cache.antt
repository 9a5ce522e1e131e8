-- ===== src/Cache.antt =====
-- The bounded in-memory cache, internal/cache/cache.c and cache.h.
pub mod Entry
pub mod Slot
pub mod Chain
pub mod Store
pub mod Walk
pub mod Invariant
pub mod Update
pub mod Placing
pub mod Accounting
pub mod Writes
pub mod Removals
pub mod Sweep
pub mod Purge
pub mod Visits
pub mod Lifecycle
pub mod Runs
pub mod Readback
pub mod Survival
