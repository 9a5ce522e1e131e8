-- ===== src/Tests.antt =====
-- Runs of the model at concrete inputs, and the theorems applied at such inputs.
mod CacheTests
mod CryptoTests
mod SecurityTests
mod StorageTests
mod CheckpointTests
mod TextTests
mod ServerTests
mod HandlerTests
mod ConfigTests
