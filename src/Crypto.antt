-- ===== src/Crypto.antt =====
-- internal/crypto/crypto.c and crypto.h: digests, the keyed digest, the stream cipher, comparisons
-- and text encodings.
pub mod Transform
pub mod Sha256
pub mod Feeding
pub mod Padding
pub mod Digest
pub mod Stream
pub mod Hex
pub mod Base64
pub mod Armor
pub mod Armored
pub mod Positions
