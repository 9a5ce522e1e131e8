-- ===== src/Security/Tokens.antt =====
-- Statuses, token hashes and fresh tokens (internal/security/security.c).
use mp_cache.Prelude.{
  ℕ, ◌+◌, ◌*◌, Bool, true, false, Bytes, Option, none, some, [], replicate, ltb, if◌then◌else◌,
}
use mp_cache.Crypto.Sha256.{sha256}
use mp_cache.Crypto.Hex.{hex_encode}

abbrev pub token_hash_size : ℕ
token_hash_size = 32

abbrev pub token_text_cap : ℕ
token_text_cap = token_hash_size * 2 + 1

pub data Status : Type 0 where
  ok not_found conflict invalid_argument secret_error : Status
  no_memory io_error unauthorized limit_exceeded : Status

abbrev pub is_ok : Status → Bool
is_ok ok = true
is_ok _ = false

abbrev pub zero_hash : Bytes
zero_hash = replicate token_hash_size 0

-- `mp_cache_hash_token` and `mp_cache_secret_derive_key`; a NULL text is hashed as an empty one.
unfoldable pub hash_token : Option Bytes → Bytes
hash_token none = sha256 []
hash_token (some auth_token) = sha256 auth_token

-- A failure, or the text of a new token.
pub data Issued : Type 0 where
  failed : Status → Issued
  issued : Bytes → Issued

unfoldable pub issue_token : Option Bytes → ℕ → Issued
issue_token random_bytes out_capacity =
    if ltb out_capacity token_text_cap then failed invalid_argument else elim random_bytes [
      | none ↦ failed io_error
      | some bytes ↦ elim (hex_encode bytes out_capacity) [
        | none ↦ failed io_error
        | some client_token ↦ issued client_token
      ]
    ]
