-- ===== src/Cache/Entry.antt =====
-- One cache record, its key test, its charge and the key hash (internal/cache/cache.c).
use mp_cache.Prelude.{
  ℕ, ◌+◌, ◌*◌, ◌%◌, ◌≡◌, ◌↔◌, refl, Bool, true, ◌&&◌, Bytes, List, [], ◌∷◌, length, arith, ◌==◌,
  bit_xor, word64, mem_equal, mem_equal_refl, eq_of_mem_equal,
}
use mp_cache.Prelude.Int.{ℤ}

-- `struct mp_cache_entry`; `key_length` and `value_length` are the lengths of the two lists, and
-- `next` is the rest of the chain.
pub record Entry : Type 0 where
  pub key : Bytes
  pub value : Bytes
  pub expires_at_utc_seconds : ℤ

-- `sizeof(mp_cache_entry_t)` where pointers, `size_t` and `int64_t` have 8 bytes.
abbrev pub entry_size : ℕ
entry_size = 48

-- `mp_cache_entry_cost` of a pointer that is not NULL.
abbrev pub entry_cost : Entry → ℕ
entry_cost e = entry_size + length e.key + 1 + length e.value

-- `mp_cache_entry_cost(*slot)`, which is 0 at NULL.
unfoldable pub slot_cost : List Entry → ℕ
slot_cost [] = 0
slot_cost (e ∷ c) = entry_cost e

-- `key_length == length && memcmp(...) == 0`.
unfoldable pub same_key : Bytes → Bytes → Bool
same_key stored key = (length stored == length key) && mem_equal (length key) stored key

-- One round of FNV-1a on `uint64_t`.
unfoldable pub hash_byte : ℕ → ℕ → ℕ
hash_byte hash byte = bit_xor hash byte * 1099511628211 % word64

unfoldable pub hash_from : ℕ → Bytes → ℕ
unfolding hash_byte
hash_from hash [] = hash
hash_from hash (b ∷ bytes) = hash_from (hash_byte hash b) bytes

unfoldable pub hash_bytes : Bytes → ℕ
unfolding hash_from
hash_bytes bytes = hash_from 1469598103934665603 bytes

pub same_key_iff : (a b : Bytes) → (same_key a b ≡ true) ↔ (a ≡ b)
unfolding same_key
same_key_iff a b = (
  λ h. eq_of_mem_equal a b (ground arith) (ground arith),
  λ e. rw e (ground (arith, mem_equal_refl b)),
)

pub same_key_refl : (a : Bytes) → same_key a a ≡ true
same_key_refl a = (same_key_iff a a).1 refl
