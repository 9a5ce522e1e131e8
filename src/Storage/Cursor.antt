-- ===== src/Storage/Cursor.antt =====
-- The bounded reads of internal/storage/storage.c: each takes an offset into the payload and gives
-- the value and the next offset, or fails and leaves the offset.
use mp_cache.Prelude.{
  ℕ, ◌+◌, ◌-◌, ◌*◌, ◌%◌, ◌^◌, Bool, ◌||◌, Bytes, Option, none, some, length, get_or, take, drop,
  ltb, if◌then◌else◌, bit_or, word64,
}

-- The byte at a place of the payload.
abbrev at : Bytes → ℕ → ℕ
at bytes i = get_or bytes i 0

-- Fewer than `wanted` bytes are left.
abbrev pub is_short : Bytes → ℕ → ℕ → Bool
is_short bytes offset wanted = ltb (length bytes) offset || ltb (length bytes - offset) wanted

unfoldable pub consume_u32 : Bytes → ℕ → Option (ℕ × ℕ)
unfolding get_or
consume_u32 bytes offset =
    if is_short bytes offset 4
    then none
    else some (
      bit_or
          (bit_or (bit_or (at bytes offset * 2 ^ 24) (at bytes (offset + 1) * 2 ^ 16))
            (at bytes (offset + 2) * 2 ^ 8))
          (at bytes (offset + 3)),
      offset + 4,
    )

-- `value = (value << 8) | byte` on `uint64_t`.
abbrev pub push : ℕ → ℕ → ℕ
push value byte = bit_or (value * 2 ^ 8 % word64) byte

unfoldable pub consume_u64 : Bytes → ℕ → Option (ℕ × ℕ)
unfolding get_or
consume_u64 bytes offset =
    if is_short bytes offset 8
    then none
    else some (
      push
          (push
            (push
              (push
                (push
                  (push (push (push 0 (at bytes offset)) (at bytes (offset + 1)))
                    (at bytes (offset + 2)))
                  (at bytes (offset + 3)))
                (at bytes (offset + 4)))
              (at bytes (offset + 5)))
            (at bytes (offset + 6)))
          (at bytes (offset + 7)),
      offset + 8,
    )

unfoldable pub consume_bytes : Bytes → ℕ → ℕ → Option (Bytes × ℕ)
consume_bytes bytes offset value_length =
    if is_short bytes offset value_length
    then none
    else some (take value_length (drop offset bytes), offset + value_length)
