-- ===== src/Crypto/Base64.antt =====
-- `mp_cache_base64_encode` and `mp_cache_base64_decode` (internal/crypto/crypto.c). A text is the
-- list of its characters without the closing NUL.
use mp_cache.Prelude.{
  ℕ, ◌+◌, ◌-◌, ◌*◌, ◌/◌, ◌%◌, ◌^◌, not, ◌&&◌, Bytes, codes, Option, none, some, [], ◌∷◌, ◌++◌,
  length, ltb, leb, ◌==◌, if◌then◌else◌, get_or, bit_and, bit_or, add64, sub64,
}
use mp_cache.Crypto.Transform.{word32}

abbrev alphabet : Bytes
alphabet = codes "ABCDEFGHIJKLMNOPQRSTUVWXYZabcdefghijklmnopqrstuvwxyz0123456789+/"

abbrev pub equals_sign : ℕ
equals_sign = b'='

unfoldable pub base64_char : ℕ → ℕ
unfolding get_or
base64_char sextet = get_or alphabet sextet 0

-- `chunk <<= 8` and `(chunk << 8) | byte` on `uint32_t`.
abbrev pub shift_chunk : ℕ → ℕ
shift_chunk chunk = chunk * 2 ^ 8 % word32

abbrev pub push_byte : ℕ → ℕ → ℕ
push_byte chunk byte = bit_or (shift_chunk chunk) byte

-- The four digits of a chunk.
abbrev pub digit0 : ℕ → ℕ
digit0 chunk = base64_char (bit_and (chunk / 2 ^ 18) 0x3f)

abbrev pub digit1 : ℕ → ℕ
digit1 chunk = base64_char (bit_and (chunk / 2 ^ 12) 0x3f)

abbrev pub digit2 : ℕ → ℕ
digit2 chunk = base64_char (bit_and (chunk / 2 ^ 6) 0x3f)

abbrev pub digit3 : ℕ → ℕ
digit3 chunk = base64_char (bit_and chunk 0x3f)

-- The loop: three bytes at a time, and one or two bytes at the end.
unfoldable pub base64_groups : Bytes → Bytes
base64_groups [] = []
base64_groups (a ∷ []) =
    let chunk = shift_chunk (shift_chunk (push_byte 0 a)) in
    digit0 chunk ∷ digit1 chunk ∷ equals_sign ∷ equals_sign ∷ []
base64_groups (a ∷ b ∷ []) =
    let chunk = shift_chunk (push_byte (push_byte 0 a) b) in
    digit0 chunk ∷ digit1 chunk ∷ digit2 chunk ∷ equals_sign ∷ []
base64_groups (a ∷ b ∷ c ∷ rest) =
    let chunk = push_byte (push_byte (push_byte 0 a) b) c in
    digit0 chunk ∷ digit1 chunk ∷ digit2 chunk ∷ digit3 chunk ∷ base64_groups rest

-- `none` is -1.
unfoldable pub base64_encode : Bytes → ℕ → Option Bytes
unfolding base64_groups
base64_encode input out_capacity =
    if ltb out_capacity ((length input + 2) / 3 * 4 + 1) then none else some (base64_groups input)

unfoldable pub base64_value : ℕ → Option ℕ
base64_value character =
    if leb b'A' character && leb character b'Z'
    then some (character - b'A')
    else if leb b'a' character && leb character b'z'
    then some (character - b'a' + 26)
    else if leb b'0' character && leb character b'9'
    then some (character - b'0' + 52)
    else if character == b'+'
    then some 62
    else if character == b'/'
    then some 63
    else none

-- `values[index]`: an equals sign counts as 0.
unfoldable pub value_at : ℕ → Option ℕ
unfolding base64_value
value_at character = if character == equals_sign then some 0 else base64_value character

abbrev pub padded : ℕ → ℕ
padded character = if character == equals_sign then 1 else 0

-- The outcome of a decode: -1, a text, or a write past the end of the output buffer, on which C
-- says nothing.
pub data Decoded : Type 0 where
  invalid : Decoded
  overrun : Decoded
  ok : Bytes → Decoded

abbrev pub prepend : Bytes → Decoded → Decoded
prepend bytes invalid = invalid
prepend bytes overrun = overrun
prepend bytes (ok rest) = ok (bytes ++ rest)

-- The bytes that one group writes: the first always, the others by the signs at their places.
unfoldable pub group_bytes : ℕ → ℕ → ℕ → Bytes
group_bytes chunk third fourth =
    (chunk / 2 ^ 16 % 256)
    ∷ ((if third == equals_sign then [] else (chunk / 2 ^ 8 % 256) ∷ [])
        ++ (if fourth == equals_sign then [] else (chunk % 256) ∷ []))

-- `values[0] << 18 | values[1] << 12 | values[2] << 6 | values[3]` on `uint32_t`.
abbrev pub join_values : ℕ → ℕ → ℕ → ℕ → ℕ
join_values v0 v1 v2 v3 = bit_or (bit_or (bit_or (v0 * 2 ^ 18) (v1 * 2 ^ 12)) (v2 * 2 ^ 6)) v3

-- One round of the loop up to its writes; `decoded_count` is a `size_t` that starts at 3.
unfoldable pub decode_group : ℕ → ℕ → ℕ → ℕ → ℕ → ℕ → Decoded
unfolding value_at group_bytes
decode_group out_index out_capacity p q r s = elim (value_at p) [
  | none ↦ invalid
  | some v0 ↦ elim (value_at q) [
    | none ↦ invalid
    | some v1 ↦ elim (value_at r) [
      | none ↦ invalid
      | some v2 ↦ elim (value_at s) [
        | none ↦ invalid
        | some v3 ↦
            let decoded_count =
              sub64 (sub64 (sub64 (sub64 3 (padded p)) (padded q)) (padded r)) (padded s) in
            let bytes = group_bytes (join_values v0 v1 v2 v3) r s in
            if ltb out_capacity (add64 out_index decoded_count)
            then invalid
            else if ltb out_capacity (out_index + length bytes)
            then overrun
            else ok bytes
      ]
    ]
  ]
]

-- The loop from an index of the output on.
unfoldable pub decode_groups : ℕ → ℕ → Bytes → Decoded
decode_groups out_index out_capacity (p ∷ q ∷ r ∷ s ∷ rest) =
    elim (decode_group out_index out_capacity p q r s) [
      | invalid ↦ invalid
      | overrun ↦ overrun
      | ok bytes ↦ prepend bytes (decode_groups (out_index + length bytes) out_capacity rest)
    ]
decode_groups out_index out_capacity _ = ok []

unfoldable pub base64_decode : Bytes → ℕ → Decoded
unfolding decode_groups
base64_decode text out_capacity =
    if not (length text % 4 == 0) then invalid else decode_groups 0 out_capacity text
