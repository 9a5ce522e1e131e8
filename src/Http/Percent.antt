-- ===== src/Http/Percent.antt =====
-- `mp_cache_http_hex_value` and `mp_cache_http_percent_decode`
-- (internal/httpserver/http_server.c).
use mp_cache.Prelude.{
  ℕ, ◌+◌, ◌-◌, ◌*◌, ◌&&◌, Bytes, Option, none, some, [], ◌∷◌, leb, ◌==◌, if◌then◌else◌,
}

abbrev pub percent_sign : ℕ
percent_sign = b'%'

-- `none` is -1.
unfoldable pub hex_value : ℕ → Option ℕ
hex_value character =
    if leb b'0' character && leb character b'9'
    then some (character - b'0')
    else if leb b'A' character && leb character b'F'
    then some (character - b'A' + 10)
    else if leb b'a' character && leb character b'f'
    then some (character - b'a' + 10)
    else none

-- The errors that `errno` reports, and a result.
pub data Decoded : Type 0 where
  invalid no_space : Decoded
  decoded : Bytes → Decoded

abbrev pub keep : ℕ → Decoded → Decoded
keep byte invalid = invalid
keep byte no_space = no_space
keep byte (decoded rest) = decoded (byte ∷ rest)

-- `(high << 4) | low`, or a failure.
unfoldable pub join_digits : Option ℕ → Option ℕ → Option ℕ
join_digits (some high) (some low) = some (high * 16 + low)
join_digits _ _ = none

-- The loop from an index of the output on.
unfoldable pub decode_from : ℕ → ℕ → Bytes → Decoded
unfolding hex_value join_digits
decode_from capacity out_index [] = decoded []
decode_from capacity out_index (c ∷ []) =
    if leb capacity (out_index + 1)
    then no_space
    else if c == percent_sign
    then invalid
    else keep c (decoded [])
decode_from capacity out_index (c ∷ d ∷ []) =
    let rest = decode_from capacity (out_index + 1) (d ∷ []) in
    if leb capacity (out_index + 1)
    then no_space
    else if c == percent_sign
    then invalid
    else keep c rest
decode_from capacity out_index (c ∷ d ∷ e ∷ rest) =
    let plain = keep c (decode_from capacity (out_index + 1) (d ∷ e ∷ rest)) in
    let escaped : Decoded = elim (join_digits (hex_value d) (hex_value e)) [
      | none ↦ invalid
      | some byte ↦ keep byte (decode_from capacity (out_index + 1) rest)
    ] in
    if leb capacity (out_index + 1) then no_space else if c == percent_sign then escaped else plain

-- The output pointer is never NULL in the program, and `encoded` is not.
unfoldable pub percent_decode : Bytes → ℕ → Decoded
unfolding decode_from
percent_decode encoded capacity = if capacity == 0 then invalid else decode_from capacity 0 encoded
