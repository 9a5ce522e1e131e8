-- ===== src/Http/Escaped.antt =====
-- `mp_cache_http_percent_decode` on texts with escapes (internal/httpserver/http_server.c).
use mp_cache.Prelude.{
  ℕ, ◌+◌, ◌-◌, ◌/◌, ◌%◌, ◌<◌, ◌≡◌, ◌∙◌, refl, ap, Bool, false, Bool-cases, inl, inr, Bytes, IsByte,
  some, [], ◌∷◌, length, ltb, leb, ◌==◌, All, if◌then◌else◌, arith,
}
use mp_cache.Http.Percent.{
  percent_sign, hex_value, decoded, keep, join_digits, decode_from, percent_decode,
}

abbrev pub upper_digit : ℕ → ℕ
upper_digit n = if ltb n 10 then n + b'0' else n - 10 + b'A'

-- Percent-encoding of RFC 3986: a byte stands for itself where `safe` says so, and is written as
-- `%` and two hexadecimal digits else.
unfoldable pub percent_encode : (ℕ → Bool) → Bytes → Bytes
percent_encode safe [] = []
percent_encode safe (c ∷ rest) =
    if safe c
    then c ∷ percent_encode safe rest
    else percent_sign ∷ upper_digit (c / 16) ∷ upper_digit (c % 16) ∷ percent_encode safe rest

hex_value-upper_digit : (n : ℕ) → n < 16 → hex_value (upper_digit n) ≡ some n
unfolding hex_value
hex_value-upper_digit n h = ground arith

module _ (capacity : ℕ) where
  decode_from-plain :
      (i c : ℕ) (rest : Bytes)
      → i + 1 < capacity
      → (c == percent_sign) ≡ false
      → decode_from capacity i (c ∷ rest) ≡ keep c (decode_from capacity (i + 1) rest)
  unfolding decode_from
  decode_from-plain i c [] room plain = ground arith
  decode_from-plain i c (d ∷ []) room plain = ground arith
  decode_from-plain i c (d ∷ e ∷ rest) room plain =
      let fits : leb capacity (i + 1) ≡ false = ground arith in rw (fits, plain) refl

  decode_from-escaped :
      (i byte : ℕ) (rest : Bytes)
      → i + 1 < capacity
      → IsByte byte
      → decode_from capacity i
          (percent_sign ∷ upper_digit (byte / 16) ∷ upper_digit (byte % 16) ∷ rest)
        ≡ keep byte (decode_from capacity (i + 1) rest)
  unfolding decode_from join_digits
  decode_from-escaped i byte rest room small =
      let fits : leb capacity (i + 1) ≡ false = ground arith in
      rw
        (
          fits,
          hex_value-upper_digit (byte / 16) (omega arith),
          hex_value-upper_digit (byte % 16) (omega arith),
        )
        (ap (λ (n : ℕ). keep n (decode_from capacity (i + 1) rest)) (omega arith))

  decode_from-percent_encode :
      (safe : ℕ → Bool) (i : ℕ) (text : Bytes)
      → safe percent_sign ≡ false
      → All IsByte text
      → i + length text < capacity
      → decode_from capacity i (percent_encode safe text) ≡ decoded text
  unfolding percent_encode decode_from
  decode_from-percent_encode safe i [] unsafe bytes room = refl
  decode_from-percent_encode safe i (c ∷ rest) unsafe bytes room =
      let others = decode_from-percent_encode safe (i + 1) rest unsafe bytes.1 (omega arith) in
      elim (Bool-cases (safe c)) [
        | inl kept ↦ rw kept (
            decode_from-plain i c (percent_encode safe rest) (omega arith)
              (ground (arith, kept, unsafe))
            ∙ ap (keep c) others)
        | inr escaped ↦ rw escaped (
            decode_from-escaped i c (percent_encode safe rest) (omega arith) bytes.0
            ∙ ap (keep c) others)
      ]

-- Bytes that are percent-encoded, whichever bytes stand for themselves but the percent sign, are
-- decoded to themselves in any buffer with room for them and a NUL.
pub percent_decode-percent_encode :
    (safe : ℕ → Bool) (text : Bytes) (capacity : ℕ)
    → safe percent_sign ≡ false
    → All IsByte text
    → length text < capacity
    → percent_decode (percent_encode safe text) capacity ≡ decoded text
unfolding percent_decode
percent_decode-percent_encode safe text capacity unsafe bytes room =
    let positive : (capacity == 0) ≡ false = ground arith in
    rw positive (decode_from-percent_encode capacity safe 0 text unsafe bytes (omega arith))
