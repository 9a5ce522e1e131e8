-- ===== src/Crypto/Hex.antt =====
-- `mp_cache_hex_encode` and `mp_cache_hex_decode` (internal/crypto/crypto.c). A text is the list of
-- its characters without the closing NUL; `none` is -1.
use mp_cache.Prelude.{
  ℕ, ◌+◌, ◌-◌, ◌*◌, ◌/◌, ◌%◌, ◌^◌, ◌≤◌, ◌<◌, ◌≡◌, refl, ap, true, false, not, ◌&&◌, ◌||◌, Bytes,
  IsByte, codes, Option, none, some, [], ◌∷◌, length, All, ltb, leb, ◌==◌, ==_iff, if◌then◌else◌,
  get_or, arith, bit_and, bit_or,
}
use mp_cache.Prelude.Tables.{every_below, every_below-lt}
use mp_cache.Prelude.Bits.{and_nibble, or_fields}
use mathlib.Core.Option

abbrev hex_chars : Bytes
hex_chars = codes "0123456789abcdef"

unfoldable pub hex_nibble : ℕ → Option ℕ
hex_nibble character =
    if leb b'0' character && leb character b'9'
    then some (character - b'0')
    else if leb b'a' character && leb character b'f'
    then some (character - b'a' + 10)
    else if leb b'A' character && leb character b'F'
    then some (character - b'A' + 10)
    else none

unfoldable pub hex_char : ℕ → ℕ
unfolding get_or
hex_char digit = get_or hex_chars digit 0

-- The loop over the input bytes.
unfoldable pub hex_digits : Bytes → Bytes
hex_digits [] = []
hex_digits (b ∷ rest) = hex_char (b / 2 ^ 4) ∷ hex_char (bit_and b 0x0f) ∷ hex_digits rest

unfoldable pub hex_encode : Bytes → ℕ → Option Bytes
unfolding hex_digits
hex_encode input out_capacity =
    if ltb out_capacity (length input * 2 + 1) then none else some (hex_digits input)

-- The loop over pairs of characters; an odd one never reaches it.
unfoldable pub hex_pairs : Bytes → Option Bytes
hex_pairs [] = some []
hex_pairs (c ∷ []) = none
hex_pairs (c ∷ d ∷ rest) = elim (hex_nibble c) [
  | none ↦ none
  | some high ↦ elim (hex_nibble d) [
    | none ↦ none
    | some low ↦
        Option.map (λ (bytes : Bytes). (bit_or (high * 2 ^ 4) low % 256) ∷ bytes) (hex_pairs rest)
  ]
]

unfoldable pub hex_decode : Bytes → ℕ → Option Bytes
hex_decode text out_capacity =
    if not (length text % 2 == 0) || ltb out_capacity (length text / 2)
    then none
    else hex_pairs text

abbrev digit_of : Option ℕ → ℕ
digit_of none = 16
digit_of (some d) = d

digit_table : every_below (λ d. digit_of (hex_nibble (hex_char d)) == d) 16 ≡ true
unfolding every_below hex_nibble hex_char
digit_table = refl

some_digit : (o : Option ℕ) (d : ℕ) → d < 16 → digit_of o ≡ d → o ≡ some d
some_digit none d h e = absurd (omega arith)
some_digit (some c) d h e = ap some e

hex_nibble-hex_char : (d : ℕ) → d < 16 → hex_nibble (hex_char d) ≡ some d
hex_nibble-hex_char d h =
    some_digit (hex_nibble (hex_char d)) d h ((==_iff _ d).0 (every_below-lt _ 16 d digit_table h))

length-hex_digits : (input : Bytes) → length (hex_digits input) ≡ length input * 2
unfolding hex_digits
length-hex_digits [] = refl
length-hex_digits (b ∷ rest) = omega (arith, length-hex_digits rest)

byte_of_nibbles : (b : ℕ) → b < 256 → bit_or (b / 2 ^ 4 * 2 ^ 4) (bit_and b 0x0f) % 256 ≡ b
byte_of_nibbles b h =
    let low : bit_and b 0x0f ≡ b % 16 = and_nibble b in
    rw low (omega (arith, or_fields 4 (b / 2 ^ 4) (b % 16) (omega arith)))

hex_pairs-hex_digits :
    (input : Bytes) → All IsByte input → hex_pairs (hex_digits input) ≡ some input
unfolding hex_pairs hex_digits
hex_pairs-hex_digits [] h = refl
hex_pairs-hex_digits (b ∷ rest) h = ground (
  arith,
  hex_nibble-hex_char (b / 2 ^ 4) (omega (arith, h.0)),
  hex_nibble-hex_char (bit_and b 0x0f) (omega (arith, and_nibble b)),
  hex_pairs-hex_digits rest h.1,
  byte_of_nibbles b h.0,
)

-- Bytes that are encoded with room for the text and its NUL are decoded to themselves, into any
-- buffer that has room for them.
pub hex_decode-hex_encode :
    (input : Bytes) (text_capacity out_capacity : ℕ)
    → All IsByte input
    → length input * 2 < text_capacity
    → length input ≤ out_capacity
    → Option.bind (hex_encode input text_capacity) (λ text. hex_decode text out_capacity)
      ≡ some input
unfolding hex_encode hex_decode Option.bind
hex_decode-hex_encode input text_capacity out_capacity bytes room space =
    let fits : ltb text_capacity (length input * 2 + 1) ≡ false = ground arith in
    rw (fits, length-hex_digits) (ground (arith, hex_pairs-hex_digits input bytes))
