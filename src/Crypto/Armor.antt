-- ===== src/Crypto/Armor.antt =====
-- The digits and the groups of base64 text (internal/crypto/crypto.c).
use mp_cache.Prelude.{
  ℕ, ◌+◌, ◌-◌, ◌*◌, ◌/◌, ◌%◌, ◌^◌, ◌≤◌, ◌<◌, ◌≡◌, ◌∙◌, refl, ap, true, false, not, ◌&&◌, IsByte,
  Option, none, some, [], ◌∷◌, length, ltb, ◌==◌, get_or, arith, bit_and, bit_or, word64, add64,
  sub64,
}
use mp_cache.Prelude.Bits.{and_sextet, or_fields}
use mp_cache.Prelude.Tables.{every_below, every_below-lt}
use mp_cache.Crypto.Transform.{word32}
use mp_cache.Crypto.Base64.{
  shift_chunk, push_byte, equals_sign, base64_char, digit0, digit1, digit2, digit3, base64_value,
  value_at, padded, ok, group_bytes, join_values, decode_group,
}

abbrev value_or_64 : Option ℕ → ℕ
value_or_64 none = 64
value_or_64 (some d) = d

char_table :
    every_below
      (λ d. (value_or_64 (base64_value (base64_char d)) == d) && not (base64_char d == equals_sign))
      64
    ≡ true
unfolding every_below base64_value base64_char get_or
char_table = refl

value_of_table : (o : Option ℕ) (d : ℕ) → d < 64 → value_or_64 o ≡ d → o ≡ some d
value_of_table none d h e = absurd (omega arith)
value_of_table (some c) d h e = ap some e

char_facts :
    (d : ℕ)
    → d < 64
    → (base64_value (base64_char d) ≡ some d) × ((base64_char d == equals_sign) ≡ false)
char_facts d h =
    let checked =
      every_below-lt
        (λ n.
          (value_or_64 (base64_value (base64_char n)) == n) && not (base64_char n == equals_sign))
        64 d char_table h in
    (
      value_of_table (base64_value (base64_char d)) d h (ground (arith, checked)),
      ground (arith, checked),
    )

value_at-base64_char : (d : ℕ) → d < 64 → value_at (base64_char d) ≡ some d
unfolding value_at
value_at-base64_char d h = let facts = char_facts d h in rw (facts.1, facts.0) refl

-- Four digits of 6 bits, the most significant first.
join_digits :
    (a b c d : ℕ)
    → a < 64
    → b < 64
    → c < 64
    → d < 64
    → join_values a b c d ≡ a * 2 ^ 18 + b * 2 ^ 12 + c * 2 ^ 6 + d
join_digits a b c d ha hb hc hd =
    let high : bit_or (a * 2 ^ 18) (b * 2 ^ 12) ≡ (a * 64 + b) * 2 ^ 12 =
      omega (arith, or_fields 18 a (b * 2 ^ 12) (omega arith)) in
    let middle : bit_or (bit_or (a * 2 ^ 18) (b * 2 ^ 12)) (c * 2 ^ 6)
        ≡ (a * 4096 + b * 64 + c) * 2 ^ 6 =
      rw high (omega (arith, or_fields 12 (a * 64 + b) (c * 2 ^ 6) (omega arith))) in
    rw middle (omega (arith, or_fields 6 (a * 4096 + b * 64 + c) d hd))

-- A group of four digits, of which the last two may be signs: what its room test sees.
decode_group-values :
    (out_index out_capacity p q r s a b c d n : ℕ)
    → value_at p ≡ some a
    → value_at q ≡ some b
    → value_at r ≡ some c
    → value_at s ≡ some d
    → (p == equals_sign) ≡ false
    → (q == equals_sign) ≡ false
    → join_values a b c d ≡ n
    → length (group_bytes n r s) ≡ 3 - padded r - padded s
    → out_capacity < word64
    → out_index + length (group_bytes n r s) ≤ out_capacity
    → decode_group out_index out_capacity p q r s ≡ ok (group_bytes n r s)
unfolding decode_group add64 sub64
decode_group-values out_index out_capacity p q r s a b c d n va vb vc vd np nq joined size small
      room =
    let few : padded r + padded s ≤ 2 = ground arith in
    let room2 : ltb out_capacity
          (add64 out_index (sub64 (sub64 (sub64 (sub64 3 0) 0) (padded r)) (padded s)))
        ≡ false =
      ground arith in
    let room3 : ltb out_capacity (out_index + length (group_bytes n r s)) ≡ false = ground arith in
    rw (decode_group, va, vb, vc, vd, np, nq, joined) (rw (room2, room3) refl)

-- The sextets of a chunk.
abbrev sextet : ℕ → ℕ
sextet n = bit_and n 0x3f

sextet-lt : (n : ℕ) → sextet n < 64
sextet-lt n = omega (arith, and_sextet n)

digit_value : (n : ℕ) → value_at (base64_char (sextet n)) ≡ some (sextet n)
digit_value n = value_at-base64_char (sextet n) (sextet-lt n)

digit_plain : (n : ℕ) → (base64_char (sextet n) == equals_sign) ≡ false
digit_plain n = (char_facts (sextet n) (sextet-lt n)).1

sign_value : value_at equals_sign ≡ some 0
unfolding value_at
sign_value = refl

-- The values of a group make its chunk, with zeros for the signs.
joined :
    (n c d : ℕ)
    → n < 2 ^ 24
    → c ≡ n / 2 ^ 6 % 64
    → d ≡ n % 64
    → join_values (sextet (n / 2 ^ 18)) (sextet (n / 2 ^ 12)) c d ≡ n
joined n c d h hc hd = omega (
  arith,
  join_digits (sextet (n / 2 ^ 18)) (sextet (n / 2 ^ 12)) c d (sextet-lt (n / 2 ^ 18))
      (sextet-lt (n / 2 ^ 12)) (omega arith) (omega arith),
  and_sextet (n / 2 ^ 18),
  and_sextet (n / 2 ^ 12),
)

module _ (out_index out_capacity n : ℕ) (chunk : n < 2 ^ 24) (small : out_capacity < word64) where
  pub decode_group-three :
      out_index + 3 ≤ out_capacity
      → decode_group out_index out_capacity (digit0 n) (digit1 n) (digit2 n) (digit3 n)
        ≡ ok (n / 2 ^ 16 % 256 ∷ n / 2 ^ 8 % 256 ∷ n % 256 ∷ [])
  unfolding group_bytes
  decode_group-three room =
      let bytes : group_bytes n (digit2 n) (digit3 n)
          ≡ n / 2 ^ 16 % 256 ∷ n / 2 ^ 8 % 256 ∷ n % 256 ∷ [] =
        rw (digit_plain (n / 2 ^ 6), digit_plain n) refl in
      let size : length (group_bytes n (digit2 n) (digit3 n)) ≡ 3 = ap length bytes in
      decode_group-values out_index out_capacity (digit0 n) (digit1 n) (digit2 n) (digit3 n)
        (sextet (n / 2 ^ 18)) (sextet (n / 2 ^ 12)) (sextet (n / 2 ^ 6)) (sextet n) n
        (digit_value (n / 2 ^ 18)) (digit_value (n / 2 ^ 12)) (digit_value (n / 2 ^ 6))
        (digit_value n) (digit_plain (n / 2 ^ 18)) (digit_plain (n / 2 ^ 12))
        (joined n _ _ chunk (and_sextet (n / 2 ^ 6)) (and_sextet n))
        (rw (digit_plain (n / 2 ^ 6), digit_plain n) refl) small (rw size room)
      ∙ ap ok bytes

  pub decode_group-two :
      n % 2 ^ 8 ≡ 0
      → out_index + 2 ≤ out_capacity
      → decode_group out_index out_capacity (digit0 n) (digit1 n) (digit2 n) equals_sign
        ≡ ok (n / 2 ^ 16 % 256 ∷ n / 2 ^ 8 % 256 ∷ [])
  unfolding group_bytes
  decode_group-two low room =
      let bytes : group_bytes n (digit2 n) equals_sign ≡ n / 2 ^ 16 % 256 ∷ n / 2 ^ 8 % 256 ∷ [] =
        rw (digit_plain (n / 2 ^ 6)) refl in
      let size : length (group_bytes n (digit2 n) equals_sign) ≡ 2 = ap length bytes in
      decode_group-values out_index out_capacity (digit0 n) (digit1 n) (digit2 n) equals_sign
        (sextet (n / 2 ^ 18)) (sextet (n / 2 ^ 12)) (sextet (n / 2 ^ 6)) 0 n
        (digit_value (n / 2 ^ 18)) (digit_value (n / 2 ^ 12)) (digit_value (n / 2 ^ 6)) sign_value
        (digit_plain (n / 2 ^ 18)) (digit_plain (n / 2 ^ 12))
        (joined n _ _ chunk (and_sextet (n / 2 ^ 6)) (omega arith))
        (rw (digit_plain (n / 2 ^ 6)) refl) small (rw size room)
      ∙ ap ok bytes

  pub decode_group-one :
      n % 2 ^ 16 ≡ 0
      → out_index + 1 ≤ out_capacity
      → decode_group out_index out_capacity (digit0 n) (digit1 n) equals_sign equals_sign
        ≡ ok (n / 2 ^ 16 % 256 ∷ [])
  unfolding group_bytes
  decode_group-one low room =
      decode_group-values out_index out_capacity (digit0 n) (digit1 n) equals_sign equals_sign
        (sextet (n / 2 ^ 18)) (sextet (n / 2 ^ 12)) 0 0 n (digit_value (n / 2 ^ 18))
        (digit_value (n / 2 ^ 12)) sign_value sign_value (digit_plain (n / 2 ^ 18))
        (digit_plain (n / 2 ^ 12)) (joined n 0 0 chunk (omega arith) (omega arith)) refl small room

push_byte-eq :
    (chunk byte : ℕ) → chunk < 2 ^ 24 → byte < 256 → push_byte chunk byte ≡ chunk * 256 + byte
push_byte-eq chunk byte h hb =
    let whole : chunk * 2 ^ 8 % word32 ≡ chunk * 2 ^ 8 = omega arith in
    rw whole (omega (arith, or_fields 8 chunk byte hb))

shift_chunk-eq : (chunk : ℕ) → chunk < 2 ^ 24 → shift_chunk chunk ≡ chunk * 256
shift_chunk-eq chunk h = omega arith

-- The chunks of one, two and three bytes.
pub chunk1 : (a : ℕ) → IsByte a → shift_chunk (shift_chunk (push_byte 0 a)) ≡ a * 2 ^ 16
chunk1 a ha = omega (arith, push_byte-eq 0 a (omega arith) ha)

pub chunk2 :
    (a b : ℕ)
    → IsByte a
    → IsByte b
    → shift_chunk (push_byte (push_byte 0 a) b) ≡ a * 2 ^ 16 + b * 2 ^ 8
chunk2 a b ha hb =
    let first = push_byte-eq 0 a (omega arith) ha in
    omega (arith, first, push_byte-eq (push_byte 0 a) b (omega (arith, first)) hb)

pub chunk3 :
    (a b c : ℕ)
    → IsByte a
    → IsByte b
    → IsByte c
    → push_byte (push_byte (push_byte 0 a) b) c ≡ a * 2 ^ 16 + b * 2 ^ 8 + c
chunk3 a b c ha hb hc =
    let first = push_byte-eq 0 a (omega arith) ha in
    let second = push_byte-eq (push_byte 0 a) b (omega (arith, first)) hb in
    omega (
      arith,
      first,
      second,
      push_byte-eq (push_byte (push_byte 0 a) b) c (omega (arith, first, second)) hc,
    )
