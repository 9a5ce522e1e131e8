-- ===== src/Text/Number.antt =====
-- `strtoul` in base 10 and the formats `%u`, `%zu`, `%llu` and `%lld`, as
-- internal/httpserver/http_server.c and internal/config/config.c use them.
use mp_cache.Prelude.{
  ℕ, zero, suc, ◌+◌, ◌-◌, ◌*◌, ◌/◌, ◌%◌, ◌^◌, Bool, true, false, Bytes, [], ◌∷◌, ltb, ◌==◌,
  if◌then◌else◌, sub64, word64,
}
use mp_cache.Prelude.Int.{ℤ, pos, negsuc}
use mp_cache.Text.Scan.{is_digit, skip_space}

abbrev pub word32 : ℕ
word32 = 2 ^ 32

-- What a conversion gives: the number of digits that it read, the number that they stand for, with
-- no bound, and the text behind them.
pub record Digits : Type 0 where
  pub count : ℕ
  pub value : ℕ
  pub rest : Bytes

unfoldable pub read_digits : ℕ → ℕ → Bytes → Digits
unfolding is_digit
read_digits count value [] = record { count = count; value = value; rest = [] }
read_digits count value (c ∷ rest) = elim (is_digit c) [
  | true ↦ read_digits (count + 1) (value * 10 + (c - b'0')) rest
  | false ↦ record { count = count; value = value; rest = c ∷ rest }
]

-- The result of `strtoul`: whether it converted digits, whether it reported ERANGE, the value and
-- the text behind it.
pub record Converted : Type 0 where
  pub converted : Bool
  pub out_of_range : Bool
  pub value : ℕ
  pub rest : Bytes

-- A number above ULONG_MAX gives ULONG_MAX; a minus sign negates on `unsigned long`.
unfoldable pub convert : Bool → Bytes → Digits → Converted
unfolding sub64
convert negative text digits =
    let large = ltb (word64 - 1) digits.value in
    if digits.count == 0
    then record { converted = false; out_of_range = false; value = 0; rest = text }
    else record {
      converted = true;
      out_of_range = large;
      value = if large then word64 - 1 else if negative then sub64 0 digits.value else digits.value;
      rest = digits.rest;
    }

unfoldable pub strtoul_signed : Bytes → Bytes → Converted
unfolding convert read_digits
strtoul_signed text [] = convert false text (read_digits 0 0 [])
strtoul_signed text (c ∷ rest) =
    if c == b'-'
    then convert true text (read_digits 0 0 rest)
    else if c == b'+'
    then convert false text (read_digits 0 0 rest)
    else convert false text (read_digits 0 0 (c ∷ rest))

-- `strtoul(text, &end, 10)` with the 64 bits of `unsigned long`.
unfoldable pub strtoul : Bytes → Converted
unfolding strtoul_signed skip_space
strtoul text = strtoul_signed text (skip_space text)

-- The decimal digits of a number. A number has fewer digits than its successor counts.
unfoldable pub digits_on : ℕ → ℕ → Bytes → Bytes
digits_on zero n behind = behind
digits_on (suc fuel) n behind = elim (ltb n 10) [
  | true ↦ (n + b'0') ∷ behind
  | false ↦ digits_on fuel (n / 10) ((n % 10 + b'0') ∷ behind)
]

unfoldable pub decimal : ℕ → Bytes
unfolding digits_on
decimal n = digits_on (suc n) n []

unfoldable pub decimal_ℤ : ℤ → Bytes
unfolding decimal
decimal_ℤ (pos n) = decimal n
decimal_ℤ (negsuc n) = b'-' ∷ decimal (suc n)
