-- ===== src/Text/Printed.antt =====
-- Numbers that were printed in decimal are converted back (`%u`, `%llu` and `strtoul`).
use mp_cache.Prelude.{
  ℕ, zero, suc, ◌+◌, ◌-◌, ◌*◌, ◌/◌, ◌%◌, ◌^◌, ◌≤◌, ◌<◌, ◌≡◌, ◌∙◌, refl, sym, ap, true, false,
  Bool-cases, inl, inr, Bytes, [], ◌∷◌, length, ltb, ◌==◌, All, word64, arith,
}
use native.Mathlib.Nat.{pow-suc}
use mp_cache.Text.Scan.{is_space, is_digit, skip_space}
use mp_cache.Text.Number.{read_digits, convert, strtoul_signed, strtoul, digits_on, decimal}

abbrev pub IsDigit : ℕ → Type 0
IsDigit c = is_digit c ≡ true

shifted-IsDigit : (n : ℕ) → n < 10 → IsDigit (n + b'0')
unfolding is_digit
shifted-IsDigit n h = ground arith

digits_on-IsDigit :
    (fuel n : ℕ) (behind : Bytes) → All IsDigit behind → All IsDigit (digits_on fuel n behind)
unfolding digits_on
digits_on-IsDigit zero n behind h = h
digits_on-IsDigit (suc fuel) n behind h = elim (Bool-cases (ltb n 10)) [
  | inl small ↦ rw (small, digits_on, All) (shifted-IsDigit n (ground arith), h)
  | inr large ↦
      rw (large, digits_on, All)
        (digits_on-IsDigit fuel (n / 10) _ (shifted-IsDigit (n % 10) (omega arith), h))
]

pub decimal-IsDigit : (n : ℕ) → All IsDigit (decimal n)
unfolding decimal
decimal-IsDigit n = digits_on-IsDigit (suc n) n [] tt

digits_on-length :
    (k fuel n : ℕ) (behind : Bytes)
    → n < 10 ^ suc k
    → length (digits_on fuel n behind) ≤ suc k + length behind
unfolding digits_on
digits_on-length k zero n behind h = omega arith
digits_on-length zero (suc fuel) n behind h =
    let small : ltb n 10 ≡ true = ground arith in rw (small, digits_on, length) (omega arith)
digits_on-length (suc k) (suc fuel) n behind h = elim (Bool-cases (ltb n 10)) [
  | inl small ↦ rw (small, digits_on, length) (omega arith)
  | inr large ↦
      rw (large, digits_on, length)
        (omega (
          arith,
          digits_on-length k fuel (n / 10) ((n % 10 + b'0') ∷ behind)
              (omega (arith, pow-suc 10 (suc k))),
        ))
]

pub decimal-length : (n : ℕ) → n < word64 → length (decimal n) ≤ 20
unfolding decimal
decimal-length n h = omega (arith, digits_on-length 19 (suc n) n [] (omega arith))

-- The first digit, and the rest.
digits_on-first :
    (fuel n : ℕ) (behind : Bytes)
    → n < fuel
    → (c : ℕ) × (rest : Bytes) × (digits_on fuel n behind ≡ c ∷ rest) × IsDigit c
unfolding digits_on
digits_on-first zero n behind h = absurd (omega arith)
digits_on-first (suc fuel) n behind h = elim (Bool-cases (ltb n 10)) [
  | inl small ↦ (n + b'0', behind, rw (small, digits_on) refl, shifted-IsDigit n (ground arith))
  | inr large ↦ rw (large, digits_on) (digits_on-first fuel (n / 10) _ (ground arith))
]

pub decimal-first : (n : ℕ) → (c : ℕ) × (rest : Bytes) × (decimal n ≡ c ∷ rest) × IsDigit c
unfolding decimal
decimal-first n = digits_on-first (suc n) n [] (omega arith)

read_digits-digit :
    (k value c : ℕ) (behind : Bytes)
    → IsDigit c
    → read_digits k value (c ∷ behind) ≡ read_digits (suc k) (value * 10 + (c - b'0')) behind
unfolding read_digits
read_digits-digit k value c behind digit =
    let counted : k + 1 ≡ suc k = omega arith in
    rw (digit, read_digits) (ap (λ (m : ℕ). read_digits m (value * 10 + (c - b'0')) behind) counted)

read_digits-digits_on :
    (fuel n : ℕ) (behind : Bytes)
    → n < fuel
    → (k : ℕ) × (read_digits 0 0 (digits_on fuel n behind) ≡ read_digits (suc k) n behind)
unfolding digits_on
read_digits-digits_on zero n behind h = absurd (omega arith)
read_digits-digits_on (suc fuel) n behind h = elim (Bool-cases (ltb n 10)) [
  | inl small ↦
      let digit = shifted-IsDigit n (ground arith) in
      let value : 0 * 10 + (n + b'0' - b'0') ≡ n = omega arith in
      (
        0,
        rw (small, digits_on)
            (read_digits-digit 0 0 (n + b'0') behind digit
              ∙ ap (λ (v : ℕ). read_digits 1 v behind) value),
      )
  | inr large ↦
      let (k, e) = read_digits-digits_on fuel (n / 10) ((n % 10 + b'0') ∷ behind) (ground arith) in
      let digit = shifted-IsDigit (n % 10) (omega arith) in
      let value : n / 10 * 10 + (n % 10 + b'0' - b'0') ≡ n = omega arith in
      (
        suc k,
        rw (large, digits_on)
            (e
              ∙ read_digits-digit (suc k) (n / 10) (n % 10 + b'0') behind digit
              ∙ ap (λ (v : ℕ). read_digits (suc (suc k)) v behind) value),
      )
]

strtoul_signed-digits :
    (c : ℕ) (rest : Bytes)
    → IsDigit c
    → strtoul (c ∷ rest) ≡ convert false (c ∷ rest) (read_digits 0 0 (c ∷ rest))
unfolding strtoul strtoul_signed skip_space is_space is_digit
strtoul_signed-digits c rest h = ground arith

converted_digits :
    (k n : ℕ) (text : Bytes)
    → n < word64
    → convert false text (read_digits (suc k) n [])
      ≡ record { converted = true; out_of_range = false; value = n; rest = [] }
unfolding convert read_digits
converted_digits k n text h =
    let fits : ltb (word64 - 1) n ≡ false = ground arith in
    let some_digits : (suc k == 0) ≡ false = ground arith in rw (some_digits, fits) refl

-- A number of 64 bits is converted back, up to the end of its digits.
pub strtoul-decimal :
    (n : ℕ)
    → n < word64
    → strtoul (decimal n) ≡ record { converted = true; out_of_range = false; value = n; rest = [] }
unfolding decimal
strtoul-decimal n h =
    let (k, e) = read_digits-digits_on (suc n) n [] (omega arith) in
    let (c, rest, first, digit) = decimal-first n in
    ap strtoul first
    ∙ strtoul_signed-digits c rest digit
    ∙ ap (λ (t : Bytes). convert false t (read_digits 0 0 t)) (sym first)
    ∙ ap (convert false (decimal n)) e
    ∙ converted_digits k n (decimal n) h
