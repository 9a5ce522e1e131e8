-- ===== src/Prelude/Bits.antt =====
-- Laws of `&`, `|` and `^` on words of any width, from the recursion on binary digits that the
-- native operations stand for.
use Prim.Native.Nat.{
  ℕ, zero, suc, ◌+◌, ◌*◌, ◌/◌, ◌%◌, ◌^◌, ◌≤◌, ◌<◌, min, max, bit_and, bit_or, bit_xor, bitwise,
  digits, differ, bit_and-bitwise, bit_or-bitwise, bit_xor-bitwise,
}
use mathlib.Core.Path.{◌≡◌, refl, ap}
use native.Mathlib.Nat.{pow-suc}
use native.Mathlib.Omega.{arith}

-- Two counts of digits to go that both reach the end of the first number agree.
module _ (past : ℕ → ℕ) (digit : ℕ → ℕ → ℕ) where
  no_digits : (k y : ℕ) → digits past digit k zero y ≡ past y
  no_digits zero y = refl
  no_digits (suc k) y = refl

  same_digits : (k l x y : ℕ) → x ≤ k → x ≤ l → digits past digit k x y ≡ digits past digit l x y
  same_digits k l zero y h h' = rw (no_digits k y, no_digits l y)
  same_digits zero l (suc x) y h h' = absurd (omega arith)
  same_digits (suc k) zero (suc x) y h h' = absurd (omega arith)
  same_digits (suc k) (suc l) (suc x) y h h' =
      rw (same_digits k l (suc x / 2) (y / 2) (omega arith) (omega arith))

  lowest_digit :
      (x y : ℕ)
      → bitwise past digit (suc x) y
        ≡ digit (suc x % 2) (y % 2) + 2 * bitwise past digit (suc x / 2) (y / 2)
  lowest_digit x y =
      let shorter = same_digits x (suc x / 2) (suc x / 2) (y / 2) (omega arith) (omega arith) in
      rw shorter (omega arith)

differ_digits : (x y : ℕ) → x < 2 → y < 2 → differ x y ≡ (x + y) % 2
differ_digits zero y h k = omega arith
differ_digits (suc zero) zero h k = omega arith
differ_digits (suc zero) (suc zero) h k = omega arith
differ_digits (suc zero) (suc (suc y)) h k = absurd (omega arith)
differ_digits (suc (suc x)) y h k = absurd (omega arith)

pub bit_xor_step : (x y : ℕ) → bit_xor x y ≡ (x % 2 + y % 2) % 2 + 2 * bit_xor (x / 2) (y / 2)
bit_xor_step zero y = simp bit_xor-bitwise (omega arith)
bit_xor_step (suc x) y = simp bit_xor-bitwise (
    omega (
      arith,
      lowest_digit (λ d. d) differ x y,
      differ_digits (suc x % 2) (y % 2) (omega arith) (omega arith),
    ))

pub bit_or_step : (x y : ℕ) → bit_or x y ≡ max (x % 2) (y % 2) + 2 * bit_or (x / 2) (y / 2)
bit_or_step zero y = simp bit_or-bitwise (omega arith)
bit_or_step (suc x) y = simp bit_or-bitwise (lowest_digit (λ d. d) max x y)

pub bit_and_step : (x y : ℕ) → bit_and x y ≡ min (x % 2) (y % 2) + 2 * bit_and (x / 2) (y / 2)
bit_and_step zero y = simp bit_and-bitwise (omega arith)
bit_and_step (suc x) y = simp bit_and-bitwise (lowest_digit (λ d. zero) min x y)

two-pow-suc : (k q : ℕ) → q * 2 ^ suc k ≡ 2 * (q * 2 ^ k)
two-pow-suc k q = omega (arith, ap (λ (t : ℕ). q * t) (pow-suc 2 k))

-- Exclusive or with the same word undoes itself.
xor_twice : (n a b : ℕ) → a ≤ n → b ≤ n → bit_xor (bit_xor a b) b ≡ a
xor_twice zero zero zero h k = refl
xor_twice zero zero (suc b) h k = absurd (omega arith)
xor_twice zero (suc a) b h k = absurd (omega arith)
xor_twice (suc n) a b h k = omega (
  arith,
  bit_xor_step a b,
  bit_xor_step (bit_xor a b) b,
  ap (λ (t : ℕ). bit_xor t (b / 2)) half,
  xor_twice n (a / 2) (b / 2) (omega arith) (omega arith),
)
  where
    half : bit_xor a b / 2 ≡ bit_xor (a / 2) (b / 2)
    half = omega (arith, bit_xor_step a b)

pub xor-xor : (a b : ℕ) → bit_xor (bit_xor a b) b ≡ a
xor-xor a b = xor_twice (max a b) a b (omega arith) (omega arith)

pub zero-xor : (a : ℕ) → bit_xor 0 a ≡ a
zero-xor a = bit_xor-bitwise 0 a

-- Two words differ in some bit unless they are equal.
pub eq_of_xor : (a b : ℕ) → bit_xor a b ≡ 0 → a ≡ b
eq_of_xor a b h = omega (arith, xor-xor a b, ap (λ (t : ℕ). bit_xor t b) h, zero-xor b)

pub xor_self : (a : ℕ) → bit_xor a a ≡ 0
xor_self a = omega (arith, xor-xor 0 a, ap (λ (t : ℕ). bit_xor t a) (zero-xor a))

pub xor-lt : (k a b : ℕ) → a < 2 ^ k → b < 2 ^ k → bit_xor a b < 2 ^ k
xor-lt zero zero zero p q = omega arith
xor-lt zero zero (suc b) p q = absurd (omega arith)
xor-lt zero (suc a) b p q = absurd (omega arith)
xor-lt (suc k) a b p q =
    let two = two-pow-suc k 1 in
    omega (
      arith,
      bit_xor_step a b,
      pow-suc 2 k,
      xor-lt k (a / 2) (b / 2) (omega (arith, pow-suc 2 k)) (omega (arith, pow-suc 2 k)),
    )

or-zero_bound : (n a : ℕ) → a ≤ n → bit_or a 0 ≡ a
or-zero_bound n zero h = refl
or-zero_bound zero (suc a) h = absurd (omega arith)
or-zero_bound (suc n) (suc a) h =
    omega (arith, bit_or_step (suc a) 0, or-zero_bound n (suc a / 2) (omega arith))

pub or-zero : (a : ℕ) → bit_or a 0 ≡ a
or-zero a = or-zero_bound a a (omega arith)

pub zero-or : (a : ℕ) → bit_or 0 a ≡ a
zero-or a = bit_or-bitwise 0 a

or_both : (n a b : ℕ) → a ≤ n → b ≤ n → bit_or a b ≡ 0 → (a ≡ 0) × (b ≡ 0)
or_both zero a b h k e = omega arith
or_both (suc n) a b h k e =
    let halves =
      or_both n (a / 2) (b / 2) (omega arith) (omega arith) (omega (arith, bit_or_step a b)) in
    omega (arith, bit_or_step a b)

-- An or is 0 only of zeros.
pub or-eq_zero : (a b : ℕ) → bit_or a b ≡ 0 → (a ≡ 0) × (b ≡ 0)
or-eq_zero a b e = or_both (max a b) a b (omega arith) (omega arith) e

-- `(q << k) | r` is a sum when `r` has `k` bits.
pub or_fields : (k q r : ℕ) → r < 2 ^ k → bit_or (q * 2 ^ k) r ≡ q * 2 ^ k + r
or_fields zero q zero h = omega (arith, or-zero q, ap (λ (t : ℕ). bit_or t 0) one)
  where
    one : q * 2 ^ 0 ≡ q
    one = omega arith
or_fields zero q (suc r) h = absurd (omega arith)
or_fields (suc k) q r h =
    let two = two-pow-suc k q in
    let step = bit_or_step (q * 2 ^ suc k) r in
    let half : q * 2 ^ suc k / 2 ≡ q * 2 ^ k = omega arith in
    omega (
      arith,
      step,
      ap (λ (t : ℕ). bit_or t (r / 2)) half,
      or_fields k q (r / 2) (omega (arith, pow-suc 2 k)),
    )

and-zero_bound : (n a : ℕ) → a ≤ n → bit_and a 0 ≡ 0
and-zero_bound n zero h = refl
and-zero_bound zero (suc a) h = absurd (omega arith)
and-zero_bound (suc n) (suc a) h =
    omega (arith, bit_and_step (suc a) 0, and-zero_bound n (suc a / 2) (omega arith))

-- `&` with one, four and six low bits.
and_one : (a : ℕ) → bit_and a 1 ≡ a % 2
and_one a = omega (arith, bit_and_step a 1, and-zero_bound (a / 2) (a / 2) (omega arith))

and_three : (a : ℕ) → bit_and a 3 ≡ a % 4
and_three a = omega (arith, bit_and_step a 3, and_one (a / 2))

and_seven : (a : ℕ) → bit_and a 7 ≡ a % 8
and_seven a = omega (arith, bit_and_step a 7, and_three (a / 2))

pub and_nibble : (a : ℕ) → bit_and a 15 ≡ a % 16
and_nibble a = omega (arith, bit_and_step a 15, and_seven (a / 2))

and_31 : (a : ℕ) → bit_and a 31 ≡ a % 32
and_31 a = omega (arith, bit_and_step a 31, and_nibble (a / 2))

pub and_sextet : (a : ℕ) → bit_and a 63 ≡ a % 64
and_sextet a = omega (arith, bit_and_step a 63, and_31 (a / 2))
