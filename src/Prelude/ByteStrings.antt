-- ===== src/Prelude/ByteStrings.antt =====
-- Byte strings as lists of numbers, `memcmp` and `strcmp`, and words of 64 bits.
use Prim.Native.Nat.{ℕ, zero, suc, ◌+◌, ◌-◌, ◌%◌, ◌^◌, ◌≤◌, ◌<◌}
use Prim.Native.Char.{code}
use Prim.Native.String.{String}
use mathlib.Core.Path.{◌≡◌, refl}
use mathlib.Core.Bool.{Bool, true, false, ◌&&◌}
use mathlib.Core.List.{List, [], ◌∷◌}
use native.Mathlib.Omega.{arith}
use mp_cache.Prelude.Tests.{◌==◌}
use mp_cache.Prelude.Lists.{length}

abbrev pub Bytes : Type 0
Bytes = List ℕ

abbrev pub IsByte : ℕ → Type 0
IsByte b = b < 256

-- The code points of an ASCII text, which are its bytes.
abbrev pub codes : String → Bytes
codes String.[] = []
codes (String.◌∷◌ c s) = code c ∷ codes s

-- `memcmp(a, b, n) == 0`; a read past the end of a side compares unequal.
unfoldable pub mem_equal : ℕ → Bytes → Bytes → Bool
mem_equal zero a b = true
mem_equal (suc n) [] b = false
mem_equal (suc n) (x ∷ a) [] = false
mem_equal (suc n) (x ∷ a) (y ∷ b) = (x == y) && mem_equal n a b

-- `strcmp(a, b) == 0` on texts without their closing NUL.
unfoldable pub str_equal : Bytes → Bytes → Bool
str_equal [] [] = true
str_equal [] (y ∷ b) = false
str_equal (x ∷ a) [] = false
str_equal (x ∷ a) (y ∷ b) = (x == y) && str_equal a b

pub str_equal_refl : (a : Bytes) → str_equal a a ≡ true
unfolding str_equal
str_equal_refl [] = refl
str_equal_refl (x ∷ a) = ground (arith, str_equal_refl a)

pub eq_of_str_equal : (a b : Bytes) → str_equal a b ≡ true → a ≡ b
unfolding str_equal
eq_of_str_equal [] [] h = refl
eq_of_str_equal [] (y ∷ b) h = cc
eq_of_str_equal (x ∷ a) [] h = cc
eq_of_str_equal (x ∷ a) (y ∷ b) h = ground (arith, eq_of_str_equal a b)

pub mem_equal_refl : (a : Bytes) → mem_equal (length a) a a ≡ true
unfolding mem_equal
mem_equal_refl [] = refl
mem_equal_refl (x ∷ a) = ground (arith, mem_equal_refl a)

pub eq_of_mem_equal : (a b : Bytes) → length a ≡ length b → mem_equal (length b) a b ≡ true → a ≡ b
unfolding mem_equal
eq_of_mem_equal [] [] e h = refl
eq_of_mem_equal [] (y ∷ b) e h = absurd (omega arith)
eq_of_mem_equal (x ∷ a) [] e h = absurd (omega arith)
eq_of_mem_equal (x ∷ a) (y ∷ b) e h = ground (arith, eq_of_mem_equal a b (omega arith))

abbrev pub word64 : ℕ
word64 = 2 ^ 64

-- `a - b` and `a + b` on `size_t` and `uint64_t`.
unfoldable pub sub64 : ℕ → ℕ → ℕ
sub64 a b = (a + word64 - b) % word64

unfoldable pub add64 : ℕ → ℕ → ℕ
add64 a b = (a + b) % word64

-- Where nothing wraps, the words compute as numbers do.
pub sub64-exact : (a b : ℕ) → b ≤ a → a < word64 → sub64 a b ≡ a - b
unfolding sub64
sub64-exact a b h k = omega arith

pub add64-exact : (a b : ℕ) → a + b < word64 → add64 a b ≡ a + b
unfolding add64
add64-exact a b h = omega arith
