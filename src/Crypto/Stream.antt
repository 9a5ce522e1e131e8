-- ===== src/Crypto/Stream.antt =====
-- `mp_cache_constant_time_equals` and `mp_cache_stream_xor` (internal/crypto/crypto.c).
use mp_cache.Prelude.{
  ℕ, zero, suc, ◌+◌, ◌%◌, ◌≤◌, ◌≡◌, ◌↔◌, ◌∙◌, refl, ap, ap₂, Bool, true, false, Bytes, IsByte,
  Option, some, [], ◌∷◌, ◌++◌, length, All, ◌==◌, take, drop, length-drop, word64, arith, bit_or,
  bit_xor,
}
use mp_cache.Prelude.Bits.{xor-xor, xor_self, eq_of_xor, xor-lt, or-eq_zero}
use mp_cache.Crypto.Sha256.{hmac_sha256, length_block}
use mp_cache.Crypto.Digest.{hmac_sha256-IsDigest}

-- The loop over `byte_length` positions; a read past an array, which no caller makes, ends it.
unfoldable pub difference : ℕ → ℕ → Bytes → Bytes → ℕ
difference zero diff left right = diff
difference (suc n) diff (x ∷ left) (y ∷ right) =
    difference n (bit_or diff (bit_xor x y % 256)) left right
difference (suc n) diff _ right = diff

-- A NULL side compares unequal.
unfoldable pub constant_time_equals : Option Bytes → Option Bytes → ℕ → Bool
unfolding difference
constant_time_equals (some left) (some right) byte_length = difference byte_length 0 left right == 0
constant_time_equals _ _ byte_length = false

difference-eq_zero :
    (n diff : ℕ) (left right : Bytes)
    → length left ≡ n
    → length right ≡ n
    → All IsByte left
    → All IsByte right
    → difference n diff left right ≡ 0
    → (diff ≡ 0) × (left ≡ right)
unfolding difference
difference-eq_zero zero diff [] [] h k a b e = (e, refl)
difference-eq_zero zero diff [] (y ∷ right) h k a b e = absurd (omega arith)
difference-eq_zero zero diff (x ∷ left) right h k a b e = absurd (omega arith)
difference-eq_zero (suc n) diff [] right h k a b e = absurd (omega arith)
difference-eq_zero (suc n) diff (x ∷ left) [] h k a b e = absurd (omega arith)
difference-eq_zero (suc n) diff (x ∷ left) (y ∷ right) h k a b e =
    let (first, rest) =
      difference-eq_zero n (bit_or diff (bit_xor x y % 256)) left right (omega arith) (omega arith)
        a.1 b.1 e in
    let (clean, same) = or-eq_zero diff (bit_xor x y % 256) first in
    let equal : x ≡ y = eq_of_xor x y (omega (arith, xor-lt 8 x y a.0 b.0)) in
    (clean, ap₂ (λ (z : ℕ) (l : Bytes). z ∷ l) equal rest)

difference_refl : (n : ℕ) (bytes : Bytes) → difference n 0 bytes bytes ≡ 0
unfolding difference
difference_refl zero bytes = refl
difference_refl (suc n) [] = refl
difference_refl (suc n) (x ∷ bytes) =
    ap (λ d. difference n (bit_or 0 (d % 256)) bytes bytes) (xor_self x) ∙ difference_refl n bytes

-- On two arrays of `n` bytes the comparison without a branch is equality.
pub constant_time_equals_iff :
    (n : ℕ) (left right : Bytes)
    → length left ≡ n
    → length right ≡ n
    → All IsByte left
    → All IsByte right
    → (constant_time_equals (some left) (some right) n ≡ true) ↔ (left ≡ right)
unfolding constant_time_equals
constant_time_equals_iff n left right h k a b = (
  λ e. (difference-eq_zero n 0 left right h k a b (ground arith)).1,
  λ e. rw e (ground (arith, difference_refl n right)),
)

-- `inout_bytes[i] ^= keystream[i]` as far as both go.
unfoldable pub xor_bytes : Bytes → Bytes → Bytes
xor_bytes [] keystream = []
xor_bytes (b ∷ bytes) [] = b ∷ bytes
xor_bytes (b ∷ bytes) (k ∷ keystream) = bit_xor b k ∷ xor_bytes bytes keystream

-- The digest of the nonce and the counter, most significant byte first.
unfoldable pub keystream_block : Bytes → Bytes → ℕ → Bytes
keystream_block key nonce counter = hmac_sha256 key (take 16 nonce ++ length_block counter)

-- The loop over the chunks that are left; each takes a byte at least.
unfoldable pub stream_loop : ℕ → Bytes → Bytes → ℕ → Bytes → Bytes
unfolding xor_bytes keystream_block
stream_loop fuel key nonce counter [] = []
stream_loop zero key nonce counter (b ∷ rest) = b ∷ rest
stream_loop (suc fuel) key nonce counter (b ∷ rest) =
    xor_bytes (take 32 (b ∷ rest)) (keystream_block key nonce counter)
    ++ stream_loop fuel key nonce ((counter + 1) % word64) (drop 32 (b ∷ rest))

unfoldable pub stream_xor : Bytes → Bytes → Bytes → Bytes
unfolding stream_loop
stream_xor key nonce bytes = stream_loop (length bytes) key nonce 0 bytes

pub length-xor_bytes : (a k : Bytes) → length (xor_bytes a k) ≡ length a
unfolding xor_bytes
length-xor_bytes [] k = refl
length-xor_bytes (b ∷ a) [] = refl
length-xor_bytes (b ∷ a) (x ∷ k) = ap suc (length-xor_bytes a k)

xor_bytes-twice : (a k : Bytes) → xor_bytes (xor_bytes a k) k ≡ a
unfolding xor_bytes
xor_bytes-twice [] k = refl
xor_bytes-twice (b ∷ a) [] = refl
xor_bytes-twice (b ∷ a) (x ∷ k) =
    ap₂ (λ (z : ℕ) (l : Bytes). z ∷ l) (xor-xor b x) (xor_bytes-twice a k)

xor_bytes-split :
    (n : ℕ) (a k rest : Bytes)
    → length k ≡ n
    → xor_bytes (take n a) k ++ xor_bytes (drop n a) rest ≡ xor_bytes a (k ++ rest)
unfolding xor_bytes take drop
xor_bytes-split zero a [] rest h = refl
xor_bytes-split zero a (x ∷ k) rest h = absurd (omega arith)
xor_bytes-split (suc n) a [] rest h = absurd (omega arith)
xor_bytes-split (suc n) [] (x ∷ k) rest h = refl
xor_bytes-split (suc n) (b ∷ a) (x ∷ k) rest h =
    ap (λ (l : Bytes). bit_xor b x ∷ l) (xor_bytes-split n a k rest (omega arith))

-- The keystream of `n` blocks from a counter on, which no byte of the text enters.
unfoldable pub keystream : ℕ → Bytes → Bytes → ℕ → Bytes
keystream zero key nonce counter = []
keystream (suc n) key nonce counter =
    keystream_block key nonce counter ++ keystream n key nonce ((counter + 1) % word64)

stream_loop-keystream :
    (fuel : ℕ) (key nonce : Bytes) (counter : ℕ) (bytes : Bytes)
    → length bytes ≤ fuel
    → stream_loop fuel key nonce counter bytes ≡ xor_bytes bytes (keystream fuel key nonce counter)
unfolding stream_loop keystream
stream_loop-keystream fuel key nonce counter [] h = refl
stream_loop-keystream zero key nonce counter (b ∷ rest) h = absurd (omega arith)
stream_loop-keystream (suc fuel) key nonce counter (b ∷ rest) h =
    let next : ℕ = (counter + 1) % word64 in
    let block : Bytes = keystream_block key nonce counter in
    ap (λ (l : Bytes). xor_bytes (take 32 (b ∷ rest)) block ++ l)
      (stream_loop-keystream fuel key nonce next (drop 32 (b ∷ rest))
        (omega (arith, length-drop 32 (b ∷ rest))))
    ∙ xor_bytes-split 32 (b ∷ rest) block (keystream fuel key nonce next)
        (hmac_sha256-IsDigest key (take 16 nonce ++ length_block counter)).0

-- The cipher adds a keystream of the key, the nonce and the length alone, digit by digit.
pub stream_xor-keystream :
    (key nonce bytes : Bytes)
    → stream_xor key nonce bytes ≡ xor_bytes bytes (keystream (length bytes) key nonce 0)
unfolding stream_xor
stream_xor-keystream key nonce bytes =
    stream_loop-keystream (length bytes) key nonce 0 bytes (omega arith)

pub length-stream_xor :
    (key nonce bytes : Bytes) → length (stream_xor key nonce bytes) ≡ length bytes
length-stream_xor key nonce bytes =
    ap length (stream_xor-keystream key nonce bytes)
    ∙ length-xor_bytes bytes (keystream (length bytes) key nonce 0)

-- Applied twice under one key and nonce, the cipher gives the text back.
pub stream_xor-stream_xor :
    (key nonce bytes : Bytes) → stream_xor key nonce (stream_xor key nonce bytes) ≡ bytes
stream_xor-stream_xor key nonce bytes =
    stream_xor-keystream key nonce (stream_xor key nonce bytes)
    ∙ ap (λ n. xor_bytes (stream_xor key nonce bytes) (keystream n key nonce 0))
        (length-stream_xor key nonce bytes)
    ∙ ap (λ (l : Bytes). xor_bytes l (keystream (length bytes) key nonce 0))
        (stream_xor-keystream key nonce bytes)
    ∙ xor_bytes-twice bytes (keystream (length bytes) key nonce 0)
