-- ===== src/Crypto/Digest.antt =====
-- `mp_cache_sha256` and `mp_cache_hmac_sha256` (internal/crypto/crypto.c) against FIPS 180-4 and
-- RFC 2104.
use mp_cache.Prelude.{
  ℕ, zero, suc, ◌+◌, ◌-◌, ◌*◌, ◌/◌, ◌%◌, ◌≤◌, ◌<◌, ◌≡◌, ◌∙◌, refl, sym, ap, Bytes, IsByte, [], ◌∷◌,
  ◌++◌, length, length-append, All, replicate, length-replicate, take, drop, length-take,
  length-drop, word64, arith,
}
use mp_cache.Crypto.Transform.{Words, transform}
use mp_cache.Crypto.Sha256.{
  Context, settle, emit, length_block, sha256_init, sha256_update, sha256_final, sha256,
  hmac_sha256, normalized_key, xor_all,
}
use mp_cache.Crypto.Feeding.{
  feed, feed-append, feed-short, feed_part, feed-bit_count, sha256_update-feed,
  sha256_update-append,
}
use mp_cache.Crypto.Padding.{zeros, padding, settle_full, sha256_final-feed}

-- The compression function folded over `n` blocks.
unfoldable pub compress_blocks : ℕ → Words → Bytes → Words
compress_blocks zero state input = state
compress_blocks (suc n) state input =
    compress_blocks n (transform state (take 64 input)) (drop 64 input)

feed-blocks :
    (n : ℕ) (context : Context) (input : Bytes)
    → context.block ≡ []
    → length input ≡ n * 64
    → (feed context input).state ≡ compress_blocks n context.state input
unfolding compress_blocks
feed-blocks zero context [] clean whole = unfold feed in refl
feed-blocks zero context (b ∷ rest) clean whole = absurd (omega arith)
feed-blocks (suc n) context input clean whole =
    let first : Bytes = take 64 input in
    let size : length first ≡ 64 = omega (arith, length-take 64 input) in
    let full : settle context (context.block ++ first)
        ≡ record context { state = transform context.state first; block = [] } =
      rw clean (settle_full context first size) in
    ap (λ c. c.state)
      (feed_part 64 context input (omega arith) (omega arith) (rw clean (omega arith)))
    ∙ ap (λ c. (feed c (drop 64 input)).state) full
    ∙ feed-blocks n (record context { state = transform context.state first; block = [] })
        (drop 64 input) refl (omega (arith, length-drop 64 input))

-- A settled block has the length of what was staged, modulo the block.
length-settle :
    (context : Context) (staged : Bytes)
    → length staged ≤ 64
    → length (settle context staged).block ≡ length staged % 64
length-settle context staged h = ground arith

length-feed :
    (context : Context) (input : Bytes)
    → length context.block < 64
    → length (feed context input).block ≡ (length context.block + length input) % 64
unfolding feed
length-feed context [] h = omega arith
length-feed context (b ∷ rest) h =
    let staged : Bytes = context.block ++ b ∷ [] in
    let size = length-append context.block (b ∷ []) in
    let one = length-settle context staged (omega arith) in
    omega (arith, one, length-feed (settle context staged) rest (omega arith))

-- The number of blocks of a padded message of `n` bytes.
abbrev pub block_count : ℕ → ℕ
block_count n = (n + 72) / 64

-- The digest is the compression folded over the blocks of the padded message: the marker byte,
-- the zeros that leave 8 bytes in a block, and the length in bits.
pub sha256-blocks :
    (m : Bytes)
    → sha256 m
      ≡ emit (
          compress_blocks
            (block_count (length m))
            sha256_init.state
            (m ++ padding (length m) (length m * 8 % word64)))
unfolding sha256
sha256-blocks m =
    let bits : ℕ = length m * 8 % word64 in
    let fed : Context = feed sha256_init m in
    let counted : sha256_update sha256_init m ≡ record fed { bit_count = bits } =
      sha256_update-feed sha256_init m (omega arith) (omega arith)
      ∙ feed-bit_count sha256_init ((0 + length m * 8) % word64) m
      ∙ (let e : (0 + length m * 8) % word64 ≡ bits = omega arith in
          ap (λ n. record fed { bit_count = n }) e) in
    let tail : Bytes = padding (length m) bits in
    let same : (length fed.block) % 64 ≡ length m % 64 =
      omega (arith, length-feed sha256_init m (omega arith)) in
    ap sha256_final counted
    ∙ sha256_final-feed (record fed { bit_count = bits }) (feed-short sha256_init m (omega arith))
    ∙ ap
        (λ r.
          emit
            (feed (record fed { bit_count = bits })
              (0x80 ∷ replicate ((119 - r) % 64) 0 ++ length_block bits)).state)
        same
    ∙ ap (λ c. emit c.state) (feed-bit_count fed bits tail)
    ∙ ap (λ c. emit c.state) (sym (feed-append sha256_init m tail))
    ∙ ap emit (
        feed-blocks (block_count (length m)) sha256_init (m ++ tail) refl (
          omega (
            arith,
            length-append m tail,
            length-append (zeros (length m)) (length_block bits),
            length-replicate {A = ℕ} ((119 - length m % 64) % 64) 0,
          )))

-- A digest has 32 bytes.
abbrev pub IsDigest : Bytes → Type 0
IsDigest d = (length d ≡ 32) × All IsByte d

emit-IsDigest : (s : Words) → IsDigest (emit s)
emit-IsDigest s = omega arith

pub sha256-IsDigest : (m : Bytes) → IsDigest (sha256 m)
unfolding sha256 sha256_final
sha256-IsDigest m = emit-IsDigest _

pub hmac_sha256-IsDigest : (key message : Bytes) → IsDigest (hmac_sha256 key message)
unfolding hmac_sha256 sha256_final
hmac_sha256-IsDigest key message = emit-IsDigest _

two_updates :
    (a b : Bytes) → sha256_final (sha256_update (sha256_update sha256_init a) b) ≡ sha256 (a ++ b)
unfolding sha256
two_updates a b = ap sha256_final (sha256_update-append sha256_init a b (omega arith) (omega arith))

-- The keyed digest is H((K ^ opad) || H((K ^ ipad) || message)), with K the key filled up to a
-- block by zeros, or its digest where it is longer than a block.
pub hmac_sha256-sha256 :
    (key message : Bytes)
    → hmac_sha256 key message
      ≡ sha256 (
          xor_all 0x5c (normalized_key key)
          ++ sha256 (xor_all 0x36 (normalized_key key) ++ message))
unfolding hmac_sha256
hmac_sha256-sha256 key message =
    two_updates (xor_all 0x5c (normalized_key key)) _
    ∙ ap (λ d. sha256 (xor_all 0x5c (normalized_key key) ++ d))
        (two_updates (xor_all 0x36 (normalized_key key)) message)
