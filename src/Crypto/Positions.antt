-- ===== src/Crypto/Positions.antt =====
-- Each byte of `mp_cache_stream_xor` by its position (internal/crypto/crypto.c).
use mp_cache.Prelude.{
  ℕ, zero, suc, ◌+◌, ◌-◌, ◌*◌, ◌/◌, ◌%◌, ◌≤◌, ◌<◌, ◌≡◌, ◌∙◌, refl, ap, ap₂, Bool-cases, inl, inr,
  Bytes, [], ◌∷◌, ◌++◌, length, length-append, get_or, take, ltb, word64, bit_xor, arith,
}
use mp_cache.Crypto.Sha256.{hmac_sha256, length_block}
use mp_cache.Crypto.Digest.{hmac_sha256-IsDigest}
use mp_cache.Crypto.Stream.{xor_bytes, keystream_block, keystream, stream_xor, stream_xor-keystream}

get_or-append_left : (xs ys : Bytes) (i : ℕ) → i < length xs → get_or (xs ++ ys) i 0 ≡ get_or xs i 0
unfolding get_or
get_or-append_left [] ys i h = absurd (omega arith)
get_or-append_left (x ∷ xs) ys zero h = refl
get_or-append_left (x ∷ xs) ys (suc i) h = get_or-append_left xs ys i (omega arith)

get_or-append_right :
    (xs ys : Bytes) (i : ℕ) → length xs ≤ i → get_or (xs ++ ys) i 0 ≡ get_or ys (i - length xs) 0
unfolding get_or
get_or-append_right [] ys i h = ap (λ (j : ℕ). get_or ys j 0) (omega arith)
get_or-append_right (x ∷ xs) ys zero h = absurd (omega arith)
get_or-append_right (x ∷ xs) ys (suc i) h =
    get_or-append_right xs ys i (omega arith) ∙ ap (λ (j : ℕ). get_or ys j 0) (omega arith)

get_or-xor_bytes :
    (bytes stream : Bytes) (i : ℕ)
    → i < length bytes
    → i < length stream
    → get_or (xor_bytes bytes stream) i 0 ≡ bit_xor (get_or bytes i 0) (get_or stream i 0)
unfolding get_or xor_bytes
get_or-xor_bytes [] stream i h k = absurd (omega arith)
get_or-xor_bytes (b ∷ bytes) [] i h k = absurd (omega arith)
get_or-xor_bytes (b ∷ bytes) (s ∷ stream) zero h k = refl
get_or-xor_bytes (b ∷ bytes) (s ∷ stream) (suc i) h k =
    get_or-xor_bytes bytes stream i (omega arith) (omega arith)

module _ (key nonce : Bytes) where
  length-keystream_block : (counter : ℕ) → length (keystream_block key nonce counter) ≡ 32
  unfolding keystream_block
  length-keystream_block counter =
      (hmac_sha256-IsDigest key (take 16 nonce ++ length_block counter)).0

  length-keystream : (n counter : ℕ) → length (keystream n key nonce counter) ≡ n * 32
  unfolding keystream
  length-keystream zero counter = refl
  length-keystream (suc n) counter = omega (
    arith,
    length-append (keystream_block key nonce counter)
        (keystream n key nonce ((counter + 1) % word64)),
    length-keystream_block counter,
    length-keystream n ((counter + 1) % word64),
  )

  get_or-keystream :
      (n counter i : ℕ)
      → i < n * 32
      → get_or (keystream n key nonce (counter % word64)) i 0
        ≡ get_or (keystream_block key nonce ((counter + i / 32) % word64)) (i % 32) 0
  unfolding keystream
  get_or-keystream zero counter i h = absurd (omega arith)
  get_or-keystream (suc n) counter i h =
      let block = keystream_block key nonce (counter % word64) in
      let behind = keystream n key nonce ((counter % word64 + 1) % word64) in
      let size = length-keystream_block (counter % word64) in
      elim (Bool-cases (ltb i 32)) [
        | inl first ↦
            get_or-append_left block behind i (ground (arith, size))
            ∙ ap₂ (λ (c j : ℕ). get_or (keystream_block key nonce c) j 0) (ground arith)
                (ground arith)
        | inr later ↦
            get_or-append_right block behind i (ground (arith, size))
            ∙ ap₂ (λ (c j : ℕ). get_or (keystream n key nonce c) j 0) (omega arith)
                (ap (λ (w : ℕ). i - w) size)
            ∙ get_or-keystream n (counter + 1) (i - 32) (ground arith)
            ∙ ap₂ (λ (c j : ℕ). get_or (keystream_block key nonce c) j 0) (ground arith)
                (ground arith)
      ]

  -- The byte at a position is the byte of the text there, added to the byte at the same place of
  -- its 32-byte block in HMAC-SHA-256, under the key, of the nonce and the number of the block,
  -- from 0 on, in 8 bytes with the most significant first.
  pub get_or-stream_xor :
      (bytes : Bytes) (i : ℕ)
      → i < length bytes
      → get_or (stream_xor key nonce bytes) i 0
        ≡ bit_xor
            (get_or bytes i 0)
            (get_or (hmac_sha256 key (take 16 nonce ++ length_block (i / 32 % word64))) (i % 32) 0)
  unfolding keystream_block
  get_or-stream_xor bytes i inside =
      let n = length bytes in
      let enough = length-keystream n 0 in
      ap (λ (l : Bytes). get_or l i 0) (stream_xor-keystream key nonce bytes)
      ∙ get_or-xor_bytes bytes (keystream n key nonce 0) i inside (omega (arith, enough))
      ∙ ap (bit_xor (get_or bytes i 0)) (get_or-keystream n 0 i (omega arith))
      ∙ ap
          (λ (c : ℕ).
            bit_xor (get_or bytes i 0) (get_or (keystream_block key nonce (c % word64)) (i % 32) 0))
          (omega arith)
