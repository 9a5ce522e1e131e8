-- ===== src/Tests/CryptoTests.antt =====
-- Digests and encodings at known inputs.
use mp_cache.Prelude.{
  ℕ, ◌≡◌, ◌↔◌, ◌/◌, ◌%◌, bit_xor, word64, length-replicate, refl, true, [], ◌∷◌, ◌++◌, some, codes,
  get_or, take, drop, replicate, arith,
}
use mathlib.Core.Option
use mp_cache.Crypto.Transform.{transform}
use mp_cache.Crypto.Sha256.{
  Context, sha256, sha256_init, emit, xor_all, update_loop, sha256_update, sha256_final,
  hmac_sha256, normalized_key, length_block,
}
use mp_cache.Crypto.Feeding.{sha256_update-append}
use mp_cache.Crypto.Padding.{padding}
use mp_cache.Crypto.Digest.{compress_blocks, sha256-blocks, hmac_sha256-sha256}
use mp_cache.Crypto.Stream.{constant_time_equals, constant_time_equals_iff, stream_xor}
use mp_cache.Crypto.Positions.{get_or-stream_xor}
use mp_cache.Crypto.Hex.{hex_encode, hex_decode, hex_decode-hex_encode}
use mp_cache.Crypto.Base64.{base64_encode, base64_decode, ok, base64_groups, base64_char}
use mp_cache.Crypto.Armored.{base64_decode-base64_encode}

crypto_program : Unit {0}
unfolding get_or take drop replicate transform sha256 update_loop sha256_update sha256_final
    hmac_sha256 normalized_key
crypto_program = tt

-- The digest of "abc" in FIPS 180-4.
sha256_abc :
    take 8 (sha256 (codes "abc")) ≡ 0xba ∷ 0x78 ∷ 0x16 ∷ 0xbf ∷ 0x8f ∷ 0x01 ∷ 0xcf ∷ 0xea ∷ []
unfolding crypto_program
sha256_abc = refl

-- Test case 2 of RFC 4231.
hmac_jefe :
    take 4 (hmac_sha256 (codes "Jefe") (codes "what do ya want for nothing?"))
    ≡ 0x5b ∷ 0xdc ∷ 0xc1 ∷ 0x46 ∷ []
unfolding crypto_program
hmac_jefe = refl

abbrev halfway : Context
halfway = record { state = sha256_init.state; bit_count = 24; block = 1 ∷ 2 ∷ 3 ∷ [] }

sha256_update-append_example :
    sha256_update (sha256_update halfway (codes "ab")) (codes "cde")
    ≡ sha256_update halfway (codes "abcde")
sha256_update-append_example =
    sha256_update-append halfway (codes "ab") (codes "cde") (omega arith) (omega arith)

sha256-blocks_example :
    sha256 (codes "abc") ≡ emit (compress_blocks 1 sha256_init.state (codes "abc" ++ padding 3 24))
sha256-blocks_example = sha256-blocks (codes "abc")

hmac_sha256-sha256_example :
    hmac_sha256 (codes "Jefe") (codes "what")
    ≡ sha256 (
        xor_all 0x5c (normalized_key (codes "Jefe"))
        ++ sha256 (xor_all 0x36 (normalized_key (codes "Jefe")) ++ codes "what"))
hmac_sha256-sha256_example = hmac_sha256-sha256 (codes "Jefe") (codes "what")

constant_time_equals_iff_example :
    (constant_time_equals (some (codes "abc")) (some (codes "abd")) 3 ≡ true)
    ↔ (codes "abc" ≡ codes "abd")
constant_time_equals_iff_example =
    constant_time_equals_iff 3 (codes "abc") (codes "abd") refl refl (omega arith) (omega arith)

get_or-stream_xor_example :
    get_or (stream_xor (codes "key") (replicate 16 7) (replicate 40 1)) 33 0
    ≡ bit_xor (get_or (replicate 40 1) 33 0) (
        get_or
          (hmac_sha256 (codes "key") (take 16 (replicate 16 7) ++ length_block (33 / 32 % word64)))
          (33 % 32)
          0)
get_or-stream_xor_example =
    get_or-stream_xor (codes "key") (replicate 16 7) (replicate 40 1) 33
      (omega (arith, length-replicate {A = ℕ} 40 1))

hex_decode-hex_encode_example :
    Option.bind (hex_encode (0 ∷ 171 ∷ 255 ∷ []) 7) (λ text. hex_decode text 3)
    ≡ some (0 ∷ 171 ∷ 255 ∷ [])
hex_decode-hex_encode_example =
    hex_decode-hex_encode (0 ∷ 171 ∷ 255 ∷ []) 7 3 (omega arith) (omega arith) (omega arith)

armored : base64_encode (0 ∷ 171 ∷ 255 ∷ 7 ∷ []) 9 ≡ some (codes "AKv/Bw==")
unfolding base64_encode base64_groups base64_char get_or
armored = refl

base64_decode-base64_encode_example :
    base64_decode (codes "AKv/Bw==") 4 ≡ ok (0 ∷ 171 ∷ 255 ∷ 7 ∷ [])
base64_decode-base64_encode_example =
    base64_decode-base64_encode (0 ∷ 171 ∷ 255 ∷ 7 ∷ []) (codes "AKv/Bw==") 9 4
      (omega arith, (omega arith, (omega arith, (omega arith, tt)))) armored (omega arith)
      (omega arith)
