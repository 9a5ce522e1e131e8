-- ===== src/Crypto/Transform.antt =====
-- The SHA-256 compression function (internal/crypto/crypto.c) on `uint32_t` words.
use mp_cache.Prelude.{
  ℕ, zero, suc, ◌+◌, ◌-◌, ◌*◌, ◌/◌, ◌%◌, ◌^◌, Bytes, List, [], ◌∷◌, ◌++◌, bit_and, bit_or, bit_xor,
  get_or,
}

abbrev pub word32 : ℕ
word32 = 2 ^ 32

abbrev sha256_constants : List ℕ
sha256_constants =
    0x428a2f98 ∷ 0x71374491 ∷ 0xb5c0fbcf ∷ 0xe9b5dba5 ∷ 0x3956c25b ∷ 0x59f111f1 ∷ 0x923f82a4
    ∷ 0xab1c5ed5 ∷ 0xd807aa98 ∷ 0x12835b01 ∷ 0x243185be ∷ 0x550c7dc3 ∷ 0x72be5d74 ∷ 0x80deb1fe
    ∷ 0x9bdc06a7 ∷ 0xc19bf174 ∷ 0xe49b69c1 ∷ 0xefbe4786 ∷ 0x0fc19dc6 ∷ 0x240ca1cc ∷ 0x2de92c6f
    ∷ 0x4a7484aa ∷ 0x5cb0a9dc ∷ 0x76f988da ∷ 0x983e5152 ∷ 0xa831c66d ∷ 0xb00327c8 ∷ 0xbf597fc7
    ∷ 0xc6e00bf3 ∷ 0xd5a79147 ∷ 0x06ca6351 ∷ 0x14292967 ∷ 0x27b70a85 ∷ 0x2e1b2138 ∷ 0x4d2c6dfc
    ∷ 0x53380d13 ∷ 0x650a7354 ∷ 0x766a0abb ∷ 0x81c2c92e ∷ 0x92722c85 ∷ 0xa2bfe8a1 ∷ 0xa81a664b
    ∷ 0xc24b8b70 ∷ 0xc76c51a3 ∷ 0xd192e819 ∷ 0xd6990624 ∷ 0xf40e3585 ∷ 0x106aa070 ∷ 0x19a4c116
    ∷ 0x1e376c08 ∷ 0x2748774c ∷ 0x34b0bcb5 ∷ 0x391c0cb3 ∷ 0x4ed8aa4a ∷ 0x5b9cca4f ∷ 0x682e6ff3
    ∷ 0x748f82ee ∷ 0x78a5636f ∷ 0x84c87814 ∷ 0x8cc70208 ∷ 0x90befffa ∷ 0xa4506ceb ∷ 0xbef9a3f7
    ∷ 0xc67178f2 ∷ []

unfoldable pub rotate_right : ℕ → ℕ → ℕ
rotate_right value count = bit_or (value / 2 ^ count) (value * 2 ^ (32 - count) % word32)

unfoldable pub big_sigma0 : ℕ → ℕ
unfolding rotate_right
big_sigma0 value =
    bit_xor (bit_xor (rotate_right value 2) (rotate_right value 13)) (rotate_right value 22)

unfoldable pub big_sigma1 : ℕ → ℕ
unfolding rotate_right
big_sigma1 value =
    bit_xor (bit_xor (rotate_right value 6) (rotate_right value 11)) (rotate_right value 25)

unfoldable pub small_sigma0 : ℕ → ℕ
unfolding rotate_right
small_sigma0 value =
    bit_xor (bit_xor (rotate_right value 7) (rotate_right value 18)) (value / 2 ^ 3)

unfoldable pub small_sigma1 : ℕ → ℕ
unfolding rotate_right
small_sigma1 value =
    bit_xor (bit_xor (rotate_right value 17) (rotate_right value 19)) (value / 2 ^ 10)

-- The first loop: the block as big-endian words.
unfoldable pub block_words : ℕ → ℕ → Bytes → List ℕ
block_words zero index block = []
block_words (suc left) index block =
    bit_or
      (bit_or
        (bit_or (get_or block (index * 4) 0 * 2 ^ 24) (get_or block (index * 4 + 1) 0 * 2 ^ 16))
        (get_or block (index * 4 + 2) 0 * 2 ^ 8))
      (get_or block (index * 4 + 3) 0)
    ∷ block_words left (index + 1) block

-- The second loop: the words 16 to 63 of the schedule.
unfoldable pub extend_schedule : ℕ → ℕ → List ℕ → List ℕ
unfolding small_sigma0 small_sigma1
extend_schedule zero index schedule = schedule
extend_schedule (suc left) index schedule =
    let word =
      (small_sigma1 (get_or schedule (index - 2) 0)
        + get_or schedule (index - 7) 0
        + small_sigma0 (get_or schedule (index - 15) 0)
        + get_or schedule (index - 16) 0)
      % word32 in
    extend_schedule left (index + 1) (schedule ++ word ∷ [])

-- `state[8]` and `working[8]`.
pub record Words : Type 0 where
  pub w0 : ℕ
  pub w1 : ℕ
  pub w2 : ℕ
  pub w3 : ℕ
  pub w4 : ℕ
  pub w5 : ℕ
  pub w6 : ℕ
  pub w7 : ℕ

-- `~x` on `uint32_t`.
abbrev complement : ℕ → ℕ
complement x = word32 - 1 - x

unfoldable pub round : ℕ → ℕ → Words → Words
unfolding big_sigma0 big_sigma1
round constant scheduled w =
    let choice = bit_xor (bit_and w.w4 w.w5) (bit_and (complement w.w4) w.w6) in
    let majority = bit_xor (bit_xor (bit_and w.w0 w.w1) (bit_and w.w0 w.w2)) (bit_and w.w1 w.w2) in
    let temp1 = (w.w7 + big_sigma1 w.w4 + choice + constant + scheduled) % word32 in
    let temp2 = (big_sigma0 w.w0 + majority) % word32 in
    record {
      w0 = (temp1 + temp2) % word32;
      w1 = w.w0;
      w2 = w.w1;
      w3 = w.w2;
      w4 = (w.w3 + temp1) % word32;
      w5 = w.w4;
      w6 = w.w5;
      w7 = w.w6;
    }

-- The loop over the 64 rounds, a constant and a scheduled word each.
unfoldable pub rounds : List ℕ → List ℕ → Words → Words
unfolding round
rounds (k ∷ constants) (s ∷ schedule) w = rounds constants schedule (round k s w)
rounds _ _ w = w

unfoldable pub transform : Words → Bytes → Words
unfolding get_or block_words extend_schedule rounds
transform state block =
    let working = rounds sha256_constants (extend_schedule 48 16 (block_words 16 0 block)) state in
    record {
      w0 = (state.w0 + working.w0) % word32;
      w1 = (state.w1 + working.w1) % word32;
      w2 = (state.w2 + working.w2) % word32;
      w3 = (state.w3 + working.w3) % word32;
      w4 = (state.w4 + working.w4) % word32;
      w5 = (state.w5 + working.w5) % word32;
      w6 = (state.w6 + working.w6) % word32;
      w7 = (state.w7 + working.w7) % word32;
    }
