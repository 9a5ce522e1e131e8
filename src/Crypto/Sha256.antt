-- ===== src/Crypto/Sha256.antt =====
-- SHA-256 over a staged block, and HMAC-SHA-256 (internal/crypto/crypto.c). Of the 64 bytes of
-- `block` the model keeps the `block_length` that are staged: no other is read before it is written.
use mp_cache.Prelude.{
  ℕ, zero, suc, ◌+◌, ◌-◌, ◌*◌, ◌/◌, ◌%◌, ◌^◌, Bytes, [], ◌∷◌, ◌++◌, length, ltb, ◌==◌,
  if◌then◌else◌, take, drop, replicate, word64, bit_xor,
}
use mp_cache.Crypto.Transform.{Words, transform}

abbrev pub block_size : ℕ
block_size = 64

-- `mp_cache_sha256_context_t`.
pub record Context : Type 0 where
  pub state : Words
  pub bit_count : ℕ
  pub block : Bytes

abbrev pub sha256_init : Context
sha256_init = record {
  state = record {
    w0 = 0x6a09e667;
    w1 = 0xbb67ae85;
    w2 = 0x3c6ef372;
    w3 = 0xa54ff53a;
    w4 = 0x510e527f;
    w5 = 0x9b05688c;
    w6 = 0x1f83d9ab;
    w7 = 0x5be0cd19;
  };
  bit_count = 0;
  block = [];
}

-- The test after a copy into the block: a full block is compressed.
abbrev pub settle : Context → Bytes → Context
settle context staged =
    if length staged == block_size
    then record context { state = transform context.state staged; block = [] }
    else record context { block = staged }

-- The loop of `mp_cache_sha256_update` over what is left of the input. Each round takes a byte at
-- least, so the length of the input is enough fuel.
unfoldable pub update_loop : ℕ → Context → Bytes → Context
update_loop fuel context [] = context
update_loop zero context (b ∷ rest) = context
update_loop (suc fuel) context (b ∷ rest) =
    let space = block_size - length context.block in
    let left = length (b ∷ rest) in
    let to_copy = if ltb left space then left else space in
    update_loop fuel (settle context (context.block ++ take to_copy (b ∷ rest)))
      (drop to_copy (b ∷ rest))

unfoldable pub sha256_update : Context → Bytes → Context
sha256_update context [] = context
sha256_update context (b ∷ rest) =
    let input = b ∷ rest in
    update_loop (length input)
      (record context { bit_count = (context.bit_count + length input * 8 % word64) % word64 })
      input

-- A `while (block_length < size) block[block_length++] = 0` loop.
abbrev pub pad_to : ℕ → Bytes → Bytes
pad_to size block = block ++ replicate (size - length block) 0

-- The 8 bytes of `length_block`, the most significant first.
abbrev pub length_block : ℕ → Bytes
length_block n =
    n / 2 ^ 56 % 256
    ∷ n / 2 ^ 48 % 256
    ∷ n / 2 ^ 40 % 256
    ∷ n / 2 ^ 32 % 256
    ∷ n / 2 ^ 24 % 256
    ∷ n / 2 ^ 16 % 256
    ∷ n / 2 ^ 8 % 256
    ∷ n % 256
    ∷ []

abbrev word_bytes : ℕ → Bytes → Bytes
word_bytes w rest = w / 2 ^ 24 % 256 ∷ w / 2 ^ 16 % 256 ∷ w / 2 ^ 8 % 256 ∷ w % 256 ∷ rest

abbrev pub emit : Words → Bytes
emit s = word_bytes s.w0 (
    word_bytes s.w1 (
      word_bytes s.w2 (
        word_bytes s.w3
          (word_bytes s.w4 (word_bytes s.w5 (word_bytes s.w6 (word_bytes s.w7 [])))))))

-- The padding of `mp_cache_sha256_final` up to the length bytes.
unfoldable pub pad_block : Context → Context
pad_block context =
    let marked = context.block ++ 0x80 ∷ [] in
    if ltb 56 (length marked)
    then record context {
      state = transform context.state (pad_to block_size marked);
      block = pad_to 56 [];
    }
    else record context { block = pad_to 56 marked }

unfoldable pub sha256_final : Context → Bytes
unfolding pad_block
sha256_final context =
    let padded = pad_block context in
    emit (transform padded.state (padded.block ++ length_block context.bit_count))

unfoldable pub sha256 : Bytes → Bytes
unfolding sha256_update sha256_final
sha256 input = sha256_final (sha256_update sha256_init input)

abbrev pub xor_all : ℕ → Bytes → Bytes
xor_all pad [] = []
xor_all pad (b ∷ rest) = bit_xor b pad ∷ xor_all pad rest

-- `normalized_key`: a long key is replaced by its digest, and zeros fill the block.
unfoldable pub normalized_key : Bytes → Bytes
normalized_key secret_key =
    let key = if ltb block_size (length secret_key) then sha256 secret_key else secret_key in
    pad_to block_size key

unfoldable pub hmac_sha256 : Bytes → Bytes → Bytes
hmac_sha256 secret_key message =
    let key = normalized_key secret_key in
    let inner =
      sha256_final (sha256_update (sha256_update sha256_init (xor_all 0x36 key)) message) in
    sha256_final (sha256_update (sha256_update sha256_init (xor_all 0x5c key)) inner)
