-- ===== src/Crypto/Padding.antt =====
-- `mp_cache_sha256_final` (internal/crypto/crypto.c) is the feeding of the padding of FIPS 180-4.
use mp_cache.Prelude.{
  ℕ, ◌+◌, ◌-◌, ◌%◌, ◌≤◌, ◌<◌, ◌≡◌, ◌∙◌, sym, ap, true, false, Bool-cases, inl, inr, Bytes, [], ◌∷◌,
  ◌++◌, length, length-append, ltb, replicate, length-replicate, replicate-append, arith,
  append_assoc,
}
use mp_cache.Crypto.Transform.{transform}
use mp_cache.Crypto.Sha256.{Context, settle, pad_to, pad_block, length_block, emit, sha256_final}
use mp_cache.Crypto.Feeding.{feed, feed-append, feed_copy}

pub settle_full :
    (context : Context) (staged : Bytes)
    → length staged ≡ 64
    → settle context staged ≡ record context { state = transform context.state staged; block = [] }
settle_full context staged h = ground arith

-- The zeros after the marker byte, for a message of `n` bytes.
abbrev pub zeros : ℕ → Bytes
zeros n = replicate ((119 - n % 64) % 64) 0

-- The marker byte, and as many zeros as leave 8 bytes in the last block.
abbrev pub padding : ℕ → ℕ → Bytes
padding n bits = 0x80 ∷ zeros n ++ length_block bits

fed_block :
    (context : Context) (b : ℕ) (rest : Bytes)
    → length context.block + length (b ∷ rest) ≡ 64
    → feed context (b ∷ rest)
      ≡ record context { state = transform context.state (context.block ++ b ∷ rest); block = [] }
fed_block context b rest h =
    feed_copy context b rest (omega arith)
    ∙ settle_full context _ (omega (arith, length-append context.block (b ∷ rest)))

module _ (context : Context) where
  used : ℕ
  used = length context.block

  marked : Bytes
  marked = context.block ++ 0x80 ∷ []

  more : ℕ
  more = (119 - used % 64) % 64

  tail : Bytes
  tail = length_block context.bit_count

  length-zeros : (k : ℕ) → length {A = ℕ} (replicate k 0) ≡ k
  length-zeros k = length-replicate k 0

  one_block :
      used < 56
      → (feed context (0x80 ∷ replicate more 0 ++ tail)).state
        ≡ transform context.state (pad_to 56 marked ++ tail)
  unfolding used more tail marked
  one_block h =
      let blanks : Bytes = replicate (56 - length marked) 0 in
      let count : more ≡ 56 - length marked =
        omega (arith, length-append context.block (0x80 ∷ [])) in
      ap (λ c. c.state)
        (fed_block context 0x80 (replicate more 0 ++ tail)
          (omega (arith, length-append (replicate more 0) tail, length-zeros more)))
      ∙ ap (λ k. transform context.state (context.block ++ 0x80 ∷ (replicate k 0 ++ tail))) count
      ∙ ap (transform context.state) (
          sym (
            append_assoc marked blanks tail
            ∙ append_assoc context.block (0x80 ∷ []) (blanks ++ tail)))

  two_blocks :
      56 ≤ used
      → used < 64
      → (feed context (0x80 ∷ replicate more 0 ++ tail)).state
        ≡ transform (transform context.state (pad_to 64 marked)) (pad_to 56 [] ++ tail)
  unfolding used more tail marked replicate
  two_blocks lo hi =
      let first : Bytes = replicate (64 - length marked) 0 in
      let count : more ≡ (64 - length marked) + 56 =
        omega (arith, length-append context.block (0x80 ∷ [])) in
      let split : 0x80 ∷ replicate more 0 ++ tail ≡ (0x80 ∷ first) ++ (replicate 56 0 ++ tail) =
        ap (λ k. 0x80 ∷ (replicate k 0 ++ tail)) count
        ∙ ap (λ (l : Bytes). 0x80 ∷ (l ++ tail)) (sym (replicate-append (64 - length marked) 56 0))
        ∙ ap (λ (l : Bytes). 0x80 ∷ l) (append_assoc first (replicate 56 0) tail) in
      let full : feed context (0x80 ∷ first)
          ≡ record context { state = transform context.state (pad_to 64 marked); block = [] } =
        fed_block context 0x80 first (
          omega (arith, length-zeros (64 - length marked), length-append context.block (0x80 ∷ [])))
        ∙ ap (λ b. record context { state = transform context.state b; block = [] })
            (sym (append_assoc context.block (0x80 ∷ []) first)) in
      ap (λ b. (feed context b).state) split
      ∙ ap (λ c. c.state) (feed-append context (0x80 ∷ first) (replicate 56 0 ++ tail))
      ∙ ap (λ c. (feed c (replicate 56 0 ++ tail)).state) full
      ∙ ap (λ c. c.state)
          (fed_block
            (record context { state = transform context.state (pad_to 64 marked); block = [] }) 0
            (replicate 55 0 ++ tail) (omega arith))

  pad_long :
      ltb 56 (length marked) ≡ true
      → pad_block context ≡ record context {
        state = transform context.state (pad_to 64 marked);
        block = pad_to 56 [];
      }
  unfolding pad_block marked
  pad_long h = rw h

  pad_short :
      ltb 56 (length marked) ≡ false
      → pad_block context ≡ record context { block = pad_to 56 marked }
  unfolding pad_block marked
  pad_short h = rw h

  -- The final step feeds the padding, and emits the state.
  pub sha256_final-feed :
      length context.block < 64
      → sha256_final context
        ≡ emit (feed context (padding (length context.block) context.bit_count)).state
  unfolding sha256_final used more tail
  sha256_final-feed h =
      let size = length-append context.block (0x80 ∷ []) in
      let ends = λ (c : Context). emit (transform c.state (c.block ++ tail)) in
      elim (Bool-cases (ltb 56 (length marked))) [
        | inl long ↦
            ap ends (pad_long long) ∙ ap emit (sym (two_blocks (unfold marked in ground arith) h))
        | inr short ↦
            ap ends (pad_short short) ∙ ap emit (sym (one_block (unfold marked in ground arith)))
      ]
