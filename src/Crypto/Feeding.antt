-- ===== src/Crypto/Feeding.antt =====
-- SHA-256 a byte at a time: the digest does not depend on how the input is cut into updates, and
-- is the compression folded over the padded message (internal/crypto/crypto.c).
use mp_cache.Prelude.{
  ℕ, zero, suc, ◌+◌, ◌-◌, ◌*◌, ◌%◌, ◌≤◌, ◌<◌, ◌≡◌, ◌∙◌, refl, sym, ap, Bytes, [], ◌∷◌, ◌++◌, length,
  length-append, ltb, if◌then◌else◌, take, drop, take-append-drop, length-take, length-drop, word64,
  arith, append_assoc,
}
use mp_cache.Crypto.Sha256.{Context, settle, update_loop, sha256_update}

-- One byte staged, and a full block compressed.
unfoldable pub feed : Context → Bytes → Context
feed context [] = context
feed context (b ∷ rest) = feed (settle context (context.block ++ b ∷ [])) rest

pub feed-append :
    (context : Context) (a b : Bytes) → feed context (a ++ b) ≡ feed (feed context a) b
unfolding feed
feed-append context [] b = refl
feed-append context (x ∷ a) b = feed-append (settle context (context.block ++ x ∷ [])) a b

settle_short :
    (context : Context) (staged : Bytes)
    → length staged < 64
    → settle context staged ≡ record context { block = staged }
settle_short context staged h = ground arith

-- The staged bytes stay fewer than a block.
pub settle-short :
    (context : Context) (staged : Bytes)
    → length staged ≤ 64
    → length (settle context staged).block < 64
settle-short context staged h = ground arith

pub feed-short :
    (context : Context) (input : Bytes)
    → length context.block < 64
    → length (feed context input).block < 64
unfolding feed
feed-short context [] h = h
feed-short context (b ∷ rest) h = feed-short (settle context (context.block ++ b ∷ [])) rest (
    settle-short context (context.block ++ b ∷ [])
      (omega (arith, length-append context.block (b ∷ []))))

-- A copy of bytes that fit the block is the same as staging them one by one.
pub feed_copy :
    (context : Context) (b : ℕ) (rest : Bytes)
    → length context.block + length (b ∷ rest) ≤ 64
    → feed context (b ∷ rest) ≡ settle context (context.block ++ b ∷ rest)
unfolding feed
feed_copy context b [] h = refl
feed_copy context b (c ∷ rest) h =
    let staged = context.block ++ b ∷ [] in
    let shorter =
      settle_short context staged (omega (arith, length-append context.block (b ∷ []))) in
    rw shorter (
      feed_copy (record context { block = staged }) c rest
        (omega (arith, length-append context.block (b ∷ [])))
      ∙ ap (settle context) (append_assoc context.block (b ∷ []) (c ∷ rest)))

-- The same for the first `n` bytes of an input.
pub feed_part :
    (n : ℕ) (context : Context) (input : Bytes)
    → 0 < n
    → n ≤ length input
    → length context.block + n ≤ 64
    → feed context input ≡ feed (settle context (context.block ++ take n input)) (drop n input)
unfolding take
feed_part n context [] pos fits room = absurd (omega arith)
feed_part zero context (b ∷ rest) pos fits room = absurd (omega arith)
feed_part (suc m) context (b ∷ rest) pos fits room =
    ap (feed context) (sym (take-append-drop (suc m) (b ∷ rest)))
    ∙ feed-append context (take (suc m) (b ∷ rest)) (drop (suc m) (b ∷ rest))
    ∙ ap (λ c. feed c (drop (suc m) (b ∷ rest)))
        (feed_copy context b (take m rest) (omega (arith, length-take m rest)))

-- The loop of an update stages every byte once, given a round for each.
pub update_loop-feed :
    (fuel : ℕ) (context : Context) (input : Bytes)
    → length context.block < 64
    → length input ≤ fuel
    → update_loop fuel context input ≡ feed context input
unfolding update_loop
update_loop-feed fuel context [] h k = unfold feed in refl
update_loop-feed zero context (b ∷ rest) h k = absurd (omega arith)
update_loop-feed (suc fuel) context (b ∷ rest) h k =
    let input : Bytes = b ∷ rest in
    let space : ℕ = 64 - length context.block in
    let n : ℕ = if ltb (length input) space then length input else space in
    let pos : 0 < n = ground arith in
    let fits : n ≤ length input = ground arith in
    let room : length context.block + n ≤ 64 = ground arith in
    update_loop-feed fuel (settle context (context.block ++ take n input)) (drop n input)
      (settle-short context (context.block ++ take n input)
        (omega (arith, length-append context.block (take n input), length-take n input)))
      (omega (arith, length-drop n input))
    ∙ sym (feed_part n context input pos fits room)

-- An update is the bytes fed one after another, with their bits counted.
pub sha256_update-feed :
    (context : Context) (input : Bytes)
    → length context.block < 64
    → context.bit_count < word64
    → sha256_update context input
      ≡ feed (record context { bit_count = (context.bit_count + length input * 8) % word64 }) input
unfolding sha256_update
sha256_update-feed context [] h k =
    unfold feed in ap (λ n. record context { bit_count = n }) (omega arith)
sha256_update-feed context (b ∷ rest) h k =
    update_loop-feed (length (b ∷ rest)) _ (b ∷ rest) h (omega arith)
    ∙ ap (λ n. feed (record context { bit_count = n }) (b ∷ rest)) (omega arith)

settle-bit_count :
    (context : Context) (n : ℕ) (staged : Bytes)
    → settle (record context { bit_count = n }) staged
      ≡ record (settle context staged) { bit_count = n }
settle-bit_count context n staged = ground arith

-- The count of bits has no part in the compression.
pub feed-bit_count :
    (context : Context) (n : ℕ) (input : Bytes)
    → feed (record context { bit_count = n }) input ≡ record (feed context input) { bit_count = n }
unfolding feed
feed-bit_count context n [] = refl
feed-bit_count context n (b ∷ rest) =
    ap (λ c. feed c rest) (settle-bit_count context n (context.block ++ b ∷ []))
    ∙ feed-bit_count (settle context (context.block ++ b ∷ [])) n rest

-- Two updates are one update with the inputs joined.
pub sha256_update-append :
    (context : Context) (a b : Bytes)
    → length context.block < 64
    → context.bit_count < word64
    → sha256_update (sha256_update context a) b ≡ sha256_update context (a ++ b)
sha256_update-append context a b h k =
    let fed : Context = feed context a in
    let n : ℕ = (context.bit_count + length a * 8) % word64 in
    ap (λ c. sha256_update c b) (sha256_update-feed context a h k ∙ feed-bit_count context n a)
    ∙ sha256_update-feed (record fed { bit_count = n }) b (feed-short context a h) (omega arith)
    ∙ ap (λ m. feed (record fed { bit_count = m }) b) (omega (arith, length-append a b))
    ∙ ap (λ c. feed c b)
        (sym (feed-bit_count context ((context.bit_count + length (a ++ b) * 8) % word64) a))
    ∙ sym (feed-append _ a b)
    ∙ sym (sha256_update-feed context (a ++ b) h k)
