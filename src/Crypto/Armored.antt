-- ===== src/Crypto/Armored.antt =====
-- `mp_cache_base64_decode` on the text of `mp_cache_base64_encode` (internal/crypto/crypto.c).
use mp_cache.Prelude.{
  ℕ, ◌+◌, ◌*◌, ◌/◌, ◌%◌, ◌^◌, ◌≤◌, ◌<◌, ◌≡◌, ◌∙◌, refl, ap, ap₂, true, Bytes, IsByte, some, [], ◌∷◌,
  length, All, ◌==◌, arith, word64,
}
use mp_cache.Crypto.Base64.{
  equals_sign, digit0, digit1, digit2, digit3, base64_groups, base64_encode, ok, prepend,
  decode_groups, base64_decode,
}
use mp_cache.Crypto.Armor.{
  decode_group-three, decode_group-two, decode_group-one, chunk1, chunk2, chunk3,
}

module _ (out_index out_capacity n : ℕ) (text : Bytes) (chunk : n < 2 ^ 24)
    (small : out_capacity < word64) where
  three_bytes :
      out_index + 3 ≤ out_capacity
      → decode_groups out_index out_capacity (digit0 n ∷ digit1 n ∷ digit2 n ∷ digit3 n ∷ text)
        ≡ prepend
            (n / 2 ^ 16 % 256 ∷ n / 2 ^ 8 % 256 ∷ n % 256 ∷ [])
            (decode_groups (out_index + 3) out_capacity text)
  unfolding decode_groups
  three_bytes room =
      rw (decode_groups, decode_group-three out_index out_capacity n chunk small room) refl

  two_bytes :
      n % 2 ^ 8 ≡ 0
      → out_index + 2 ≤ out_capacity
      → decode_groups out_index out_capacity (digit0 n ∷ digit1 n ∷ digit2 n ∷ equals_sign ∷ [])
        ≡ ok (n / 2 ^ 16 % 256 ∷ n / 2 ^ 8 % 256 ∷ [])
  unfolding decode_groups
  two_bytes low room =
      rw (decode_groups, decode_group-two out_index out_capacity n chunk small low room) refl

  one_byte :
      n % 2 ^ 16 ≡ 0
      → out_index + 1 ≤ out_capacity
      → decode_groups out_index out_capacity (digit0 n ∷ digit1 n ∷ equals_sign ∷ equals_sign ∷ [])
        ≡ ok (n / 2 ^ 16 % 256 ∷ [])
  unfolding decode_groups
  one_byte low room =
      rw (decode_groups, decode_group-one out_index out_capacity n chunk small low room) refl

decode_groups-base64_groups :
    (out_index out_capacity : ℕ) (input : Bytes)
    → All IsByte input
    → out_capacity < word64
    → out_index + length input ≤ out_capacity
    → decode_groups out_index out_capacity (base64_groups input) ≡ ok input
unfolding decode_groups base64_groups
decode_groups-base64_groups out_index out_capacity [] h small room = refl
decode_groups-base64_groups out_index out_capacity (a ∷ []) h small room =
    let n : ℕ = a * 2 ^ 16 in
    ap
      (λ m.
        decode_groups out_index out_capacity (digit0 m ∷ digit1 m ∷ equals_sign ∷ equals_sign ∷ []))
      (chunk1 a h.0)
    ∙ one_byte out_index out_capacity n [] (omega (arith, h.0)) small (omega arith) (omega arith)
    ∙ ap (λ (x : ℕ). ok (x ∷ [])) (omega (arith, h.0))
decode_groups-base64_groups out_index out_capacity (a ∷ b ∷ []) h small room =
    let n : ℕ = a * 2 ^ 16 + b * 2 ^ 8 in
    ap
      (λ m.
        decode_groups out_index out_capacity (digit0 m ∷ digit1 m ∷ digit2 m ∷ equals_sign ∷ []))
      (chunk2 a b h.0 h.1.0)
    ∙ two_bytes out_index out_capacity n [] (omega (arith, h.0, h.1.0)) small (omega arith)
        (omega arith)
    ∙ ap₂ (λ (x y : ℕ). ok (x ∷ y ∷ [])) (omega (arith, h.0, h.1.0)) (omega (arith, h.0, h.1.0))
decode_groups-base64_groups out_index out_capacity (a ∷ b ∷ c ∷ rest) h small room =
    let n : ℕ = a * 2 ^ 16 + b * 2 ^ 8 + c in
    let high : n / 2 ^ 16 % 256 ≡ a = omega (arith, h.0, h.1.0, h.1.1.0) in
    let middle : n / 2 ^ 8 % 256 ≡ b = omega (arith, h.0, h.1.0, h.1.1.0) in
    let low : n % 256 ≡ c = omega (arith, h.0, h.1.0, h.1.1.0) in
    let others =
      decode_groups-base64_groups (out_index + 3) out_capacity rest h.1.1.1 small (omega arith) in
    ap
      (λ m.
        decode_groups out_index out_capacity
          (digit0 m ∷ digit1 m ∷ digit2 m ∷ digit3 m ∷ base64_groups rest))
      (chunk3 a b c h.0 h.1.0 h.1.1.0)
    ∙ three_bytes out_index out_capacity n (base64_groups rest) (omega (arith, h.0, h.1.0, h.1.1.0))
        small (omega arith)
    ∙ ap (prepend (n / 2 ^ 16 % 256 ∷ n / 2 ^ 8 % 256 ∷ n % 256 ∷ [])) others
    ∙ ap₂ (λ (x y : ℕ). ok (x ∷ y ∷ n % 256 ∷ rest)) high middle
    ∙ ap (λ (z : ℕ). ok (a ∷ b ∷ z ∷ rest)) low

length-base64_groups : (input : Bytes) → length (base64_groups input) % 4 ≡ 0
unfolding base64_groups
length-base64_groups [] = refl
length-base64_groups (a ∷ []) = refl
length-base64_groups (a ∷ b ∷ []) = refl
length-base64_groups (a ∷ b ∷ c ∷ rest) = omega (arith, length-base64_groups rest)

-- Bytes that are encoded into a text are decoded to themselves, without a write past the end, in
-- any buffer that has room for them.
pub base64_decode-base64_encode :
    (input text : Bytes) (text_capacity out_capacity : ℕ)
    → All IsByte input
    → base64_encode input text_capacity ≡ some text
    → out_capacity < word64
    → length input ≤ out_capacity
    → base64_decode text out_capacity ≡ ok input
unfolding base64_encode base64_decode
base64_decode-base64_encode input text text_capacity out_capacity bytes encoded small room =
    let same : base64_groups input ≡ text = ground (arith, encoded) in
    let whole : (length (base64_groups input) % 4 == 0) ≡ true =
      ground (arith, length-base64_groups input) in
    rw (← same, whole) (decode_groups-base64_groups 0 out_capacity input bytes small (omega arith))
