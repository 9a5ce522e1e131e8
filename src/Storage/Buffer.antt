-- ===== src/Storage/Buffer.antt =====
-- `mp_cache_buffer_t` and its appends (internal/storage/storage.c).
use mp_cache.Prelude.{
  ℕ, zero, suc, ◌+◌, ◌-◌, ◌*◌, ◌/◌, ◌%◌, ◌^◌, ◌≤◌, ◌<◌, ◌≡◌, ◌∙◌, refl, ap, Bool, true, false,
  Bool-cases, inl, inr, Bytes, Option, none, some, Option-cases, List, [], ◌∷◌, ◌++◌, flatten,
  append_assoc, append-nil, length, length-append, ltb, leb, ◌==◌, if◌then◌else◌, word64, arith,
}
use native.Mathlib.Nat.{pow-suc}

infixl 20 ◌>>=◌
-- A step that goes on where the one before it gave a result.
abbrev pub ◌>>=◌ {ℓ κ} : {A : Type ℓ} {B : Type κ} → Option A → (A → Option B) → Option B
none >>= f = none
some a >>= f = f a

-- `bytes` holds the first `length` bytes of the allocation, which has `capacity` bytes.
pub record Buffer : Type 0 where
  pub bytes : Bytes
  pub capacity : ℕ

abbrev pub empty_buffer : Buffer
empty_buffer = record { bytes = []; capacity = 0 }

abbrev pub initial_capacity : ℕ
initial_capacity = 256

-- The loop that doubles `next_capacity`, on fuel.
unfoldable pub grow : ℕ → ℕ → ℕ → ℕ
grow zero next_capacity needed = next_capacity
grow (suc fuel) next_capacity needed =
    let more = grow fuel (next_capacity * 2) needed in
    if leb needed next_capacity
    then next_capacity
    else if ltb (2 ^ 63 - 1) next_capacity
    then needed
    else more

-- `mp_cache_buffer_reserve`; `grants` says which sizes `realloc` grants. A `size_t` has 64 bits, so
-- 64 doublings are enough.
unfoldable pub reserve : (ℕ → Bool) → Buffer → ℕ → Option Buffer
reserve grants buffer additional_length =
    let needed = length buffer.bytes + additional_length in
    let start = if buffer.capacity == 0 then initial_capacity else buffer.capacity in
    let next_capacity = grow 64 start needed in
    if ltb (word64 - 1 - length buffer.bytes) additional_length
    then none
    else if leb needed buffer.capacity
    then some buffer
    else if grants next_capacity
    then some (record buffer { capacity = next_capacity })
    else none

-- `mp_cache_buffer_append` of an array that is not NULL.
unfoldable pub append : (ℕ → Bool) → Buffer → Bytes → Option Buffer
append grants buffer bytes = do
  reserved ← reserve grants buffer (length bytes)
  some (record reserved { bytes = reserved.bytes ++ bytes })

-- The four bytes of `mp_cache_buffer_append_u32`, of a value that is first cut to 32 bits.
abbrev pub u32_bytes : ℕ → Bytes
u32_bytes value =
    value / 2 ^ 24 % 256 ∷ value / 2 ^ 16 % 256 ∷ value / 2 ^ 8 % 256 ∷ value % 256 ∷ []

-- The eight bytes of `mp_cache_buffer_append_u64`.
abbrev pub u64_bytes : ℕ → Bytes
u64_bytes value =
    value / 2 ^ 56 % 256
    ∷ value / 2 ^ 48 % 256
    ∷ value / 2 ^ 40 % 256
    ∷ value / 2 ^ 32 % 256
    ∷ u32_bytes value

-- Appends one after the other, up to the first failure.
unfoldable pub append_all : (ℕ → Bool) → Buffer → List Bytes → Option Buffer
append_all grants buffer [] = some buffer
append_all grants buffer (bytes ∷ rest) = do
  next ← append grants buffer bytes
  append_all grants next rest

grow-enough :
    (fuel size needed : ℕ)
    → needed < word64
    → word64 ≤ size * 2 ^ fuel
    → needed ≤ grow fuel size needed
unfolding grow
grow-enough zero size needed small wide = omega arith
grow-enough (suc fuel) size needed small wide =
    let doubled : word64 ≤ size * 2 * 2 ^ fuel =
      omega (arith, ap (λ (t : ℕ). size * t) (pow-suc 2 fuel)) in
    ground (arith, grow-enough fuel (size * 2) needed small doubled)

grow_start-enough :
    (capacity needed : ℕ)
    → needed < word64
    → needed ≤ grow 64 (if capacity == 0 then initial_capacity else capacity) needed
grow_start-enough capacity needed small =
    grow-enough 64 (if capacity == 0 then initial_capacity else capacity) needed small
      (ground arith)

reserve-some :
    (grants : ℕ → Bool) (buffer : Buffer) (n : ℕ) (r : Buffer)
    → length buffer.bytes < word64
    → reserve grants buffer n ≡ some r
    → (r.bytes ≡ buffer.bytes)
      × (length buffer.bytes + n ≤ r.capacity)
      × (length buffer.bytes + n < word64)
unfolding reserve
reserve-some grants buffer n r short h =
    elim (Bool-cases (ltb (word64 - 1 - length buffer.bytes) n)) [
      | inl over ↦ absurd (ground arith)
      | inr fits ↦
          ground (arith, grow_start-enough buffer.capacity (length buffer.bytes + n) (ground arith))
    ]

-- An append that succeeds adds the bytes and stays within the allocation.
pub append-some :
    (grants : ℕ → Bool) (buffer : Buffer) (bytes : Bytes) (r : Buffer)
    → length buffer.bytes < word64
    → append grants buffer bytes ≡ some r
    → (r.bytes ≡ buffer.bytes ++ bytes) × (length r.bytes ≤ r.capacity) × (length r.bytes < word64)
unfolding append
append-some grants buffer bytes r short h =
    elim (Option-cases (reserve grants buffer (length bytes))) [
      | inl e ↦ absurd (ground arith)
      | inr (reserved, e) ↦
          let (same, room, below) = reserve-some grants buffer (length bytes) reserved short e in
          let result : record reserved { bytes = reserved.bytes ++ bytes } ≡ r = ground arith in
          rw (← result, same, length-append) (refl, room, below)
    ]

-- Where every allocation is granted, an append of less than 2^64 bytes in all succeeds.
pub append-granted :
    (buffer : Buffer) (bytes : Bytes)
    → length buffer.bytes + length bytes < word64
    → (r : Buffer) × (append (λ n. true) buffer bytes ≡ some r)
unfolding append reserve
append-granted buffer bytes h =
    let fits : ltb (word64 - 1 - length buffer.bytes) (length bytes) ≡ false = ground arith in
    elim (Bool-cases (leb (length buffer.bytes + length bytes) buffer.capacity)) [
      | inl room ↦ (record buffer { bytes = buffer.bytes ++ bytes }, rw (fits, room) refl)
      | inr full ↦ (
        record {
          bytes = buffer.bytes ++ bytes;
          capacity =
              grow 64 (if buffer.capacity == 0 then initial_capacity else buffer.capacity)
                (length buffer.bytes + length bytes);
        },
        rw (fits, full) refl,
      )
    ]

-- A chain of appends adds the parts in their order.
pub append_all-some :
    (grants : ℕ → Bool) (buffer : Buffer) (parts : List Bytes) (r : Buffer)
    → length buffer.bytes < word64
    → append_all grants buffer parts ≡ some r
    → r.bytes ≡ buffer.bytes ++ flatten parts
unfolding append_all flatten
append_all-some grants buffer [] r short h =
    let same : buffer ≡ r = ground arith in rw (← same, append-nil)
append_all-some grants buffer (bytes ∷ rest) r short h =
    elim (Option-cases (append grants buffer bytes)) [
      | inl e ↦ absurd (ground arith)
      | inr (next, e) ↦
          let (grown, room, below) = append-some grants buffer bytes next short e in
          let rest_of = append_all-some grants next rest r below (ground arith) in
          rest_of
          ∙ ap (λ (l : Bytes). l ++ flatten rest) grown
          ∙ append_assoc buffer.bytes bytes (flatten rest)
    ]

pub append_all-below :
    (grants : ℕ → Bool) (buffer : Buffer) (parts : List Bytes) (r : Buffer)
    → length buffer.bytes < word64
    → append_all grants buffer parts ≡ some r
    → length r.bytes < word64
unfolding append_all
append_all-below grants buffer [] r short h =
    let same : buffer ≡ r = ground arith in rw (← same) short
append_all-below grants buffer (bytes ∷ rest) r short h =
    elim (Option-cases (append grants buffer bytes)) [
      | inl e ↦ absurd (ground arith)
      | inr (next, e) ↦
          append_all-below grants next rest r (append-some grants buffer bytes next short e).2
            (ground arith)
    ]

-- Where every allocation is granted, a chain of appends of less than 2^64 bytes in all succeeds,
-- and adds the parts in their order.
pub append_all-granted :
    (buffer : Buffer) (parts : List Bytes)
    → length (buffer.bytes ++ flatten parts) < word64
    → (r : Buffer) × (append_all (λ n. true) buffer parts ≡ some r)
      × (r.bytes ≡ buffer.bytes ++ flatten parts)
unfolding append_all flatten
append_all-granted buffer [] h = (buffer, refl, rw append-nil)
append_all-granted buffer (bytes ∷ rest) h =
    let total : length buffer.bytes + (length bytes + length (flatten rest)) < word64 = omega (
      arith,
      h,
      length-append buffer.bytes (bytes ++ flatten rest),
      length-append bytes (flatten rest),
    ) in
    let (next, e) = append-granted buffer bytes (omega arith) in
    let (grown, room, below) = append-some (λ n. true) buffer bytes next (omega arith) e in
    let rest_fits : length (next.bytes ++ flatten rest) < word64 =
      rw (grown, length-append, length-append) (omega arith) in
    let (r, done, same) = append_all-granted next rest rest_fits in
    (
      r,
      rw e done,
      same
          ∙ ap (λ (l : Bytes). l ++ flatten rest) grown
          ∙ append_assoc buffer.bytes bytes (flatten rest),
    )
