-- ===== src/Storage/Restored.antt =====
-- Entries and clients that have been written are read back (internal/storage/storage.c).
use mp_cache.Prelude.{
  ℕ, ◌+◌, ◌-◌, ◌%◌, ◌^◌, ◌<◌, ◌≡◌, refl, ap, subst, Bool, true, false, not, ◌||◌, Bytes, some, List,
  [], ◌∷◌, ◌++◌, flatten, append_assoc, length, ltb, leb, ◌==◌, if◌then◌else◌, word64, arith,
}
use mp_cache.Prelude.Int.{ℤ, pos, negsuc}
use mp_cache.Cache.Entry.{Entry}
use mp_cache.Security.Roles.{rank, is_enumerator, role_of_value-rank}
use mp_cache.Security.Records.{
  ClientRecord, client_id_cap, client_id_is_valid, all_id_characters, is_id_character,
}
use mp_cache.Storage.Buffer.{u32_bytes, u64_bytes}
use mp_cache.Storage.Reads.{Rest, next-Rest, consume_u32-Rest, consume_u64-Rest, consume_bytes-Rest}
use mp_cache.Storage.Records.{
  of_int64, to_int64, entry_parts, read_entry, client_parts, until_nul, read_active, read_client,
}

-- The values of an `int64_t`.
abbrev pub IsInt64 : ℤ → Type 0
IsInt64 (pos n) = n < 2 ^ 63
IsInt64 (negsuc n) = n < 2 ^ 63

pub of_int64-lt : (x : ℤ) → of_int64 x < word64
of_int64-lt (pos n) = omega arith
of_int64-lt (negsuc n) = omega arith

-- Both casts together give a time back.
pub to_int64-of_int64 : (x : ℤ) → IsInt64 x → to_int64 (of_int64 x) ≡ x
to_int64-of_int64 (pos n) h =
    let same : n % word64 ≡ n = omega arith in
    let small : ltb n (2 ^ 63) ≡ true = ground arith in rw (same, small) refl
to_int64-of_int64 (negsuc n) h =
    let same : n % word64 ≡ n = omega arith in
    let large : ltb (word64 - 1 - n) (2 ^ 63) ≡ false = ground arith in
    rw (same, large) (ap negsuc (omega arith))

-- An entry whose lengths and expiration fit the fields of the file.
pub record IsStorable (e : Entry) : Type 0 where
  pub key_fits : length e.key < 2 ^ 32
  pub value_fits : length e.value < 2 ^ 32
  pub time_fits : IsInt64 e.expires_at_utc_seconds

pub head-Rest :
    (payload : Bytes) (offset : ℕ) (part : Bytes) (parts : List Bytes) (rest : Bytes)
    → Rest payload offset (flatten (part ∷ parts) ++ rest)
    → Rest payload offset (part ++ (flatten parts ++ rest))
unfolding flatten
head-Rest payload offset part parts rest r =
    subst (λ (l : Bytes). Rest payload offset l) (append_assoc part (flatten parts) rest) r

pub last-Rest :
    (payload : Bytes) (offset : ℕ) (rest : Bytes)
    → Rest payload offset (flatten [] ++ rest)
    → Rest payload offset rest
unfolding flatten
last-Rest payload offset rest r = r

-- An entry that is written at the offset is read back.
pub read_entry-entry_parts :
    (payload : Bytes) (offset : ℕ) (e : Entry) (rest : Bytes)
    → IsStorable e
    → Rest payload offset (flatten (entry_parts e) ++ rest)
    → (next : ℕ) × (read_entry payload offset ≡ some (e, next)) × Rest payload next rest
unfolding read_entry entry_parts
read_entry-entry_parts payload offset e rest h r =
    let time : ℕ = of_int64 e.expires_at_utc_seconds in
    let tail4 : List Bytes = e.value ∷ [] in
    let tail3 : List Bytes = e.key ∷ tail4 in
    let tail2 : List Bytes = u64_bytes time ∷ tail3 in
    let tail1 : List Bytes = u32_bytes (length e.value) ∷ tail2 in
    let r0 = head-Rest payload offset (u32_bytes (length e.key)) tail1 rest r in
    let e0 = consume_u32-Rest payload offset _ (length e.key) h.key_fits r0 in
    let r1 =
      head-Rest payload _ (u32_bytes (length e.value)) tail2 rest
        (next-Rest payload offset (u32_bytes (length e.key)) _ 4 refl r0) in
    let e1 = consume_u32-Rest payload _ _ (length e.value) h.value_fits r1 in
    let r2 =
      head-Rest payload _ (u64_bytes time) tail3 rest
        (next-Rest payload _ (u32_bytes (length e.value)) _ 4 refl r1) in
    let e2 = consume_u64-Rest payload _ _ time (of_int64-lt e.expires_at_utc_seconds) r2 in
    let r3 =
      head-Rest payload _ e.key tail4 rest (next-Rest payload _ (u64_bytes time) _ 8 refl r2) in
    let e3 = consume_bytes-Rest payload _ _ e.key (length e.key) refl r3 in
    let r4 = head-Rest payload _ e.value [] rest (next-Rest payload _ _ _ (length e.key) refl r3) in
    let e4 = consume_bytes-Rest payload _ _ e.value (length e.value) refl r4 in
    (
      offset + 4 + 4 + 8 + length e.key + length e.value,
      rw (e0, e1, e2, e3, e4, to_int64-of_int64 e.expires_at_utc_seconds h.time_fits) refl,
      last-Rest payload _ rest (next-Rest payload _ _ _ (length e.value) refl r4),
    )

until_nul-id : (id : Bytes) → all_id_characters id ≡ true → until_nul id ≡ id
unfolding until_nul all_id_characters is_id_character
until_nul-id [] h = refl
until_nul-id (b ∷ id) h = ground (arith, until_nul-id id)

-- A client whose ID is valid, with an enumerator as its role and a hash of 32 bytes.
pub record IsPortable (r : ClientRecord) : Type 0 where
  pub named : client_id_is_valid r.client_id ≡ true
  pub ranked : is_enumerator r.role ≡ true
  pub hashed : length r.token_hash ≡ 32

abbrev flag : Bool → ℕ
flag active = if active then 1 else 0

flag-eq : (active : Bool) → not (flag active == 0) ≡ active
flag-eq true = refl
flag-eq false = refl

rank-lt : (r : ClientRecord) → is_enumerator r.role ≡ true → rank r.role < 2 ^ 32
rank-lt r h = ground arith

-- A client that is written at the offset is read back by version 2 of the file.
pub read_client-client_parts :
    (payload : Bytes) (offset : ℕ) (c : ClientRecord) (rest : Bytes)
    → IsPortable c
    → Rest payload offset (flatten (client_parts c) ++ rest)
    → (next : ℕ) × (read_client 2 payload offset ≡ some (c, next)) × Rest payload next rest
unfolding read_client client_parts read_active client_id_is_valid
read_client-client_parts payload offset c rest h r =
    let tail4 : List Bytes = c.client_id ∷ [] in
    let tail3 : List Bytes = c.token_hash ∷ tail4 in
    let tail2 : List Bytes = u32_bytes (flag c.token_active) ∷ tail3 in
    let tail1 : List Bytes = u32_bytes (rank c.role) ∷ tail2 in
    let short : (length c.client_id == 0 || leb client_id_cap (length c.client_id)) ≡ false =
      ground (arith, h.named) in
    let plain : until_nul c.client_id ≡ c.client_id =
      until_nul-id c.client_id (ground (arith, h.named)) in
    let r0 = head-Rest payload offset (u32_bytes (length c.client_id)) tail1 rest r in
    let e0 = consume_u32-Rest payload offset _ (length c.client_id) (ground arith) r0 in
    let r1 =
      head-Rest payload _ (u32_bytes (rank c.role)) tail2 rest
        (next-Rest payload offset (u32_bytes (length c.client_id)) _ 4 refl r0) in
    let e1 = consume_u32-Rest payload _ _ (rank c.role) (rank-lt c h.ranked) r1 in
    let r2 =
      head-Rest payload _ (u32_bytes (flag c.token_active)) tail3 rest
        (next-Rest payload _ (u32_bytes (rank c.role)) _ 4 refl r1) in
    let e2 = consume_u32-Rest payload _ _ (flag c.token_active) (ground arith) r2 in
    let r3 =
      head-Rest payload _ c.token_hash tail4 rest
        (next-Rest payload _ (u32_bytes (flag c.token_active)) _ 4 refl r2) in
    let e3 = consume_bytes-Rest payload _ _ c.token_hash 32 h.hashed r3 in
    let r4 = head-Rest payload _ c.client_id [] rest (next-Rest payload _ _ _ 32 h.hashed r3) in
    let e4 = consume_bytes-Rest payload _ _ c.client_id (length c.client_id) refl r4 in
    (
      offset + 4 + 4 + 4 + 32 + length c.client_id,
      rw
          (
            e0,
            e1,
            e2,
            e3,
            short,
            e4,
            plain,
            role_of_value-rank c.role h.ranked,
            flag-eq c.token_active,
          )
          refl,
      last-Rest payload _ rest (next-Rest payload _ _ _ (length c.client_id) refl r4),
    )
