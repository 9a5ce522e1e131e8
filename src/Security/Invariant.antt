-- ===== src/Security/Invariant.antt =====
-- Well-formed registries, and that every call of internal/security/security.h keeps them so.
use mp_cache.Prelude.{
  ℕ, ◌≤◌, ◌<◌, ◌≡◌, subst, Bool, true, false, Bool-cases, inl, inr, Bytes, Option, none, some, [],
  ◌∷◌, ◌++◌, length, length-append, All, All-append, replicate, str_equal, eq_of_str_equal, arith,
}
use mp_cache.Crypto.Digest.{IsDigest, sha256-IsDigest}
use mp_cache.Security.Roles.{is_role_none}
use mp_cache.Security.Records.{
  ClientRecord, client_id_is_valid, find_record, write_record, count_id, count_id-append,
  count_id-eq_zero, count_id-write_record, length-write_record, All-write_record,
}
use mp_cache.Security.Tokens.{hash_token, is_ok, zero_hash}
use mp_cache.Security.Registry.{Security, max_clients, ensure_capacity, init}

pub record IsRecord (r : ClientRecord) : Type 0 where
  pub named : client_id_is_valid r.client_id ≡ true
  pub assigned : is_role_none r.role ≡ false
  pub hashed : IsDigest r.token_hash

-- No ID stands twice, the array has room for its records and keeps the hard cap, and every record
-- has a valid ID, a role and a hash of 32 bytes.
pub record IsValid (s : Security) : Type 0 where
  pub unique : (q : Bytes) → count_id q s.records ≤ 1
  pub bounded : length s.records ≤ s.capacity
  pub capped : s.capacity ≤ max_clients
  pub sound : All IsRecord s.records
  pub bootstrap : IsDigest s.bootstrap_admin_hash

pub hash_token-IsDigest : (token : Option Bytes) → IsDigest (hash_token token)
unfolding hash_token
hash_token-IsDigest none = sha256-IsDigest []
hash_token-IsDigest (some token) = sha256-IsDigest token

pub zero_hash-IsDigest : IsDigest zero_hash
unfolding replicate
zero_hash-IsDigest = omega arith

pub init-IsValid : (secret : Option Bytes) → IsValid (init secret).1
unfolding init count_id
init-IsValid none = record {
  unique = λ q. omega arith;
  bounded = omega arith;
  capped = omega arith;
  sound = tt;
  bootstrap = zero_hash-IsDigest;
}
init-IsValid (some token) = record {
  unique = λ q. omega arith;
  bounded = omega arith;
  capped = omega arith;
  sound = tt;
  bootstrap = hash_token-IsDigest (some token);
}

module _ (s : Security) (valid : IsValid s) where
  pub added-IsValid :
      (r : ClientRecord) (capacity : ℕ)
      → find_record r.client_id s.records ≡ none
      → IsRecord r
      → length s.records < capacity
      → capacity ≤ max_clients
      → IsValid (record s { records = s.records ++ r ∷ []; capacity = capacity })
  added-IsValid r capacity absent sound room cap = record {
    unique = λ q. rw count_id-append (elim (Bool-cases (str_equal r.client_id q)) [
      | inl same ↦
          let e : r.client_id ≡ q = eq_of_str_equal r.client_id q same in
          let zero_before : count_id q s.records ≡ 0 =
            count_id-eq_zero q s.records (subst (λ k. find_record k s.records ≡ none) e absent) in
          rw (same, zero_before) (omega arith)
      | inr other ↦ rw other (omega (arith, valid.unique q))
    ]);
    bounded = omega (arith, length-append s.records (r ∷ []));
    capped = cap;
    sound = All-append IsRecord s.records (r ∷ []) valid.sound (sound, tt);
    bootstrap = valid.bootstrap;
  }

  pub written-IsValid :
      (next : ClientRecord)
      → IsRecord next
      → IsValid (record s { records = write_record next s.records })
  written-IsValid next sound = record {
    unique = λ q. rw count_id-write_record (valid.unique q);
    bounded = rw length-write_record valid.bounded;
    capped = valid.capped;
    sound = All-write_record IsRecord next s.records sound valid.sound;
    bootstrap = valid.bootstrap;
  }

  -- A successful growth has room for one more record; a failed one changes nothing.
  pub ensure_capacity-room :
      (reallocated : Bool)
      → is_ok (ensure_capacity reallocated s).0 ≡ true
      → (length s.records < (ensure_capacity reallocated s).1.capacity)
        × ((ensure_capacity reallocated s).1.capacity ≤ max_clients)
  unfolding ensure_capacity
  ensure_capacity-room reallocated h = ground (arith, valid.bounded, valid.capped)

  pub ensure_capacity-failed :
      (reallocated : Bool)
      → is_ok (ensure_capacity reallocated s).0 ≡ false
      → (ensure_capacity reallocated s).1 ≡ s
  unfolding ensure_capacity
  ensure_capacity-failed reallocated h = ground arith

  pub ensure_capacity-IsValid : (reallocated : Bool) → IsValid (ensure_capacity reallocated s).1
  unfolding ensure_capacity
  ensure_capacity-IsValid reallocated = ground (arith, valid)
