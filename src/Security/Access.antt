-- ===== src/Security/Access.antt =====
-- Who is let in after a client has been registered, rotated or invalidated
-- (internal/security/security.c).
use mp_cache.Prelude.{
  ℕ, ◌≡◌, ◌↔◌, ◌∙◌, refl, ap, Bool, true, false, ◌&&◌, Bool-cases, inl, inr, Bytes, Option, none,
  some, List, [], ◌∷◌, ◌++◌, if◌then◌else◌, arith, Option-cases,
}
use mathlib.Core.Option.{or_else}
use mp_cache.Crypto.Stream.{constant_time_equals, constant_time_equals_iff}
use mp_cache.Security.Records.{
  ClientRecord, client_id_is_valid, find_record, find_record-client_id, write_record, without,
}
use mp_cache.Security.Tokens.{token_hash_size, hash_token, ok}
use mp_cache.Security.Registry.{
  Security, authenticate, match_record, invalidated, invalidate_client_token,
}
use mp_cache.Security.Invariant.{hash_token-IsDigest}

-- The test of one record in the loop of `mp_cache_security_authenticate`.
abbrev pub accepts : ClientRecord → Bytes → Bool
accepts r hash =
    r.token_active && constant_time_equals (some hash) (some r.token_hash) token_hash_size

pub match_record-append :
    (hash : Bytes) (records : List ClientRecord) (added : ClientRecord)
    → match_record hash (records ++ added ∷ [])
      ≡ or_else (match_record hash records) (if accepts added hash then some added else none)
unfolding match_record or_else
match_record-append hash [] added = refl
match_record-append hash (r ∷ rest) added = ground (arith, match_record-append hash rest added)

-- A record that does not accept a hash may as well be absent.
match_record-written :
    (hash : Bytes) (records : List ClientRecord) (next old : ClientRecord)
    → find_record next.client_id records ≡ some old
    → accepts next hash ≡ false
    → match_record hash (write_record next records)
      ≡ match_record hash (without next.client_id records)
unfolding match_record write_record find_record without
match_record-written hash [] next old found h = cc
match_record-written hash (r ∷ rest) next old found h =
    ground (arith, match_record-written hash rest next old)

-- A record that accepts a hash no other record accepts is the one that is matched.
pub match_record-own :
    (hash : Bytes) (records : List ClientRecord) (next old : ClientRecord)
    → find_record next.client_id records ≡ some old
    → accepts next hash ≡ true
    → match_record hash (without next.client_id records) ≡ none
    → match_record hash (write_record next records) ≡ some next
unfolding match_record write_record find_record without
match_record-own hash [] next old found h alone = cc
match_record-own hash (r ∷ rest) next old found h alone =
    ground (arith, match_record-own hash rest next old)

-- The registry without a client.
abbrev pub removed : Security → Bytes → Security
removed s client_id = record s { records = without client_id s.records }

-- The answer depends on the records by the matched one alone.
pub authenticate-records :
    (s : Security) (a b : List ClientRecord) (c : ℕ) (rest : Bytes)
    → match_record (hash_token (some (c ∷ rest))) a ≡ match_record (hash_token (some (c ∷ rest))) b
    → authenticate (record s { records = a }) (some (c ∷ rest))
      ≡ authenticate (record s { records = b }) (some (c ∷ rest))
unfolding authenticate
authenticate-records s a b c rest e = rw e refl

module _ (client_id : Bytes) where
  pub authenticate-written :
      (s : Security) (next old : ClientRecord) (c : ℕ) (rest : Bytes)
      → next.client_id ≡ client_id
      → find_record client_id s.records ≡ some old
      → accepts next (hash_token (some (c ∷ rest))) ≡ false
      → authenticate (record s { records = write_record next s.records }) (some (c ∷ rest))
        ≡ authenticate (removed s client_id) (some (c ∷ rest))
  authenticate-written s next old c rest e found h =
      let found_next : find_record next.client_id s.records ≡ some old = rw e found in
      authenticate-records s _ _ c rest (
        match_record-written _ s.records next old found_next h
        ∙ ap (λ k. match_record (hash_token (some (c ∷ rest))) (without k s.records)) e)

  -- Where an invalidation answers OK, every token is answered from then on as if the client were
  -- not registered.
  pub invalidate_client_token-removed :
      (s : Security) (token : Option Bytes)
      → (invalidate_client_token s (some client_id)).0 ≡ ok
      → authenticate (invalidate_client_token s (some client_id)).1 token
        ≡ authenticate (removed s client_id) token
  unfolding invalidate_client_token authenticate
  invalidate_client_token-removed s none h = refl
  invalidate_client_token-removed s (some []) h = refl
  invalidate_client_token-removed s (some (c ∷ rest)) h =
      elim (Bool-cases (client_id_is_valid client_id)) [
        | inr refused ↦ absurd (ground arith)
        | inl accepted ↦ elim (Option-cases (find_record client_id s.records)) [
          | inl absent ↦ absurd (ground arith)
          | inr (r, found) ↦
              rw (accepted, found)
                (authenticate-written s (invalidated r) r c rest
                  (find_record-client_id client_id s.records r found) found refl)
        ]
      ]

-- The comparison of two token hashes is equality.
pub accepts-eq :
    (r : ClientRecord) (text q : Bytes)
    → r.token_active ≡ true
    → r.token_hash ≡ hash_token (some text)
    → (accepts r (hash_token (some q)) ≡ true) ↔ (hash_token (some q) ≡ hash_token (some text))
accepts-eq r text q active hashed =
    let left = hash_token-IsDigest (some q) in
    let right = hash_token-IsDigest (some text) in
    rw (active, hashed)
      (constant_time_equals_iff token_hash_size (hash_token (some q)) (hash_token (some text))
        left.0 right.0 left.1 right.1)
