-- ===== src/Security/Grants.antt =====
-- Which tokens are accepted after `mp_cache_security_register_client` and
-- `mp_cache_security_rotate_client_token` (internal/security/security.c).
use mp_cache.Prelude.{
  ℕ, ◌≡◌, ◌≢◌, refl, false, not, ◌&&◌, ◌||◌, Bool-cases, inl, inr, Bytes, Option, none, some, List,
  [], ◌∷◌, ◌++◌, arith, Option-cases,
}
use mathlib.Core.Option.{or_else}
use mp_cache.Crypto.Stream.{constant_time_equals}
use mathlib.Core.Option
use mp_cache.Security.Roles.{Role, is_role_none}
use mp_cache.Security.Records.{
  ClientRecord, client_id_is_valid, find_record, find_record-client_id, write_record,
}
use mp_cache.Security.Tokens.{token_hash_size, hash_token, issue_token, is_ok, ok, unauthorized}
use mp_cache.Security.Registry.{
  Security, Host, principal_of, authenticate, match_record, ensure_capacity, register_present,
  register_client, rotate_present, rotate_client_token, rotated, fresh_record, find_client,
}
use mp_cache.Security.Calls.{Issued-cases}
use mp_cache.Security.Access.{
  accepts, match_record-append, match_record-own, accepts-eq, authenticate-written, removed,
}

or_else-none : (o : Option ClientRecord) → or_else o none ≡ o
unfolding or_else
or_else-none none = refl
or_else-none (some r) = refl

-- What a successful registration has done.
register_present-ok :
    (host : Host) (s r : Security) (client_id text : Bytes) (role : Role) (out_capacity : ℕ)
    → register_present host s client_id role out_capacity ≡ (ok, some text, r)
    → (r.records ≡ s.records ++ fresh_record client_id role text ∷ [])
      × (r.bootstrap_admin_hash ≡ s.bootstrap_admin_hash)
      × (r.bootstrap_admin_loaded ≡ s.bootstrap_admin_loaded)
unfolding register_present
register_present-ok host s r client_id text role out_capacity h =
    elim (Bool-cases (is_role_none role || not (client_id_is_valid client_id))) [
      | inl refused ↦ absurd (ground (arith, h))
      | inr accepted ↦ elim (Option-cases (find_record client_id s.records)) [
        | inr (old, found) ↦ absurd (ground (arith, h))
        | inl absent ↦ elim (Bool-cases (is_ok (ensure_capacity host.reallocated s).0)) [
          | inr full ↦ absurd (ground (arith, h))
          | inl grown ↦ elim (Issued-cases (issue_token host.random_bytes out_capacity)) [
            | inl (status, e) ↦ absurd (ground (arith, h))
            | inr (token, e) ↦ ground (arith, h)
          ]
        ]
      ]
    ]

-- What a successful rotation has done.
rotate_present-ok :
    (host : Host) (s r : Security) (client_id text : Bytes) (out_capacity : ℕ)
    → rotate_present host s client_id out_capacity ≡ (ok, some text, r)
    → (old : ClientRecord) × (find_record client_id s.records ≡ some old)
      × (r ≡ record s { records = write_record (rotated old text) s.records })
unfolding rotate_present
rotate_present-ok host s r client_id text out_capacity h =
    elim (Bool-cases (client_id_is_valid client_id)) [
      | inr refused ↦ absurd (ground (arith, h))
      | inl accepted ↦ elim (Option-cases (find_record client_id s.records)) [
        | inl absent ↦ absurd (ground (arith, h))
        | inr (old, found) ↦ elim (Issued-cases (issue_token host.random_bytes out_capacity)) [
          | inl (status, e) ↦ absurd (ground (arith, h))
          | inr (token, e) ↦ (old, found, ground (arith, h))
        ]
      ]
    ]

-- An unauthorized token is matched by neither the bootstrap administrator nor a record.
unauthorized-parts :
    (s : Security) (c : ℕ) (rest : Bytes)
    → authenticate s (some (c ∷ rest)) ≡ (unauthorized, none)
    → (match_record (hash_token (some (c ∷ rest))) s.records ≡ none)
      × ((s.bootstrap_admin_loaded
            && constant_time_equals
                (some (hash_token (some (c ∷ rest))))
                (some s.bootstrap_admin_hash)
                token_hash_size)
          ≡ false)
unfolding authenticate
unauthorized-parts s c rest h = ground (arith, h)

-- A token that no one else has is answered by the matched record.
authenticate-matched :
    (s : Security) (records : List ClientRecord) (r : ClientRecord) (c : ℕ) (rest : Bytes)
    → (s.bootstrap_admin_loaded
        && constant_time_equals
            (some (hash_token (some (c ∷ rest))))
            (some s.bootstrap_admin_hash)
            token_hash_size)
      ≡ false
    → match_record (hash_token (some (c ∷ rest))) records ≡ some r
    → authenticate (record s { records = records }) (some (c ∷ rest)) ≡ (ok, some (principal_of r))
unfolding authenticate
authenticate-matched s records r c rest other e = rw (other, e) refl

-- After a successful rotation a token that does not hash as the new one is answered as if the
-- client were not registered: the old token is refused.
pub rotate_client_token-others :
    (host : Host) (s r : Security) (client_id text : Bytes) (out_capacity c : ℕ) (rest : Bytes)
    → rotate_client_token host s (some client_id) (some out_capacity) ≡ (ok, some text, r)
    → hash_token (some (c ∷ rest)) ≢ hash_token (some text)
    → authenticate r (some (c ∷ rest)) ≡ authenticate (removed s client_id) (some (c ∷ rest))
unfolding rotate_client_token
rotate_client_token-others host s r client_id text out_capacity c rest h differs =
    let (old, found, e) = rotate_present-ok host s r client_id text out_capacity h in
    let refused : accepts (rotated old text) (hash_token (some (c ∷ rest))) ≡ false =
      elim (Bool-cases (accepts (rotated old text) (hash_token (some (c ∷ rest))))) [
        | inl y ↦ absurd (differs ((accepts-eq (rotated old text) text (c ∷ rest) refl refl).0 y))
        | inr n ↦ n
      ] in
    rw e (
      authenticate-written client_id s (rotated old text) old c rest
        (find_record-client_id client_id s.records old found) found refused)

-- After a successful rotation the new token, where nobody else is let in by it, authenticates the
-- client with the role it had.
pub rotate_client_token-own :
    (host : Host) (s r : Security) (client_id : Bytes) (out_capacity c : ℕ) (rest : Bytes)
    → rotate_client_token host s (some client_id) (some out_capacity) ≡ (ok, some (c ∷ rest), r)
    → authenticate (removed s client_id) (some (c ∷ rest)) ≡ (unauthorized, none)
    → authenticate r (some (c ∷ rest))
      ≡ (ok, Option.map principal_of (find_client s (some client_id)))
unfolding rotate_client_token find_client
rotate_client_token-own host s r client_id out_capacity c rest h alone =
    let (old, found, e) = rotate_present-ok host s r client_id (c ∷ rest) out_capacity h in
    let next : ClientRecord = rotated old (c ∷ rest) in
    let named : old.client_id ≡ client_id = find_record-client_id client_id s.records old found in
    let parts = unauthorized-parts (removed s client_id) c rest alone in
    let own =
      match_record-own (hash_token (some (c ∷ rest))) s.records next old (rw named found)
        ((accepts-eq next (c ∷ rest) (c ∷ rest) refl refl).1 refl) (rw named parts.0) in
    rw (e, found) (authenticate-matched s _ next c rest parts.1 own)

-- After a successful registration the new token, where nobody was let in by it before,
-- authenticates the client with the registered role.
pub register_client-own :
    (host : Host) (s r : Security) (client_id : Bytes) (role : Role) (out_capacity c : ℕ)
    (rest : Bytes)
    → register_client host s (some client_id) role (some out_capacity) ≡ (ok, some (c ∷ rest), r)
    → authenticate s (some (c ∷ rest)) ≡ (unauthorized, none)
    → authenticate r (some (c ∷ rest)) ≡ (ok, some (record { role = role; client_id = client_id }))
unfolding register_client authenticate or_else
register_client-own host s r client_id role out_capacity c rest h alone =
    let (records, hash, loaded) =
      register_present-ok host s r client_id (c ∷ rest) role out_capacity h in
    let fresh : ClientRecord = fresh_record client_id role (c ∷ rest) in
    let parts = unauthorized-parts s c rest alone in
    let accepted = (accepts-eq fresh (c ∷ rest) (c ∷ rest) refl refl).1 refl in
    rw (records, hash, loaded, parts.1, match_record-append, parts.0, accepted) refl

-- After a successful registration every token that does not hash as the new one is answered as
-- before.
pub register_client-others :
    (host : Host) (s r : Security) (client_id text : Bytes) (role : Role) (out_capacity c : ℕ)
    (rest : Bytes)
    → register_client host s (some client_id) role (some out_capacity) ≡ (ok, some text, r)
    → hash_token (some (c ∷ rest)) ≢ hash_token (some text)
    → authenticate r (some (c ∷ rest)) ≡ authenticate s (some (c ∷ rest))
unfolding register_client authenticate
register_client-others host s r client_id text role out_capacity c rest h differs =
    let (records, hash, loaded) = register_present-ok host s r client_id text role out_capacity h in
    let fresh : ClientRecord = fresh_record client_id role text in
    elim (Bool-cases (accepts fresh (hash_token (some (c ∷ rest))))) [
      | inl y ↦ absurd (differs ((accepts-eq fresh text (c ∷ rest) refl refl).0 y))
      | inr n ↦ rw (records, hash, loaded, match_record-append, n, or_else-none) refl
    ]
