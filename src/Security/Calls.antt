-- ===== src/Security/Calls.antt =====
-- Any sequence of the calls of internal/security/security.h that change the registry.
use mp_cache.Prelude.{
  ℕ, ◌≡◌, ◌⊎◌, refl, Bool, true, false, not, ◌||◌, ◌&&◌, Bool-cases, inl, inr, Bytes, Option, none,
  some, List, [], ◌∷◌, All, arith, Option-cases,
}
use mp_cache.Crypto.Digest.{IsDigest}
use mp_cache.Security.Roles.{Role, is_role_none}
use mp_cache.Security.Records.{count_id, client_id_is_valid, find_record, All-find_record}
use mp_cache.Security.Tokens.{Issued, failed, issued, issue_token, Status, is_ok}
use mp_cache.Security.Registry.{
  Security, Host, ensure_capacity, register_present, register_client, rotate_present,
  rotate_client_token, rotated, invalidated, invalidate_client_token, import_present,
  import_client_hash, clear_clients, fresh_record, imported_record, is_null,
}
use mp_cache.Security.Invariant.{
  IsRecord, IsValid, hash_token-IsDigest, zero_hash-IsDigest, added-IsValid, written-IsValid,
  ensure_capacity-room, ensure_capacity-IsValid,
}

pub Issued-cases :
    (r : Issued) → ((status : Status) × (r ≡ failed status)) ⊎ ((text : Bytes) × (r ≡ issued text))
Issued-cases (failed status) = inl (status, refl)
Issued-cases (issued text) = inr (text, refl)

module _ (s : Security) (valid : IsValid s) where
  register_present-IsValid :
      (host : Host) (client_id : Bytes) (role : Role) (out_capacity : ℕ)
      → IsValid (register_present host s client_id role out_capacity).2
  unfolding register_present
  register_present-IsValid host client_id role out_capacity =
      elim (Bool-cases (is_role_none role || not (client_id_is_valid client_id))) [
        | inl refused ↦ rw refused valid
        | inr accepted ↦ rw accepted (elim (Option-cases (find_record client_id s.records)) [
          | inr (r, found) ↦ rw found valid
          | inl absent ↦ elim (Bool-cases (is_ok (ensure_capacity host.reallocated s).0)) [
            | inr full ↦ rw (absent, full) (ensure_capacity-IsValid s valid host.reallocated)
            | inl grown ↦
                let room = ensure_capacity-room s valid host.reallocated grown in
                elim (Issued-cases (issue_token host.random_bytes out_capacity)) [
                  | inl (status, e) ↦
                      rw (absent, grown, e) (ensure_capacity-IsValid s valid host.reallocated)
                  | inr (text, e) ↦
                      rw (absent, grown, e)
                        (added-IsValid s valid (fresh_record client_id role text) _ absent
                          (record {
                            named = ground arith;
                            assigned = ground arith;
                            hashed = hash_token-IsDigest (some text);
                          })
                          room.0 room.1)
                ]
          ]
        ])
      ]

  rotate_present-IsValid :
      (host : Host) (client_id : Bytes) (out_capacity : ℕ)
      → IsValid (rotate_present host s client_id out_capacity).2
  unfolding rotate_present
  rotate_present-IsValid host client_id out_capacity =
      elim (Bool-cases (client_id_is_valid client_id)) [
        | inr refused ↦ rw refused valid
        | inl accepted ↦ rw accepted (elim (Option-cases (find_record client_id s.records)) [
          | inl absent ↦ rw absent valid
          | inr (r, found) ↦ elim (Issued-cases (issue_token host.random_bytes out_capacity)) [
            | inl (status, e) ↦ rw (found, e) valid
            | inr (text, e) ↦
                let old = All-find_record IsRecord client_id s.records r found valid.sound in
                rw (found, e)
                  (written-IsValid s valid (rotated r text) (record {
                    named = old.named;
                    assigned = old.assigned;
                    hashed = hash_token-IsDigest (some text);
                  }))
          ]
        ])
      ]

  invalidate-IsValid : (client_id : Option Bytes) → IsValid (invalidate_client_token s client_id).1
  unfolding invalidate_client_token
  invalidate-IsValid none = valid
  invalidate-IsValid (some client_id) = elim (Bool-cases (client_id_is_valid client_id)) [
    | inr refused ↦ rw refused valid
    | inl accepted ↦ rw accepted (elim (Option-cases (find_record client_id s.records)) [
      | inl absent ↦ rw absent valid
      | inr (r, found) ↦
          let old = All-find_record IsRecord client_id s.records r found valid.sound in
          rw found (
            written-IsValid s valid (invalidated r)
              (record { named = old.named; assigned = old.assigned; hashed = zero_hash-IsDigest }))
    ])
  ]

  clear_clients-IsValid : IsValid (clear_clients s)
  unfolding clear_clients count_id
  clear_clients-IsValid = record {
    unique = λ q. omega arith;
    bounded = omega arith;
    capped = valid.capped;
    sound = tt;
    bootstrap = valid.bootstrap;
  }

-- A `uint8_t[32]`, or NULL.
abbrev pub IsHash : Option Bytes → Type 0
IsHash none = Unit {0}
IsHash (some hash) = IsDigest hash

imported-IsDigest :
    (client_id : Bytes) (role : Role) (hash : Option Bytes) (active : Bool)
    → IsHash hash
    → IsDigest (imported_record client_id role hash active).token_hash
imported-IsDigest client_id role none true h = zero_hash-IsDigest
imported-IsDigest client_id role none false h = zero_hash-IsDigest
imported-IsDigest client_id role (some hash) true h = h
imported-IsDigest client_id role (some hash) false h = zero_hash-IsDigest

module _ (s : Security) (valid : IsValid s) where
  import_present-IsValid :
      (reallocated : Bool) (client_id : Bytes) (role : Role) (hash : Option Bytes) (active : Bool)
      → IsHash hash
      → IsValid (import_present reallocated s client_id role hash active).1
  unfolding import_present
  import_present-IsValid reallocated client_id role hash active h =
      elim (Bool-cases (is_role_none role || not (client_id_is_valid client_id))) [
        | inl refused ↦ rw refused valid
        | inr accepted ↦ rw accepted (elim (Bool-cases (active && is_null hash)) [
          | inl missing ↦ rw missing valid
          | inr given ↦ rw given (
              let imported : IsRecord (imported_record client_id role hash active) = record {
                named = ground arith;
                assigned = ground arith;
                hashed = imported-IsDigest client_id role hash active h;
              } in
              elim (Option-cases (find_record client_id s.records)) [
                | inr (r, found) ↦ rw found (written-IsValid s valid _ imported)
                | inl absent ↦ elim (Bool-cases (is_ok (ensure_capacity reallocated s).0)) [
                  | inr full ↦ rw (absent, full) (ensure_capacity-IsValid s valid reallocated)
                  | inl grown ↦
                      let room = ensure_capacity-room s valid reallocated grown in
                      rw (absent, grown) (added-IsValid s valid _ _ absent imported room.0 room.1)
                ]
              ])
        ])
      ]

-- One call, with its arguments and what the host gives it.
pub data Call : Type 0 where
  register : Host → Option Bytes → Role → Option ℕ → Call
  rotate : Host → Option Bytes → Option ℕ → Call
  invalidate : Option Bytes → Call
  import_hash : Bool → Option Bytes → Role → Option Bytes → Bool → Call
  reset : Call

-- An imported hash has the size of its array.
abbrev pub IsTyped : Call → Type 0
IsTyped (import_hash reallocated client_id role hash active) = IsHash hash
IsTyped _ = Unit {0}

unfoldable pub run : Security → Call → Security
run s (register host client_id role out) = (register_client host s client_id role out).2
run s (rotate host client_id out) = (rotate_client_token host s client_id out).2
run s (invalidate client_id) = (invalidate_client_token s client_id).1
run s (import_hash reallocated client_id role hash active) =
    (import_client_hash reallocated s client_id role hash active).1
run s reset = clear_clients s

unfoldable pub run_all : Security → List Call → Security
run_all s [] = s
run_all s (c ∷ cs) = run_all (run s c) cs

run-IsValid : (s : Security) (c : Call) → IsValid s → IsTyped c → IsValid (run s c)
unfolding run register_client rotate_client_token import_client_hash
run-IsValid s (register host none role out) valid h = valid
run-IsValid s (register host (some client_id) role none) valid h = valid
run-IsValid s (register host (some client_id) role (some n)) valid h =
    register_present-IsValid s valid host client_id role n
run-IsValid s (rotate host none out) valid h = valid
run-IsValid s (rotate host (some client_id) none) valid h = valid
run-IsValid s (rotate host (some client_id) (some n)) valid h =
    rotate_present-IsValid s valid host client_id n
run-IsValid s (invalidate client_id) valid h = invalidate-IsValid s valid client_id
run-IsValid s (import_hash reallocated none role hash active) valid h = valid
run-IsValid s (import_hash reallocated (some client_id) role hash active) valid h =
    import_present-IsValid s valid reallocated client_id role hash active h
run-IsValid s reset valid h = clear_clients-IsValid s valid

-- After any calls on a well-formed registry, whatever the host answers, no ID stands twice, there
-- are at most 1024 records within the capacity, and every record has a valid ID, a role and a hash
-- of 32 bytes; an imported hash is taken to have 32 bytes.
pub run_all-IsValid :
    (s : Security) (calls : List Call) → IsValid s → All IsTyped calls → IsValid (run_all s calls)
unfolding run_all
run_all-IsValid s [] valid h = valid
run_all-IsValid s (c ∷ cs) valid h = run_all-IsValid (run s c) cs (run-IsValid s c valid h.0) h.1
