-- ===== src/Security/Outcomes.antt =====
-- The status of a registration, and what a search finds after an import
-- (internal/security/security.c).
use mp_cache.Prelude.{
  ℕ, ◌+◌, ◌*◌, ◌≤◌, ◌≡◌, ◌∙◌, refl, subst, Bool, true, false, not, ◌&&◌, ◌||◌, ◌==◌, ltb,
  Bool-cases, inl, inr, Bytes, Option, none, some, List, [], ◌∷◌, ◌++◌, length, if◌then◌else◌,
  arith, Option-cases, str_equal, eq_of_str_equal,
}
use mp_cache.Crypto.Hex.{hex_encode, hex_digits}
use mp_cache.Security.Roles.{Role, is_role_none}
use mp_cache.Security.Records.{
  ClientRecord, client_id_is_valid, find_record, find_record-append, find_record-append_other,
  find_record-write_record,
}
use mp_cache.Security.Tokens.{
  issued, issue_token, Status, is_ok, ok, conflict, invalid_argument, limit_exceeded,
}
use mp_cache.Security.Registry.{
  Security, max_clients, ensure_capacity, register_present, register_client, import_present,
  import_client_hash, imported_record, find_client, is_null,
}
use mp_cache.Security.Invariant.{IsValid}

-- The status by the validity of the arguments, the record with the ID and the number of records.
unfoldable pub outcome : Bool → Option ClientRecord → ℕ → Status
outcome false found count = invalid_argument
outcome true (some r) count = conflict
outcome true none count = if count == max_clients then limit_exceeded else ok

ensure_capacity-status :
    (s : Security)
    → IsValid s
    → (ensure_capacity true s).0 ≡ (if length s.records == max_clients then limit_exceeded else ok)
unfolding ensure_capacity
ensure_capacity-status s valid = ground (arith, valid.bounded, valid.capped)

issue_token-issued :
    (bytes : Bytes) (out_capacity : ℕ)
    → length bytes ≡ 32
    → 65 ≤ out_capacity
    → (text : Bytes) × (issue_token (some bytes) out_capacity ≡ issued text)
unfolding issue_token hex_encode
issue_token-issued bytes out_capacity h room =
    let wide : ltb out_capacity 65 ≡ false = ground arith in
    let fits : ltb out_capacity (length bytes * 2 + 1) ≡ false = ground arith in
    (hex_digits bytes, rw (wide, fits) refl)

find_record-added :
    (q : Bytes) (records : List ClientRecord) (added : ClientRecord)
    → find_record added.client_id records ≡ none
    → find_record q (records ++ added ∷ [])
      ≡ (if str_equal added.client_id q then some added else find_record q records)
find_record-added q records added absent = elim (Bool-cases (str_equal added.client_id q)) [
  | inl same ↦
      let e : added.client_id ≡ q = eq_of_str_equal added.client_id q same in
      let absent_too : find_record q records ≡ none =
        subst (λ k. find_record k records ≡ none) e absent in
      find_record-append q records added absent_too ∙ rw same refl
  | inr other ↦ rw other (find_record-append_other q records added other)
]

-- Where the host gives memory and 32 random bytes and the buffer has room for a token, a
-- registration on a well-formed registry is refused for an invalid ID or role, for an ID that is
-- taken, and at 1024 clients, in this order, and else succeeds.
pub register_client-outcome :
    (s : Security) (bytes client_id : Bytes) (role : Role) (out_capacity : ℕ)
    → IsValid s
    → length bytes ≡ 32
    → 65 ≤ out_capacity
    → (register_client
        (record { reallocated = true; random_bytes = some bytes })
        s
        (some client_id)
        role
        (some out_capacity)).0
      ≡ outcome
          (not (is_role_none role) && client_id_is_valid client_id)
          (find_record client_id s.records)
          (length s.records)
unfolding register_client register_present outcome
register_client-outcome s bytes client_id role out_capacity valid h room =
    let (text, e) = issue_token-issued bytes out_capacity h room in
    let status = ensure_capacity-status s valid in
    elim (Bool-cases (is_role_none role || not (client_id_is_valid client_id))) [
      | inl refused ↦ ground arith
      | inr accepted ↦ elim (Option-cases (find_record client_id s.records)) [
        | inr (r, found) ↦ ground arith
        | inl absent ↦ ground (arith, status, e)
      ]
    ]

-- After a successful import a search finds the imported record under its ID, and what it found
-- before under any other.
pub find_client-import_client_hash :
    (s : Security) (reallocated : Bool) (client_id q : Bytes) (role : Role) (hash : Option Bytes)
    (active : Bool)
    → (import_client_hash reallocated s (some client_id) role hash active).0 ≡ ok
    → find_client (import_client_hash reallocated s (some client_id) role hash active).1 (some q)
      ≡ (if str_equal client_id q
          then some (imported_record client_id role hash active)
          else find_client s (some q))
unfolding import_client_hash import_present find_client
find_client-import_client_hash s reallocated client_id q role hash active h =
    elim (Bool-cases (is_role_none role || not (client_id_is_valid client_id))) [
      | inl refused ↦ absurd (ground arith)
      | inr accepted ↦ elim (Bool-cases (active && is_null hash)) [
        | inl missing ↦ absurd (ground arith)
        | inr given ↦ elim (Option-cases (find_record client_id s.records)) [
          | inr (old, found) ↦
              rw (accepted, given, found)
                (find_record-write_record q s.records (imported_record client_id role hash active)
                  old found)
          | inl absent ↦ elim (Bool-cases (is_ok (ensure_capacity reallocated s).0)) [
            | inr full ↦ absurd (ground arith)
            | inl grown ↦
                rw (accepted, given, absent, grown)
                  (find_record-added q s.records (imported_record client_id role hash active)
                    absent)
          ]
        ]
      ]
    ]
