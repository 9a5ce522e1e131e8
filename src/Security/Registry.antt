-- ===== src/Security/Registry.antt =====
-- `mp_cache_security_t` and its operations (internal/security/security.c).
use mp_cache.Prelude.{
  ℕ, ◌*◌, Bool, true, false, not, ◌&&◌, ◌||◌, Bytes, codes, Option, none, some, List, [], ◌∷◌, ◌++◌,
  length, ltb, leb, ◌==◌, if◌then◌else◌,
}
use mp_cache.Crypto.Stream.{constant_time_equals}
use mp_cache.Security.Roles.{Role, admin, is_role_none}
use mp_cache.Security.Tokens.{
  token_hash_size, Status, ok, not_found, conflict, invalid_argument, no_memory, unauthorized,
  limit_exceeded, is_ok, zero_hash, hash_token, failed, issued, issue_token,
}
use mp_cache.Security.Records.{ClientRecord, client_id_is_valid, find_record, write_record}

abbrev pub max_clients : ℕ
max_clients = 1024

abbrev pub initial_client_capacity : ℕ
initial_client_capacity = 8

abbrev pub bootstrap_admin_id : Bytes
bootstrap_admin_id = codes "bootstrap-admin"

-- `records` holds the first `count` records of the array, which has room for `capacity`.
pub record Security : Type 0 where
  pub records : List ClientRecord
  pub capacity : ℕ
  pub bootstrap_admin_hash : Bytes
  pub bootstrap_admin_loaded : Bool

pub record Principal : Type 0 where
  pub role : Role
  pub client_id : Bytes

-- What the host gives one call: whether `realloc` succeeds, and the bytes of
-- `mp_cache_random_bytes`, or its failure.
pub record Host : Type 0 where
  pub reallocated : Bool
  pub random_bytes : Option Bytes

unfoldable pub ensure_capacity : Bool → Security → Status × Security
ensure_capacity reallocated security =
    let doubled =
      if security.capacity == 0 then initial_client_capacity else security.capacity * 2 in
    let next_capacity = if ltb max_clients doubled then max_clients else doubled in
    if ltb (length security.records) security.capacity
    then (ok, security)
    else if leb max_clients security.capacity
    then (limit_exceeded, security)
    else if not reallocated
    then (no_memory, security)
    else (ok, record security { capacity = next_capacity })

abbrev zeroed : Security
zeroed = record {
  records = [];
  capacity = 0;
  bootstrap_admin_hash = zero_hash;
  bootstrap_admin_loaded = false;
}

-- `mp_cache_security_init` behind its NULL checks; `secret` is what `mp_cache_secret_resolve` gives
-- for the configured reference.
unfoldable pub init : Option Bytes → Bool × Security
init none = (false, zeroed)
init (some token) = (
  true,
  record zeroed { bootstrap_admin_hash = hash_token (some token); bootstrap_admin_loaded = true },
)

unfoldable pub destroy : Security → Security
destroy security = zeroed

-- The loop of `mp_cache_security_authenticate`: the first active record with the hash.
unfoldable pub match_record : Bytes → List ClientRecord → Option ClientRecord
match_record hash [] = none
match_record hash (r ∷ rest) =
    if r.token_active && constant_time_equals (some hash) (some r.token_hash) token_hash_size
    then some r
    else match_record hash rest

abbrev pub principal_of : ClientRecord → Principal
principal_of r = record { role = r.role; client_id = r.client_id }

abbrev pub bootstrap_admin : Principal
bootstrap_admin = record { role = admin; client_id = bootstrap_admin_id }

unfoldable pub authenticate : Security → Option Bytes → Status × Option Principal
authenticate security none = (invalid_argument, none)
authenticate security (some []) = (invalid_argument, none)
authenticate security (some (c ∷ rest)) =
    let hash = hash_token (some (c ∷ rest)) in
    if security.bootstrap_admin_loaded
      && constant_time_equals (some hash) (some security.bootstrap_admin_hash) token_hash_size
    then (ok, some bootstrap_admin)
    else elim (match_record hash security.records) [
      | none ↦ (unauthorized, none)
      | some r ↦ (ok, some (principal_of r))
    ]

abbrev pub fresh_record : Bytes → Role → Bytes → ClientRecord
fresh_record client_id role client_token = record {
  client_id = client_id;
  role = role;
  token_active = true;
  token_hash = hash_token (some client_token);
}

-- `mp_cache_security_register_client` behind its NULL checks: the status, the token and the state.
-- A valid ID fits the array of the record.
unfoldable pub register_present :
    Host → Security → Bytes → Role → ℕ → Status × Option Bytes × Security
register_present host security client_id role out_capacity =
    let grown = ensure_capacity host.reallocated security in
    if is_role_none role || not (client_id_is_valid client_id)
    then (invalid_argument, none, security)
    else elim (find_record client_id security.records) [
      | some r ↦ (conflict, none, security)
      | none ↦
          if not (is_ok grown.0)
          then (grown.0, none, grown.1)
          else elim (issue_token host.random_bytes out_capacity) [
            | failed status ↦ (status, none, grown.1)
            | issued client_token ↦ (
              ok,
              some client_token,
              record security {
                records = security.records ++ fresh_record client_id role client_token ∷ [];
                capacity = grown.1.capacity;
              },
            )
          ]
    ]

-- `out_capacity` is `none` where the buffer is NULL.
unfoldable pub register_client :
    Host → Security → Option Bytes → Role → Option ℕ → Status × Option Bytes × Security
register_client host security (some client_id) role (some out_capacity) =
    register_present host security client_id role out_capacity
register_client host security _ role _ = (invalid_argument, none, security)

abbrev pub rotated : ClientRecord → Bytes → ClientRecord
rotated r client_token = record r {
  token_active = true;
  token_hash = hash_token (some client_token);
}

unfoldable pub rotate_present : Host → Security → Bytes → ℕ → Status × Option Bytes × Security
rotate_present host security client_id out_capacity =
    if not (client_id_is_valid client_id)
    then (invalid_argument, none, security)
    else elim (find_record client_id security.records) [
      | none ↦ (not_found, none, security)
      | some r ↦ elim (issue_token host.random_bytes out_capacity) [
        | failed status ↦ (status, none, security)
        | issued client_token ↦ (
          ok,
          some client_token,
          record security { records = write_record (rotated r client_token) security.records },
        )
      ]
    ]

unfoldable pub rotate_client_token :
    Host → Security → Option Bytes → Option ℕ → Status × Option Bytes × Security
rotate_client_token host security (some client_id) (some out_capacity) =
    rotate_present host security client_id out_capacity
rotate_client_token host security _ _ = (invalid_argument, none, security)

abbrev pub invalidated : ClientRecord → ClientRecord
invalidated r = record r { token_active = false; token_hash = zero_hash }

unfoldable pub invalidate_client_token : Security → Option Bytes → Status × Security
invalidate_client_token security none = (invalid_argument, security)
invalidate_client_token security (some client_id) =
    if not (client_id_is_valid client_id)
    then (invalid_argument, security)
    else elim (find_record client_id security.records) [
      | none ↦ (not_found, security)
      | some r ↦ (ok, record security { records = write_record (invalidated r) security.records })
    ]

abbrev or_zero_hash : Option Bytes → Bytes
or_zero_hash none = zero_hash
or_zero_hash (some hash) = hash

abbrev pub is_null : Option Bytes → Bool
is_null none = true
is_null (some hash) = false

abbrev pub imported_record : Bytes → Role → Option Bytes → Bool → ClientRecord
imported_record client_id role token_hash is_token_active = record {
  client_id = client_id;
  role = role;
  token_active = is_token_active;
  token_hash = if is_token_active then or_zero_hash token_hash else zero_hash;
}

-- `mp_cache_security_import_client_hash`; both `memcpy` and the role go into the record that is
-- found, or into a new one at the end.
unfoldable pub import_present :
    Bool → Security → Bytes → Role → Option Bytes → Bool → Status × Security
import_present reallocated security client_id role token_hash is_token_active =
    let grown = ensure_capacity reallocated security in
    let imported = imported_record client_id role token_hash is_token_active in
    if is_role_none role || not (client_id_is_valid client_id)
    then (invalid_argument, security)
    else if is_token_active && is_null token_hash
    then (invalid_argument, security)
    else elim (find_record client_id security.records) [
      | some r ↦ (ok, record security { records = write_record imported security.records })
      | none ↦ if not (is_ok grown.0) then grown else (
        ok,
        record security {
          records = security.records ++ imported ∷ [];
          capacity = grown.1.capacity;
        },
      )
    ]

unfoldable pub import_client_hash :
    Bool → Security → Option Bytes → Role → Option Bytes → Bool → Status × Security
import_client_hash reallocated security (some client_id) role token_hash is_token_active =
    import_present reallocated security client_id role token_hash is_token_active
import_client_hash reallocated security none role token_hash is_token_active =
    (invalid_argument, security)

unfoldable pub clear_clients : Security → Security
clear_clients security = record security { records = [] }

unfoldable pub find_client : Security → Option Bytes → Option ClientRecord
find_client security none = none
find_client security (some client_id) = find_record client_id security.records
