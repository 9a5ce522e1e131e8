-- ===== src/Storage/Records.antt =====
-- The entries and clients inside a payload, and what reading one back does to the state
-- (internal/storage/storage.c).
use mp_cache.Prelude.{
  ℕ, ◌-◌, ◌%◌, ◌^◌, Bool, true, false, not, ◌||◌, Bytes, Option, none, some, List, [], ◌∷◌, length,
  ltb, leb, ◌==◌, if◌then◌else◌, word64,
}
use mp_cache.Prelude.Int.{ℤ, pos, negsuc, ltb_ℤ}
use mp_cache.Cache.Entry.{Entry}
use mp_cache.Cache.Store.{Store, Status, ok, Allocations, restore_entry}
use mp_cache.Security.Roles.{role_of_value, rank}
use mp_cache.Security.Records.{ClientRecord, client_id_cap}
use mp_cache.Security.Tokens.{token_hash_size, is_ok}
use mp_cache.Security.Registry.{Security, import_client_hash}
use mp_cache.Storage.Buffer.{◌>>=◌, u32_bytes, u64_bytes}
use mp_cache.Storage.Cursor.{consume_u32, consume_u64, consume_bytes}

-- `(uint64_t)` of an `int64_t`.
abbrev pub of_int64 : ℤ → ℕ
of_int64 (pos n) = n % word64
of_int64 (negsuc n) = word64 - 1 - n % word64

-- `(int64_t)` of a `uint64_t`, in two's complement.
abbrev pub to_int64 : ℕ → ℤ
to_int64 n = if ltb n (2 ^ 63) then pos n else negsuc (word64 - 1 - n)

-- What the program writes to: the cache and the registry of clients.
pub record State : Type 0 where
  pub store : Store
  pub security : Security

-- Which allocations of one restored record succeed.
pub record Memory : Type 0 where
  pub allocations : Allocations
  pub reallocated : Bool

-- The parts of one cache entry, in `mp_cache_serialize_active_entry` and in a journal record.
unfoldable pub entry_parts : Entry → List Bytes
entry_parts e =
    u32_bytes (length e.key)
    ∷ u32_bytes (length e.value)
    ∷ u64_bytes (of_int64 e.expires_at_utc_seconds)
    ∷ e.key
    ∷ e.value
    ∷ []

unfoldable pub read_entry : Bytes → ℕ → Option (Entry × ℕ)
read_entry payload offset = do
  (key_length, offset1) ← consume_u32 payload offset
  (value_length, offset2) ← consume_u32 payload offset1
  (expires_at, offset3) ← consume_u64 payload offset2
  (key, offset4) ← consume_bytes payload offset3 key_length
  (value, offset5) ← consume_bytes payload offset4 value_length
  some (record { key = key; value = value; expires_at_utc_seconds = to_int64 expires_at }, offset5)

-- The parts of one client, in `mp_cache_serialize_client_record` and in a journal record.
unfoldable pub client_parts : ClientRecord → List Bytes
client_parts r =
    u32_bytes (length r.client_id)
    ∷ u32_bytes (rank r.role)
    ∷ u32_bytes (if r.token_active then 1 else 0)
    ∷ r.token_hash
    ∷ r.client_id
    ∷ []

-- The C string in an array: the bytes before the first NUL.
unfoldable pub until_nul : Bytes → Bytes
until_nul [] = []
until_nul (b ∷ rest) = if b == 0 then [] else b ∷ until_nul rest

-- Version 1 has no flag: every token is active.
unfoldable pub read_active : ℕ → Bytes → ℕ → Option (ℕ × ℕ)
read_active version payload offset =
    if leb 2 version then consume_u32 payload offset else some (1, offset)

unfoldable pub read_client : ℕ → Bytes → ℕ → Option (ClientRecord × ℕ)
read_client version payload offset = do
  (id_length, offset1) ← consume_u32 payload offset
  (role_value, offset2) ← consume_u32 payload offset1
  (token_active, offset3) ← read_active version payload offset2
  (token_hash, offset4) ← consume_bytes payload offset3 token_hash_size
  (client_id, offset5) ←
      (if id_length == 0 || leb client_id_cap id_length
        then none
        else consume_bytes payload offset4 id_length)
  some (
    record {
      client_id = until_nul client_id;
      role = role_of_value role_value;
      token_active = not (token_active == 0);
      token_hash = token_hash;
    },
    offset5,
  )

abbrev pub is_stored : Status → Bool
is_stored ok = true
is_stored _ = false

-- An entry that has expired is passed over.
unfoldable pub restore_live : Memory → State → ℤ → Entry → Bool × State
restore_live memory state now e =
    let restored =
      restore_entry memory.allocations state.store (some e.key) (some e.value)
        e.expires_at_utc_seconds in
    if ltb_ℤ now e.expires_at_utc_seconds
    then (is_stored restored.0, record state { store = restored.1 })
    else (true, state)

unfoldable pub restore_client : Memory → State → ClientRecord → Bool × State
restore_client memory state r =
    let imported =
      import_client_hash memory.reallocated state.security (some r.client_id) r.role
        (some r.token_hash) r.token_active in
    (is_ok imported.0, record state { security = imported.1 })
