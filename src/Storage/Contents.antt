-- ===== src/Storage/Contents.antt =====
-- The state payload of checkpoints and exports: `mp_cache_storage_serialize_state` and
-- `mp_cache_storage_deserialize_state` (internal/storage/storage.c).
use mp_cache.Prelude.{
  ℕ, zero, suc, Bool, true, false, ◌||◌, Bytes, Option, none, some, List, [], ◌∷◌, length, ltb,
  ◌==◌, if◌then◌else◌,
}
use mp_cache.Prelude.Int.{ℤ, ltb_ℤ}
use mp_cache.Cache.Walk.{Visitor, for_each}
use mp_cache.Security.Records.{ClientRecord}
use mp_cache.Storage.Buffer.{◌>>=◌, Buffer, append_all, u32_bytes, u64_bytes}
use mp_cache.Storage.Cursor.{consume_u32, consume_u64}
use mp_cache.Storage.Records.{
  of_int64, State, Memory, entry_parts, client_parts, read_entry, read_client, restore_live,
  restore_client,
}

abbrev pub state_version : ℕ
state_version = 2

-- `mp_cache_count_active_entry`.
abbrev pub count_active : ℤ → Visitor ℕ
count_active now e count = (true, if ltb_ℤ now e.expires_at_utc_seconds then suc count else count)

abbrev or_kept : Buffer → Option Buffer → Bool × Buffer
or_kept buffer none = (false, buffer)
or_kept buffer (some next) = (true, next)

-- `mp_cache_serialize_active_entry`.
unfoldable pub serialize_active : (ℕ → Bool) → ℤ → Visitor Buffer
serialize_active grants now e buffer =
    if ltb_ℤ now e.expires_at_utc_seconds
    then or_kept buffer (append_all grants buffer (entry_parts e))
    else (true, buffer)

-- `mp_cache_security_for_each_client` with `mp_cache_serialize_client_record`.
unfoldable pub serialize_clients : (ℕ → Bool) → List ClientRecord → Buffer → Option Buffer
serialize_clients grants [] buffer = some buffer
serialize_clients grants (r ∷ rest) buffer = do
  next ← append_all grants buffer (client_parts r)
  serialize_clients grants rest next

-- A walk that was stopped gives -1.
abbrev pub finished : {C : Type 0} → Bool × C → Option C
finished (true, context) = some context
finished (false, context) = none

unfoldable pub serialize_state : (ℕ → Bool) → State → ℤ → Buffer → Option Buffer
serialize_state grants state now out_buffer = do
  count ← finished (for_each state.store (count_active now) 0)
  headed ←
      append_all grants out_buffer
        (u32_bytes state_version ∷ u64_bytes (of_int64 now) ∷ u32_bytes count ∷ [])
  entries ← finished (for_each state.store (serialize_active grants now) headed)
  counted ← append_all grants entries (u32_bytes (length state.security.records) ∷ [])
  serialize_clients grants state.security.records counted

-- The loop over the entries: the next offset, or a failure, and the state it leaves. Which
-- allocations succeed depends on the number of entries that are left.
unfoldable pub restore_entries : (ℕ → Memory) → ℕ → Bytes → ℕ → State → ℤ → Option ℕ × State
restore_entries memory zero payload offset state now = (some offset, state)
restore_entries memory (suc left) payload offset state now = elim (read_entry payload offset) [
  | none ↦ (none, state)
  | some (e, next) ↦
      let restored = restore_live (memory left) state now e in
      elim restored.0 [
        | true ↦ restore_entries memory left payload next restored.1 now
        | false ↦ (none, restored.1)
      ]
]

-- The loop over the clients.
unfoldable pub restore_clients : (ℕ → Memory) → ℕ → ℕ → Bytes → ℕ → State → Option ℕ × State
restore_clients memory version zero payload offset state = (some offset, state)
restore_clients memory version (suc left) payload offset state =
    elim (read_client version payload offset) [
      | none ↦ (none, state)
      | some (r, next) ↦
          let restored = restore_client (memory left) state r in
          elim restored.0 [
            | true ↦ restore_clients memory version left payload next restored.1
            | false ↦ (none, restored.1)
          ]
    ]

-- The version, the number of entries and the offset behind them.
unfoldable pub read_state_header : Bytes → Option (ℕ × ℕ × ℕ)
read_state_header payload = do
  (version, offset1) ← consume_u32 payload 0
  (checkpointed_at, offset2) ← consume_u64 payload offset1
  (entry_count, offset3) ←
      (if version == 0 || ltb state_version version then none else consume_u32 payload offset2)
  some (version, entry_count, offset3)

-- The payload must end where the last client does.
abbrev pub ends_at : Bytes → Option ℕ × State → Bool × State
ends_at payload (none, state) = (false, state)
ends_at payload (some offset, state) = (offset == length payload, state)

-- The part behind the entries.
unfoldable pub deserialize_clients : (ℕ → Memory) → ℕ → Bytes → Option ℕ × State → Bool × State
deserialize_clients memory version payload (none, state) = (false, state)
deserialize_clients memory version payload (some offset, state) =
    elim (consume_u32 payload offset) [
      | none ↦ (false, state)
      | some (client_count, next) ↦
          ends_at payload (restore_clients memory version client_count payload next state)
    ]

unfoldable pub deserialize_state : (ℕ → Memory) → (ℕ → Memory) → Bytes → State → ℤ → Bool × State
deserialize_state entry_memory client_memory payload state now = elim (read_state_header payload) [
  | none ↦ (false, state)
  | some (version, entry_count, offset) ↦
      deserialize_clients client_memory version payload
        (restore_entries entry_memory entry_count payload offset state now)
]
