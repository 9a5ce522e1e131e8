-- ===== src/Storage/Journal.antt =====
-- Journal records: how they are built and replayed (internal/storage/storage.c).
use mp_cache.Prelude.{
  ℕ, Bool, false, ◌&&◌, ◌||◌, Bytes, Option, none, some, List, [], ◌∷◌, length, ltb, ◌==◌, take,
  if◌then◌else◌,
}
use mp_cache.Prelude.Int.{ℤ}
use mp_cache.Cache.Entry.{Entry}
use mp_cache.Cache.Store.{delete}
use mp_cache.Cache.Walk.{clear}
use mp_cache.Security.Roles.{rank}
use mp_cache.Security.Records.{ClientRecord}
use mp_cache.Security.Tokens.{token_hash_size}
use mp_cache.Storage.Buffer.{◌>>=◌, Buffer, empty_buffer, append_all, u32_bytes, u64_bytes}
use mp_cache.Storage.Cursor.{consume_u32, consume_u64, consume_bytes}
use mp_cache.Storage.Records.{
  of_int64, State, Memory, read_entry, read_client, restore_live, restore_client,
}

abbrev pub journal_version : ℕ
journal_version = 2

pub data JournalOp : Type 0 where
  op_set op_delete op_client_upsert op_purge_all : JournalOp

abbrev pub op_value : JournalOp → ℕ
op_value op_set = 1
op_value op_delete = 2
op_value op_client_upsert = 3
op_value op_purge_all = 4

-- The parts that follow the header of a record.
unfoldable pub op_parts : JournalOp → Bytes → Bytes → ℕ → ℕ → List Bytes
op_parts op_set subject value extra_value extra_flag =
    u32_bytes (length subject)
    ∷ u32_bytes (length value)
    ∷ u64_bytes extra_value
    ∷ subject
    ∷ value
    ∷ []
op_parts op_delete subject value extra_value extra_flag = u32_bytes (length subject) ∷ subject ∷ []
op_parts op_client_upsert subject value extra_value extra_flag =
    u32_bytes (length subject)
    ∷ u32_bytes extra_value
    ∷ u32_bytes extra_flag
    ∷ take token_hash_size value
    ∷ subject
    ∷ []
op_parts op_purge_all subject value extra_value extra_flag = []

unfoldable pub build_journal_payload :
    (ℕ → Bool) → JournalOp → ℤ → Bytes → Bytes → ℕ → ℕ → Buffer → Option Buffer
build_journal_payload grants operation now subject value extra_value extra_flag out_buffer =
    append_all grants out_buffer (
      u32_bytes journal_version
      ∷ u32_bytes (op_value operation)
      ∷ u64_bytes (of_int64 now)
      ∷ op_parts operation subject value extra_value extra_flag)

-- One change of the state, as the handlers record it.
pub data Change : Type 0 where
  set : Entry → Change
  remove : Bytes → Change
  upsert : ClientRecord → Change
  purge_all : Change

-- The payload that `mp_cache_storage_append_set`, `append_delete`, `append_client` or
-- `append_purge_all` builds at the time `now`.
unfoldable pub change_payload : (ℕ → Bool) → ℤ → Change → Option Buffer
change_payload grants now (set e) =
    build_journal_payload grants op_set now e.key e.value (of_int64 e.expires_at_utc_seconds) 0
      empty_buffer
change_payload grants now (remove key) =
    build_journal_payload grants op_delete now key [] 0 0 empty_buffer
change_payload grants now (upsert r) =
    build_journal_payload grants op_client_upsert now r.client_id r.token_hash (rank r.role)
      (if r.token_active then 1 else 0) empty_buffer
change_payload grants now purge_all =
    build_journal_payload grants op_purge_all now [] [] 0 0 empty_buffer

-- The version, the operation and the offset behind the header.
unfoldable pub read_header : Bytes → Option (ℕ × ℕ × ℕ)
read_header payload = do
  (version, offset1) ← consume_u32 payload 0
  (operation, offset2) ← consume_u32 payload offset1
  (recorded_at, offset3) ← consume_u64 payload offset2
  (if version == 0 || ltb journal_version version then none else some (version, operation, offset3))

unfoldable pub read_key : Bytes → ℕ → Option (Bytes × ℕ)
read_key payload offset = do
  (key_length, offset1) ← consume_u32 payload offset
  consume_bytes payload offset1 key_length

-- The record ends where the payload does.
abbrev pub at_end : Bytes → ℕ → Bool
at_end payload offset = offset == length payload

unfoldable pub apply_operation : Memory → Bytes → State → ℤ → ℕ × ℕ × ℕ → Bool × State
apply_operation memory payload state now (version, operation, offset) =
    if operation == 1
    then elim (read_entry payload offset) [
      | none ↦ (false, state)
      | some (e, next) ↦
          let restored = restore_live memory state now e in
          (restored.0 && at_end payload next, restored.1)
    ]
    else if operation == 2
    then elim (read_key payload offset) [
      | none ↦ (false, state)
      | some (key, next) ↦
          (at_end payload next, record state { store = (delete state.store (some key)).1 })
    ]
    else if operation == 3
    then elim (read_client version payload offset) [
      | none ↦ (false, state)
      | some (r, next) ↦
          let restored = restore_client memory state r in
          (restored.0 && at_end payload next, restored.1)
    ]
    else if operation == 4
    then (at_end payload offset, record state { store = clear state.store })
    else (false, state)

-- `mp_cache_storage_apply_journal_payload`: whether it returns 0, and the state it leaves.
unfoldable pub apply_journal_payload : Memory → Bytes → State → ℤ → Bool × State
apply_journal_payload memory payload state now = elim (read_header payload) [
  | none ↦ (false, state)
  | some header ↦ apply_operation memory payload state now header
]
