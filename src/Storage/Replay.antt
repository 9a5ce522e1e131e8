-- ===== src/Storage/Replay.antt =====
-- A recorded change is replayed as it was made (internal/storage/storage.c).
use mp_cache.Prelude.{
  ℕ, ◌+◌, ◌^◌, ◌<◌, ◌≡◌, ◌∙◌, refl, sym, ap, Bool, true, false, ◌&&◌, Bytes, some, List, [], ◌∷◌,
  ◌++◌, flatten, append-nil, length, take, take-append, if◌then◌else◌, arith,
}
use mp_cache.Prelude.Int.{ℤ, leb_ℤ, ltb_ℤ}
use mp_cache.Cache.Entry.{Entry}
use mp_cache.Cache.Store.{delete}
use mp_cache.Cache.Walk.{clear}
use mp_cache.Security.Roles.{rank}
use mp_cache.Storage.Buffer.{Buffer, empty_buffer, append_all-some, u32_bytes, u64_bytes}
use mp_cache.Storage.Reads.{Rest, next-Rest, consume_u32-Rest, consume_u64-Rest, consume_bytes-Rest}
use mp_cache.Storage.Records.{
  of_int64, State, Memory, entry_parts, client_parts, restore_live, restore_client,
}
use mp_cache.Storage.Journal.{
  journal_version, JournalOp, op_set, op_delete, op_client_upsert, op_purge_all, op_value, op_parts,
  build_journal_payload, Change, set, remove, upsert, purge_all, change_payload, read_header,
  read_key, at_end, apply_operation, apply_journal_payload,
}
use mp_cache.Storage.Restored.{
  IsStorable, IsPortable, of_int64-lt, head-Rest, last-Rest, read_entry-entry_parts,
  read_client-client_parts,
}

-- What a change does to the state at the time of the replay.
unfoldable pub perform : Memory → State → ℤ → Change → Bool × State
perform memory state now (set e) = restore_live memory state now e
perform memory state now (remove key) =
    (true, record state { store = (delete state.store (some key)).1 })
perform memory state now (upsert r) = restore_client memory state r
perform memory state now purge_all = (true, record state { store = clear state.store })

-- A change whose parts fit the fields of a record.
abbrev pub IsRecordable : Change → Type 0
IsRecordable (set e) = IsStorable e
IsRecordable (remove key) = length key < 2 ^ 32
IsRecordable (upsert r) = IsPortable r
IsRecordable purge_all = Unit {0}

abbrev op_of : Change → JournalOp
op_of (set e) = op_set
op_of (remove key) = op_delete
op_of (upsert r) = op_client_upsert
op_of purge_all = op_purge_all

abbrev key_parts : Bytes → List Bytes
key_parts key = u32_bytes (length key) ∷ key ∷ []

abbrev parts_of : Change → List Bytes
parts_of (set e) = entry_parts e
parts_of (remove key) = key_parts key
parts_of (upsert r) = client_parts r
parts_of purge_all = []

abbrev header_parts : ℤ → JournalOp → List Bytes → List Bytes
header_parts now operation parts =
    u32_bytes journal_version ∷ u32_bytes (op_value operation) ∷ u64_bytes (of_int64 now) ∷ parts

take-all : (bytes : Bytes) → take (length bytes) bytes ≡ bytes
take-all bytes = ap (take (length bytes)) (sym (append-nil bytes)) ∙ take-append bytes []

-- The payload of a change is its header and its parts.
change_payload-parts :
    (grants : ℕ → Bool) (recorded : ℤ) (change : Change) (buffer : Buffer)
    → IsRecordable change
    → change_payload grants recorded change ≡ some buffer
    → buffer.bytes ≡ flatten (header_parts recorded (op_of change) (parts_of change))
unfolding change_payload build_journal_payload op_parts entry_parts client_parts
change_payload-parts grants recorded (set e) buffer h built =
    append_all-some grants empty_buffer _ buffer (omega arith) built
change_payload-parts grants recorded (remove key) buffer h built =
    append_all-some grants empty_buffer _ buffer (omega arith) built
change_payload-parts grants recorded (upsert r) buffer h built =
    append_all-some grants empty_buffer _ buffer (omega arith) built
    ∙ ap
        (λ (hash : Bytes). flatten (
          header_parts recorded op_client_upsert (
            u32_bytes (length r.client_id)
            ∷ u32_bytes (rank r.role)
            ∷ u32_bytes (if r.token_active then 1 else 0)
            ∷ hash
            ∷ r.client_id
            ∷ [])))
        (ap (λ n. take n r.token_hash) (sym h.hashed) ∙ take-all r.token_hash)
change_payload-parts grants recorded purge_all buffer h built =
    append_all-some grants empty_buffer _ buffer (omega arith) built

op_value-lt : (operation : JournalOp) → op_value operation < 2 ^ 32
op_value-lt operation = ground arith

and_true : (r : Bool × State) → (r.0 && true, r.1) ≡ r
and_true (true, state) = refl
and_true (false, state) = refl

-- The header is read back, and the parts follow it.
read_header-header_parts :
    (payload : Bytes) (recorded : ℤ) (operation : JournalOp) (parts : List Bytes)
    → payload ≡ flatten (header_parts recorded operation parts)
    → (read_header payload ≡ some (2, op_value operation, 16))
      × Rest payload 16 (flatten parts ++ [])
unfolding read_header
read_header-header_parts payload recorded operation parts e =
    let time : ℕ = of_int64 recorded in
    let tail2 : List Bytes = u64_bytes time ∷ parts in
    let tail1 : List Bytes = u32_bytes (op_value operation) ∷ tail2 in
    let whole : Rest payload 0 (flatten (header_parts recorded operation parts) ++ []) = record {
      front = [];
      split = rw append-nil e;
      place = refl;
    } in
    let r0 = head-Rest payload 0 (u32_bytes journal_version) tail1 [] whole in
    let e0 = consume_u32-Rest payload 0 _ journal_version (omega arith) r0 in
    let r1 =
      head-Rest payload 4 (u32_bytes (op_value operation)) tail2 []
        (next-Rest payload 0 (u32_bytes journal_version) _ 4 refl r0) in
    let e1 = consume_u32-Rest payload 4 _ (op_value operation) (op_value-lt operation) r1 in
    let r2 =
      head-Rest payload 8 (u64_bytes time) parts []
        (next-Rest payload 4 (u32_bytes (op_value operation)) _ 4 refl r1) in
    let e2 = consume_u64-Rest payload 8 _ time (of_int64-lt recorded) r2 in
    (rw (e0, e1, e2) refl, next-Rest payload 8 (u64_bytes time) _ 8 refl r2)

-- Where nothing is left the payload ends.
pub at_end-Rest : (payload : Bytes) (next : ℕ) → Rest payload next [] → at_end payload next ≡ true
at_end-Rest payload next r =
    let total : length payload ≡ length r.front = ap length (r.split ∙ append-nil r.front) in
    ground (arith, r.place)

read_key-key_parts :
    (payload : Bytes) (offset : ℕ) (key rest : Bytes)
    → length key < 2 ^ 32
    → Rest payload offset (flatten (key_parts key) ++ rest)
    → (next : ℕ) × (read_key payload offset ≡ some (key, next)) × Rest payload next rest
unfolding read_key
read_key-key_parts payload offset key rest h r =
    let r0 = head-Rest payload offset (u32_bytes (length key)) (key ∷ []) rest r in
    let e0 = consume_u32-Rest payload offset _ (length key) h r0 in
    let r1 =
      head-Rest payload (offset + 4) key [] rest
        (next-Rest payload offset (u32_bytes (length key)) _ 4 refl r0) in
    let e1 = consume_bytes-Rest payload (offset + 4) _ key (length key) refl r1 in
    (
      offset + 4 + length key,
      rw (e0, e1) refl,
      last-Rest payload _ rest (next-Rest payload (offset + 4) key _ (length key) refl r1),
    )

apply_operation-parts :
    (memory : Memory) (payload : Bytes) (state : State) (now : ℤ) (change : Change)
    → IsRecordable change
    → Rest payload 16 (flatten (parts_of change) ++ [])
    → apply_operation memory payload state now (2, op_value (op_of change), 16)
      ≡ perform memory state now change
unfolding apply_operation perform
apply_operation-parts memory payload state now (set e) h r =
    let (next, read, left) = read_entry-entry_parts payload 16 e [] h r in
    rw (read, at_end-Rest payload next left) (and_true (restore_live memory state now e))
apply_operation-parts memory payload state now (remove key) h r =
    let (next, read, left) = read_key-key_parts payload 16 key [] h r in
    rw (read, at_end-Rest payload next left) refl
apply_operation-parts memory payload state now (upsert c) h r =
    let (next, read, left) = read_client-client_parts payload 16 c [] h r in
    rw (read, at_end-Rest payload next left) (and_true (restore_client memory state c))
apply_operation-parts memory payload state now purge_all h r =
    rw (at_end-Rest payload 16 (last-Rest payload 16 [] r)) refl

-- A payload that was built for a change whose parts fit the record, at any time and with any
-- allocations granted, is replayed as that change.
pub apply_journal_payload-change_payload :
    (grants : ℕ → Bool) (memory : Memory) (state : State) (recorded now : ℤ) (change : Change)
    (buffer : Buffer)
    → IsRecordable change
    → change_payload grants recorded change ≡ some buffer
    → apply_journal_payload memory buffer.bytes state now ≡ perform memory state now change
unfolding apply_journal_payload
apply_journal_payload-change_payload grants memory state recorded now change buffer h built =
    let (header, left) =
      read_header-header_parts buffer.bytes recorded (op_of change) (parts_of change)
        (change_payload-parts grants recorded change buffer h built) in
    rw (header, apply_journal_payload)
      (apply_operation-parts memory buffer.bytes state now change h left)

-- The replay of a recorded write that has expired by then changes nothing: a lookup of its key
-- answers by what the store held before, also where that outlives the recorded write.
pub apply_journal_payload-expired :
    (grants : ℕ → Bool) (memory : Memory) (state : State) (recorded now : ℤ) (e : Entry)
    (buffer : Buffer)
    → IsStorable e
    → change_payload grants recorded (set e) ≡ some buffer
    → leb_ℤ e.expires_at_utc_seconds now ≡ true
    → apply_journal_payload memory buffer.bytes state now ≡ (true, state)
unfolding perform restore_live
apply_journal_payload-expired grants memory state recorded now e buffer h built past =
    let stale : ltb_ℤ now e.expires_at_utc_seconds ≡ false = ground arith in
    apply_journal_payload-change_payload grants memory state recorded now (set e) buffer h built
    ∙ rw stale refl
