-- ===== src/Storage/Reload.antt =====
-- A state that was saved is loaded as its live entries and its clients
-- (internal/storage/storage.c).
use mp_cache.Prelude.{
  ℕ, ◌+◌, ◌^◌, ◌<◌, ◌≡◌, ◌∙◌, refl, ap, Bool, true, false, Bytes, some, List, [], ◌∷◌, ◌++◌,
  flatten, append-nil, length, All, arith,
}
use mp_cache.Prelude.Int.{ℤ}
use mp_cache.Cache.Entry.{Entry}
use mp_cache.Security.Records.{ClientRecord}
use mp_cache.Storage.Buffer.{Buffer, empty_buffer, u32_bytes, u64_bytes}
use mp_cache.Storage.Reads.{Rest, next-Rest, consume_u32-Rest, consume_u64-Rest}
use mp_cache.Storage.Records.{of_int64, State, Memory}
use mp_cache.Storage.Restored.{IsStorable, IsPortable, of_int64-lt, head-Rest, last-Rest}
use mp_cache.Storage.Replay.{at_end-Rest}
use mp_cache.Storage.Contents.{
  state_version, serialize_state, read_state_header, ends_at, deserialize_clients,
  deserialize_state,
}
use mp_cache.Storage.Written.{entries_bytes, clients_bytes, active, serialize_state-some}
use mp_cache.Storage.Checkpoint.{
  load_entries, load_clients, reached, restore_entries-Rest, restore_clients-Rest,
}

-- The clients are loaded where all the entries went through.
unfoldable pub then_clients : (ℕ → Memory) → List ClientRecord → Bool × State → Bool × State
then_clients memory records (true, state) = load_clients memory records state
then_clients memory records (false, state) = (false, state)

ends_at-reached :
    (payload : Bytes) (end : ℕ) (p : Bool × State)
    → Rest payload end []
    → ends_at payload (reached end p) ≡ p
ends_at-reached payload end (true, state) r = rw (at_end-Rest payload end r) refl
ends_at-reached payload end (false, state) r = refl

deserialize_clients-reached :
    (memory : ℕ → Memory) (records : List ClientRecord) (payload : Bytes) (offset : ℕ)
    (p : Bool × State)
    → All IsPortable records
    → length records < 2 ^ 32
    → Rest payload offset (u32_bytes (length records) ++ (clients_bytes records ++ []))
    → deserialize_clients memory 2 payload (reached offset p) ≡ then_clients memory records p
unfolding deserialize_clients then_clients
deserialize_clients-reached memory records payload offset (false, state) h small r = refl
deserialize_clients-reached memory records payload offset (true, state) h small r =
    let count =
      consume_u32-Rest payload offset (clients_bytes records ++ []) (length records) small r in
    let (end, left, same) =
      restore_clients-Rest memory records payload (offset + 4) [] state h
        (next-Rest payload offset (u32_bytes (length records)) _ 4 refl r) in
    rw (count, deserialize_clients, same)
      (ends_at-reached payload end (load_clients memory records state) left)

read_state_header-Rest :
    (payload tail : Bytes) (now : ℤ) (n : ℕ)
    → n < 2 ^ 32
    → payload
      ≡ flatten (u32_bytes state_version ∷ u64_bytes (of_int64 now) ∷ u32_bytes n ∷ []) ++ tail
    → (read_state_header payload ≡ some (2, n, 16)) × Rest payload 16 tail
unfolding read_state_header
read_state_header-Rest payload tail now n small e =
    let time : ℕ = of_int64 now in
    let tail2 : List Bytes = u32_bytes n ∷ [] in
    let tail1 : List Bytes = u64_bytes time ∷ tail2 in
    let whole : Rest payload 0 (flatten (u32_bytes state_version ∷ tail1) ++ tail) = record {
      front = [];
      split = e;
      place = refl;
    } in
    let r0 = head-Rest payload 0 (u32_bytes state_version) tail1 tail whole in
    let e0 = consume_u32-Rest payload 0 _ state_version (omega arith) r0 in
    let r1 =
      head-Rest payload 4 (u64_bytes time) tail2 tail
        (next-Rest payload 0 (u32_bytes state_version) _ 4 refl r0) in
    let e1 = consume_u64-Rest payload 4 _ time (of_int64-lt now) r1 in
    let r2 =
      head-Rest payload 12 (u32_bytes n) [] tail
        (next-Rest payload 4 (u64_bytes time) _ 8 refl r1) in
    let e2 = consume_u32-Rest payload 12 _ n small r2 in
    (
      rw (e0, e1, e2) refl,
      last-Rest payload 16 tail (next-Rest payload 12 (u32_bytes n) _ 4 refl r2),
    )

-- A state payload that was built is loaded into any state as its live entries in bucket order and
-- then its clients, each by its own restore, where lengths, times, IDs and counts fit the fields.
pub deserialize_state-serialize_state :
    (grants : ℕ → Bool) (entry_memory client_memory : ℕ → Memory) (saved loaded : State)
    (now later : ℤ) (buffer : Buffer)
    → serialize_state grants saved now empty_buffer ≡ some buffer
    → All IsStorable (active now saved.store)
    → All IsPortable saved.security.records
    → length (active now saved.store) < 2 ^ 32
    → length saved.security.records < 2 ^ 32
    → deserialize_state entry_memory client_memory buffer.bytes loaded later
      ≡ then_clients client_memory saved.security.records
          (load_entries entry_memory (active now saved.store) loaded later)
unfolding deserialize_state
deserialize_state-serialize_state grants entry_memory client_memory saved loaded now later buffer
      built storable portable few_entries few_clients =
    let entries : List Entry = active now saved.store in
    let records : List ClientRecord = saved.security.records in
    let clients : Bytes = u32_bytes (length records) ++ clients_bytes records in
    let bytes = serialize_state-some grants saved now empty_buffer buffer refl built in
    let (header, behind) =
      read_state_header-Rest buffer.bytes (entries_bytes entries ++ clients) now (length entries)
        few_entries bytes in
    let (next, left, same) =
      restore_entries-Rest entry_memory entries buffer.bytes 16 clients loaded later storable
        behind in
    let padded : Rest buffer.bytes next
        (u32_bytes (length records) ++ (clients_bytes records ++ [])) =
      rw append-nil left in
    rw (header, deserialize_state)
      (ap (deserialize_clients client_memory 2 buffer.bytes) same
        ∙ deserialize_clients-reached client_memory records buffer.bytes next _ portable few_clients
            padded)
