-- ===== src/Storage/Load.antt =====
-- `mp_cache_storage_load_state` and `mp_cache_storage_checkpoint` on the bytes of the two files
-- (internal/storage/storage.c).
use mp_cache.Prelude.{ℕ, zero, suc, Bool, true, false, Bytes, Option, none, some, [], ◌++◌, length}
use mp_cache.Prelude.Int.{ℤ}
use mp_cache.Cache.Walk.{clear}
use mp_cache.Security.Registry.{clear_clients}
use mp_cache.Storage.Buffer.{◌>>=◌, empty_buffer}
use mp_cache.Storage.Records.{State, Memory}
use mp_cache.Storage.Journal.{apply_journal_payload}
use mp_cache.Storage.Contents.{serialize_state, deserialize_state}
use mp_cache.Storage.Packet.{
  StorageKey, end_of_file, invalid, opened, state_magic, journal_magic, build_packet,
  read_packet_stream, read_packet_file,
}

-- What the host grants one load: the `realloc` sizes of the buffers, and the allocations of each
-- restored entry, client and journal record.
pub record LoadMemory : Type 0 where
  pub grants : ℕ → Bool
  pub entries : ℕ → Memory
  pub clients : ℕ → Memory
  pub journal : ℕ → Memory

-- The checkpoint, the journal: `none` is a file that does not exist.
pub record Files : Type 0 where
  pub checkpoint : Option Bytes
  pub journal : Option Bytes

-- The loop over the packets of the journal, on fuel.
unfoldable pub replay_journal : ℕ → LoadMemory → StorageKey → Bytes → State → ℤ → Bool × State
replay_journal zero memory storage file state now = (false, state)
replay_journal (suc fuel) memory storage file state now =
    elim (read_packet_stream memory.grants true storage journal_magic file) [
      | end_of_file ↦ (true, state)
      | invalid ↦ (false, state)
      | opened payload mac rest ↦
          let applied = apply_journal_payload (memory.journal fuel) payload state now in
          elim applied.0 [
            | true ↦ replay_journal fuel memory storage rest applied.1 now
            | false ↦ (false, applied.1)
          ]
    ]

-- A packet takes bytes of the file, so the length of the file is enough fuel.
unfoldable pub replay_file :
    LoadMemory → StorageKey → Option Bytes → Bool × State → ℤ → Bool × State
replay_file memory storage file (false, state) now = (false, state)
replay_file memory storage none (true, state) now = (true, state)
replay_file memory storage (some file) (true, state) now =
    replay_journal (suc (length file)) memory storage file state now

-- The checkpoint is loaded into an emptied state.
unfoldable pub load_checkpoint : LoadMemory → StorageKey → Option Bytes → State → ℤ → Bool × State
load_checkpoint memory storage file state now =
    let blank : State = record {
      store = clear state.store;
      security = clear_clients state.security;
    } in
    elim (read_packet_file memory.grants true storage state_magic file) [
      | end_of_file ↦ (true, blank)
      | invalid ↦ (false, blank)
      | opened payload mac rest ↦ deserialize_state memory.entries memory.clients payload blank now
    ]

-- The allocation of the payloads themselves is taken to succeed.
unfoldable pub load_state : LoadMemory → StorageKey → Files → State → ℤ → Bool × State
load_state memory storage files state now =
    replay_file memory storage files.journal
      (load_checkpoint memory storage files.checkpoint state now) now

-- `mp_cache_storage_checkpoint` without I/O errors: the checkpoint is replaced and the journal removed.
unfoldable pub checkpoint :
    (ℕ → Bool) → Option Bytes → StorageKey → State → ℤ → Files → Option Files
checkpoint grants nonce storage state now files = do
  payload ← serialize_state grants state now empty_buffer
  (packet, mac) ← build_packet grants nonce true storage state_magic payload.bytes empty_buffer
  some (record { checkpoint = some packet.bytes; journal = none })

-- A file that does not exist is created by an append.
abbrev pub or_empty : Option Bytes → Bytes
or_empty none = []
or_empty (some file) = file

-- `mp_cache_storage_append_packet` without I/O errors.
unfoldable pub append_packet : (ℕ → Bool) → Option Bytes → StorageKey → Bytes → Files → Option Files
append_packet grants nonce storage payload files = do
  (packet, mac) ← build_packet grants nonce true storage journal_magic payload empty_buffer
  some (record files { journal = some (or_empty files.journal ++ packet.bytes) })
