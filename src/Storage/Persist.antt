-- ===== src/Storage/Persist.antt =====
-- The appends to the journal and the checkpoint where the file system may fail
-- (internal/storage/storage.c).
use mp_cache.Prelude.{
  ℕ, Bool, true, false, not, Bytes, Option, none, some, ◌++◌, take, if◌then◌else◌,
}
use mp_cache.Prelude.Int.{ℤ}
use mp_cache.Storage.Buffer.{empty_buffer}
use mp_cache.Storage.Records.{State}
use mp_cache.Storage.Journal.{Change, change_payload}
use mp_cache.Storage.Packet.{StorageKey, journal_magic, build_packet}
use mp_cache.Storage.Load.{Files, checkpoint, or_empty}

-- What the host gives one append: the sizes that `realloc` grants, the nonce, the `malloc` of the
-- ciphertext, the clock, whether the file can be opened, and whether the write succeeds; one that
-- fails leaves `partial` bytes in the file.
pub record Appending : Type 0 where
  pub grants : ℕ → Bool
  pub nonce : Option Bytes
  pub allocated : Bool
  pub recorded_at : ℤ
  pub opened : Bool
  pub written : Bool
  pub partial : ℕ

-- `mp_cache_storage_append_packet`: whether it returns 0, and the files.
unfoldable pub append_journal : Appending → StorageKey → Bytes → Files → Bool × Files
append_journal host storage payload files =
    elim (build_packet host.grants host.nonce host.allocated storage journal_magic payload
      empty_buffer) [
        | none ↦ (false, files)
        | some (packet, mac) ↦
            let kept = if host.written then packet.bytes else take host.partial packet.bytes in
            if not host.opened
            then (false, files)
            else (host.written, record files { journal = some (or_empty files.journal ++ kept) })
      ]

-- `mp_cache_storage_append_set`, `append_delete`, `append_client` and `append_purge_all`.
unfoldable pub append_change : Appending → StorageKey → Change → Files → Bool × Files
append_change host storage change files =
    elim (change_payload host.grants host.recorded_at change) [
      | none ↦ (false, files)
      | some payload ↦ append_journal host storage payload.bytes files
    ]

-- What the host gives one checkpoint: the sizes that `realloc` grants, the nonce, whether the new
-- file takes the place of the old one, and whether the journal can be removed.
pub record Saving : Type 0 where
  pub grants : ℕ → Bool
  pub nonce : Option Bytes
  pub replaced : Bool
  pub journal_removed : Bool

-- `mp_cache_storage_checkpoint`: whether it returns 0, and the files.
unfoldable pub save_checkpoint : Saving → StorageKey → State → ℤ → Files → Bool × Files
save_checkpoint host storage state now files =
    elim (checkpoint host.grants host.nonce storage state now files) [
      | none ↦ (false, files)
      | some written ↦
          if not host.replaced
          then (false, files)
          else if not host.journal_removed
          then (false, record files { checkpoint = written.checkpoint })
          else (true, written)
    ]
