-- ===== src/Storage/Exchanged.antt =====
-- What an import of an exported artifact restores (internal/storage/storage.c).
use mp_cache.Prelude.{
  ℕ, ◌^◌, ◌<◌, ◌≡◌, refl, sym, Bool, true, false, not, ◌||◌, inl, inr, Bytes, some, Option-cases,
  [], length, All, arith, if◌then◌else◌,
}
use mp_cache.Prelude.Int.{ℤ}
use mp_cache.Storage.Buffer.{Buffer, empty_buffer}
use mp_cache.Storage.Records.{State, Memory}
use mp_cache.Storage.Restored.{IsStorable, IsPortable}
use mp_cache.Storage.Packet.{StorageKey, opened, export_magic, build_packet, read_packet_file}
use mp_cache.Storage.Contents.{serialize_state}
use mp_cache.Storage.Written.{active}
use mp_cache.Storage.Checkpoint.{load_entries}
use mp_cache.Storage.Reload.{then_clients, deserialize_state-serialize_state}
use mp_cache.Storage.Load.{Files}
use mp_cache.Storage.Persist.{save_checkpoint}
use mp_cache.Storage.Saved.{read_packet_file-build_packet}
use mp_cache.Storage.Exchange.{
  Exports, Exporting, ExportResult, write_export, export_state, Importing, trial_state, emptied,
  replace_state, import_payload, read_disk, resolve_import_path, import_state,
}

-- The payload and the packet of an artifact.
record Exported (host : Exporting) (storage : StorageKey) (state : State) (now : ℤ)
    (artifact : Bytes) : Type 0 where
  payload : Buffer
  packet : Buffer
  mac : Bytes
  serialized : serialize_state host.grants state now empty_buffer ≡ some payload
  sealed :
      build_packet host.grants host.nonce true storage export_magic payload.bytes empty_buffer
      ≡ some (packet, mac)
  written : artifact ≡ packet.bytes

write_export-some :
    (host : Exporting) (storage : StorageKey) (exports : Exports) (state : State) (now : ℤ)
    (payload : Buffer) (result : ExportResult)
    → serialize_state host.grants state now empty_buffer ≡ some payload
    → write_export host storage exports state now payload.bytes ≡ some result
    → Exported host storage state now result.artifact
unfolding write_export
write_export-some host storage exports state now payload result serialized done =
    elim (Option-cases
      (build_packet host.grants host.nonce true storage export_magic payload.bytes empty_buffer)) [
        | inl full ↦ absurd (ground (arith, done, full))
        | inr ((packet, mac), sealed) ↦ record {
          payload = payload;
          packet = packet;
          mac = mac;
          serialized = serialized;
          sealed = sealed;
          written = ground (arith, done, sealed);
        }
      ]

export_state-some :
    (host : Exporting) (storage : StorageKey) (exports : Exports) (state : State) (now : ℤ)
    (files : Files) (result : ExportResult)
    → (export_state host storage exports state now files).0 ≡ some result
    → Exported host storage state now result.artifact
unfolding export_state
export_state-some host storage exports state now files result done =
    elim (Option-cases (serialize_state host.grants state now empty_buffer)) [
      | inl full ↦ absurd (ground (arith, done, full))
      | inr (payload, serialized) ↦
          write_export-some host storage exports state now payload result serialized
            (ground (arith, done, serialized))
    ]

-- A restore of the live entries and the clients of a state into another one.
abbrev pub restored : (ℕ → Memory) → (ℕ → Memory) → State → ℤ → State → ℤ → Bool × State
restored entries clients saved now state later =
    then_clients clients saved.security.records
      (load_entries entries (active now saved.store) state later)

-- What an import does by its own description: the saved state is restored into a fresh one, and
-- only where that succeeds, into the emptied state, which is then saved.
abbrev pub replaced : Importing → StorageKey → State → ℤ → State → ℤ → Files → Bool × State × Files
replaced host storage saved now state later files =
    let trial = trial_state host state in
    let loaded = restored host.entries host.clients saved now (emptied state) later in
    let kept = save_checkpoint host.saving storage loaded.1 later files in
    if not trial.0 || not (restored host.trial_entries host.trial_clients saved now trial.1 later).0
    then (false, state, files)
    else if not loaded.0
    then (false, loaded.1, files)
    else (kept.0, loaded.1, kept.1)

-- An import of an artifact that an export wrote, whatever state it is imported into, restores the
-- entries that were live at the export and the clients. The importer has memory for its buffers,
-- packets are under 2^32 bytes, and the saved state has lengths, times, IDs and counts that fit
-- the fields.
pub import_state-export_state :
    (exporter : Exporting) (importer : Importing) (storage : StorageKey) (exports : Exports)
    (nonce import_path : Bytes) (saved state : State) (now later : ℤ) (before files : Files)
    (result : ExportResult)
    → storage.max_packet_bytes < 2 ^ 32
    → exporter.nonce ≡ some nonce
    → length nonce ≡ 16
    → importer.grants ≡ (λ n. true)
    → importer.payload_allocated ≡ true
    → (export_state exporter storage exports saved now before).0 ≡ some result
    → read_disk importer.disk (resolve_import_path exports import_path) ≡ some result.artifact
    → All IsStorable (active now saved.store)
    → All IsPortable saved.security.records
    → length (active now saved.store) < 2 ^ 32
    → length saved.security.records < 2 ^ 32
    → import_state importer storage exports import_path state later files
      ≡ replaced importer storage saved now state later files
unfolding import_state import_payload replace_state
import_state-export_state exporter importer storage exports nonce import_path saved state now later
      before files result narrow fresh wide granted allocated done found storable portable
      few_entries few_clients =
    let x = export_state-some exporter storage exports saved now before result done in
    let sealed : build_packet exporter.grants (some nonce) true storage export_magic x.payload.bytes
          empty_buffer
        ≡ some (x.packet, x.mac) =
      rw (sym fresh) x.sealed in
    let opens : read_packet_file importer.grants importer.payload_allocated storage export_magic
          (some result.artifact)
        ≡ opened x.payload.bytes x.mac [] =
      rw (granted, allocated, x.written)
        (read_packet_file-build_packet storage export_magic exporter.grants true nonce
          x.payload.bytes x.packet x.mac narrow refl wide sealed) in
    let loads = λ (entries clients : ℕ → Memory) (start : State).
      deserialize_state-serialize_state exporter.grants entries clients saved start now later
        x.payload x.serialized storable portable few_entries few_clients in
    rw
      (
        found,
        import_state,
        opens,
        loads importer.trial_entries importer.trial_clients (trial_state importer state).1,
        loads importer.entries importer.clients (emptied state),
      )
      refl
