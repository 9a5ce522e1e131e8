-- ===== src/Tests/CheckpointTests.antt =====
-- Saving and loading a small store (tests/unit/storage_tests.c).
use mp_cache.Prelude.{
  ℕ, suc, All, ◌≡◌, ◌≤◌, refl, true, Bytes, codes, Option, none, some, [], ◌∷◌, ◌++◌, replicate,
  arith, length-replicate, length,
}
use mp_cache.Prelude.Int.{pos}
use mp_cache.Storage.Buffer.{Buffer, empty_buffer}
use mp_cache.Storage.Records.{State}
use mp_cache.Storage.Journal.{set}
use mp_cache.Storage.Packet.{StorageKey, journal_magic, build_packet}
use mp_cache.Security.Roles.{operator}
use mp_cache.Storage.Restored.{IsStorable, IsPortable}
use mp_cache.Storage.Contents.{deserialize_state, serialize_state}
use mp_cache.Storage.Written.{active}
use mp_cache.Storage.Checkpoint.{load_entries}
use mp_cache.Storage.Reload.{then_clients, deserialize_state-serialize_state}
use mp_cache.Storage.Load.{replay_journal, LoadMemory, Files, load_state, checkpoint}
use mp_cache.Storage.Restart.{perform_all, replay_journal-Journal, Journal, next, empty}
use mp_cache.Storage.Saved.{blank, then_changes, load_state-checkpoint}
use mp_cache.Tests.StorageTests.{
  state, memory, entry, buffer_of, recorded, built_once, nonce, nonce_width, packet_of,
  storage_program,
}
use mp_cache.Storage.Exchange.{
  Exports, Exporting, ExportResult, export_state, Importing, read_disk, resolve_import_path,
  import_state,
}
use mp_cache.Storage.Exchanged.{replaced, import_state-export_state}

abbrev saved : State
saved = record state {
  store = record state.store { buckets = [] ∷ (entry ∷ []) ∷ []; entry_count = 1; bytes_used = 53 };
  security = record state.security {
    records =
        (record {
          client_id = codes "bob";
          role = operator;
          token_active = true;
          token_hash = replicate 32 5;
        })
        ∷ [];
  };
}

abbrev disk : StorageKey
disk = record { storage_key = codes "secret"; max_packet_bytes = 1000 }

abbrev no_files : Files
no_files = record { checkpoint = none; journal = none }

abbrev files_of : Option Files → Files
files_of none = no_files
files_of (some files) = files

abbrev written : Files
written = files_of (checkpoint (λ n. true) (some nonce) disk saved (pos 10) no_files)

written_once : checkpoint (λ n. true) (some nonce) disk saved (pos 10) no_files ≡ some written
unfolding storage_program
written_once = refl

abbrev journal_packet : Option (Buffer × Bytes)
journal_packet =
    build_packet (λ n. true) (some nonce) true disk journal_magic recorded.bytes empty_buffer

built_journal : journal_packet ≡ some (packet_of journal_packet)
unfolding storage_program
built_journal = refl

abbrev all_memory : LoadMemory
all_memory = record {
  grants = λ n. true;
  entries = λ n. memory;
  clients = λ n. memory;
  journal = λ n. memory;
}

one_change : Journal disk (set entry ∷ []) ((packet_of journal_packet).0.bytes ++ [])
one_change =
    next (λ n. true) (λ n. true) (pos 50) (set entry) recorded (packet_of journal_packet).0 nonce
      (packet_of journal_packet).1 [] [] (omega arith) built_once (length-replicate 16 7)
      built_journal empty

saved-IsStorable : All IsStorable (active (pos 10) saved.store)
unfolding storage_program
saved-IsStorable = omega arith

saved-IsPortable : All IsPortable saved.security.records
unfolding storage_program
saved-IsPortable = (record { named = refl; ranked = refl; hashed = refl }, tt)

load_state-checkpoint_example :
    load_state all_memory disk
      (record written { journal = some ((packet_of journal_packet).0.bytes ++ []) })
      state
      (pos 60)
    ≡ then_changes all_memory refl disk
        (omega arith)
        (length ((packet_of journal_packet).0.bytes ++ []))
        (set entry ∷ [])
        (pos 60)
        (then_clients all_memory.clients saved.security.records (
          load_entries all_memory.entries
            (active (pos 10) saved.store)
            (blank all_memory refl disk (omega arith) state)
            (pos 60)))
unfolding storage_program
load_state-checkpoint_example =
    load_state-checkpoint all_memory refl disk (omega arith) (λ n. true) nonce saved state (pos 10)
      (pos 60) no_files written (set entry ∷ []) ((packet_of journal_packet).0.bytes ++ [])
      nonce_width written_once one_change saved-IsStorable saved-IsPortable (omega arith)
      (omega arith)

abbrev payload_of_saved : Buffer
payload_of_saved = buffer_of (serialize_state (λ n. true) saved (pos 10) empty_buffer)

serialized_once : serialize_state (λ n. true) saved (pos 10) empty_buffer ≡ some payload_of_saved
unfolding storage_program
serialized_once = refl

deserialize_state-serialize_state_example :
    deserialize_state (λ n. memory) (λ n. memory) payload_of_saved.bytes state (pos 60)
    ≡ then_clients
        (λ n. memory)
        saved.security.records
        (load_entries (λ n. memory) (active (pos 10) saved.store) state (pos 60))
unfolding storage_program
deserialize_state-serialize_state_example =
    deserialize_state-serialize_state (λ n. true) (λ n. memory) (λ n. memory) saved state (pos 10)
      (pos 60) payload_of_saved serialized_once saved-IsStorable saved-IsPortable (omega arith)
      (omega arith)

abbrev journal_bytes : Bytes
journal_bytes = (packet_of journal_packet).0.bytes ++ []

reflexive : (n : ℕ) → n ≤ n
reflexive n = omega arith

replay_journal-Journal_example :
    replay_journal (suc (length journal_bytes)) all_memory disk journal_bytes state (pos 60)
    ≡ perform_all (length journal_bytes) all_memory.journal (set entry ∷ []) state (pos 60)
replay_journal-Journal_example =
    replay_journal-Journal all_memory refl disk (omega arith) (length journal_bytes)
      (set entry ∷ []) journal_bytes state (pos 60) one_change (reflexive (length journal_bytes))

export_program : Unit {0}
unfolding mp_cache.Storage.Exchange.export_state mp_cache.Storage.Exchange.export_count
    mp_cache.Storage.Exchange.write_export mp_cache.Storage.Exchange.format_path
    mp_cache.Storage.Exchange.resolve_import_path mp_cache.Storage.Persist.save_checkpoint
    mp_cache.Text.Scan.starts_with mp_cache.Text.Scan.find_text mp_cache.Text.Number.decimal_ℤ
    mp_cache.Text.Number.decimal mp_cache.Text.Number.digits_on mp_cache.Crypto.Hex.hex_encode
    mp_cache.Crypto.Hex.hex_char mp_cache.Storage.Load.checkpoint mp_cache.Prelude.get_or
export_program = tt

abbrev exports : Exports
exports = record { export_directory = codes "/e"; max_export_files = 2 }

abbrev exporter : Exporting
exporter = record {
  names = some [];
  process_id = codes "1";
  saving = record {
    grants = λ n. true;
    nonce = some nonce;
    replaced = true;
    journal_removed = true;
  };
  grants = λ n. true;
  nonce = some nonce;
  written = true;
}

abbrev result_of : Option ExportResult → ExportResult
result_of none = record {
  export_path = [];
  digest_hex = [];
  entry_count = 0;
  client_count = 0;
  artifact = [];
}
result_of (some result) = result

abbrev exported : ExportResult
exported = result_of (export_state exporter disk exports saved (pos 10) no_files).0

exported_once : (export_state exporter disk exports saved (pos 10) no_files).0 ≡ some exported
unfolding storage_program export_program
exported_once = refl

abbrev importer : Importing
importer = record {
  disk = λ path. some exported.artifact;
  grants = λ n. true;
  payload_allocated = true;
  buckets_allocated = true;
  trial_entries = λ n. memory;
  trial_clients = λ n. memory;
  entries = λ n. memory;
  clients = λ n. memory;
  saving = exporter.saving;
}

found_artifact :
    read_disk importer.disk (resolve_import_path exports (codes "a")) ≡ some exported.artifact
unfolding export_program
found_artifact = refl

import_state-export_state_example :
    import_state importer disk exports (codes "a") state (pos 60) no_files
    ≡ replaced importer disk saved (pos 10) state (pos 60) no_files
unfolding storage_program
import_state-export_state_example =
    import_state-export_state exporter importer disk exports nonce (codes "a") saved state (pos 10)
      (pos 60) no_files no_files exported (omega arith) refl nonce_width refl refl exported_once
      found_artifact saved-IsStorable saved-IsPortable (omega arith) (omega arith)
