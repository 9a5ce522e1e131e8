-- ===== src/Storage/Exchange.antt =====
-- Initialisation, exports and imports (internal/storage/storage.c).
use mp_cache.Prelude.{
  ℕ, ◌+◌, ◌*◌, Bool, true, false, not, ◌||◌, Bytes, codes, Option, none, some, List, [], ◌∷◌, ◌++◌,
  length, leb, ◌==◌, get_or, add64, if◌then◌else◌,
}
use mp_cache.Prelude.Int.{ℤ}
use mp_cache.Cache.Store.{Limits, init}
use mp_cache.Cache.Walk.{clear, for_each}
use mp_cache.Crypto.Hex.{hex_encode}
use mp_cache.Security.Registry.{clear_clients}
use mp_cache.Security.Tokens.{hash_token, token_text_cap}
use mp_cache.Storage.Buffer.{empty_buffer}
use mp_cache.Storage.Records.{State, Memory}
use mp_cache.Storage.Contents.{count_active, serialize_state, deserialize_state}
use mp_cache.Storage.Packet.{StorageKey, opened, export_magic, build_packet, read_packet_file}
use mp_cache.Storage.Load.{Files}
use mp_cache.Storage.Persist.{Saving, save_checkpoint}
use mp_cache.Text.Scan.{starts_with, find_text}
use mp_cache.Text.Number.{decimal_ℤ}

abbrev pub path_cap : ℕ
path_cap = 4096

-- The other fields of `mp_cache_storage_t`; the paths of the two files name `Files`.
pub record Exports : Type 0 where
  pub export_directory : Bytes
  pub max_export_files : ℕ

-- The fields of `mp_cache_config_t` that the storage reads.
pub record Settings : Type 0 where
  pub checkpoint_path : Bytes
  pub journal_path : Bytes
  pub export_directory : Bytes
  pub max_export_files : ℕ
  pub memory_limit_bytes : ℕ

-- `mp_cache_storage_format_path` of a formatted text.
unfoldable pub format_path : Bytes → Option Bytes
format_path path = if leb path_cap (length path) then none else some path

abbrev too_long : Bytes → Bool
too_long path = leb path_cap (length path)

-- `mp_cache_storage_init` behind its NULL checks; `secret` is what `mp_cache_secret_resolve` gives.
unfoldable pub init_storage : Option Bytes → Settings → Option (StorageKey × Exports)
init_storage secret config =
    if too_long config.checkpoint_path
      || too_long config.journal_path
      || too_long config.export_directory
    then none
    else elim secret [
      | none ↦ none
      | some text ↦ some (
        record {
          storage_key = hash_token (some text);
          max_packet_bytes = add64 config.memory_limit_bytes (16 * 1024 * 1024);
        },
        record {
          export_directory = config.export_directory;
          max_export_files = config.max_export_files;
        },
      )
    ]

abbrev pub export_file_prefix : Bytes
export_file_prefix = codes "mp-cache-export-"

-- `mp_cache_storage_export_count` of the names in the directory.
unfoldable pub export_count : List Bytes → ℕ
export_count [] = 0
export_count (name ∷ names) =
    (if starts_with export_file_prefix name then 1 else 0) + export_count names

-- What the host gives one export: the names in the directory, `none` where it cannot be read, the
-- process ID in decimal, the checkpoint, and the memory, the nonce and the write of the artifact.
pub record Exporting : Type 0 where
  pub names : Option (List Bytes)
  pub process_id : Bytes
  pub saving : Saving
  pub grants : ℕ → Bool
  pub nonce : Option Bytes
  pub written : Bool

-- `mp_cache_export_result_t`, with the bytes of the artifact.
pub record ExportResult : Type 0 where
  pub export_path : Bytes
  pub digest_hex : Bytes
  pub entry_count : ℕ
  pub client_count : ℕ
  pub artifact : Bytes

abbrev export_path_of : Exporting → Exports → ℤ → Bytes
export_path_of host exports now =
    exports.export_directory
    ++ (codes "/mp-cache-export-"
        ++ (decimal_ℤ now ++ (codes "-" ++ (host.process_id ++ codes ".bin"))))

-- The artifact of a payload.
unfoldable pub write_export :
    Exporting → StorageKey → Exports → State → ℤ → Bytes → Option ExportResult
write_export host storage exports state now payload =
    elim (format_path (export_path_of host exports now)) [
      | none ↦ none
      | some export_path ↦
          elim (build_packet host.grants host.nonce true storage export_magic payload
            empty_buffer) [
              | none ↦ none
              | some (packet, mac) ↦
                  if not host.written then none else elim (hex_encode mac token_text_cap) [
                    | none ↦ none
                    | some digest_hex ↦ some (record {
                      export_path = export_path;
                      digest_hex = digest_hex;
                      entry_count = (for_each state.store (count_active now) 0).1;
                      client_count = length state.security.records;
                      artifact = packet.bytes;
                    })
                  ]
            ]
    ]

-- `mp_cache_storage_export_state`: the result, and the files.
unfoldable pub export_state :
    Exporting → StorageKey → Exports → State → ℤ → Files → Option ExportResult × Files
export_state host storage exports state now files = elim host.names [
  | none ↦ (none, files)
  | some names ↦
      let saved = save_checkpoint host.saving storage state now files in
      if leb exports.max_export_files (export_count names)
      then (none, files)
      else if not saved.0
      then (none, saved.1)
      else elim (serialize_state host.grants state now empty_buffer) [
        | none ↦ (none, saved.1)
        | some payload ↦ (write_export host storage exports state now payload.bytes, saved.1)
      ]
]

abbrev found : Option Bytes → Bool
found none = false
found (some text) = true

abbrev at_root : Bytes → Bool
at_root path = get_or path 0 0 == b'/'

-- `mp_cache_storage_resolve_import_path` up to the `stat` of the result.
unfoldable pub resolve_import_path : Exports → Bytes → Option Bytes
resolve_import_path exports requested =
    if found (find_text (codes "../") requested) || found (find_text (codes "/..") requested)
    then none
    else if starts_with exports.export_directory requested
    then format_path requested
    else if at_root requested
    then none
    else format_path (exports.export_directory ++ (codes "/" ++ requested))

-- What the host gives one import: the regular files by their paths, the memory of the packet and of
-- the buckets, that of both passes over the payload, and the checkpoint.
pub record Importing : Type 0 where
  pub disk : Bytes → Option Bytes
  pub grants : ℕ → Bool
  pub payload_allocated : Bool
  pub buckets_allocated : Bool
  pub trial_entries : ℕ → Memory
  pub trial_clients : ℕ → Memory
  pub entries : ℕ → Memory
  pub clients : ℕ → Memory
  pub saving : Saving

-- The state that the payload is tried on.
abbrev pub trial_state : Importing → State → Bool × State
trial_state host state =
    let limits : Limits = record {
      bucket_count = state.store.bucket_count;
      memory_limit_bytes = state.store.memory_limit_bytes;
      max_key_bytes = state.store.max_key_bytes;
      max_value_bytes = state.store.max_value_bytes;
    } in
    let fresh = init host.buckets_allocated limits state.store in
    (
      fresh.0,
      record { store = fresh.1; security = record state.security { records = []; capacity = 0 } },
    )

abbrev pub emptied : State → State
emptied state = record { store = clear state.store; security = clear_clients state.security }

-- The part behind the trial.
unfoldable pub replace_state :
    Importing → StorageKey → Bytes → State → ℤ → Files → Bool × State × Files
replace_state host storage payload state now files =
    let loaded = deserialize_state host.entries host.clients payload (emptied state) now in
    let saved = save_checkpoint host.saving storage loaded.1 now files in
    if not loaded.0 then (false, loaded.1, files) else (saved.0, loaded.1, saved.1)

unfoldable pub import_payload :
    Importing → StorageKey → Bytes → State → ℤ → Files → Bool × State × Files
import_payload host storage payload state now files =
    let trial = trial_state host state in
    if not trial.0
      || not (deserialize_state host.trial_entries host.trial_clients payload trial.1 now).0
    then (false, state, files)
    else replace_state host storage payload state now files

abbrev pub read_disk : (Bytes → Option Bytes) → Option Bytes → Option Bytes
read_disk disk none = none
read_disk disk (some path) = disk path

-- `mp_cache_storage_import_state`: whether it returns 0, the state and the files.
unfoldable pub import_state :
    Importing → StorageKey → Exports → Bytes → State → ℤ → Files → Bool × State × Files
import_state host storage exports import_path state now files =
    elim (read_disk host.disk (resolve_import_path exports import_path)) [
      | none ↦ (false, state, files)
      | some file ↦
          elim (read_packet_file host.grants host.payload_allocated storage export_magic
            (some file)) [
              | opened payload mac rest ↦ import_payload host storage payload state now files
              | _ ↦ (false, state, files)
            ]
    ]
