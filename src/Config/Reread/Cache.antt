-- ===== src/Config/Reread/Cache.antt =====
-- The cache, the storage and the observability of a template are read (internal/config/config.c).
use mp_cache.Prelude.{◌≡◌, ◌∙◌, refl, Bytes, codes, List, [], All, arith}
use mp_cache.Text.Number.{decimal}
use mp_cache.Config.Fields.{Config}
use mp_cache.Config.Values.{parse_u64}
use mp_cache.Config.Apply.{apply_cache, apply_storage, apply_observability}
use mp_cache.Config.Template.{cache_lines, storage_lines, observability_lines}
use mp_cache.Config.Load.{load_lines}
use mp_cache.Config.Settings.{load_lines-line}
use mp_cache.Config.Shown.{decimal-Shows, parse_u64-decimal}
use mp_cache.Config.Lines.{closed, all_closed, IsLine, written-IsLine, ◌⊲◌}
use mp_cache.Config.Steps.{
  reading, at, text_step, number_step, parsed_step, text-IsLine, number-IsLine,
}
use mp_cache.Config.Printable.{IsPrintable}

-- The settings of the section `cache`.
abbrev pub cache_of : Config → Config → Config
cache_of config base = record base {
  memory_limit_bytes = config.memory_limit_bytes;
  default_ttl_seconds = config.default_ttl_seconds;
  min_ttl_seconds = config.min_ttl_seconds;
  max_ttl_seconds = config.max_ttl_seconds;
  max_key_bytes = config.max_key_bytes;
  max_value_bytes = config.max_value_bytes;
  bucket_count = config.bucket_count;
  sweep_interval_seconds = config.sweep_interval_seconds;
}

pub read-cache_lines :
    (config base : Config) (section : Bytes) (more : List Bytes)
    → IsPrintable config
    → load_lines (at section base) (all_closed (cache_lines config more))
      ≡ load_lines (at (codes "cache") (cache_of config base)) (all_closed more)
unfolding cache_lines apply_cache reading
read-cache_lines config base section more p =
    load_lines-line (at section base) (at (codes "cache") base) (closed (codes "cache:")) _ refl
    ∙ load_lines-line _ _ (closed (codes "# Maximum total in-memory cache footprint in bytes.")) _
        refl
    ∙ parsed_step "memory_limit_bytes" "cache" _ _ refl (decimal config.memory_limit_bytes)
        config.memory_limit_bytes (parse_u64 (decimal config.memory_limit_bytes))
        (λ c n. record c { memory_limit_bytes = n }) (decimal-Shows config.memory_limit_bytes)
        (parse_u64-decimal config.memory_limit_bytes p.memory_limit_bytes) refl
    ∙ load_lines-line _ _
        (closed (codes "# Default TTL used when a write does not provide an explicit TTL.")) _ refl
    ∙ number_step "default_ttl_seconds" "cache" _ _ refl config.default_ttl_seconds
        (λ c n. record c { default_ttl_seconds = n }) p.default_ttl_seconds refl
    ∙ number_step "min_ttl_seconds" "cache" _ _ refl config.min_ttl_seconds
        (λ c n. record c { min_ttl_seconds = n }) p.min_ttl_seconds refl
    ∙ number_step "max_ttl_seconds" "cache" _ _ refl config.max_ttl_seconds
        (λ c n. record c { max_ttl_seconds = n }) p.max_ttl_seconds refl
    ∙ number_step "max_key_bytes" "cache" _ _ refl config.max_key_bytes
        (λ c n. record c { max_key_bytes = n }) p.max_key_bytes refl
    ∙ number_step "max_value_bytes" "cache" _ _ refl config.max_value_bytes
        (λ c n. record c { max_value_bytes = n }) p.max_value_bytes refl
    ∙ number_step "bucket_count" "cache" _ _ refl config.bucket_count
        (λ c n. record c { bucket_count = n }) p.bucket_count refl
    ∙ number_step "sweep_interval_seconds" "cache" _ _ refl config.sweep_interval_seconds
        (λ c n. record c { sweep_interval_seconds = n }) p.sweep_interval_seconds refl
    ∙ load_lines-line _ _ (closed []) _ refl

pub cache_lines-IsLine :
    (config : Config) (more : List Bytes)
    → IsPrintable config
    → All IsLine more
    → All IsLine (cache_lines config more)
unfolding cache_lines
cache_lines-IsLine config more p rest =
    written-IsLine (codes "cache:") refl
    ⊲ written-IsLine (codes "# Maximum total in-memory cache footprint in bytes.") refl
    ⊲ number-IsLine "memory_limit_bytes" config.memory_limit_bytes refl p.memory_limit_bytes
    ⊲ written-IsLine (codes "# Default TTL used when a write does not provide an explicit TTL.")
        refl
    ⊲ number-IsLine "default_ttl_seconds" config.default_ttl_seconds refl
        (omega (arith, p.default_ttl_seconds))
    ⊲ number-IsLine "min_ttl_seconds" config.min_ttl_seconds refl (omega (arith, p.min_ttl_seconds))
    ⊲ number-IsLine "max_ttl_seconds" config.max_ttl_seconds refl (omega (arith, p.max_ttl_seconds))
    ⊲ number-IsLine "max_key_bytes" config.max_key_bytes refl (omega (arith, p.max_key_bytes))
    ⊲ number-IsLine "max_value_bytes" config.max_value_bytes refl (omega (arith, p.max_value_bytes))
    ⊲ number-IsLine "bucket_count" config.bucket_count refl (omega (arith, p.bucket_count))
    ⊲ number-IsLine "sweep_interval_seconds" config.sweep_interval_seconds refl
        (omega (arith, p.sweep_interval_seconds))
    ⊲ written-IsLine [] refl
    ⊲ rest

-- The settings of the section `storage`.
abbrev pub storage_of : Config → Config → Config
storage_of config base = record base {
  data_directory = config.data_directory;
  export_directory = config.export_directory;
  checkpoint_path = config.checkpoint_path;
  journal_path = config.journal_path;
  max_export_files = config.max_export_files;
}

pub read-storage_lines :
    (config base : Config) (section : Bytes) (more : List Bytes)
    → IsPrintable config
    → load_lines (at section base) (all_closed (storage_lines config more))
      ≡ load_lines (at (codes "storage") (storage_of config base)) (all_closed more)
unfolding storage_lines apply_storage reading
read-storage_lines config base section more p =
    load_lines-line (at section base) (at (codes "storage") base) (closed (codes "storage:")) _ refl
    ∙ text_step "data_directory" "storage" _ _ refl config.data_directory
        (λ c v. record c { data_directory = v }) p.data_directory refl
    ∙ text_step "export_directory" "storage" _ _ refl config.export_directory
        (λ c v. record c { export_directory = v }) p.export_directory refl
    ∙ text_step "checkpoint_path" "storage" _ _ refl config.checkpoint_path
        (λ c v. record c { checkpoint_path = v }) p.checkpoint_path refl
    ∙ text_step "journal_path" "storage" _ _ refl config.journal_path
        (λ c v. record c { journal_path = v }) p.journal_path refl
    ∙ number_step "max_export_files" "storage" _ _ refl config.max_export_files
        (λ c n. record c { max_export_files = n }) p.max_export_files refl
    ∙ load_lines-line _ _ (closed []) _ refl

pub storage_lines-IsLine :
    (config : Config) (more : List Bytes)
    → IsPrintable config
    → All IsLine more
    → All IsLine (storage_lines config more)
unfolding storage_lines
storage_lines-IsLine config more p rest =
    written-IsLine (codes "storage:") refl
    ⊲ text-IsLine "data_directory" config.data_directory refl p.data_directory
    ⊲ text-IsLine "export_directory" config.export_directory refl p.export_directory
    ⊲ text-IsLine "checkpoint_path" config.checkpoint_path refl p.checkpoint_path
    ⊲ text-IsLine "journal_path" config.journal_path refl p.journal_path
    ⊲ number-IsLine "max_export_files" config.max_export_files refl
        (omega (arith, p.max_export_files))
    ⊲ written-IsLine [] refl
    ⊲ rest

-- The settings of the section `observability`.
abbrev pub observability_of : Config → Config → Config
observability_of config base = record base {
  log_directory = config.log_directory;
  max_log_lines = config.max_log_lines;
}

pub read-observability_lines :
    (config base : Config) (section : Bytes) (more : List Bytes)
    → IsPrintable config
    → load_lines (at section base) (all_closed (observability_lines config more))
      ≡ load_lines (at (codes "observability") (observability_of config base)) (all_closed more)
unfolding observability_lines apply_observability reading
read-observability_lines config base section more p =
    load_lines-line (at section base) (at (codes "observability") base)
      (closed (codes "observability:")) _ refl
    ∙ text_step "log_directory" "observability" _ _ refl config.log_directory
        (λ c v. record c { log_directory = v }) p.log_directory refl
    ∙ number_step "max_log_lines" "observability" _ _ refl config.max_log_lines
        (λ c n. record c { max_log_lines = n }) p.max_log_lines refl
    ∙ load_lines-line _ _ (closed []) _ refl

pub observability_lines-IsLine :
    (config : Config) (more : List Bytes)
    → IsPrintable config
    → All IsLine more
    → All IsLine (observability_lines config more)
unfolding observability_lines
observability_lines-IsLine config more p rest =
    written-IsLine (codes "observability:") refl
    ⊲ text-IsLine "log_directory" config.log_directory refl p.log_directory
    ⊲ number-IsLine "max_log_lines" config.max_log_lines refl (omega (arith, p.max_log_lines))
    ⊲ written-IsLine [] refl
    ⊲ rest
