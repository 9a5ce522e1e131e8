-- ===== src/Config/Template.antt =====
-- `mp_cache_config_write_template` (internal/config/config.c).
use Prim.Native.String.{String}
use mp_cache.Prelude.{ℕ, Bytes, codes, List, [], ◌∷◌, ◌++◌, ◌==◌, if◌then◌else◌}
use mp_cache.Text.Number.{decimal}
use mp_cache.Config.Fields.{Config}

-- One line `  key: value`.
abbrev pub setting : String → Bytes → Bytes
setting key value = codes "  " ++ (codes key ++ (codes ": " ++ value))

-- A value between quotes.
abbrev pub in_quotes : Bytes → Bytes
in_quotes value = b'"' ∷ (value ++ b'"' ∷ [])

abbrev pub flag_text : ℕ → Bytes
flag_text flag = if flag == 0 then codes "false" else codes "true"

unfoldable pub head_lines : List Bytes → List Bytes
head_lines more =
    codes "# mp-cache bootstrap configuration"
    ∷ codes "# Generated automatically from compiled defaults."
    ∷ codes "# All TTL values are in seconds and all timestamps are UTC."
    ∷ []
    ∷ more

unfoldable pub service_lines : Config → List Bytes → List Bytes
service_lines config more =
    codes "service:"
    ∷ codes "# Valid values: local, development, qa, staging, production"
    ∷ setting "environment_name" config.environment_name
    ∷ setting "service_name" config.service_name
    ∷ codes "# Build artifacts use MAJOR.MINOR.HOTFIX and local builds increment MINOR by default."
    ∷ setting "build_version" (in_quotes config.build_version)
    ∷ []
    ∷ more

unfoldable pub server_lines : Config → List Bytes → List Bytes
server_lines config more =
    codes "server:"
    ∷ codes "# Use an absolute socket path in long-lived deployments."
    ∷ setting "socket_path" config.socket_path
    ∷ setting "pid_file_path" config.pid_file_path
    ∷ setting "shutdown_timeout_millis" (decimal config.shutdown_timeout_millis)
    ∷ []
    ∷ more

unfoldable pub cache_lines : Config → List Bytes → List Bytes
cache_lines config more =
    codes "cache:"
    ∷ codes "# Maximum total in-memory cache footprint in bytes."
    ∷ setting "memory_limit_bytes" (decimal config.memory_limit_bytes)
    ∷ codes "# Default TTL used when a write does not provide an explicit TTL."
    ∷ setting "default_ttl_seconds" (decimal config.default_ttl_seconds)
    ∷ setting "min_ttl_seconds" (decimal config.min_ttl_seconds)
    ∷ setting "max_ttl_seconds" (decimal config.max_ttl_seconds)
    ∷ setting "max_key_bytes" (decimal config.max_key_bytes)
    ∷ setting "max_value_bytes" (decimal config.max_value_bytes)
    ∷ setting "bucket_count" (decimal config.bucket_count)
    ∷ setting "sweep_interval_seconds" (decimal config.sweep_interval_seconds)
    ∷ []
    ∷ more

unfoldable pub storage_lines : Config → List Bytes → List Bytes
storage_lines config more =
    codes "storage:"
    ∷ setting "data_directory" config.data_directory
    ∷ setting "export_directory" config.export_directory
    ∷ setting "checkpoint_path" config.checkpoint_path
    ∷ setting "journal_path" config.journal_path
    ∷ setting "max_export_files" (decimal config.max_export_files)
    ∷ []
    ∷ more

unfoldable pub observability_lines : Config → List Bytes → List Bytes
observability_lines config more =
    codes "observability:"
    ∷ setting "log_directory" config.log_directory
    ∷ setting "max_log_lines" (decimal config.max_log_lines)
    ∷ []
    ∷ more

unfoldable pub mp_logger_lines : Config → List Bytes → List Bytes
mp_logger_lines config more =
    codes "mp_logger:"
    ∷ setting "bootstrap_path" config.logger_bootstrap_path
    ∷ setting "buffer_capacity" (decimal config.logger_buffer_capacity)
    ∷ setting "message_capacity" (decimal config.logger_message_capacity)
    ∷ setting "context_capacity" (decimal config.logger_context_capacity)
    ∷ setting "field_capacity" (decimal config.logger_field_capacity)
    ∷ setting "field_key_capacity" (decimal config.logger_field_key_capacity)
    ∷ setting "field_value_capacity" (decimal config.logger_field_value_capacity)
    ∷ setting "format" config.logger_format
    ∷ setting "pretty_output" (flag_text config.logger_pretty_output)
    ∷ setting "file_name_prefix" config.logger_file_name_prefix
    ∷ setting "backup_file_name_prefix" config.logger_backup_file_name_prefix
    ∷ setting "active_streams" config.logger_active_streams
    ∷ setting "stdout_min_level" config.logger_stdout_min_level
    ∷ setting "stdout_max_level" config.logger_stdout_max_level
    ∷ setting "stderr_min_level" config.logger_stderr_min_level
    ∷ setting "stderr_max_level" config.logger_stderr_max_level
    ∷ setting "file_min_level" config.logger_file_min_level
    ∷ setting "file_max_level" config.logger_file_max_level
    ∷ setting "udp_min_level" config.logger_udp_min_level
    ∷ setting "udp_max_level" config.logger_udp_max_level
    ∷ setting "udp_host" config.logger_udp_host
    ∷ setting "udp_port" (decimal config.logger_udp_port)
    ∷ []
    ∷ more

unfoldable pub security_lines : Config → List Bytes → List Bytes
security_lines config more =
    codes "security:"
    ∷ codes "# Local development may use env refs. Non-local deployments should prefer file refs."
    ∷ setting "bootstrap_admin_token_secret_ref" config.bootstrap_admin_token_secret_ref
    ∷ setting "storage_key_secret_ref" config.storage_key_secret_ref
    ∷ setting "rate_limit_requests" (decimal config.rate_limit_requests)
    ∷ setting "rate_limit_window_seconds" (decimal config.rate_limit_window_seconds)
    ∷ more

-- The lines of the template, in front of no other.
unfoldable pub template_lines : Config → List Bytes
template_lines config = head_lines (
    service_lines config (
      server_lines config (
        cache_lines config (
          storage_lines config
            (observability_lines config (mp_logger_lines config (security_lines config [])))))))

unfoldable pub join_lines : List Bytes → Bytes
join_lines [] = []
join_lines (line ∷ lines) = line ++ b'\n' ∷ join_lines lines

-- The bytes of the file, where the file system takes them.
unfoldable pub write_template : Config → Bytes
write_template config = join_lines (template_lines config)
