-- ===== src/Config/Apply.antt =====
-- `mp_cache_apply_value`, section by section (internal/config/config.c).
use Prim.Native.String.{String}
use mp_cache.Prelude.{ℕ, Bool, Bytes, codes, Option, none, some, str_equal, if◌then◌else◌}
use mp_cache.Text.Scan.{truncated}
use mp_cache.Config.Fields.{Config, name_cap, text_cap, path_cap, secret_ref_cap}
use mp_cache.Config.Values.{parse_u32, parse_u64, parse_bool_u32, is_build_version_valid}

abbrev pub is_text : Bytes → String → Bool
is_text text expected = str_equal text (codes expected)

-- `return parse(value, &config->field)`.
abbrev pub assign : Option ℕ → (ℕ → Config) → Option Config
assign none update = none
assign (some n) update = some (update n)

-- The keys of the section `service`; `none` is false.
unfoldable pub apply_service : Config → Bytes → Bytes → Option Config
apply_service config key value =
    if is_text key "environment_name"
    then some (record config { environment_name = truncated text_cap value })
    else if is_text key "service_name"
    then some (record config { service_name = truncated name_cap value })
    else if is_text key "build_version"
    then (if is_build_version_valid value
        then some (record config { build_version = truncated text_cap value })
        else none)
    else none

-- The keys of the section `server`; `none` is false.
unfoldable pub apply_server : Config → Bytes → Bytes → Option Config
apply_server config key value =
    if is_text key "socket_path"
    then some (record config { socket_path = truncated path_cap value })
    else if is_text key "pid_file_path"
    then some (record config { pid_file_path = truncated path_cap value })
    else if is_text key "shutdown_timeout_millis"
    then assign (parse_u32 value) (λ n. record config { shutdown_timeout_millis = n })
    else none

-- The keys of the section `cache`; `none` is false.
unfoldable pub apply_cache : Config → Bytes → Bytes → Option Config
apply_cache config key value =
    if is_text key "memory_limit_bytes"
    then assign (parse_u64 value) (λ n. record config { memory_limit_bytes = n })
    else if is_text key "default_ttl_seconds"
    then assign (parse_u32 value) (λ n. record config { default_ttl_seconds = n })
    else if is_text key "min_ttl_seconds"
    then assign (parse_u32 value) (λ n. record config { min_ttl_seconds = n })
    else if is_text key "max_ttl_seconds"
    then assign (parse_u32 value) (λ n. record config { max_ttl_seconds = n })
    else if is_text key "max_key_bytes"
    then assign (parse_u32 value) (λ n. record config { max_key_bytes = n })
    else if is_text key "max_value_bytes"
    then assign (parse_u32 value) (λ n. record config { max_value_bytes = n })
    else if is_text key "bucket_count"
    then assign (parse_u32 value) (λ n. record config { bucket_count = n })
    else if is_text key "sweep_interval_seconds"
    then assign (parse_u32 value) (λ n. record config { sweep_interval_seconds = n })
    else none

-- The keys of the section `storage`; `none` is false.
unfoldable pub apply_storage : Config → Bytes → Bytes → Option Config
apply_storage config key value =
    if is_text key "data_directory"
    then some (record config { data_directory = truncated path_cap value })
    else if is_text key "export_directory"
    then some (record config { export_directory = truncated path_cap value })
    else if is_text key "checkpoint_path"
    then some (record config { checkpoint_path = truncated path_cap value })
    else if is_text key "journal_path"
    then some (record config { journal_path = truncated path_cap value })
    else if is_text key "max_export_files"
    then assign (parse_u32 value) (λ n. record config { max_export_files = n })
    else none

-- The keys of the section `observability`; `none` is false.
unfoldable pub apply_observability : Config → Bytes → Bytes → Option Config
apply_observability config key value =
    if is_text key "log_directory"
    then some (record config { log_directory = truncated path_cap value })
    else if is_text key "max_log_lines"
    then assign (parse_u32 value) (λ n. record config { max_log_lines = n })
    else none

-- The keys of the section `mp_logger`; `none` is false.
unfoldable pub apply_mp_logger : Config → Bytes → Bytes → Option Config
apply_mp_logger config key value =
    if is_text key "bootstrap_path"
    then some (record config { logger_bootstrap_path = truncated path_cap value })
    else if is_text key "buffer_capacity"
    then assign (parse_u32 value) (λ n. record config { logger_buffer_capacity = n })
    else if is_text key "message_capacity"
    then assign (parse_u32 value) (λ n. record config { logger_message_capacity = n })
    else if is_text key "context_capacity"
    then assign (parse_u32 value) (λ n. record config { logger_context_capacity = n })
    else if is_text key "field_capacity"
    then assign (parse_u32 value) (λ n. record config { logger_field_capacity = n })
    else if is_text key "field_key_capacity"
    then assign (parse_u32 value) (λ n. record config { logger_field_key_capacity = n })
    else if is_text key "field_value_capacity"
    then assign (parse_u32 value) (λ n. record config { logger_field_value_capacity = n })
    else if is_text key "format"
    then some (record config { logger_format = truncated text_cap value })
    else if is_text key "pretty_output"
    then assign (parse_bool_u32 value) (λ n. record config { logger_pretty_output = n })
    else if is_text key "log_directory"
    then some (record config { log_directory = truncated path_cap value })
    else if is_text key "file_name_prefix"
    then some (record config { logger_file_name_prefix = truncated name_cap value })
    else if is_text key "backup_file_name_prefix"
    then some (record config { logger_backup_file_name_prefix = truncated name_cap value })
    else if is_text key "active_streams"
    then some (record config { logger_active_streams = truncated text_cap value })
    else if is_text key "stdout_min_level"
    then some (record config { logger_stdout_min_level = truncated text_cap value })
    else if is_text key "stdout_max_level"
    then some (record config { logger_stdout_max_level = truncated text_cap value })
    else if is_text key "stderr_min_level"
    then some (record config { logger_stderr_min_level = truncated text_cap value })
    else if is_text key "stderr_max_level"
    then some (record config { logger_stderr_max_level = truncated text_cap value })
    else if is_text key "file_min_level"
    then some (record config { logger_file_min_level = truncated text_cap value })
    else if is_text key "file_max_level"
    then some (record config { logger_file_max_level = truncated text_cap value })
    else if is_text key "udp_min_level"
    then some (record config { logger_udp_min_level = truncated text_cap value })
    else if is_text key "udp_max_level"
    then some (record config { logger_udp_max_level = truncated text_cap value })
    else if is_text key "udp_host"
    then some (record config { logger_udp_host = truncated text_cap value })
    else if is_text key "udp_port"
    then assign (parse_u32 value) (λ n. record config { logger_udp_port = n })
    else none

-- The keys of the section `security`; `none` is false.
unfoldable pub apply_security : Config → Bytes → Bytes → Option Config
apply_security config key value =
    if is_text key "bootstrap_admin_token_secret_ref"
    then some (record config { bootstrap_admin_token_secret_ref = truncated secret_ref_cap value })
    else if is_text key "storage_key_secret_ref"
    then some (record config { storage_key_secret_ref = truncated secret_ref_cap value })
    else if is_text key "rate_limit_requests"
    then assign (parse_u32 value) (λ n. record config { rate_limit_requests = n })
    else if is_text key "rate_limit_window_seconds"
    then assign (parse_u32 value) (λ n. record config { rate_limit_window_seconds = n })
    else none

unfoldable pub apply_value : Config → Bytes → Bytes → Bytes → Option Config
apply_value config section key value =
    if is_text section "service"
    then apply_service config key value
    else if is_text section "server"
    then apply_server config key value
    else if is_text section "cache"
    then apply_cache config key value
    else if is_text section "storage"
    then apply_storage config key value
    else if is_text section "observability"
    then apply_observability config key value
    else if is_text section "mp_logger"
    then apply_mp_logger config key value
    else if is_text section "security"
    then apply_security config key value
    else none
