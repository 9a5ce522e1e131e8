-- ===== src/Config/Validate.antt =====
-- `mp_cache_validate` (internal/config/config.c).
use mp_cache.Prelude.{Bool, not, ◌||◌, ◌^◌, leb, ltb, ◌==◌, if◌then◌else◌}
use mp_cache.Config.Fields.{Config, Status, ok, validation_error}
use mp_cache.Config.Values.{is_blank, is_build_version_valid}

-- A text that has to be there is empty.
unfoldable pub lacks_text : Config → Bool
lacks_text config =
    is_blank config.service_name
    || is_blank config.environment_name
    || is_blank config.build_version
    || is_blank config.socket_path
    || is_blank config.pid_file_path
    || is_blank config.log_directory
    || is_blank config.data_directory
    || is_blank config.export_directory
    || is_blank config.checkpoint_path
    || is_blank config.journal_path
    || is_blank config.logger_bootstrap_path
    || is_blank config.bootstrap_admin_token_secret_ref
    || is_blank config.storage_key_secret_ref

-- A number that has to be positive is 0, or the port has more than 16 bits.
unfoldable pub has_bad_number : Config → Bool
has_bad_number config =
    config.memory_limit_bytes == 0
    || config.default_ttl_seconds == 0
    || config.min_ttl_seconds == 0
    || config.max_ttl_seconds == 0
    || config.max_key_bytes == 0
    || config.max_value_bytes == 0
    || config.bucket_count == 0
    || config.max_export_files == 0
    || config.shutdown_timeout_millis == 0
    || config.sweep_interval_seconds == 0
    || config.max_log_lines == 0
    || config.logger_buffer_capacity == 0
    || config.logger_message_capacity == 0
    || config.logger_context_capacity == 0
    || config.logger_field_capacity == 0
    || config.logger_field_key_capacity == 0
    || config.logger_field_value_capacity == 0
    || leb (2 ^ 16) config.logger_udp_port
    || config.rate_limit_requests == 0
    || config.rate_limit_window_seconds == 0

unfoldable pub validate : Config → Status
validate config =
    if lacks_text config
    then validation_error
    else if not (is_build_version_valid config.build_version)
    then validation_error
    else if has_bad_number config
    then validation_error
    else if ltb config.default_ttl_seconds config.min_ttl_seconds
        || ltb config.max_ttl_seconds config.default_ttl_seconds
    then validation_error
    else if ltb config.max_ttl_seconds config.min_ttl_seconds
    then validation_error
    else ok
