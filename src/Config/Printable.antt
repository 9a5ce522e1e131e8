-- ===== src/Config/Printable.antt =====
-- The configurations that a template shows as they are (internal/config/config.c).
use mp_cache.Prelude.{◌<◌, ◌≡◌, true, word64}
use mp_cache.Text.Number.{word32}
use mp_cache.Config.Fields.{Config, name_cap, text_cap, path_cap, secret_ref_cap}
use mp_cache.Config.Values.{is_build_version_valid}
use mp_cache.Config.Steps.{IsShown, IsFlag}

-- Each text is shown as it is, the version is one, and the numbers fit the fields of the C record.
pub record IsPrintable (config : Config) : Type 0 where
  pub version : is_build_version_valid config.build_version ≡ true
  pub environment_name : IsShown text_cap config.environment_name
  pub service_name : IsShown name_cap config.service_name
  pub build_version : IsShown text_cap config.build_version
  pub socket_path : IsShown path_cap config.socket_path
  pub pid_file_path : IsShown path_cap config.pid_file_path
  pub shutdown_timeout_millis : config.shutdown_timeout_millis < word32
  pub memory_limit_bytes : config.memory_limit_bytes < word64
  pub default_ttl_seconds : config.default_ttl_seconds < word32
  pub min_ttl_seconds : config.min_ttl_seconds < word32
  pub max_ttl_seconds : config.max_ttl_seconds < word32
  pub max_key_bytes : config.max_key_bytes < word32
  pub max_value_bytes : config.max_value_bytes < word32
  pub bucket_count : config.bucket_count < word32
  pub sweep_interval_seconds : config.sweep_interval_seconds < word32
  pub data_directory : IsShown path_cap config.data_directory
  pub export_directory : IsShown path_cap config.export_directory
  pub checkpoint_path : IsShown path_cap config.checkpoint_path
  pub journal_path : IsShown path_cap config.journal_path
  pub max_export_files : config.max_export_files < word32
  pub log_directory : IsShown path_cap config.log_directory
  pub max_log_lines : config.max_log_lines < word32
  pub logger_bootstrap_path : IsShown path_cap config.logger_bootstrap_path
  pub logger_buffer_capacity : config.logger_buffer_capacity < word32
  pub logger_message_capacity : config.logger_message_capacity < word32
  pub logger_context_capacity : config.logger_context_capacity < word32
  pub logger_field_capacity : config.logger_field_capacity < word32
  pub logger_field_key_capacity : config.logger_field_key_capacity < word32
  pub logger_field_value_capacity : config.logger_field_value_capacity < word32
  pub logger_format : IsShown text_cap config.logger_format
  pub logger_pretty_output : IsFlag config.logger_pretty_output
  pub logger_file_name_prefix : IsShown name_cap config.logger_file_name_prefix
  pub logger_backup_file_name_prefix : IsShown name_cap config.logger_backup_file_name_prefix
  pub logger_active_streams : IsShown text_cap config.logger_active_streams
  pub logger_stdout_min_level : IsShown text_cap config.logger_stdout_min_level
  pub logger_stdout_max_level : IsShown text_cap config.logger_stdout_max_level
  pub logger_stderr_min_level : IsShown text_cap config.logger_stderr_min_level
  pub logger_stderr_max_level : IsShown text_cap config.logger_stderr_max_level
  pub logger_file_min_level : IsShown text_cap config.logger_file_min_level
  pub logger_file_max_level : IsShown text_cap config.logger_file_max_level
  pub logger_udp_min_level : IsShown text_cap config.logger_udp_min_level
  pub logger_udp_max_level : IsShown text_cap config.logger_udp_max_level
  pub logger_udp_host : IsShown text_cap config.logger_udp_host
  pub logger_udp_port : config.logger_udp_port < word32
  pub bootstrap_admin_token_secret_ref :
      IsShown secret_ref_cap config.bootstrap_admin_token_secret_ref
  pub storage_key_secret_ref : IsShown secret_ref_cap config.storage_key_secret_ref
  pub rate_limit_requests : config.rate_limit_requests < word32
  pub rate_limit_window_seconds : config.rate_limit_window_seconds < word32
