-- ===== src/Config/Fields.antt =====
-- `mp_cache_config_t` and the compiled defaults (internal/config/config.h, config.c and
-- constants.h).
use mp_cache.Prelude.{ℕ, ◌*◌, Bytes, codes}

abbrev pub name_cap : ℕ
name_cap = 64

abbrev pub text_cap : ℕ
text_cap = 128

abbrev pub path_cap : ℕ
path_cap = 4096

abbrev pub secret_ref_cap : ℕ
secret_ref_cap = 256

-- The arrays hold texts without the closing NUL.
pub record Config : Type 0 where
  pub service_name : Bytes
  pub environment_name : Bytes
  pub build_version : Bytes
  pub socket_path : Bytes
  pub pid_file_path : Bytes
  pub data_directory : Bytes
  pub export_directory : Bytes
  pub checkpoint_path : Bytes
  pub journal_path : Bytes
  pub log_directory : Bytes
  pub logger_bootstrap_path : Bytes
  pub logger_format : Bytes
  pub logger_file_name_prefix : Bytes
  pub logger_backup_file_name_prefix : Bytes
  pub logger_active_streams : Bytes
  pub logger_stdout_min_level : Bytes
  pub logger_stdout_max_level : Bytes
  pub logger_stderr_min_level : Bytes
  pub logger_stderr_max_level : Bytes
  pub logger_file_min_level : Bytes
  pub logger_file_max_level : Bytes
  pub logger_udp_min_level : Bytes
  pub logger_udp_max_level : Bytes
  pub logger_udp_host : Bytes
  pub bootstrap_admin_token_secret_ref : Bytes
  pub storage_key_secret_ref : Bytes
  pub memory_limit_bytes : ℕ
  pub default_ttl_seconds : ℕ
  pub min_ttl_seconds : ℕ
  pub max_ttl_seconds : ℕ
  pub max_key_bytes : ℕ
  pub max_value_bytes : ℕ
  pub bucket_count : ℕ
  pub max_export_files : ℕ
  pub shutdown_timeout_millis : ℕ
  pub sweep_interval_seconds : ℕ
  pub max_log_lines : ℕ
  pub logger_buffer_capacity : ℕ
  pub logger_message_capacity : ℕ
  pub logger_context_capacity : ℕ
  pub logger_field_capacity : ℕ
  pub logger_field_key_capacity : ℕ
  pub logger_field_value_capacity : ℕ
  pub logger_pretty_output : ℕ
  pub logger_udp_port : ℕ
  pub rate_limit_requests : ℕ
  pub rate_limit_window_seconds : ℕ

pub data Status : Type 0 where
  ok not_found io_error parse_error validation_error invalid_argument : Status

-- `mp_cache_config_init_defaults`; every default text fits its array.
unfoldable pub init_defaults : Config
init_defaults = record {
  service_name = codes "mp-cache";
  environment_name = codes "local";
  build_version = codes "0.0.0";
  socket_path = codes ".tmp/run/mp-cache.sock";
  pid_file_path = codes ".tmp/run/mp-cache.pid";
  data_directory = codes ".tmp/data";
  export_directory = codes ".tmp/exports";
  checkpoint_path = codes ".tmp/data/state.checkpoint";
  journal_path = codes ".tmp/data/state.journal";
  log_directory = codes "logging";
  logger_bootstrap_path = codes "native/mp_logger/configs/logger.bootstrap.yaml";
  logger_format = codes "json";
  logger_file_name_prefix = codes "mp-cache";
  logger_backup_file_name_prefix = codes "mp-cache-internal";
  logger_active_streams = codes "stdout,stderr,file";
  logger_stdout_min_level = codes "trace";
  logger_stdout_max_level = codes "info";
  logger_stderr_min_level = codes "warning";
  logger_stderr_max_level = codes "fatal";
  logger_file_min_level = codes "trace";
  logger_file_max_level = codes "fatal";
  logger_udp_min_level = codes "error";
  logger_udp_max_level = codes "fatal";
  logger_udp_host = codes "127.0.0.1";
  bootstrap_admin_token_secret_ref = codes "env:MP_SECRET_LOCAL_BOOTSTRAP_ADMIN_TOKEN";
  storage_key_secret_ref = codes "env:MP_SECRET_LOCAL_STORAGE_KEY";
  memory_limit_bytes = 256 * 1024 * 1024;
  default_ttl_seconds = 172800;
  min_ttl_seconds = 1;
  max_ttl_seconds = 2592000;
  max_key_bytes = 256;
  max_value_bytes = 1024 * 1024;
  bucket_count = 4096;
  max_export_files = 16;
  shutdown_timeout_millis = 5000;
  sweep_interval_seconds = 5;
  max_log_lines = 200;
  logger_buffer_capacity = 4096;
  logger_message_capacity = 1024;
  logger_context_capacity = 512;
  logger_field_capacity = 8;
  logger_field_key_capacity = 32;
  logger_field_value_capacity = 128;
  logger_pretty_output = 0;
  logger_udp_port = 5514;
  rate_limit_requests = 240;
  rate_limit_window_seconds = 60;
}
