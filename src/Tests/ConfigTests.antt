-- ===== src/Tests/ConfigTests.antt =====
-- Configurations that are loaded (tests/unit/config_tests.c).
use mp_cache.Prelude.{
  ℕ, ◌≡◌, ◌≤◌, ◌<◌, inl, inr, refl, Bool, true, false, not, ◌&&◌, ◌||◌, Bytes, codes, [], ◌∷◌, ◌==◌,
  leb, ltb, length, All, arith,
}
use mp_cache.Config.Fields.{Config, ok, init_defaults}
use mp_cache.Config.Load.{File, contents, load_file}
use mp_cache.Config.Template.{write_template}
use mp_cache.Config.Validate.{validate}
use mp_cache.Config.Values.{trim_end, unquote}
use mp_cache.Text.Scan.{skip_space}
use mp_cache.Text.Found.{IsNot}
use mp_cache.Config.Steps.{IsShown}
use mp_cache.Config.Printable.{IsPrintable}
use mp_cache.Config.Reread.{load_file-write_template}
use mp_cache.Config.Validated.{IsUsable, load_file-IsUsable}

config_program : Unit {0}
unfolding mp_cache.Text.Scan.is_space mp_cache.Text.Scan.is_digit mp_cache.Text.Scan.skip_space
    mp_cache.Text.Scan.starts_with mp_cache.Text.Scan.to_lower
    mp_cache.Text.Scan.starts_with_caseless mp_cache.Text.Scan.find_byte
    mp_cache.Text.Scan.find_text mp_cache.Text.Scan.truncated mp_cache.Text.Number.read_digits
    mp_cache.Text.Number.convert mp_cache.Text.Number.strtoul_signed mp_cache.Text.Number.strtoul
    mp_cache.Text.Number.digits_on mp_cache.Text.Number.decimal mp_cache.Text.Number.decimal_ℤ
    mp_cache.Storage.Records.entry_parts mp_cache.Storage.Records.read_entry
    mp_cache.Storage.Records.client_parts mp_cache.Storage.Records.until_nul
    mp_cache.Storage.Records.read_active mp_cache.Storage.Records.read_client
    mp_cache.Storage.Records.restore_live mp_cache.Storage.Records.restore_client
    mp_cache.Config.Fields.init_defaults mp_cache.Config.Values.trim_end mp_cache.Config.Values.trim
    mp_cache.Config.Values.split_last mp_cache.Config.Values.unquote
    mp_cache.Config.Values.parse_u32 mp_cache.Config.Values.parse_u64
    mp_cache.Config.Values.parse_bool_u32 mp_cache.Config.Values.version_from
    mp_cache.Config.Values.is_build_version_valid mp_cache.Config.Apply.apply_service
    mp_cache.Config.Apply.apply_server mp_cache.Config.Apply.apply_cache
    mp_cache.Config.Apply.apply_storage mp_cache.Config.Apply.apply_observability
    mp_cache.Config.Apply.apply_mp_logger mp_cache.Config.Apply.apply_security
    mp_cache.Config.Apply.apply_value mp_cache.Config.Validate.lacks_text
    mp_cache.Config.Validate.has_bad_number mp_cache.Config.Validate.validate
    mp_cache.Config.Load.read_lines mp_cache.Config.Load.read_section
    mp_cache.Config.Load.find_separator mp_cache.Config.Load.read_setting
    mp_cache.Config.Load.read_line mp_cache.Config.Load.load_lines mp_cache.Config.Load.load_file
    mp_cache.Prelude.str_equal mp_cache.Prelude.take mp_cache.Prelude.drop mp_cache.Prelude.sub64
config_program = tt

abbrev file : File
file = contents (codes "cache:\n  min_ttl_seconds: 2\n") false

loads : (load_file file init_defaults).0 ≡ ok
unfolding config_program
loads = refl

load_file-IsUsable_example : IsUsable (load_file file init_defaults).1
load_file-IsUsable_example = load_file-IsUsable file init_defaults loads

-- Texts of letters and digits, and of other characters that mean nothing in a line.
abbrev is_clear : Bytes → Bool
is_clear [] = true
is_clear (c ∷ text) = not (c == 0 || c == b'=' || c == b'\n') && is_clear text

is_clear-All :
    (text : Bytes) (a : ℕ)
    → (a == 0 || a == b'=' || a == b'\n') ≡ true
    → is_clear text ≡ true
    → All (IsNot a) text
is_clear-All [] a known h = tt
is_clear-All (c ∷ text) a known h =
    (ground (arith, h, known), is_clear-All text a known (ground (arith, h)))

shown :
    (capacity : ℕ) (value : Bytes)
    → (leb 1 (length value) && ltb (length value) capacity && ltb (length value) 2000) ≡ true
    → is_clear value ≡ true
    → skip_space value ≡ value
    → trim_end value ≡ value
    → unquote value ≡ value
    → IsShown capacity value
shown capacity value sized clear no_space no_space_behind no_quotes = record {
  shows = record {
    plain = record {
      present = ground (arith, sized);
      no_space = no_space;
      no_space_behind = no_space_behind;
      no_nul = is_clear-All value 0 refl clear;
      no_equals = is_clear-All value b'=' refl clear;
    };
    unquoted = no_quotes;
    present = ground (arith, sized);
  };
  fits = ground (arith, sized);
  short = ground (arith, sized);
  no_line_feed = is_clear-All value b'\n' refl clear;
}

init_defaults-IsPrintable : IsPrintable init_defaults
unfolding config_program
init_defaults-IsPrintable = record {
  version = refl;
  environment_name = shown _ _ refl refl refl refl refl;
  service_name = shown _ _ refl refl refl refl refl;
  build_version = shown _ _ refl refl refl refl refl;
  socket_path = shown _ _ refl refl refl refl refl;
  pid_file_path = shown _ _ refl refl refl refl refl;
  shutdown_timeout_millis = omega arith;
  memory_limit_bytes = omega arith;
  default_ttl_seconds = omega arith;
  min_ttl_seconds = omega arith;
  max_ttl_seconds = omega arith;
  max_key_bytes = omega arith;
  max_value_bytes = omega arith;
  bucket_count = omega arith;
  sweep_interval_seconds = omega arith;
  data_directory = shown _ _ refl refl refl refl refl;
  export_directory = shown _ _ refl refl refl refl refl;
  checkpoint_path = shown _ _ refl refl refl refl refl;
  journal_path = shown _ _ refl refl refl refl refl;
  max_export_files = omega arith;
  log_directory = shown _ _ refl refl refl refl refl;
  max_log_lines = omega arith;
  logger_bootstrap_path = shown _ _ refl refl refl refl refl;
  logger_buffer_capacity = omega arith;
  logger_message_capacity = omega arith;
  logger_context_capacity = omega arith;
  logger_field_capacity = omega arith;
  logger_field_key_capacity = omega arith;
  logger_field_value_capacity = omega arith;
  logger_format = shown _ _ refl refl refl refl refl;
  logger_pretty_output = inl refl;
  logger_file_name_prefix = shown _ _ refl refl refl refl refl;
  logger_backup_file_name_prefix = shown _ _ refl refl refl refl refl;
  logger_active_streams = shown _ _ refl refl refl refl refl;
  logger_stdout_min_level = shown _ _ refl refl refl refl refl;
  logger_stdout_max_level = shown _ _ refl refl refl refl refl;
  logger_stderr_min_level = shown _ _ refl refl refl refl refl;
  logger_stderr_max_level = shown _ _ refl refl refl refl refl;
  logger_file_min_level = shown _ _ refl refl refl refl refl;
  logger_file_max_level = shown _ _ refl refl refl refl refl;
  logger_udp_min_level = shown _ _ refl refl refl refl refl;
  logger_udp_max_level = shown _ _ refl refl refl refl refl;
  logger_udp_host = shown _ _ refl refl refl refl refl;
  logger_udp_port = omega arith;
  bootstrap_admin_token_secret_ref = shown _ _ refl refl refl refl refl;
  storage_key_secret_ref = shown _ _ refl refl refl refl refl;
  rate_limit_requests = omega arith;
  rate_limit_window_seconds = omega arith;
}

load_file-write_template_example :
    load_file (contents (write_template init_defaults) false) init_defaults
    ≡ (validate init_defaults, init_defaults)
load_file-write_template_example =
    load_file-write_template init_defaults init_defaults init_defaults-IsPrintable
