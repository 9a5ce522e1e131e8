-- ===== src/Config/Reread/Logger.antt =====
-- The logger of a template are read (internal/config/config.c).
use mp_cache.Prelude.{◌≡◌, ◌∙◌, refl, Bytes, codes, List, [], All, arith}
use mp_cache.Config.Fields.{Config}
use mp_cache.Config.Values.{parse_bool_u32}
use mp_cache.Config.Apply.{apply_mp_logger}
use mp_cache.Config.Template.{flag_text, mp_logger_lines}
use mp_cache.Config.Load.{load_lines}
use mp_cache.Config.Settings.{load_lines-line}
use mp_cache.Config.Lines.{closed, all_closed, IsLine, written-IsLine, ◌⊲◌}
use mp_cache.Config.Steps.{
  reading, at, text_step, number_step, parsed_step, flag_text-Shows, parse_bool_u32-flag_text,
  text-IsLine, number-IsLine, flag-IsLine,
}
use mp_cache.Config.Printable.{IsPrintable}

-- The settings of the section `mp_logger`.
abbrev pub mp_logger_of : Config → Config → Config
mp_logger_of config base = record base {
  logger_bootstrap_path = config.logger_bootstrap_path;
  logger_buffer_capacity = config.logger_buffer_capacity;
  logger_message_capacity = config.logger_message_capacity;
  logger_context_capacity = config.logger_context_capacity;
  logger_field_capacity = config.logger_field_capacity;
  logger_field_key_capacity = config.logger_field_key_capacity;
  logger_field_value_capacity = config.logger_field_value_capacity;
  logger_format = config.logger_format;
  logger_pretty_output = config.logger_pretty_output;
  logger_file_name_prefix = config.logger_file_name_prefix;
  logger_backup_file_name_prefix = config.logger_backup_file_name_prefix;
  logger_active_streams = config.logger_active_streams;
  logger_stdout_min_level = config.logger_stdout_min_level;
  logger_stdout_max_level = config.logger_stdout_max_level;
  logger_stderr_min_level = config.logger_stderr_min_level;
  logger_stderr_max_level = config.logger_stderr_max_level;
  logger_file_min_level = config.logger_file_min_level;
  logger_file_max_level = config.logger_file_max_level;
  logger_udp_min_level = config.logger_udp_min_level;
  logger_udp_max_level = config.logger_udp_max_level;
  logger_udp_host = config.logger_udp_host;
  logger_udp_port = config.logger_udp_port;
}

pub read-mp_logger_lines :
    (config base : Config) (section : Bytes) (more : List Bytes)
    → IsPrintable config
    → load_lines (at section base) (all_closed (mp_logger_lines config more))
      ≡ load_lines (at (codes "mp_logger") (mp_logger_of config base)) (all_closed more)
unfolding mp_logger_lines apply_mp_logger reading
read-mp_logger_lines config base section more p =
    load_lines-line (at section base) (at (codes "mp_logger") base) (closed (codes "mp_logger:")) _
      refl
    ∙ text_step "bootstrap_path" "mp_logger" _ _ refl config.logger_bootstrap_path
        (λ c v. record c { logger_bootstrap_path = v }) p.logger_bootstrap_path refl
    ∙ number_step "buffer_capacity" "mp_logger" _ _ refl config.logger_buffer_capacity
        (λ c n. record c { logger_buffer_capacity = n }) p.logger_buffer_capacity refl
    ∙ number_step "message_capacity" "mp_logger" _ _ refl config.logger_message_capacity
        (λ c n. record c { logger_message_capacity = n }) p.logger_message_capacity refl
    ∙ number_step "context_capacity" "mp_logger" _ _ refl config.logger_context_capacity
        (λ c n. record c { logger_context_capacity = n }) p.logger_context_capacity refl
    ∙ number_step "field_capacity" "mp_logger" _ _ refl config.logger_field_capacity
        (λ c n. record c { logger_field_capacity = n }) p.logger_field_capacity refl
    ∙ number_step "field_key_capacity" "mp_logger" _ _ refl config.logger_field_key_capacity
        (λ c n. record c { logger_field_key_capacity = n }) p.logger_field_key_capacity refl
    ∙ number_step "field_value_capacity" "mp_logger" _ _ refl config.logger_field_value_capacity
        (λ c n. record c { logger_field_value_capacity = n }) p.logger_field_value_capacity refl
    ∙ text_step "format" "mp_logger" _ _ refl config.logger_format
        (λ c v. record c { logger_format = v }) p.logger_format refl
    ∙ parsed_step "pretty_output" "mp_logger" _ _ refl (flag_text config.logger_pretty_output)
        config.logger_pretty_output (parse_bool_u32 (flag_text config.logger_pretty_output))
        (λ c n. record c { logger_pretty_output = n })
        (flag_text-Shows config.logger_pretty_output p.logger_pretty_output)
        (parse_bool_u32-flag_text config.logger_pretty_output p.logger_pretty_output) refl
    ∙ text_step "file_name_prefix" "mp_logger" _ _ refl config.logger_file_name_prefix
        (λ c v. record c { logger_file_name_prefix = v }) p.logger_file_name_prefix refl
    ∙ text_step "backup_file_name_prefix" "mp_logger" _ _ refl config.logger_backup_file_name_prefix
        (λ c v. record c { logger_backup_file_name_prefix = v }) p.logger_backup_file_name_prefix
        refl
    ∙ text_step "active_streams" "mp_logger" _ _ refl config.logger_active_streams
        (λ c v. record c { logger_active_streams = v }) p.logger_active_streams refl
    ∙ text_step "stdout_min_level" "mp_logger" _ _ refl config.logger_stdout_min_level
        (λ c v. record c { logger_stdout_min_level = v }) p.logger_stdout_min_level refl
    ∙ text_step "stdout_max_level" "mp_logger" _ _ refl config.logger_stdout_max_level
        (λ c v. record c { logger_stdout_max_level = v }) p.logger_stdout_max_level refl
    ∙ text_step "stderr_min_level" "mp_logger" _ _ refl config.logger_stderr_min_level
        (λ c v. record c { logger_stderr_min_level = v }) p.logger_stderr_min_level refl
    ∙ text_step "stderr_max_level" "mp_logger" _ _ refl config.logger_stderr_max_level
        (λ c v. record c { logger_stderr_max_level = v }) p.logger_stderr_max_level refl
    ∙ text_step "file_min_level" "mp_logger" _ _ refl config.logger_file_min_level
        (λ c v. record c { logger_file_min_level = v }) p.logger_file_min_level refl
    ∙ text_step "file_max_level" "mp_logger" _ _ refl config.logger_file_max_level
        (λ c v. record c { logger_file_max_level = v }) p.logger_file_max_level refl
    ∙ text_step "udp_min_level" "mp_logger" _ _ refl config.logger_udp_min_level
        (λ c v. record c { logger_udp_min_level = v }) p.logger_udp_min_level refl
    ∙ text_step "udp_max_level" "mp_logger" _ _ refl config.logger_udp_max_level
        (λ c v. record c { logger_udp_max_level = v }) p.logger_udp_max_level refl
    ∙ text_step "udp_host" "mp_logger" _ _ refl config.logger_udp_host
        (λ c v. record c { logger_udp_host = v }) p.logger_udp_host refl
    ∙ number_step "udp_port" "mp_logger" _ _ refl config.logger_udp_port
        (λ c n. record c { logger_udp_port = n }) p.logger_udp_port refl
    ∙ load_lines-line _ _ (closed []) _ refl

pub mp_logger_lines-IsLine :
    (config : Config) (more : List Bytes)
    → IsPrintable config
    → All IsLine more
    → All IsLine (mp_logger_lines config more)
unfolding mp_logger_lines
mp_logger_lines-IsLine config more p rest =
    written-IsLine (codes "mp_logger:") refl
    ⊲ text-IsLine "bootstrap_path" config.logger_bootstrap_path refl p.logger_bootstrap_path
    ⊲ number-IsLine "buffer_capacity" config.logger_buffer_capacity refl
        (omega (arith, p.logger_buffer_capacity))
    ⊲ number-IsLine "message_capacity" config.logger_message_capacity refl
        (omega (arith, p.logger_message_capacity))
    ⊲ number-IsLine "context_capacity" config.logger_context_capacity refl
        (omega (arith, p.logger_context_capacity))
    ⊲ number-IsLine "field_capacity" config.logger_field_capacity refl
        (omega (arith, p.logger_field_capacity))
    ⊲ number-IsLine "field_key_capacity" config.logger_field_key_capacity refl
        (omega (arith, p.logger_field_key_capacity))
    ⊲ number-IsLine "field_value_capacity" config.logger_field_value_capacity refl
        (omega (arith, p.logger_field_value_capacity))
    ⊲ text-IsLine "format" config.logger_format refl p.logger_format
    ⊲ flag-IsLine "pretty_output" config.logger_pretty_output refl p.logger_pretty_output
    ⊲ text-IsLine "file_name_prefix" config.logger_file_name_prefix refl p.logger_file_name_prefix
    ⊲ text-IsLine "backup_file_name_prefix" config.logger_backup_file_name_prefix refl
        p.logger_backup_file_name_prefix
    ⊲ text-IsLine "active_streams" config.logger_active_streams refl p.logger_active_streams
    ⊲ text-IsLine "stdout_min_level" config.logger_stdout_min_level refl p.logger_stdout_min_level
    ⊲ text-IsLine "stdout_max_level" config.logger_stdout_max_level refl p.logger_stdout_max_level
    ⊲ text-IsLine "stderr_min_level" config.logger_stderr_min_level refl p.logger_stderr_min_level
    ⊲ text-IsLine "stderr_max_level" config.logger_stderr_max_level refl p.logger_stderr_max_level
    ⊲ text-IsLine "file_min_level" config.logger_file_min_level refl p.logger_file_min_level
    ⊲ text-IsLine "file_max_level" config.logger_file_max_level refl p.logger_file_max_level
    ⊲ text-IsLine "udp_min_level" config.logger_udp_min_level refl p.logger_udp_min_level
    ⊲ text-IsLine "udp_max_level" config.logger_udp_max_level refl p.logger_udp_max_level
    ⊲ text-IsLine "udp_host" config.logger_udp_host refl p.logger_udp_host
    ⊲ number-IsLine "udp_port" config.logger_udp_port refl (omega (arith, p.logger_udp_port))
    ⊲ written-IsLine [] refl
    ⊲ rest
