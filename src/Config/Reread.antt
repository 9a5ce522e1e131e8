-- ===== src/Config/Reread.antt =====
-- A template that was written is loaded as the configuration it was written from
-- (internal/config/config.c).
mod Service
mod Cache
mod Logger
mod Secrets
use mp_cache.Prelude.{◌≡◌, ◌∙◌, refl, ap, true, false, Bool, Bytes, codes, List, [], ◌∷◌, All}
use mp_cache.Config.Fields.{Config, Status}
use mp_cache.Config.Validate.{validate}
use mp_cache.Config.Template.{
  head_lines, service_lines, server_lines, cache_lines, storage_lines, observability_lines,
  mp_logger_lines, security_lines, template_lines, write_template,
}
use mp_cache.Config.Load.{Loading, load_lines, read_lines, File, contents, load_file}
use mp_cache.Config.Lines.{all_closed, IsLine, read_lines-join_lines}
use mp_cache.Config.Steps.{at}
use mp_cache.Config.Printable.{IsPrintable}
use mp_cache.Config.Reread.Service.*
use mp_cache.Config.Reread.Cache.*
use mp_cache.Config.Reread.Logger.*
use mp_cache.Config.Reread.Secrets.*

template_lines-IsLine : (config : Config) → IsPrintable config → All IsLine (template_lines config)
unfolding template_lines
template_lines-IsLine config p = head_lines-IsLine _ (
    service_lines-IsLine config _ p (
      server_lines-IsLine config _ p (
        cache_lines-IsLine config _ p (
          storage_lines-IsLine config _ p (
            observability_lines-IsLine config _ p
              (mp_logger_lines-IsLine config _ p (security_lines-IsLine config [] p tt)))))))

-- The sections together set every field.
load_lines-template_lines :
    (config before : Config)
    → IsPrintable config
    → load_lines (at [] before) (all_closed (template_lines config))
      ≡ (true, at (codes "security") config)
unfolding template_lines load_lines
load_lines-template_lines config before p =
    read-head_lines before [] _
    ∙ read-service_lines config _ _ _ p
    ∙ read-server_lines config _ _ _ p
    ∙ read-cache_lines config _ _ _ p
    ∙ read-storage_lines config _ _ _ p
    ∙ read-observability_lines config _ _ _ p
    ∙ read-mp_logger_lines config _ _ _ p
    ∙ read-security_lines config _ _ _ p

-- The file that `mp_cache_config_write_template` writes for a configuration whose texts are plain
-- and fit a line, and whose numbers fit their fields, is loaded as this configuration, whatever was
-- there before, with the status of its validation.
pub load_file-write_template :
    (config before : Config)
    → IsPrintable config
    → load_file (contents (write_template config) false) before ≡ (validate config, config)
unfolding load_file write_template
load_file-write_template config before p =
    let lines = read_lines-join_lines (template_lines config) (template_lines-IsLine config p) in
    let loaded = ap (load_lines (at [] before)) lines ∙ load_lines-template_lines config before p in
    rw (loaded, load_file) refl
