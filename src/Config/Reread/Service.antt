-- ===== src/Config/Reread/Service.antt =====
-- The comment, the service and the server of a template are read (internal/config/config.c).
use mp_cache.Prelude.{◌≡◌, ◌∙◌, refl, Bytes, codes, List, [], All, arith}
use mp_cache.Config.Fields.{Config}
use mp_cache.Config.Apply.{apply_service, apply_server}
use mp_cache.Config.Template.{head_lines, service_lines, server_lines}
use mp_cache.Config.Load.{load_lines}
use mp_cache.Config.Settings.{load_lines-line}
use mp_cache.Config.Lines.{closed, all_closed, IsLine, written-IsLine, ◌⊲◌}
use mp_cache.Config.Steps.{
  reading, at, text_step, version_step, number_step, text-IsLine, quoted-IsLine, number-IsLine,
}
use mp_cache.Config.Printable.{IsPrintable}

pub read-head_lines :
    (base : Config) (section : Bytes) (more : List Bytes)
    → load_lines (at section base) (all_closed (head_lines more))
      ≡ load_lines (at section base) (all_closed more)
unfolding head_lines reading
read-head_lines base section more =
    load_lines-line (at section base) (at section base)
      (closed (codes "# mp-cache bootstrap configuration")) _ refl
    ∙ load_lines-line (at section base) (at section base)
        (closed (codes "# Generated automatically from compiled defaults.")) _ refl
    ∙ load_lines-line (at section base) (at section base)
        (closed (codes "# All TTL values are in seconds and all timestamps are UTC.")) _ refl
    ∙ load_lines-line (at section base) (at section base) (closed []) _ refl

pub head_lines-IsLine : (more : List Bytes) → All IsLine more → All IsLine (head_lines more)
unfolding head_lines
head_lines-IsLine more rest =
    written-IsLine (codes "# mp-cache bootstrap configuration") refl
    ⊲ written-IsLine (codes "# Generated automatically from compiled defaults.") refl
    ⊲ written-IsLine (codes "# All TTL values are in seconds and all timestamps are UTC.") refl
    ⊲ written-IsLine [] refl
    ⊲ rest

-- The settings of the section `service`.
abbrev pub service_of : Config → Config → Config
service_of config base = record base {
  environment_name = config.environment_name;
  service_name = config.service_name;
  build_version = config.build_version;
}

pub read-service_lines :
    (config base : Config) (section : Bytes) (more : List Bytes)
    → IsPrintable config
    → load_lines (at section base) (all_closed (service_lines config more))
      ≡ load_lines (at (codes "service") (service_of config base)) (all_closed more)
unfolding service_lines apply_service reading
read-service_lines config base section more p =
    load_lines-line (at section base) (at (codes "service") base) (closed (codes "service:")) _ refl
    ∙ load_lines-line _ _
        (closed (codes "# Valid values: local, development, qa, staging, production")) _ refl
    ∙ text_step "environment_name" "service" _ _ refl config.environment_name
        (λ c v. record c { environment_name = v }) p.environment_name refl
    ∙ text_step "service_name" "service" _ _ refl config.service_name
        (λ c v. record c { service_name = v }) p.service_name refl
    ∙ load_lines-line _ _
        (closed (
          codes
            "# Build artifacts use MAJOR.MINOR.HOTFIX and local builds increment MINOR by default."))
        _ refl
    ∙ version_step "build_version" "service" _ _ refl config.build_version
        (λ c v. record c { build_version = v }) p.build_version p.version refl
    ∙ load_lines-line _ _ (closed []) _ refl

pub service_lines-IsLine :
    (config : Config) (more : List Bytes)
    → IsPrintable config
    → All IsLine more
    → All IsLine (service_lines config more)
unfolding service_lines
service_lines-IsLine config more p rest =
    written-IsLine (codes "service:") refl
    ⊲ written-IsLine (codes "# Valid values: local, development, qa, staging, production") refl
    ⊲ text-IsLine "environment_name" config.environment_name refl p.environment_name
    ⊲ text-IsLine "service_name" config.service_name refl p.service_name
    ⊲ written-IsLine
        (codes
          "# Build artifacts use MAJOR.MINOR.HOTFIX and local builds increment MINOR by default.")
        refl
    ⊲ quoted-IsLine "build_version" config.build_version refl p.build_version
    ⊲ written-IsLine [] refl
    ⊲ rest

-- The settings of the section `server`.
abbrev pub server_of : Config → Config → Config
server_of config base = record base {
  socket_path = config.socket_path;
  pid_file_path = config.pid_file_path;
  shutdown_timeout_millis = config.shutdown_timeout_millis;
}

pub read-server_lines :
    (config base : Config) (section : Bytes) (more : List Bytes)
    → IsPrintable config
    → load_lines (at section base) (all_closed (server_lines config more))
      ≡ load_lines (at (codes "server") (server_of config base)) (all_closed more)
unfolding server_lines apply_server reading
read-server_lines config base section more p =
    load_lines-line (at section base) (at (codes "server") base) (closed (codes "server:")) _ refl
    ∙ load_lines-line _ _
        (closed (codes "# Use an absolute socket path in long-lived deployments.")) _ refl
    ∙ text_step "socket_path" "server" _ _ refl config.socket_path
        (λ c v. record c { socket_path = v }) p.socket_path refl
    ∙ text_step "pid_file_path" "server" _ _ refl config.pid_file_path
        (λ c v. record c { pid_file_path = v }) p.pid_file_path refl
    ∙ number_step "shutdown_timeout_millis" "server" _ _ refl config.shutdown_timeout_millis
        (λ c n. record c { shutdown_timeout_millis = n }) p.shutdown_timeout_millis refl
    ∙ load_lines-line _ _ (closed []) _ refl

pub server_lines-IsLine :
    (config : Config) (more : List Bytes)
    → IsPrintable config
    → All IsLine more
    → All IsLine (server_lines config more)
unfolding server_lines
server_lines-IsLine config more p rest =
    written-IsLine (codes "server:") refl
    ⊲ written-IsLine (codes "# Use an absolute socket path in long-lived deployments.") refl
    ⊲ text-IsLine "socket_path" config.socket_path refl p.socket_path
    ⊲ text-IsLine "pid_file_path" config.pid_file_path refl p.pid_file_path
    ⊲ number-IsLine "shutdown_timeout_millis" config.shutdown_timeout_millis refl
        (omega (arith, p.shutdown_timeout_millis))
    ⊲ written-IsLine [] refl
    ⊲ rest
