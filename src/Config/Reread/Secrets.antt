-- ===== src/Config/Reread/Secrets.antt =====
-- The security of a template are read (internal/config/config.c).
use mp_cache.Prelude.{◌≡◌, ◌∙◌, refl, Bytes, codes, List, All, arith}
use mp_cache.Config.Fields.{Config}
use mp_cache.Config.Apply.{apply_security}
use mp_cache.Config.Template.{security_lines}
use mp_cache.Config.Load.{load_lines}
use mp_cache.Config.Settings.{load_lines-line}
use mp_cache.Config.Lines.{closed, all_closed, IsLine, written-IsLine, ◌⊲◌}
use mp_cache.Config.Steps.{reading, at, text_step, number_step, text-IsLine, number-IsLine}
use mp_cache.Config.Printable.{IsPrintable}

-- The settings of the section `security`.
abbrev pub security_of : Config → Config → Config
security_of config base = record base {
  bootstrap_admin_token_secret_ref = config.bootstrap_admin_token_secret_ref;
  storage_key_secret_ref = config.storage_key_secret_ref;
  rate_limit_requests = config.rate_limit_requests;
  rate_limit_window_seconds = config.rate_limit_window_seconds;
}

pub read-security_lines :
    (config base : Config) (section : Bytes) (more : List Bytes)
    → IsPrintable config
    → load_lines (at section base) (all_closed (security_lines config more))
      ≡ load_lines (at (codes "security") (security_of config base)) (all_closed more)
unfolding security_lines apply_security reading
read-security_lines config base section more p =
    load_lines-line (at section base) (at (codes "security") base) (closed (codes "security:")) _
      refl
    ∙ load_lines-line _ _
        (closed (
          codes
            "# Local development may use env refs. Non-local deployments should prefer file refs."))
        _ refl
    ∙ text_step "bootstrap_admin_token_secret_ref" "security" _ _ refl
        config.bootstrap_admin_token_secret_ref
        (λ c v. record c { bootstrap_admin_token_secret_ref = v })
        p.bootstrap_admin_token_secret_ref refl
    ∙ text_step "storage_key_secret_ref" "security" _ _ refl config.storage_key_secret_ref
        (λ c v. record c { storage_key_secret_ref = v }) p.storage_key_secret_ref refl
    ∙ number_step "rate_limit_requests" "security" _ _ refl config.rate_limit_requests
        (λ c n. record c { rate_limit_requests = n }) p.rate_limit_requests refl
    ∙ number_step "rate_limit_window_seconds" "security" _ _ refl config.rate_limit_window_seconds
        (λ c n. record c { rate_limit_window_seconds = n }) p.rate_limit_window_seconds refl

pub security_lines-IsLine :
    (config : Config) (more : List Bytes)
    → IsPrintable config
    → All IsLine more
    → All IsLine (security_lines config more)
unfolding security_lines
security_lines-IsLine config more p rest =
    written-IsLine (codes "security:") refl
    ⊲ written-IsLine
        (codes
          "# Local development may use env refs. Non-local deployments should prefer file refs.")
        refl
    ⊲ text-IsLine "bootstrap_admin_token_secret_ref" config.bootstrap_admin_token_secret_ref refl
        p.bootstrap_admin_token_secret_ref
    ⊲ text-IsLine "storage_key_secret_ref" config.storage_key_secret_ref refl
        p.storage_key_secret_ref
    ⊲ number-IsLine "rate_limit_requests" config.rate_limit_requests refl
        (omega (arith, p.rate_limit_requests))
    ⊲ number-IsLine "rate_limit_window_seconds" config.rate_limit_window_seconds refl
        (omega (arith, p.rate_limit_window_seconds))
    ⊲ rest
