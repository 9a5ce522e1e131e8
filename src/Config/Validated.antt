-- ===== src/Config/Validated.antt =====
-- What a configuration that was loaded without an error satisfies (internal/config/config.c).
use mp_cache.Prelude.{
  ℕ, Bool, true, false, not, if◌then◌else◌, ◌||◌, ◌≡◌, refl, ◌≤◌, ◌<◌, ◌^◌, Bytes, [], ◌∷◌, List,
  All, length, drop, ltb, leb, ◌==◌, Bool-cases, inl, inr, arith,
}
use mathlib.Core.List.{map}
use mp_cache.Config.Fields.{Config, Status, ok, validation_error}
use mp_cache.Config.Values.{is_blank, is_build_version_valid}
use mp_cache.Config.Validate.{lacks_text, has_bad_number, validate}
use mp_cache.Config.Load.{
  Loading, read_lines, load_lines, File, missing, unopened, contents, load_file,
}

abbrev pub required_texts : Config → List Bytes
required_texts config =
    config.service_name ∷ config.environment_name ∷ config.build_version ∷ config.socket_path
    ∷ config.pid_file_path ∷ config.log_directory ∷ config.data_directory ∷ config.export_directory
    ∷ config.checkpoint_path ∷ config.journal_path ∷ config.logger_bootstrap_path
    ∷ config.bootstrap_admin_token_secret_ref ∷ config.storage_key_secret_ref ∷ []

-- The numbers that the store, the server and the logger divide by or allocate with.
abbrev pub required_numbers : Config → List ℕ
required_numbers config =
    config.memory_limit_bytes ∷ config.default_ttl_seconds ∷ config.min_ttl_seconds
    ∷ config.max_ttl_seconds ∷ config.max_key_bytes ∷ config.max_value_bytes ∷ config.bucket_count
    ∷ config.max_export_files ∷ config.shutdown_timeout_millis ∷ config.sweep_interval_seconds
    ∷ config.max_log_lines ∷ config.logger_buffer_capacity ∷ config.logger_message_capacity
    ∷ config.logger_context_capacity ∷ config.logger_field_capacity
    ∷ config.logger_field_key_capacity ∷ config.logger_field_value_capacity ∷ []

abbrev pub IsPresent : Bytes → Type 0
IsPresent text = 1 ≤ length text

abbrev pub IsPositive : ℕ → Type 0
IsPositive n = 1 ≤ n

-- The configuration can be used: every text that has to be there is, the version is one, the
-- numbers are positive, the port has 16 bits and the default time to live is in its range.
pub record IsUsable (config : Config) : Type 0 where
  pub texts : All IsPresent (required_texts config)
  pub version : is_build_version_valid config.build_version ≡ true
  pub numbers : All IsPositive (required_numbers config)
  pub port : config.logger_udp_port < 2 ^ 16
  pub requests : 1 ≤ config.rate_limit_requests
  pub window : 1 ≤ config.rate_limit_window_seconds
  pub lowest : config.min_ttl_seconds ≤ config.default_ttl_seconds
  pub highest : config.default_ttl_seconds ≤ config.max_ttl_seconds

-- `tests || …`, from the left.
abbrev any_from : Bool → List Bool → Bool
any_from test [] = test
any_from test (next ∷ tests) = any_from (test || next) tests

abbrev IsPassed : Bool → Type 0
IsPassed test = test ≡ false

any_from-false :
    (test : Bool) (tests : List Bool)
    → any_from test tests ≡ false
    → (test ≡ false) × All IsPassed tests
any_from-false test [] h = (h, tt)
any_from-false test (next ∷ tests) h =
    let (both, rest) = any_from-false (test || next) tests h in
    (ground (arith, both), (ground (arith, both), rest))

is_blank-false : (text : Bytes) → is_blank text ≡ false → IsPresent text
is_blank-false [] h = absurd (ground arith)
is_blank-false (c ∷ text) h = omega arith

All-IsPresent : (texts : List Bytes) → All IsPassed (map is_blank texts) → All IsPresent texts
All-IsPresent [] h = tt
All-IsPresent (text ∷ texts) (h, rest) = (is_blank-false text h, All-IsPresent texts rest)

lacks_text-false :
    (config : Config) → lacks_text config ≡ false → All IsPresent (required_texts config)
unfolding lacks_text drop
lacks_text-false config h = All-IsPresent (required_texts config) (
    any_from-false (is_blank config.service_name) (map is_blank (drop 1 (required_texts config))) h)

is_zero-false : (n : ℕ) → (n == 0) ≡ false → IsPositive n
is_zero-false n h = ground arith

All-IsPositive :
    (numbers : List ℕ) → All IsPassed (map (λ n. n == 0) numbers) → All IsPositive numbers
All-IsPositive [] h = tt
All-IsPositive (n ∷ numbers) (h, rest) = (is_zero-false n h, All-IsPositive numbers rest)

has_bad_number-false :
    (config : Config)
    → has_bad_number config ≡ false
    → All IsPositive (required_numbers config)
      × (config.logger_udp_port < 2 ^ 16)
      × (1 ≤ config.rate_limit_requests)
      × (1 ≤ config.rate_limit_window_seconds)
unfolding has_bad_number drop
has_bad_number-false config h =
    let zeros = map (λ n. n == 0) (drop 1 (required_numbers config)) in
    let first = config.memory_limit_bytes == 0 in
    let passed =
      any_from-false (any_from first zeros)
        (leb (2 ^ 16) config.logger_udp_port
          ∷ (config.rate_limit_requests == 0)
          ∷ (config.rate_limit_window_seconds == 0)
          ∷ [])
        h in
    (
      All-IsPositive (required_numbers config) (any_from-false first zeros passed.0),
      ground (arith, passed.1.0),
      is_zero-false _ passed.1.1.0,
      is_zero-false _ passed.1.1.1.0,
    )

ok_only :
    (rest : Status) (test : Bool)
    → (if test then validation_error else rest) ≡ ok
    → (test ≡ false) × (rest ≡ ok)
ok_only rest true h = absurd (cc)
ok_only rest false h = (refl, h)

validate-IsUsable : (config : Config) → validate config ≡ ok → IsUsable config
unfolding validate
validate-IsUsable config h =
    let (texts, h) = ok_only _ (lacks_text config) h in
    let (version, h) = ok_only _ (not (is_build_version_valid config.build_version)) h in
    let (numbers, h) = ok_only _ (has_bad_number config) h in
    let (range, h) =
      ok_only _
        (ltb config.default_ttl_seconds config.min_ttl_seconds
          || ltb config.max_ttl_seconds config.default_ttl_seconds)
        h in
    let (positive, port, requests, window) = has_bad_number-false config numbers in
    record {
      texts = lacks_text-false config texts;
      version = ground arith;
      numbers = positive;
      port = port;
      requests = requests;
      window = window;
      lowest = ground arith;
      highest = ground arith;
    }

-- A configuration that `mp_cache_config_load_file` accepts can be used, whatever the bytes of the
-- file and whatever was there before.
pub load_file-IsUsable :
    (file : File) (before : Config)
    → (load_file file before).0 ≡ ok
    → IsUsable (load_file file before).1
unfolding load_file
load_file-IsUsable missing before h = absurd cc
load_file-IsUsable unopened before h = absurd cc
load_file-IsUsable (contents bytes broken) before h =
    let start : Loading = record { section = []; config = before } in
    elim (Bool-cases (load_lines start (read_lines 2047 [] bytes)).0) [
      | inl complete ↦ elim (Bool-cases broken) [
        | inl b ↦ absurd (cc)
        | inr b ↦ validate-IsUsable _ (ground arith)
      ]
      | inr incomplete ↦ absurd (cc)
    ]
