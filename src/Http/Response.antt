-- ===== src/Http/Response.antt =====
-- Responses and their JSON bodies (internal/httpserver/http_server.c). A body that could not be
-- allocated is `none`, for NULL; `allocated` is the `malloc` of a body.
use mp_cache.Prelude.{
  ℕ, Bool, ◌||◌, Bytes, codes, Option, none, some, List, [], ◌∷◌, ◌++◌, flatten, length, leb,
  str_equal, if◌then◌else◌,
}
use mp_cache.Prelude.Int.{ℤ, ◌-ℤ◌}
use mp_cache.Cache.Walk.{get_stats}
use mp_cache.Text.Number.{decimal, decimal_ℤ}
use mp_cache.Http.Server.{Server}

-- `mp_cache_http_response_t`.
pub record Response : Type 0 where
  pub status_code : ℕ
  pub status_text : Bytes
  pub response_body : Option Bytes
  pub allow_header_value : Option Bytes
  pub extra_headers : Option Bytes

abbrev pub conflict : Bytes
conflict = codes "conflict"

abbrev pub forbidden : Bytes
forbidden = codes "forbidden"

abbrev pub internal_error : Bytes
internal_error = codes "internal_error"

abbrev pub invalid_argument : Bytes
invalid_argument = codes "invalid_argument"

abbrev pub limit_exceeded : Bytes
limit_exceeded = codes "limit_exceeded"

abbrev pub not_found : Bytes
not_found = codes "not_found"

abbrev pub unauthorized : Bytes
unauthorized = codes "unauthorized"

-- `mp_cache_http_error_code_is_defined` of a text that is not NULL.
unfoldable pub error_code_is_defined : Bytes → Bool
error_code_is_defined error_code =
    str_equal error_code conflict
    || str_equal error_code forbidden
    || str_equal error_code internal_error
    || str_equal error_code invalid_argument
    || str_equal error_code limit_exceeded
    || str_equal error_code not_found
    || str_equal error_code unauthorized

-- `mp_cache_http_strdup_printf`: the parts of the text, in order.
abbrev pub printf : Bool → List Bytes → Option Bytes
printf allocated parts = if allocated then some (flatten parts) else none

unfoldable pub error_body : Bool → Bytes → Bytes → Option Bytes
unfolding error_code_is_defined
error_body allocated error_code message =
    let shown = if error_code_is_defined error_code then error_code else internal_error in
    printf allocated (
      codes "{\"error_code\":\""
      ∷ shown
      ∷ codes "\",\"error_description\":\""
      ∷ message
      ∷ codes "\",\"error\":\""
      ∷ shown
      ∷ codes "\",\"message\":\""
      ∷ message
      ∷ codes "\"}"
      ∷ [])

-- `mp_cache_http_make_error` with a message that is not NULL.
unfoldable pub make_error :
    Bool → ℕ → Bytes → Bytes → Bytes → Option Bytes → Option Bytes → Response
make_error allocated status_code status_text error_code message allow_header extra_headers =
    record {
      status_code = status_code;
      status_text = status_text;
      response_body = error_body allocated error_code message;
      allow_header_value = allow_header;
      extra_headers = extra_headers;
    }

abbrev pub success : Option Bytes → Response
success body = record {
  status_code = 200;
  status_text = codes "OK";
  response_body = body;
  allow_header_value = none;
  extra_headers = none;
}

abbrev pub bad_request : Bool → Bytes → Response
bad_request allocated message =
    make_error allocated 400 (codes "Bad Request") invalid_argument message none none

abbrev pub missing : Bool → Bytes → Response
missing allocated message = make_error allocated 404 (codes "Not Found") not_found message none none

abbrev pub server_error : Bool → Bytes → Response
server_error allocated message =
    make_error allocated 500 (codes "Internal Server Error") internal_error message none none

abbrev pub method_not_allowed : Bool → Bytes → Response
method_not_allowed allocated allow =
    make_error allocated 405 (codes "Method Not Allowed") invalid_argument
      (codes "method not allowed") (some allow) none

-- `"<label>":<number>` behind a comma.
abbrev field : Bytes → ℕ → List Bytes → List Bytes
field label n parts = codes ",\"" ∷ label ∷ codes "\":" ∷ decimal n ∷ parts

-- `mp_cache_http_build_health_body`.
unfoldable pub build_health_body : Bool → Server → ℤ → Option Bytes
unfolding get_stats
build_health_body allocated server now =
    let stats = get_stats server.store in
    printf allocated (
      codes "{\"status\":\"ok\",\"service\":\""
      ∷ server.config.service_name
      ∷ codes "\",\"environment\":\""
      ∷ server.config.environment_name
      ∷ codes "\",\"socket_path\":\""
      ∷ server.config.socket_path
      ∷ codes "\",\"uptime_seconds\":"
      ∷ decimal_ℤ (now -ℤ server.started_at_utc)
      ∷ field (codes "default_ttl_seconds") server.config.default_ttl_seconds (
          field (codes "memory_limit_bytes") stats.memory_limit_bytes (
            field (codes "entry_count") stats.entry_count
              (field (codes "bytes_used") stats.bytes_used (codes "}" ∷ [])))))

-- `mp_cache_http_build_stats_body`.
unfoldable pub build_stats_body : Bool → Server → ℤ → Option Bytes
unfolding get_stats
build_stats_body allocated server now =
    let stats = get_stats server.store in
    let m = server.metrics in
    printf allocated (
      codes "{\"uptime_seconds\":"
      ∷ decimal_ℤ (now -ℤ server.started_at_utc)
      ∷ field (codes "entry_count") stats.entry_count (
          field (codes "bytes_used") stats.bytes_used (
            field (codes "memory_limit_bytes") stats.memory_limit_bytes (
              field (codes "total_requests") m.total_requests (
                field (codes "unauthorized_requests") m.unauthorized_requests (
                  field (codes "forbidden_requests") m.forbidden_requests (
                    field (codes "rate_limited_requests") m.rate_limited_requests (
                      field (codes "cache_hits") m.cache_hits (
                        field (codes "cache_misses") m.cache_misses (
                          field (codes "cache_sets") m.cache_sets (
                            field (codes "cache_deletes") m.cache_deletes (
                              field (codes "client_registrations") m.client_registrations (
                                field (codes "token_rotations") m.token_rotations (
                                  field (codes "token_invalidations") m.token_invalidations (
                                    field (codes "exports") m.exports (
                                      field (codes "imports") m.imports (
                                        field (codes "log_reads") m.log_reads
                                          (codes "}" ∷ []))))))))))))))))))

-- `mp_cache_http_build_memory_body`.
unfoldable pub build_memory_body : Bool → Server → Option Bytes
unfolding get_stats
build_memory_body allocated server =
    let stats = get_stats server.store in
    printf allocated (
      codes "{\"entry_count\":"
      ∷ decimal stats.entry_count
      ∷ field (codes "bytes_used") stats.bytes_used
          (field (codes "memory_limit_bytes") stats.memory_limit_bytes (codes "}" ∷ [])))

abbrev or_nothing : Option Bytes → Bytes
or_nothing none = []
or_nothing (some text) = text

abbrev allow_line : Option Bytes → Bytes
allow_line none = []
allow_line (some value) = codes "Allow: " ++ (value ++ codes "\r\n")

abbrev header_capacity : ℕ
header_capacity = 2048

-- The bytes that `mp_cache_http_write_response` sends, `none` where the head does not fit. Whether
-- `send` succeeds changes nothing in the program.
unfoldable pub write_response : Response → Option Bytes
unfolding decimal
write_response response =
    let body = or_nothing response.response_body in
    let head = flatten (
      codes "HTTP/1.1 "
      ∷ decimal response.status_code
      ∷ codes " "
      ∷ response.status_text
      ∷ codes "\r\nContent-Type: application/json\r\nContent-Length: "
      ∷ decimal (length body)
      ∷ codes "\r\nCache-Control: no-store\r\nConnection: close\r\n"
      ∷ codes "X-Content-Type-Options: nosniff\r\n"
      ∷ allow_line response.allow_header_value
      ∷ or_nothing response.extra_headers
      ∷ codes "\r\n"
      ∷ []) in
    if leb header_capacity (length head) then none else some (head ++ body)
