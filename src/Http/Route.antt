-- ===== src/Http/Route.antt =====
-- The dispatch of a request to the handlers (internal/httpserver/http_server.c).
use mp_cache.Prelude.{
  ℕ, ◌-◌, ◌*◌, Bool, not, ◌&&◌, ◌||◌, Bytes, codes, Option, none, some, [], ◌∷◌, length, ltb, leb,
  ◌==◌, take, drop, str_equal, add64, if◌then◌else◌,
}
use mp_cache.Prelude.Int.{ℤ}
use mp_cache.Security.Roles.{client, operator, admin}
use mp_cache.Security.Records.{client_id_cap}
use mp_cache.Storage.Records.{until_nul}
use mp_cache.Text.Scan.{starts_with, find_text}
use mp_cache.Http.Percent.{Decoded, decoded, percent_decode}
use mp_cache.Http.Request.{Request}
use mp_cache.Http.Server.{Server, Metrics, maybe_sweep}
use mp_cache.Http.Response.{
  Response, success, bad_request, missing, method_not_allowed, printf, build_health_body,
  build_stats_body, build_memory_body,
}
use mp_cache.Http.Host.{Host}
use mp_cache.Http.Access.{counted, with_access, with_method}
use mp_cache.Http.Handlers.{handle_cache_get, handle_cache_put, handle_cache_delete}
use mp_cache.Http.Clients.{handle_register_client, handle_rotate_client, handle_invalidate_client}
use mp_cache.Http.Admin.{handle_logs, handle_export, handle_import, handle_uptime}
use mp_cache.Http.Purges.{handle_purge_selected, handle_purge_all}

abbrev pub get_method : Bytes
get_method = codes "GET"

abbrev pub put_method : Bytes
put_method = codes "PUT"

abbrev pub delete_method : Bytes
delete_method = codes "DELETE"

abbrev pub post_method : Bytes
post_method = codes "POST"

-- `mp_cache_http_path_is_health`.
unfoldable pub path_is_health : Bytes → Bool
path_is_health request_path =
    str_equal request_path (codes "/health") || str_equal request_path (codes "/v1/health")

-- `mp_cache_http_handle_root`.
unfoldable pub handle_root : Host → Request → Response
handle_root host request =
    if not (str_equal request.method get_method)
    then method_not_allowed host.body get_method
    else success (
        printf host.body
          (codes "{\"service\":\"mp-cache\",\"message\":\"use /health or /v1/* endpoints\"}" ∷ []))

-- The methods of a cache key.
unfoldable pub route_key : Host → Request → Bytes → ℤ → Server → Response × Server
route_key host request key now server =
    if str_equal request.method get_method
    then handle_cache_get host server key now
    else if str_equal request.method put_method
    then handle_cache_put host server key request now
    else if str_equal request.method delete_method
    then handle_cache_delete host server key now
    else (method_not_allowed host.body (codes "GET, PUT, DELETE"), server)

abbrev pub cache_prefix : Bytes
cache_prefix = codes "/v1/cache/"

abbrev pub key_capacity : ℕ
key_capacity = 64 * 4

-- The key behind the prefix as a C string, where it is valid.
unfoldable pub key_of : Decoded → Option Bytes
key_of (decoded text) = elim (until_nul text) [ [] ↦ none | c ∷ rest ↦ some (c ∷ rest) ]
key_of _ = none

-- The branch of the cache keys.
unfoldable pub route_cache : Host → Server → Request → Bytes → ℤ → Response × Server
route_cache host server request encoded now = elim (key_of (percent_decode encoded key_capacity)) [
  | none ↦ (bad_request host.body (codes "cache key is invalid"), server)
  | some key ↦ with_access host server request client now (route_key host request key now)
]

abbrev pub clients_prefix : Bytes
clients_prefix = codes "/v1/clients/"

abbrev pub rotate_suffix : Bytes
rotate_suffix = codes "/rotate-token"

abbrev pub invalidate_suffix : Bytes
invalidate_suffix = codes "/invalidate-token"

-- The client ID in front of a suffix: `none` where the first occurrence of the suffix is not at the
-- end of the path.
unfoldable pub id_before : Bytes → Bytes → Option Bytes
id_before suffix path = elim (find_text suffix path) [
  | none ↦ none
  | some tail ↦ if str_equal tail suffix then some (take (length path - length tail) path) else none
]

-- The handler of an ID behind the check of its length.
unfoldable pub with_client_id :
    Host → Bytes → (Server → Bytes → Response × Server) → Server → Response × Server
with_client_id host client_id action server =
    if length client_id == 0 || leb client_id_cap (length client_id)
    then (bad_request host.body (codes "client_id is invalid"), server)
    else action server client_id

-- The routes behind the clients, in their order.
unfoldable pub route_admin : Host → Server → Request → ℤ → Response × Server
route_admin host server request now =
    let path = request.request_path in
    if str_equal path (codes "/v1/export")
    then with_method host server request post_method admin now (λ next. handle_export host next now)
    else if str_equal path (codes "/v1/import")
    then with_method host server request post_method admin now
        (λ next. handle_import host next request now)
    else if str_equal path (codes "/v1/purge/all")
    then with_method host server request post_method admin now
        (λ next. handle_purge_all host next now)
    else if str_equal path (codes "/v1/purge/keys")
    then with_method host server request post_method admin now
        (λ next. handle_purge_selected host next request now)
    else (missing host.body (codes "route not found"), server)

-- The routes of one client, behind the prefix.
unfoldable pub route_client : Host → Server → Request → Bytes → ℤ → Response × Server
route_client host server request rest now = elim (id_before rotate_suffix rest) [
  | some client_id ↦
      with_method host server request post_method admin now
        (with_client_id host client_id (λ next id. handle_rotate_client host next id now))
  | none ↦ elim (id_before invalidate_suffix rest) [
    | some client_id ↦
        with_method host server request post_method admin now
          (with_client_id host client_id (λ next id. handle_invalidate_client host next id now))
    | none ↦ route_admin host server request now
  ]
]

unfoldable pub route_clients : Host → Server → Request → ℤ → Response × Server
route_clients host server request now =
    let path = request.request_path in
    let rest = drop (length clients_prefix) path in
    if str_equal path (codes "/v1/clients")
    then with_method host server request post_method admin now
        (λ next. handle_register_client host next request now)
    else if starts_with clients_prefix path && ltb (length clients_prefix) (length path)
    then route_client host server request rest now
    else route_admin host server request now

-- The routes of operators, in front of those of the clients.
unfoldable pub route_operator : Host → Server → Request → ℤ → Response × Server
route_operator host server request now =
    let path = request.request_path in
    if str_equal path (codes "/v1/stats")
    then with_method host server request get_method operator now
        (λ next. (success (build_stats_body host.body next now), next))
    else if str_equal path (codes "/v1/metrics/memory")
    then with_method host server request get_method operator now
        (λ next. (success (build_memory_body host.body next), next))
    else if str_equal path (codes "/v1/uptime")
    then with_method host server request get_method operator now
        (λ next. handle_uptime host next now)
    else if str_equal path (codes "/v1/logs")
    then with_method host server request get_method operator now
        (λ next. handle_logs host next request)
    else route_clients host server request now

abbrev pub count_request_total : Metrics → Metrics
count_request_total m = record m { total_requests = add64 m.total_requests 1 }

-- The two statements before the dispatch.
unfoldable pub received : Server → ℤ → Server
received server now = maybe_sweep (counted count_request_total server) now

-- The dispatch.
unfoldable pub dispatch : Host → Server → Request → ℤ → Response × Server
dispatch host server request now =
    let path = request.request_path in
    if path_is_health path
    then (
      if not (str_equal request.method get_method)
          then method_not_allowed host.body get_method
          else success (build_health_body host.body server now),
      server,
    )
    else if str_equal path (codes "/")
    then (handle_root host request, server)
    else if starts_with cache_prefix path
    then route_cache host server request (drop (length cache_prefix) path) now
    else route_operator host server request now

-- `mp_cache_http_route_request` at the time `now`.
unfoldable pub route_request : Host → Server → Request → ℤ → Response × Server
route_request host server request now = dispatch host (received server now) request now
