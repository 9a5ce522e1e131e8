-- ===== src/Http/Handlers.antt =====
-- The handlers of one cache key (internal/httpserver/http_server.c). A key is a C string, of which
-- the store gets the bytes before the first NUL.
use mp_cache.Prelude.{
  ℕ, ◌+◌, ◌*◌, ◌/◌, not, ◌||◌, Bytes, codes, Option, none, some, [], ◌∷◌, length, ltb, ◌==◌, add64,
  if◌then◌else◌,
}
use mp_cache.Prelude.Int.{ℤ, pos, ◌+ℤ◌}
use mp_cache.Cache.Store as Cache
use mp_cache.Cache.Store.{set_entry, get_copy, delete}
use mp_cache.Crypto.Base64 as Base64
use mp_cache.Crypto.Base64.{base64_encode, base64_decode}
use mp_cache.Storage.Journal as Journal
use mp_cache.Text.Number.{decimal, decimal_ℤ}
use mp_cache.Http.Json.{Outcome, done, fail, enoent, extract_json_string, extract_json_u32}
use mp_cache.Http.Request.{Request, body_text}
use mp_cache.Http.Server.{Server}
use mp_cache.Http.Response.{
  Response, limit_exceeded, make_error, success, bad_request, missing, server_error, printf,
}
use mp_cache.Http.Host.{Host, persist}

abbrev pub body_capacity : ℕ
body_capacity = 32768

abbrev hit : Server → Server
hit server = record server {
  metrics = record server.metrics { cache_hits = add64 server.metrics.cache_hits 1 };
}

abbrev missed : Server → Server
missed server = record server {
  metrics = record server.metrics { cache_misses = add64 server.metrics.cache_misses 1 };
}

abbrev pub get_body : Host → Bytes → Bytes → ℕ → ℤ → Option Bytes
get_body host key value_base64 value_length expires_at = printf host.body (
    codes "{\"key\":\""
    ∷ key
    ∷ codes "\",\"value_base64\":\""
    ∷ value_base64
    ∷ codes "\",\"value_bytes\":"
    ∷ decimal value_length
    ∷ codes ",\"expires_at_utc_seconds\":"
    ∷ decimal_ℤ expires_at
    ∷ codes "}"
    ∷ [])

-- The answer with a copied value.
unfoldable pub encode_value : Host → Server → Bytes → Bytes × ℤ → Response × Server
encode_value host server key (value, expires_at) =
    elim (base64_encode value ((length value + 2) / 3 * 4 + 1)) [
      | none ↦ (server_error host.body (codes "value encoding failed"), server)
      | some value_base64 ↦
          if not host.encoded
          then (server_error host.body (codes "value encoding failed"), server)
          else (success (get_body host key value_base64 (length value) expires_at), hit server)
    ]

-- `mp_cache_http_handle_cache_get`.
unfoldable pub handle_cache_get : Host → Server → Bytes → ℤ → Response × Server
handle_cache_get host server key now =
    let (status, copy, store) = get_copy host.copied server.store (some key) now in
    let read : Server = record server { store = store } in
    elim status [
      | Cache.not_found ↦ (missing host.body (codes "cache key not found"), missed read)
      | Cache.expired ↦ (missing host.body (codes "cache key not found"), missed read)
      | Cache.ok ↦ elim copy [
        | none ↦ (server_error host.body (codes "cache read failed"), read)
        | some found ↦ encode_value host read key found
      ]
      | _ ↦ (server_error host.body (codes "cache read failed"), read)
    ]

abbrev count_set : Server → Server
count_set server = record server {
  metrics = record server.metrics { cache_sets = add64 server.metrics.cache_sets 1 };
}

abbrev pub put_body : Host → Bytes → ℕ → ℤ → Option Bytes
put_body host key ttl_seconds expires_at = printf host.body (
    codes "{\"key\":\""
    ∷ key
    ∷ codes "\",\"ttl_seconds\":"
    ∷ decimal ttl_seconds
    ∷ codes ",\"expires_at_utc_seconds\":"
    ∷ decimal_ℤ expires_at
    ∷ codes "}"
    ∷ [])

-- The part of `mp_cache_http_handle_cache_put` behind a write that answered OK.
unfoldable pub record_set : Host → Server → Bytes → Bytes → ℕ → ℤ → Response × Server
record_set host server key value ttl_seconds now =
    let expires_at = now +ℤ pos ttl_seconds in
    let change =
      Journal.set (record { key = key; value = value; expires_at_utc_seconds = expires_at }) in
    let (kept, next) = persist host server change now in
    if kept
    then (success (put_body host key ttl_seconds expires_at), count_set next)
    else (server_error host.body (codes "cache was updated but persistence failed"), next)

-- The part behind the checks of the request.
unfoldable pub store_value : Host → Server → Bytes → Bytes → ℕ → ℤ → Response × Server
store_value host server key value ttl_seconds now =
    let (status, store) =
      set_entry host.allocations server.store (some key) (some value) ttl_seconds now in
    let next : Server = record server { store = store } in
    elim status [
      | Cache.limit_exceeded ↦ (
        make_error host.body 413 (codes "Payload Too Large") limit_exceeded
            (codes "cache size limit exceeded") none none,
        next,
      )
      | Cache.ok ↦ record_set host next key value ttl_seconds now
      | _ ↦ (server_error host.body (codes "cache write failed"), next)
    ]

-- The time to live of a request: the field, or the default where there is none.
unfoldable pub ttl_of : Server → Outcome ℕ → Option ℕ
ttl_of server (done ttl_seconds) = some ttl_seconds
ttl_of server (fail enoent) = some server.config.default_ttl_seconds
ttl_of server (fail _) = none

abbrev pub decoded_capacity : Bytes → ℕ
decoded_capacity value_base64 = length value_base64 / 4 * 3 + 3

unfoldable pub decode_and_store : Host → Server → Bytes → Bytes → ℕ → ℤ → Response × Server
decode_and_store host server key value_base64 ttl_seconds now =
    if not host.decoded
    then (bad_request host.body (codes "value_base64 is invalid"), server)
    else elim (base64_decode value_base64 (decoded_capacity value_base64)) [
      | Base64.ok value ↦ store_value host server key value ttl_seconds now
      | _ ↦ (bad_request host.body (codes "value_base64 is invalid"), server)
    ]

-- `mp_cache_http_handle_cache_put`.
unfoldable pub handle_cache_put : Host → Server → Bytes → Request → ℤ → Response × Server
handle_cache_put host server key request now =
    if length request.request_body == 0
    then (bad_request host.body (codes "value_base64 is required"), server)
    else elim (extract_json_string (body_text request) (codes "value_base64") body_capacity) [
      | fail errno ↦ (bad_request host.body (codes "value_base64 is required"), server)
      | done value_base64 ↦
          elim (ttl_of server (extract_json_u32 (body_text request) (codes "ttl_seconds"))) [
            | none ↦ (bad_request host.body (codes "ttl_seconds must be an integer"), server)
            | some ttl_seconds ↦
                if ltb ttl_seconds server.config.min_ttl_seconds
                  || ltb server.config.max_ttl_seconds ttl_seconds
                then (
                  bad_request host.body (codes "ttl_seconds is outside the configured bounds"),
                  server,
                )
                else decode_and_store host server key value_base64 ttl_seconds now
          ]
    ]

abbrev count_deletes : ℕ → Server → Server
count_deletes n server = record server {
  metrics = record server.metrics { cache_deletes = add64 server.metrics.cache_deletes n };
}

-- The part of `mp_cache_http_handle_cache_delete` behind a deletion that answered OK.
unfoldable pub record_delete : Host → Server → Bytes → ℤ → Response × Server
record_delete host server key now =
    let (kept, next) = persist host server (Journal.remove key) now in
    if kept
    then (
      success (printf host.body (codes "{\"key\":\"" ∷ key ∷ codes "\",\"deleted\":true}" ∷ [])),
      count_deletes 1 next,
    )
    else (server_error host.body (codes "cache was deleted but persistence failed"), next)

-- `mp_cache_http_handle_cache_delete`.
unfoldable pub handle_cache_delete : Host → Server → Bytes → ℤ → Response × Server
handle_cache_delete host server key now =
    let (status, store) = delete server.store (some key) in
    let next : Server = record server { store = store } in
    elim status [
      | Cache.not_found ↦ (missing host.body (codes "cache key not found"), next)
      | Cache.ok ↦ record_delete host next key now
      | _ ↦ (server_error host.body (codes "cache delete failed"), next)
    ]
