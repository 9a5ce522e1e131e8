-- ===== src/Http/Clients.antt =====
-- The handlers of client principals (internal/httpserver/http_server.c).
use mp_cache.Prelude.{Bytes, codes, Option, none, some, [], ◌∷◌, add64, if◌then◌else◌}
use mp_cache.Prelude.Int.{ℤ}
use mp_cache.Security.Roles.{Role, is_role_none, role_name, role_from_string}
use mp_cache.Security.Records.{client_id_cap}
use mp_cache.Security.Tokens as Tokens
use mp_cache.Security.Tokens.{token_text_cap}
use mp_cache.Security.Registry.{
  register_client, rotate_client_token, invalidate_client_token, find_client,
}
use mp_cache.Storage.Journal as Journal
use mp_cache.Http.Json.{done, fail, extract_json_string}
use mp_cache.Http.Request.{Request, body_text}
use mp_cache.Http.Server.{Server, Metrics}
use mp_cache.Http.Response.{
  Response, conflict, make_error, success, bad_request, missing, server_error, printf,
}
use mp_cache.Http.Host.{Host, persist}

-- `record == NULL || (append_client(...) != 0 && resilient_checkpoint(...) != 0)`, negated; then the
-- counter, or the error.
unfoldable pub record_client :
    Host → Server → Bytes → (Metrics → Metrics) → Bytes → Option Bytes → ℤ → Response × Server
record_client host server client_id counted failure body now =
    elim (find_client server.security (some client_id)) [
      | none ↦ (server_error host.body failure, server)
      | some r ↦
          let (kept, next) = persist host server (Journal.upsert r) now in
          if kept
          then (success body, record next { metrics = counted next.metrics })
          else (server_error host.body failure, next)
    ]

abbrev registered : Metrics → Metrics
registered metrics = record metrics { client_registrations = add64 metrics.client_registrations 1 }

abbrev rotated : Metrics → Metrics
rotated metrics = record metrics { token_rotations = add64 metrics.token_rotations 1 }

abbrev invalidated : Metrics → Metrics
invalidated metrics = record metrics { token_invalidations = add64 metrics.token_invalidations 1 }

abbrev or_empty : Option Bytes → Bytes
or_empty none = []
or_empty (some text) = text

abbrev pub register_body : Host → Bytes → Role → Option Bytes → Option Bytes
register_body host client_id role client_token = printf host.body (
    codes "{\"client_id\":\""
    ∷ client_id
    ∷ codes "\",\"role\":\""
    ∷ role_name role
    ∷ codes "\",\"token\":\""
    ∷ or_empty client_token
    ∷ codes "\"}"
    ∷ [])

-- The part of `mp_cache_http_handle_register_client` behind the check of the role.
unfoldable pub register_as : Host → Server → Bytes → Role → ℤ → Response × Server
register_as host server client_id role now =
    let (status, client_token, security) =
      register_client host.registry server.security (some client_id) role (some token_text_cap) in
    let next : Server = record server { security = security } in
    elim status [
      | Tokens.conflict ↦ (
        make_error host.body 409 (codes "Conflict") conflict (codes "client_id already exists") none
            none,
        next,
      )
      | Tokens.ok ↦
          record_client host next client_id registered
            (codes "client was created but persistence failed")
            (register_body host client_id role client_token) now
      | _ ↦ (bad_request host.body (codes "failed to register client"), next)
    ]

-- `mp_cache_http_handle_register_client`.
unfoldable pub handle_register_client : Host → Server → Request → ℤ → Response × Server
handle_register_client host server request now =
    let required : Response × Server =
      (bad_request host.body (codes "client_id and role are required"), server) in
    elim (extract_json_string (body_text request) (codes "client_id") client_id_cap) [
      | fail _ ↦ required
      | done client_id ↦ elim (extract_json_string (body_text request) (codes "role") 16) [
        | fail _ ↦ required
        | done role_text ↦
            let role = role_from_string (some role_text) in
            if is_role_none role
            then (bad_request host.body (codes "role must be client, operator, or admin"), server)
            else register_as host server client_id role now
      ]
    ]

abbrev pub rotate_body : Host → Bytes → Option Bytes → Option Bytes
rotate_body host client_id client_token = printf host.body (
    codes "{\"client_id\":\""
    ∷ client_id
    ∷ codes "\",\"token\":\""
    ∷ or_empty client_token
    ∷ codes "\"}"
    ∷ [])

-- `mp_cache_http_handle_rotate_client`.
unfoldable pub handle_rotate_client : Host → Server → Bytes → ℤ → Response × Server
handle_rotate_client host server client_id now =
    let (status, client_token, security) =
      rotate_client_token host.registry server.security (some client_id) (some token_text_cap) in
    let next : Server = record server { security = security } in
    elim status [
      | Tokens.not_found ↦ (missing host.body (codes "client_id not found"), next)
      | Tokens.ok ↦
          record_client host next client_id rotated
            (codes "token was rotated but persistence failed")
            (rotate_body host client_id client_token) now
      | _ ↦ (bad_request host.body (codes "failed to rotate token"), next)
    ]

abbrev pub invalidate_body : Host → Bytes → Option Bytes
invalidate_body host client_id =
    printf host.body
      (codes "{\"client_id\":\"" ∷ client_id ∷ codes "\",\"token_active\":false}" ∷ [])

-- `mp_cache_http_handle_invalidate_client`.
unfoldable pub handle_invalidate_client : Host → Server → Bytes → ℤ → Response × Server
handle_invalidate_client host server client_id now =
    let (status, security) = invalidate_client_token server.security (some client_id) in
    let next : Server = record server { security = security } in
    elim status [
      | Tokens.not_found ↦ (missing host.body (codes "client_id not found"), next)
      | Tokens.ok ↦
          record_client host next client_id invalidated
            (codes "token was invalidated but persistence failed") (invalidate_body host client_id)
            now
      | _ ↦ (bad_request host.body (codes "failed to invalidate token"), next)
    ]
