-- ===== src/Http/Gates.antt =====
-- Which requests reach a handler (internal/httpserver/http_server.c).
use mp_cache.Prelude.{
  ℕ, ◌≤◌, ◌<◌, ◌≡◌, ◌≢◌, inl, inr, refl, Bool, true, false, ◌||◌, Bool-cases, Bytes, codes, Option,
  str_equal, arith, Option-cases, if◌then◌else◌,
}
use Prim.Native.String.{String}
use mp_cache.Prelude.Int.{ℤ}
use mp_cache.Security.Roles.{Role, client, operator, admin, rank}
use mp_cache.Text.Scan.{starts_with}
use mp_cache.Http.Percent.{percent_decode}
use mp_cache.Http.Request.{Request}
use mp_cache.Http.Server.{Server}
use mp_cache.Http.Response.{Response, make_error}
use mp_cache.Http.Host.{Host}
use mp_cache.Http.Access.{Access, denied, granted, authenticate_request, with_access, with_method}
use mp_cache.Http.Route.{
  cache_prefix, key_capacity, key_of, path_is_health, route_cache, route_admin, route_client,
  route_clients, route_operator, dispatch, received, route_request, id_before, rotate_suffix,
  invalidate_suffix,
}
use mp_cache.Http.Admission.{
  IsAuthorized, IsAuthorized-mono, Untouched, untouched, Admitted, shut, opened, token-Admitted,
}

-- A request that is not authorized changes nothing and is not answered by 200.
pub data Guarded (server : Server) (request : Request) (required : Role) (r : Response × Server)
    : Type 0 where
  refused : Untouched server r.1 → r.0.status_code ≢ 200 → Guarded server request required r
  authorized : IsAuthorized server request required → Guarded server request required r

Guarded-mono :
    (server : Server) (request : Request) (lower higher : Role) (r : Response × Server)
    → rank lower ≤ rank higher
    → Guarded server request higher r
    → Guarded server request lower r
Guarded-mono server request lower higher r h (refused same bad) = refused same bad
Guarded-mono server request lower higher r h (authorized a) =
    authorized (IsAuthorized-mono server request lower higher h a)

module _ (host : Host) (server : Server) (request : Request) (required : Role) (now : ℤ) where
  with_access-Guarded :
      (action : Server → Response × Server)
      → Guarded server request required (with_access host server request required now action)
  unfolding with_access authenticate_request
  with_access-Guarded action =
      go (authenticate_request host server request required now)
        (token-Admitted host server request required now _ refl)
    where
      go :
          (access : Access)
          → Admitted server request required access
          → Guarded server request required (elim access [
            | denied response next ↦ (response, next)
            | granted principal next ↦ action next
          ])
      go access (shut response next kept bad) = refused kept bad
      go access (opened principal next kept a) = authorized a

  with_method-Guarded :
      (method : Bytes) (action : Server → Response × Server)
      → Guarded server request required (with_method host server request method required now action)
  unfolding with_method make_error
  with_method-Guarded method action = elim (Bool-cases (str_equal request.method method)) [
    | inl named ↦ rw named (with_access-Guarded action)
    | inr other ↦ rw other (refused (untouched server) (λ e. omega arith))
  ]

  error-Guarded :
      (code : ℕ) (text error message : Bytes) (allow extra : Option Bytes)
      → 200 < code
      → Guarded server request required
          (make_error host.body code text error message allow extra, server)
  unfolding make_error
  error-Guarded code text error message allow extra h =
      refused (untouched server) (λ e. omega arith)

  branch :
      (test : Bool) {r t : Response × Server}
      → Guarded server request required r
      → Guarded server request required t
      → Guarded server request required (if test then r else t)
  branch true first second = first
  branch false first second = second

abbrev pub at_path : Request → String → Bool
at_path request text = str_equal request.request_path (codes text)

module _ (host : Host) (server : Server) (request : Request) (now : ℤ) where
  by_method :
      (method : Bytes) (required : Role) (action : Server → Response × Server)
      → Guarded server request required (with_method host server request method required now action)
  by_method method required action =
      with_method-Guarded host server request required now method action

  route_admin-Guarded : Guarded server request admin (route_admin host server request now)
  unfolding route_admin
  route_admin-Guarded =
      branch host server request admin now (at_path request "/v1/export") (by_method _ admin _) (
        branch host server request admin now (at_path request "/v1/import") (by_method _ admin _) (
          branch host server request admin now (at_path request "/v1/purge/all")
            (by_method _ admin _)
            (branch host server request admin now (at_path request "/v1/purge/keys")
              (by_method _ admin _)
              (error-Guarded host server request admin now 404 _ _ _ _ _ (omega arith)))))

  route_client-Guarded :
      (rest : Bytes) → Guarded server request admin (route_client host server request rest now)
  unfolding route_client
  route_client-Guarded rest = elim (Option-cases (id_before rotate_suffix rest)) [
    | inr (client_id, e) ↦ rw (e, route_client) (by_method _ admin _)
    | inl other ↦ elim (Option-cases (id_before invalidate_suffix rest)) [
      | inr (client_id, e) ↦ rw (other, e, route_client) (by_method _ admin _)
      | inl none_of_them ↦ rw (other, none_of_them, route_client) route_admin-Guarded
    ]
  ]

  pub route_clients-Guarded : Guarded server request admin (route_clients host server request now)
  unfolding route_clients
  route_clients-Guarded =
      branch host server request admin now _ (by_method _ admin _)
        (branch host server request admin now _ (route_client-Guarded _) route_admin-Guarded)

  route_operator-Guarded : Guarded server request operator (route_operator host server request now)
  unfolding route_operator
  route_operator-Guarded =
      branch host server request operator now (at_path request "/v1/stats") (by_method _ operator _)
        (branch host server request operator now (at_path request "/v1/metrics/memory")
          (by_method _ operator _)
          (branch host server request operator now (at_path request "/v1/uptime")
            (by_method _ operator _)
            (branch host server request operator now (at_path request "/v1/logs")
              (by_method _ operator _)
              (Guarded-mono server request operator admin _ (omega arith) route_clients-Guarded))))

  route_cache-Guarded :
      (encoded : Bytes)
      → Guarded server request client (route_cache host server request encoded now)
  unfolding route_cache
  route_cache-Guarded encoded = elim (Option-cases (key_of (percent_decode encoded key_capacity))) [
    | inl invalid ↦
        rw (invalid, route_cache)
          (error-Guarded host server request client now 400 _ _ _ _ _ (omega arith))
    | inr (key, e) ↦ rw (e, route_cache) (with_access-Guarded host server request client now _)
  ]

-- The paths that need no token.
abbrev pub is_public : Bytes → Bool
is_public path = path_is_health path || str_equal path (codes "/")

-- A request for another path than the health and the root either carries the bearer token of a
-- known principal whose role allows that of a client, or it is not answered by 200 and, after the
-- sweep, leaves the cache, the registry and the files as they are.
pub route_request-Guarded :
    (host : Host) (server : Server) (request : Request) (now : ℤ)
    → is_public request.request_path ≡ false
    → Guarded (received server now) request client (route_request host server request now)
unfolding route_request dispatch
route_request-Guarded host server request now private =
    let s = received server now in
    let health : path_is_health request.request_path ≡ false = ground (arith, private) in
    let root : str_equal request.request_path (codes "/") ≡ false = ground (arith, private) in
    rw (health, root)
      (branch host s request client now (starts_with cache_prefix request.request_path)
        (route_cache-Guarded host s request now _)
        (Guarded-mono s request client operator _ (omega arith)
          (route_operator-Guarded host s request now)))
