-- ===== src/Http/Access.antt =====
-- The authentication of a request (internal/httpserver/http_server.c).
use mp_cache.Prelude.{
  Bool, not, Bytes, codes, Option, none, some, [], ◌∷◌, str_equal, add64, if◌then◌else◌,
}
use mp_cache.Prelude.Int.{ℤ}
use mp_cache.Security.Roles.{Role, role_allows}
use mp_cache.Security.Tokens.{Status, ok}
use mp_cache.Security.Registry.{Principal, authenticate}
use mp_cache.Http.Request.{Request, extract_bearer_token}
use mp_cache.Http.Server.{Server, Metrics, rate_limit_allow}
use mp_cache.Http.Response.{
  Response, forbidden, limit_exceeded, unauthorized, make_error, method_not_allowed,
}
use mp_cache.Http.Host.{Host}

-- A refusal with its response, or the principal, with the server that counted the request.
pub data Access : Type 0 where
  denied : Response → Server → Access
  granted : Principal → Server → Access

abbrev pub counted : (Metrics → Metrics) → Server → Server
counted count server = record server { metrics = count server.metrics }

abbrev pub count_unauthorized : Metrics → Metrics
count_unauthorized m = record m { unauthorized_requests = add64 m.unauthorized_requests 1 }

abbrev pub count_forbidden : Metrics → Metrics
count_forbidden m = record m { forbidden_requests = add64 m.forbidden_requests 1 }

abbrev pub count_rate_limited : Metrics → Metrics
count_rate_limited m = record m { rate_limited_requests = add64 m.rate_limited_requests 1 }

abbrev unauthorized_response : Bool → Bytes → Response
unauthorized_response allocated message =
    make_error allocated 401 (codes "Unauthorized") unauthorized message none
      (some (codes "WWW-Authenticate: Bearer realm=\"mp-cache\"\r\n"))

-- The part of `mp_cache_http_authenticate` behind the check of the token.
unfoldable pub admit : Host → Server → Principal → Role → ℤ → Access
admit host server principal required_role now =
    let (allowed, limiter) =
      rate_limit_allow host.limiter server.config server.rate_limiter principal.client_id now in
    let next : Server = record server { rate_limiter = limiter } in
    if not (role_allows principal.role required_role)
    then denied
        (make_error host.body 403 (codes "Forbidden") forbidden (codes "insufficient role") none
          none)
        (counted count_forbidden server)
    else if not allowed
    then denied
        (make_error host.body 429 (codes "Too Many Requests") limit_exceeded
          (codes "rate limit exceeded") none (some (codes "Retry-After: 60\r\n")))
        (counted count_rate_limited next)
    else granted principal next

-- The principal of an authentication that answered OK.
abbrev pub authenticated : Status × Option Principal → Option Principal
authenticated (ok, principal) = principal
authenticated (_, principal) = none

-- `mp_cache_http_authenticate`.
unfoldable pub authenticate_token : Host → Server → Option Bytes → Role → ℤ → Access
authenticate_token host server none required_role now =
    denied (unauthorized_response host.body (codes "missing bearer token"))
      (counted count_unauthorized server)
authenticate_token host server (some []) required_role now =
    denied (unauthorized_response host.body (codes "missing bearer token"))
      (counted count_unauthorized server)
authenticate_token host server (some (c ∷ rest)) required_role now =
    elim (authenticated (authenticate server.security (some (c ∷ rest)))) [
      | some principal ↦ admit host server principal required_role now
      | none ↦
          denied (unauthorized_response host.body (codes "invalid bearer token"))
            (counted count_unauthorized server)
    ]

unfoldable pub authenticate_request : Host → Server → Request → Role → ℤ → Access
authenticate_request host server request required_role now =
    authenticate_token host server (extract_bearer_token request.authorization_header) required_role
      now

-- `if (authenticate(...) != 0) { return 0; }`, and what follows it.
unfoldable pub with_access :
    Host → Server → Request → Role → ℤ → (Server → Response × Server) → Response × Server
with_access host server request required_role now action =
    elim (authenticate_request host server request required_role now) [
      | denied response next ↦ (response, next)
      | granted principal next ↦ action next
    ]

-- A route with one method.
unfoldable pub with_method :
    Host → Server → Request → Bytes → Role → ℤ → (Server → Response × Server) → Response × Server
with_method host server request method required_role now action =
    if not (str_equal request.method method)
    then (method_not_allowed host.body method, server)
    else with_access host server request required_role now action
