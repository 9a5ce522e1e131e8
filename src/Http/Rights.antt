-- ===== src/Http/Rights.antt =====
-- Which requests change the registry of clients (internal/httpserver/http_server.c).
use mp_cache.Prelude.{
  ℕ, ◌≡◌, ◌∙◌, ◌⊎◌, inl, inr, refl, sym, ap, Bool, true, false, Bool-cases, Bytes, some, str_equal,
  Option-cases, if◌then◌else◌, arith,
}
use mp_cache.Prelude.Int.{ℤ}
use mp_cache.Security.Roles.{Role, client, operator, admin}
use mp_cache.Security.Registry.{Security, authenticate}
use mp_cache.Storage.Journal.{Change}
use mp_cache.Text.Scan.{starts_with}
use mp_cache.Http.Percent.{percent_decode}
use mp_cache.Http.Request.{Request}
use mp_cache.Http.Server.{Server, maybe_sweep}
use mp_cache.Http.Response.{Response}
use mp_cache.Http.Host.{Host, persist, resilient_checkpoint, LogTail, no_log, unreadable, log_text}
use mp_cache.Http.Handlers.{
  encode_value, handle_cache_get, record_set, store_value, decode_and_store, handle_cache_put,
  record_delete, handle_cache_delete,
}
use mp_cache.Http.Admin.{show_log, handle_logs, handle_uptime}
use mp_cache.Http.Access.{Access, denied, granted, with_access, with_method, authenticate_request}
use mp_cache.Http.Route.{
  get_method, put_method, delete_method, cache_prefix, key_capacity, key_of, path_is_health,
  route_key, route_cache, route_clients, route_operator, dispatch, received, route_request,
}
use mp_cache.Http.Admission.{Admitted, shut, opened, IsAuthorized, token-Admitted}
use mp_cache.Http.Gates.{Guarded, refused, authorized, at_path, route_clients-Guarded}

-- The registry is untouched.
abbrev Keeps : Server → Response × Server → Type 0
Keeps s r = r.1.security ≡ s.security

branch-Keeps :
    (s : Server) (test : Bool) (r t : Response × Server)
    → Keeps s r
    → Keeps s t
    → Keeps s (if test then r else t)
branch-Keeps s true r t first second = first
branch-Keeps s false r t first second = second

persist-security :
    (host : Host) (s : Server) (change : Change) (now : ℤ)
    → (persist host s change now).1.security ≡ s.security
unfolding persist resilient_checkpoint
persist-security host s change now = ground arith

module _ (host : Host) (key : Bytes) (now : ℤ) where
  encode_value-Keeps : (s : Server) (found : Bytes × ℤ) → Keeps s (encode_value host s key found)
  unfolding encode_value
  encode_value-Keeps s (value, expires_at) = ground arith

  handle_cache_get-Keeps : (s : Server) → Keeps s (handle_cache_get host s key now)
  unfolding handle_cache_get
  handle_cache_get-Keeps s = grind (arith, encode_value-Keeps)

  record_set-Keeps :
      (s : Server) (value : Bytes) (ttl_seconds : ℕ)
      → Keeps s (record_set host s key value ttl_seconds now)
  unfolding record_set
  record_set-Keeps s value ttl_seconds = grind (arith, persist-security)

  record_delete-Keeps : (s : Server) → Keeps s (record_delete host s key now)
  unfolding record_delete
  record_delete-Keeps s = grind (arith, persist-security)

  store_value-Keeps :
      (s : Server) (value : Bytes) (ttl_seconds : ℕ)
      → Keeps s (store_value host s key value ttl_seconds now)
  unfolding store_value
  store_value-Keeps s value ttl_seconds = grind (arith, record_set-Keeps)

  decode_and_store-Keeps :
      (s : Server) (value : Bytes) (ttl_seconds : ℕ)
      → Keeps s (decode_and_store host s key value ttl_seconds now)
  unfolding decode_and_store
  decode_and_store-Keeps s value ttl_seconds = grind (arith, store_value-Keeps)

  handle_cache_put-Keeps :
      (s : Server) (request : Request) → Keeps s (handle_cache_put host s key request now)
  unfolding handle_cache_put
  handle_cache_put-Keeps s request = grind (arith, decode_and_store-Keeps)

  handle_cache_delete-Keeps : (s : Server) → Keeps s (handle_cache_delete host s key now)
  unfolding handle_cache_delete
  handle_cache_delete-Keeps s = grind (arith, record_delete-Keeps)

  route_key-Keeps : (request : Request) (s : Server) → Keeps s (route_key host request key now s)
  unfolding route_key
  route_key-Keeps request s =
      branch-Keeps s (str_equal request.method get_method) _ _ (handle_cache_get-Keeps s) (
        branch-Keeps s (str_equal request.method put_method) _ _ (handle_cache_put-Keeps s request)
          (branch-Keeps s (str_equal request.method delete_method) _ _ (handle_cache_delete-Keeps s)
            refl))

handle_uptime-Keeps : (host : Host) (s : Server) (now : ℤ) → Keeps s (handle_uptime host s now)
unfolding handle_uptime
handle_uptime-Keeps host s now = refl

module _ (host : Host) (s : Server) (request : Request) (now : ℤ) where
  show_log-Keeps : (tail_lines : ℕ) (tail : LogTail) → Keeps s (show_log host s tail_lines tail)
  unfolding show_log
  show_log-Keeps tail_lines no_log = refl
  show_log-Keeps tail_lines unreadable = refl
  show_log-Keeps tail_lines (log_text name text) = ground arith

  handle_logs-Keeps : Keeps s (handle_logs host s request)
  unfolding handle_logs
  handle_logs-Keeps = grind (arith, show_log-Keeps)

module _ (host : Host) (s : Server) (request : Request) (now : ℤ) where
  with_access-Keeps :
      (required : Role) (action : Server → Response × Server)
      → ((next : Server) → Keeps next (action next))
      → Keeps s (with_access host s request required now action)
  unfolding with_access authenticate_request
  with_access-Keeps required action keeps =
      go (authenticate_request host s request required now)
        (token-Admitted host s request required now _ refl)
    where
      go :
          (access : Access)
          → Admitted s request required access
          → Keeps s (elim access [
            | denied response next ↦ (response, next)
            | granted principal next ↦ action next
          ])
      go access (shut response next untouched bad) = untouched.security
      go access (opened principal next untouched a) = keeps next ∙ untouched.security

  with_method-Keeps :
      (method : Bytes) (required : Role) (action : Server → Response × Server)
      → ((next : Server) → Keeps next (action next))
      → Keeps s (with_method host s request method required now action)
  unfolding with_method
  with_method-Keeps method required action keeps =
      elim (Bool-cases (str_equal request.method method)) [
        | inl named ↦ rw named (with_access-Keeps required action keeps)
        | inr other ↦ rw other refl
      ]

  route_cache-Keeps : (encoded : Bytes) → Keeps s (route_cache host s request encoded now)
  unfolding route_cache
  route_cache-Keeps encoded = elim (Option-cases (key_of (percent_decode encoded key_capacity))) [
    | inl invalid ↦ rw (invalid, route_cache) refl
    | inr (key, e) ↦
        rw (e, route_cache)
          (with_access-Keeps client (route_key host request key now)
            (route_key-Keeps host key now request))
  ]

  -- The registry is kept, or an administrator asks.
  abbrev Ruled : Response × Server → Type 0
  Ruled r = Keeps s r ⊎ IsAuthorized s request admin

  branch-Ruled :
      (test : Bool) (r t : Response × Server) → Keeps s r → Ruled t → Ruled (if test then r else t)
  branch-Ruled true r t first second = inl first
  branch-Ruled false r t first second = second

  by_operator :
      (action : Server → Response × Server)
      → ((next : Server) → Keeps next (action next))
      → Keeps s (with_method host s request get_method operator now action)
  by_operator action = with_method-Keeps get_method operator action

  route_clients-Ruled : Ruled (route_clients host s request now)
  route_clients-Ruled = go _ (route_clients-Guarded host s request now)
    where
      go : (r : Response × Server) → Guarded s request admin r → Ruled r
      go r (refused untouched bad) = inl untouched.security
      go r (authorized a) = inr a

  route_operator-Ruled : Ruled (route_operator host s request now)
  unfolding route_operator
  route_operator-Ruled =
      branch-Ruled (at_path request "/v1/stats") _ _ (by_operator _ (λ next. refl)) (
        branch-Ruled (at_path request "/v1/metrics/memory") _ _ (by_operator _ (λ next. refl)) (
          branch-Ruled (at_path request "/v1/uptime") _ _
            (by_operator _ (λ next. handle_uptime-Keeps host next now))
            (branch-Ruled (at_path request "/v1/logs") _ _
              (by_operator _ (λ next. handle_logs-Keeps host next request now))
              route_clients-Ruled)))

  dispatch-Ruled : Ruled (dispatch host s request now)
  unfolding dispatch
  dispatch-Ruled = branch-Ruled (path_is_health request.request_path) _ _ refl (
      branch-Ruled (at_path request "/") _ _ refl (
        branch-Ruled (starts_with cache_prefix request.request_path) _ _ (route_cache-Keeps _)
          route_operator-Ruled))

received-security : (s : Server) (now : ℤ) → (received s now).security ≡ s.security
unfolding received maybe_sweep
received-security s now = ground arith

-- A request that changes the registry of clients carries the bearer token of a principal that the
-- registry knew as an administrator before.
pub route_request-administrator :
    (host : Host) (server : Server) (request : Request) (now : ℤ)
    → ((route_request host server request now).1.security ≡ server.security)
      ⊎ IsAuthorized server request admin
unfolding route_request
route_request-administrator host server request now =
    elim (dispatch-Ruled host (received server now) request now) [
      | inl kept ↦ inl (kept ∙ received-security server now)
      | inr a ↦ inr (record {
        token = a.token;
        principal = a.principal;
        carried = a.carried;
        known =
            ap (λ (t : Security). authenticate t (some a.token))
              (sym (received-security server now))
            ∙ a.known;
        allowed = a.allowed;
      })
    ]
