-- ===== src/Http/Admission.antt =====
-- Which requests the authentication lets in (internal/httpserver/http_server.c).
use mp_cache.Prelude.{
  ◌≤◌, ◌≡◌, ◌≢◌, inl, inr, refl, true, Bool-cases, Bytes, Option, none, some, [], ◌∷◌, leb→le,
  arith, Option-cases,
}
use mp_cache.Prelude.Int.{ℤ}
use mp_cache.Security.Roles.{Role, rank, role_allows}
use mp_cache.Security.Tokens as Tokens
use mp_cache.Security.Tokens.{ok}
use mp_cache.Security.Registry.{Principal, authenticate}
use mp_cache.Http.Request.{Request, extract_bearer_token}
use mp_cache.Http.Server.{Server, rate_limit_allow}
use mp_cache.Http.Response.{Response, make_error}
use mp_cache.Http.Host.{Host}
use mp_cache.Http.Access.{Access, denied, granted, admit, authenticated, authenticate_token}

-- The bearer token of the request belongs to a principal whose role allows the required one.
pub record IsAuthorized (server : Server) (request : Request) (required : Role) : Type 0 where
  pub token : Bytes
  pub principal : Principal
  pub carried : extract_bearer_token request.authorization_header ≡ some token
  pub known : authenticate server.security (some token) ≡ (ok, some principal)
  pub allowed : role_allows principal.role required ≡ true

-- What the program stores is untouched.
pub record Untouched (before after : Server) : Type 0 where
  pub store : after.store ≡ before.store
  pub security : after.security ≡ before.security
  pub files : after.files ≡ before.files

eq_of_authenticated :
    (answer : Tokens.Status × Option Principal) (principal : Principal)
    → authenticated answer ≡ some principal
    → answer ≡ (ok, some principal)
eq_of_authenticated (ok, found) principal e = cc
eq_of_authenticated (_, found) principal e = cc

pub IsAuthorized-mono :
    (server : Server) (request : Request) (lower higher : Role)
    → rank lower ≤ rank higher
    → IsAuthorized server request higher
    → IsAuthorized server request lower
unfolding role_allows
IsAuthorized-mono server request lower higher h a = record {
  token = a.token;
  principal = a.principal;
  carried = a.carried;
  known = a.known;
  allowed = ground (arith, a.allowed, leb→le (rank higher) (rank a.principal.role));
}

-- A refusal leaves what the program stores alone; an admission is authorized.
pub data Admitted (server : Server) (request : Request) (required : Role) : Access → Type 0 where
  shut :
      (response : Response) (next : Server)
      → Untouched server next
      → response.status_code ≢ 200
      → Admitted server request required (denied response next)
  opened :
      (principal : Principal) (next : Server)
      → Untouched server next
      → IsAuthorized server request required
      → Admitted server request required (granted principal next)

pub untouched : (server : Server) → Untouched server server
untouched server = record { store = refl; security = refl; files = refl }

module _ (host : Host) (server : Server) (request : Request) (required : Role) (now : ℤ) where
  admit-Admitted :
      (token : Bytes) (principal : Principal)
      → extract_bearer_token request.authorization_header ≡ some token
      → authenticate server.security (some token) ≡ (ok, some principal)
      → Admitted server request required (admit host server principal required now)
  unfolding admit make_error
  admit-Admitted token principal carried known =
      elim (Bool-cases (role_allows principal.role required)) [
        | inr low ↦
            rw low
              (shut _ _ (record { store = refl; security = refl; files = refl }) (λ e. omega arith))
        | inl high ↦
            elim (Bool-cases
              (rate_limit_allow host.limiter server.config server.rate_limiter principal.client_id
                now).0) [
                  | inr full ↦
                      rw (high, full)
                        (shut _ _ (record { store = refl; security = refl; files = refl })
                          (λ e. omega arith))
                  | inl free ↦
                      rw (high, free)
                        (opened _ _ (record { store = refl; security = refl; files = refl })
                          (record {
                            token = token;
                            principal = principal;
                            carried = carried;
                            known = known;
                            allowed = high;
                          }))
                ]
      ]

  pub token-Admitted :
      (token : Option Bytes)
      → extract_bearer_token request.authorization_header ≡ token
      → Admitted server request required (authenticate_token host server token required now)
  unfolding authenticate_token make_error
  token-Admitted none e =
      shut _ _ (record { store = refl; security = refl; files = refl }) (λ e. omega arith)
  token-Admitted (some []) e =
      shut _ _ (record { store = refl; security = refl; files = refl }) (λ e. omega arith)
  token-Admitted (some (c ∷ rest)) e =
      elim (Option-cases (authenticated (authenticate server.security (some (c ∷ rest))))) [
        | inl unknown ↦
            rw (unknown, authenticate_token)
              (shut _ _ (record { store = refl; security = refl; files = refl }) (λ e. omega arith))
        | inr (principal, found) ↦
            rw (found, authenticate_token)
              (admit-Admitted (c ∷ rest) principal e (eq_of_authenticated _ principal found))
      ]
