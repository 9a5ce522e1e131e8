-- ===== src/Http/Cached.antt =====
-- A value that was put by one request and is fetched by another
-- (internal/httpserver/http_server.c).
use mp_cache.Prelude.{
  ℕ, ◌+◌, ◌*◌, ◌/◌, ◌≡◌, ◌∙◌, refl, sym, ap, true, false, Bytes, codes, some, length, arith,
}
use mp_cache.Prelude.Int.{ℤ, pos, leb_ℤ, ◌+ℤ◌}
use mp_cache.Cache.Entry.{same_key_refl}
use mp_cache.Cache.Store as Cache
use mp_cache.Cache.Store.{set_entry, get_copy}
use mp_cache.Cache.Invariant.{IsValid}
use mp_cache.Cache.Readback.{answer, get_copy-set_entry}
use mp_cache.Crypto.Base64 as Base64
use mp_cache.Crypto.Base64.{base64_groups, base64_encode, base64_decode}
use mp_cache.Storage.Journal.{Change}
use mp_cache.Http.Json.{done, extract_json_string, extract_json_u32}
use mp_cache.Http.Request.{Request, body_text}
use mp_cache.Http.Server.{Server}
use mp_cache.Http.Response.{Response, make_error, success}
use mp_cache.Http.Host.{Host, persist, resilient_checkpoint}
use mp_cache.Http.Handlers.{
  body_capacity, get_body, encode_value, handle_cache_get, record_set, store_value, ttl_of,
  decoded_capacity, decode_and_store, handle_cache_put,
}

-- The value and the time to live that a request asks for.
pub record Asks (server : Server) (request : Request) (value : Bytes) (ttl_seconds : ℕ)
    : Type 0 where
  pub value_base64 : Bytes
  pub field :
      extract_json_string (body_text request) (codes "value_base64") body_capacity
      ≡ done value_base64
  pub decodes : base64_decode value_base64 (decoded_capacity value_base64) ≡ Base64.ok value
  pub lasts :
      ttl_of server (extract_json_u32 (body_text request) (codes "ttl_seconds")) ≡ some ttl_seconds

persist-store :
    (host : Host) (s : Server) (change : Change) (now : ℤ)
    → (persist host s change now).1.store ≡ s.store
unfolding persist resilient_checkpoint
persist-store host s change now = ground arith

module _ (host : Host) (server : Server) (key : Bytes) (now : ℤ) where
  record_set-store :
      (value : Bytes) (ttl_seconds : ℕ)
      → (record_set host server key value ttl_seconds now).1.store ≡ server.store
  unfolding record_set
  record_set-store value ttl_seconds = grind (arith, persist-store)

module _ (host : Host) (server : Server) (key value : Bytes) (ttl_seconds : ℕ) (now : ℤ) where
  abbrev written : Cache.Status × Cache.Store
  written = set_entry host.allocations server.store (some key) (some value) ttl_seconds now

  -- A write that is answered by 200 was stored.
  store_value-ok :
      (store_value host server key value ttl_seconds now).0.status_code ≡ 200
      → (written.0 ≡ Cache.ok)
        × ((store_value host server key value ttl_seconds now).1.store ≡ written.1)
  unfolding store_value make_error
  store_value-ok h = (grind arith, grind (arith, record_set-store))

  put-store_value :
      (request : Request)
      → Asks server request value ttl_seconds
      → (handle_cache_put host server key request now).0.status_code ≡ 200
      → handle_cache_put host server key request now
        ≡ store_value host server key value ttl_seconds now
  unfolding handle_cache_put decode_and_store make_error
  put-store_value request asks h = grind (arith, asks.field, asks.decodes, asks.lasts)

base64_encode-exact :
    (value : Bytes)
    → base64_encode value ((length value + 2) / 3 * 4 + 1) ≡ some (base64_groups value)
unfolding base64_encode
base64_encode-exact value = ground arith

handle_cache_get-found :
    (host : Host) (s : Server) (key value : Bytes) (expires_at now : ℤ)
    → host.copied ≡ true
    → host.encoded ≡ true
    → answer (get_copy true s.store (some key) now) ≡ (Cache.ok, some (value, expires_at))
    → (handle_cache_get host s key now).0
      ≡ success (get_body host key (base64_groups value) (length value) expires_at)
unfolding handle_cache_get encode_value
handle_cache_get-found host s key value expires_at now copied encoded found =
    grind (arith, found, base64_encode-exact value)

-- Where a write of a well-formed store is answered by 200, a read of its key before the time to
-- live is over, with memory for the copies, is answered by 200 with the base64 text of the value,
-- its length and its expiration.
pub handle_cache_get-handle_cache_put :
    (host reader : Host) (server : Server) (key value : Bytes) (request : Request) (ttl_seconds : ℕ)
    (now later : ℤ)
    → IsValid server.store
    → Asks server request value ttl_seconds
    → (handle_cache_put host server key request now).0.status_code ≡ 200
    → leb_ℤ (now +ℤ pos ttl_seconds) later ≡ false
    → reader.copied ≡ true
    → reader.encoded ≡ true
    → (handle_cache_get reader (handle_cache_put host server key request now).1 key later).0
      ≡ success (get_body reader key (base64_groups value) (length value) (now +ℤ pos ttl_seconds))
handle_cache_get-handle_cache_put host reader server key value request ttl_seconds now later valid
      asks put live copied encoded =
    let same = put-store_value host server key value ttl_seconds now request asks put in
    let (stored, kept) =
      store_value-ok host server key value ttl_seconds now
        (ap (λ (r : Response × Server). r.0.status_code) (sym same) ∙ put) in
    let next = (handle_cache_put host server key request now).1 in
    let store : next.store ≡ (written host server key value ttl_seconds now).1 =
      ap (λ (r : Response × Server). r.1.store) same ∙ kept in
    handle_cache_get-found reader next key value (now +ℤ pos ttl_seconds) later copied encoded (
      ap (λ (t : Cache.Store). answer (get_copy true t (some key) later)) store
      ∙ get_copy-set_entry server.store valid host.allocations key value ttl_seconds now stored key
          true later
      ∙ rw (same_key_refl key, live) refl)
