-- ===== src/Http/Purges.antt =====
-- The handlers of purges (internal/httpserver/http_server.c).
use mp_cache.Prelude.{
  ℕ, ◌+◌, Bool, true, false, not, ◌&&◌, ◌||◌, Bytes, codes, Option, some, List, [], ◌∷◌, length,
  ltb, ◌==◌, add64, if◌then◌else◌,
}
use mp_cache.Prelude.Int.{ℤ}
use mp_cache.Cache.Store as Cache
use mp_cache.Cache.Store.{Store, delete}
use mp_cache.Cache.Walk.{clear}
use mp_cache.Storage.Journal as Journal
use mp_cache.Storage.Load.{Files}
use mp_cache.Storage.Persist.{append_change}
use mp_cache.Text.Number.{decimal}
use mp_cache.Http.Json.{done, fail}
use mp_cache.Http.Items.{extract_json_string_array}
use mp_cache.Http.Request.{Request, body_text}
use mp_cache.Http.Server.{Server}
use mp_cache.Http.Response.{Response, success, bad_request, server_error, printf}
use mp_cache.Http.Host.{Host, persist, resilient_checkpoint}

-- The first loop of `mp_cache_http_handle_purge_selected`.
unfoldable pub keys_are_valid : ℕ → List Bytes → Bool
keys_are_valid max_key_bytes [] = true
keys_are_valid max_key_bytes (key ∷ keys) =
    not (length key == 0 || ltb max_key_bytes (length key)) && keys_are_valid max_key_bytes keys

-- The variables of the second loop.
pub record Purging : Type 0 where
  pub store : Store
  pub files : Files
  pub purged_key_count : ℕ
  pub missing_key_count : ℕ
  pub needs_checkpoint : Bool

-- A key that was deleted: the journal gets it unless an append has failed before.
unfoldable pub note_purged : Host → Server → Bytes → Store → Purging → Purging
note_purged host server key store purging =
    let appended =
      append_change (host.appending purging.purged_key_count) server.storage (Journal.remove key)
        purging.files in
    let counted : Purging = record purging {
      store = store;
      purged_key_count = purging.purged_key_count + 1;
    } in
    if purging.needs_checkpoint
    then counted
    else record counted { files = appended.1; needs_checkpoint = not appended.0 }

-- One round behind the deletion, and whether the loop goes on.
unfoldable pub after_delete :
    Host → Server → Bytes → Purging → Cache.Status × Store → Bool × Purging
after_delete host server key purging (Cache.not_found, store) =
    (true, record purging { missing_key_count = purging.missing_key_count + 1 })
after_delete host server key purging (Cache.ok, store) =
    (true, note_purged host server key store purging)
after_delete host server key purging (_, store) = (false, purging)

abbrev pub purge_key : Host → Server → Bytes → Purging → Bool × Purging
purge_key host server key purging =
    after_delete host server key purging (delete purging.store (some key))

-- The second loop, and whether it ran to its end.
unfoldable pub purge_keys : Host → Server → List Bytes → Purging → Bool × Purging
purge_keys host server [] purging = (true, purging)
purge_keys host server (key ∷ keys) purging =
    let (goes_on, next) = purge_key host server key purging in
    let rest = purge_keys host server keys next in if goes_on then rest else (false, next)

abbrev purged_server : Server → Purging → Server
purged_server server purging = record server { store = purging.store; files = purging.files }

abbrev purge_body : Host → ℕ → Purging → Option Bytes
purge_body host request_key_count purging = printf host.body (
    codes "{\"requested_keys\":"
    ∷ decimal request_key_count
    ∷ codes ",\"purged_keys\":"
    ∷ decimal purging.purged_key_count
    ∷ codes ",\"missing_keys\":"
    ∷ decimal purging.missing_key_count
    ∷ codes "}"
    ∷ [])

abbrev count_purged : ℕ → Server → Server
count_purged n server = record server {
  metrics = record server.metrics { cache_deletes = add64 server.metrics.cache_deletes n };
}

-- The part behind the loops.
unfoldable pub finish_purge : Host → Server → ℕ → Purging → ℤ → Response × Server
finish_purge host server request_key_count purging now =
    let next = purged_server server purging in
    let saved = resilient_checkpoint host next now in
    let last = if purging.needs_checkpoint then saved.1 else next in
    if purging.needs_checkpoint && not saved.0
    then (server_error host.body (codes "selected keys were purged but persistence failed"), last)
    else (
      success (purge_body host request_key_count purging),
      count_purged purging.purged_key_count last,
    )

abbrev pub start_purge : Server → Purging
start_purge server = record {
  store = server.store;
  files = server.files;
  purged_key_count = 0;
  missing_key_count = 0;
  needs_checkpoint = false;
}

unfoldable pub purge_selected : Host → Server → List Bytes → ℤ → Response × Server
purge_selected host server keys now =
    if length keys == 0
    then (bad_request host.body (codes "keys must be a non-empty string array"), server)
    else if not (keys_are_valid server.config.max_key_bytes keys)
    then (bad_request host.body (codes "keys must contain only valid cache keys"), server)
    else let (complete, purging) = purge_keys host server keys (start_purge server) in
      if complete then finish_purge host server (length keys) purging now else (
        server_error host.body (codes "selected key purge failed"),
        purged_server server purging,
      )

-- `mp_cache_http_handle_purge_selected`.
unfoldable pub handle_purge_selected : Host → Server → Request → ℤ → Response × Server
handle_purge_selected host server request now =
    let required : Response × Server =
      (bad_request host.body (codes "keys must be a non-empty string array"), server) in
    if length request.request_body == 0
    then required
    else elim (extract_json_string_array host.keys (body_text request) (codes "keys")) [
      | fail _ ↦ required
      | done keys ↦ purge_selected host server keys now
    ]

-- `mp_cache_http_handle_purge_all`.
unfoldable pub handle_purge_all : Host → Server → ℤ → Response × Server
handle_purge_all host server now =
    let cleared : Server = record server { store = clear server.store } in
    let (kept, next) = persist host cleared Journal.purge_all now in
    if kept
    then (success (printf host.body (codes "{\"purged\":true}" ∷ [])), next)
    else (server_error host.body (codes "cache was purged but persistence failed"), next)
