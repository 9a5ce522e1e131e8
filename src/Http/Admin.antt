-- ===== src/Http/Admin.antt =====
-- The handlers of logs, exports, imports and the uptime (internal/httpserver/http_server.c).
use mp_cache.Prelude.{ℕ, Bytes, codes, Option, none, some, [], ◌∷◌, add64, if◌then◌else◌}
use mp_cache.Prelude.Int.{ℤ, ◌-ℤ◌}
use mp_cache.Storage.Load.{Files}
use mp_cache.Storage.Exchange.{path_cap, ExportResult, export_state, import_state}
use mp_cache.Text.Number.{decimal, decimal_ℤ}
use mp_cache.Http.Json.{done, fail, enoent, escape_json, extract_json_string}
use mp_cache.Http.Request.{Request, extract_query_u32, body_text}
use mp_cache.Http.Server.{Server}
use mp_cache.Http.Response.{Response, success, bad_request, server_error, printf}
use mp_cache.Http.Host.{Host, state_of, LogTail, no_log, unreadable, log_text}

abbrev read_log : Server → Server
read_log server = record server {
  metrics = record server.metrics { log_reads = add64 server.metrics.log_reads 1 };
}

-- The part of `mp_cache_http_handle_logs` behind the query.
unfoldable pub show_log : Host → Server → ℕ → LogTail → Response × Server
show_log host server tail_lines no_log = (
  success (printf host.body (codes "{\"file\":null,\"tail_lines\":0,\"text\":\"\"}" ∷ [])),
  server,
)
show_log host server tail_lines unreadable =
    (server_error host.body (codes "failed to read logs"), server)
show_log host server tail_lines (log_text name text) = elim (escape_json host.escaped text) [
  | none ↦ (server_error host.body (codes "failed to encode logs"), server)
  | some escaped ↦ (
    success (
        printf host.body (
          codes "{\"file\":\""
          ∷ name
          ∷ codes "\",\"tail_lines\":"
          ∷ decimal tail_lines
          ∷ codes ",\"text\":\""
          ∷ escaped
          ∷ codes "\"}"
          ∷ [])),
    read_log server,
  )
]

-- `mp_cache_http_handle_logs`.
unfoldable pub handle_logs : Host → Server → Request → Response × Server
handle_logs host server request = elim (extract_query_u32 request.query_string (codes "tail")) [
  | done tail_lines ↦ show_log host server tail_lines (host.log_tail tail_lines)
  | fail enoent ↦ show_log host server 50 (host.log_tail 50)
  | fail _ ↦ (bad_request host.body (codes "tail must be a positive integer"), server)
]

abbrev exported : Server → Files → Server
exported server files = record server {
  files = files;
  metrics = record server.metrics { exports = add64 server.metrics.exports 1 };
}

abbrev export_body : Host → ExportResult → Option Bytes
export_body host result = printf host.body (
    codes "{\"path\":\""
    ∷ result.export_path
    ∷ codes "\",\"digest_sha256\":\""
    ∷ result.digest_hex
    ∷ codes "\",\"entry_count\":"
    ∷ decimal result.entry_count
    ∷ codes ",\"client_count\":"
    ∷ decimal result.client_count
    ∷ codes "}"
    ∷ [])

-- `mp_cache_http_handle_export`.
unfoldable pub handle_export : Host → Server → ℤ → Response × Server
handle_export host server now =
    let (result, files) =
      export_state host.exporting server.storage server.exports (state_of server) now
        server.files in
    elim result [
      | none ↦
          (server_error host.body (codes "state export failed"), record server { files = files })
      | some written ↦ (success (export_body host written), exported server files)
    ]

abbrev imported : Server → Server
imported server = record server {
  metrics = record server.metrics { imports = add64 server.metrics.imports 1 };
}

-- `mp_cache_http_handle_import`.
unfoldable pub handle_import : Host → Server → Request → ℤ → Response × Server
handle_import host server request now =
    elim (extract_json_string (body_text request) (codes "path") path_cap) [
      | fail _ ↦ (bad_request host.body (codes "path is required"), server)
      | done import_path ↦
          let (loaded, state, files) =
            import_state host.importing server.storage server.exports import_path (state_of server)
              now server.files in
          let next : Server = record server {
            store = state.store;
            security = state.security;
            files = files;
          } in
          if loaded
          then (
            success (
                printf host.body
                  (codes "{\"path\":\"" ∷ import_path ∷ codes "\",\"imported\":true}" ∷ [])),
            imported next,
          )
          else (
            bad_request host.body (codes "state import failed integrity or bounds checks"),
            next,
          )
    ]

-- `mp_cache_http_handle_uptime`.
unfoldable pub handle_uptime : Host → Server → ℤ → Response × Server
handle_uptime host server now = (
  success (
      printf host.body (
        codes "{\"uptime_seconds\":"
        ∷ decimal_ℤ (now -ℤ server.started_at_utc)
        ∷ codes ",\"started_at_utc_seconds\":"
        ∷ decimal_ℤ server.started_at_utc
        ∷ codes "}"
        ∷ [])),
  server,
)
