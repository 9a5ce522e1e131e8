-- ===== src/Http/Host.antt =====
-- What the host answers one request of internal/httpserver/http_server.c, and how a handler records
-- a change.
use mp_cache.Prelude.{ℕ, Bool, true, Bytes, if◌then◌else◌}
use mp_cache.Prelude.Int.{ℤ}
use mp_cache.Cache.Store.{Allocations}
use mp_cache.Security.Registry as Registry
use mp_cache.Storage.Records.{State}
use mp_cache.Storage.Journal.{Change}
use mp_cache.Storage.Persist.{Appending, append_change, Saving, save_checkpoint}
use mp_cache.Storage.Exchange.{Exporting, Importing}
use mp_cache.Http.Items.{Grants}
use mp_cache.Http.Server.{Server}

-- `mp_cache_log_read_latest_tail`: no log file, another failure, or the name and the text.
pub data LogTail : Type 0 where
  no_log unreadable : LogTail
  log_text : Bytes → Bytes → LogTail

-- The `malloc` of the response body, of the copy of a value, of its base64 text, of the decoded
-- value and of the escaped log; the memory of a write, of the registry and of the rate limiter; the
-- appends to the journal in their order, and the checkpoint; and what the other parts ask for.
pub record Host : Type 0 where
  pub body : Bool
  pub copied : Bool
  pub encoded : Bool
  pub decoded : Bool
  pub escaped : Bool
  pub allocations : Allocations
  pub registry : Registry.Host
  pub limiter : Bool
  pub keys : Grants
  pub appending : ℕ → Appending
  pub saving : Saving
  pub exporting : Exporting
  pub importing : Importing
  pub log_tail : ℕ → LogTail

abbrev pub state_of : Server → State
state_of server = record { store = server.store; security = server.security }

-- `mp_cache_http_resilient_checkpoint`.
unfoldable pub resilient_checkpoint : Host → Server → ℤ → Bool × Server
resilient_checkpoint host server now =
    let saved = save_checkpoint host.saving server.storage (state_of server) now server.files in
    (saved.0, record server { files = saved.1 })

-- `append(...) != 0 && resilient_checkpoint(...) != 0`, negated.
unfoldable pub persist : Host → Server → Change → ℤ → Bool × Server
persist host server change now =
    let appended = append_change (host.appending 0) server.storage change server.files in
    let kept : Server = record server { files = appended.1 } in
    if appended.0 then (true, kept) else resilient_checkpoint host kept now
