-- ===== src/Http/Serve.antt =====
-- One connection: the bytes that arrive, the request and the bytes that are sent back
-- (internal/httpserver/http_server.c).
use mp_cache.Prelude.{
  ℕ, ◌+◌, ◌-◌, Bool, true, false, Bytes, codes, Option, none, some, [], ◌++◌, length, ltb, take,
  if◌then◌else◌,
}
use mp_cache.Prelude.Int.{ℤ}
use mp_cache.Storage.Records.{until_nul}
use mp_cache.Http.Json.{Outcome, done, fail, einval}
use mp_cache.Http.Request.{Request, head_length, parse_headers, parse_request_buffer}
use mp_cache.Http.Server.{Server}
use mp_cache.Http.Response.{bad_request, write_response}
use mp_cache.Http.Host.{Host}
use mp_cache.Http.Route.{route_request}

abbrev pub request_capacity : ℕ
request_capacity = 65536

-- What successive calls of `recv` have for the server: some bytes each time, until the peer has
-- closed the connection or an error ends it. A call that is interrupted is made again.
pub data Input : Type 0 where
  closed broken : Input
  arrived : Bytes → Input → Input

abbrev found : Option ℕ → Bool
found none = false
found (some n) = true

-- The first loop of `mp_cache_http_read_request`: the buffer, and what is still to come. What does
-- not fit the buffer stays unread, as the loops end when it is full.
unfoldable pub receive_head : ℕ → Bytes → Input → Option (Bytes × Input)
receive_head capacity buffer closed = some (buffer, closed)
receive_head capacity buffer broken =
    if ltb (length buffer + 1) capacity then none else some (buffer, broken)
receive_head capacity buffer (arrived bytes later) =
    let grown = buffer ++ take (capacity - length buffer - 1) bytes in
    elim (ltb (length buffer + 1) capacity) [
      | false ↦ some (buffer, arrived bytes later)
      | true ↦ elim (found (head_length (until_nul grown))) [
        | true ↦ some (grown, later)
        | false ↦ receive_head capacity grown later
      ]
    ]

-- The second loop, up to `wanted` bytes.
unfoldable pub receive_body : ℕ → ℕ → Bytes → Input → Option Bytes
receive_body capacity wanted buffer closed = some buffer
receive_body capacity wanted buffer broken =
    if ltb (length buffer) wanted then none else some buffer
receive_body capacity wanted buffer (arrived bytes later) =
    let grown = buffer ++ take (capacity - length buffer - 1) bytes in
    elim (ltb (length buffer) wanted) [
      | true ↦ receive_body capacity wanted grown later
      | false ↦ some buffer
    ]

-- The part behind the second loop.
unfoldable pub finish_request : ℕ → Option Bytes → Outcome Request
finish_request wanted none = fail einval
finish_request wanted (some buffer) =
    if ltb (length buffer) wanted then fail einval else parse_request_buffer true buffer

-- The part behind the first loop, on a head that has been read.
unfoldable pub receive_rest : ℕ → Bytes → ℕ → Input → Outcome Request
receive_rest capacity buffer header_length later =
    elim (parse_headers (take header_length buffer)) [
      | fail errno ↦ fail errno
      | done request ↦
          if ltb (capacity - header_length - 1) request.content_length
          then fail einval
          else finish_request (header_length + request.content_length)
              (receive_body capacity (header_length + request.content_length) buffer later)
    ]

-- `mp_cache_http_read_request`. The two copies of the head are taken to be allocated, and every
-- failure is the same to the caller.
unfoldable pub read_request : ℕ → Input → Outcome Request
read_request capacity input = elim (receive_head capacity [] input) [
  | none ↦ fail einval
  | some (buffer, later) ↦ elim (head_length (until_nul buffer)) [
    | none ↦ fail einval
    | some header_length ↦ receive_rest capacity buffer header_length later
  ]
]

-- `mp_cache_http_handle_client`: the bytes that are sent, and the server.
unfoldable pub respond : Host → Server → Outcome Request → ℤ → Option Bytes × Server
respond host server (fail errno) now =
    (write_response (bad_request host.body (codes "malformed request")), server)
respond host server (done request) now =
    let (response, next) = route_request host server request now in (write_response response, next)

unfoldable pub handle_client : Host → Server → Input → ℤ → Option Bytes × Server
handle_client host server input now = respond host server (read_request request_capacity input) now
