-- ===== src/Http/Request.antt =====
-- The request line, the two headers that count, the target and the whole request
-- (internal/httpserver/http_server.c).
use mp_cache.Prelude.{
  ℕ, ◌+◌, ◌-◌, Bool, true, false, not, ◌&&◌, ◌||◌, Bytes, codes, Option, none, some, List, [], ◌∷◌,
  ◌++◌, length, ltb, leb, ◌==◌, take, drop, if◌then◌else◌, add64,
}
use mp_cache.Text.Scan.{
  is_space, skip_space, starts_with, starts_with_caseless, find_byte, find_text, truncated,
}
use mp_cache.Text.Number.{word32, strtoul}
use mp_cache.Storage.Records.{until_nul}
use mp_cache.Http.Json.{Outcome, done, fail, einval, enoent, enomem, ◌>>=◌}

abbrev pub path_capacity : ℕ
path_capacity = 512

abbrev pub authorization_capacity : ℕ
authorization_capacity = 256

-- `mp_cache_http_request_t`; the body is the bytes up to the announced length.
pub record Request : Type 0 where
  pub method : Bytes
  pub request_target : Bytes
  pub request_path : Bytes
  pub query_string : Bytes
  pub authorization_header : Bytes
  pub content_length : ℕ
  pub request_body : Bytes

abbrev pub blank_request : Request
blank_request = record {
  method = [];
  request_target = [];
  request_path = [];
  query_string = [];
  authorization_header = [];
  content_length = 0;
  request_body = [];
}

-- `mp_cache_http_split_target`: the path and the query.
unfoldable pub split_target : Bytes → Bytes × Bytes
split_target request_target = elim (find_byte b'?' request_target) [
  | none ↦ (truncated path_capacity request_target, [])
  | some separator ↦ (
    truncated path_capacity (take (length request_target - length separator) request_target),
    truncated path_capacity (drop 1 separator),
  )
]

-- The loop of `mp_cache_http_extract_query_u32`; `fresh` says that a parameter starts here.
unfoldable pub query_u32 : Bytes → Bool → Bytes → Outcome ℕ
query_u32 field_name fresh [] = fail enoent
query_u32 field_name fresh (c ∷ rest) =
    let parsed = strtoul (drop (length field_name + 1) (c ∷ rest)) in
    let value : Outcome ℕ = if leb word32 parsed.value then fail einval else done parsed.value in
    let next = query_u32 field_name (c == b'&') rest in
    if fresh && starts_with (field_name ++ b'=' ∷ []) (c ∷ rest) then value else next

unfoldable pub extract_query_u32 : Bytes → Bytes → Outcome ℕ
extract_query_u32 query_string field_name = query_u32 field_name true query_string

abbrev pub is_line_break : ℕ → Bool
is_line_break character = character == b'\r' || character == b'\n'

abbrev pub close_line : Bytes → List Bytes → List Bytes
close_line [] lines = lines
close_line (c ∷ line) lines = (c ∷ line) ∷ lines

-- What `strtok(text, "\r\n")` gives, call by call: the pieces between line breaks that are not
-- empty. The first argument is the piece read so far.
unfoldable pub split_lines : Bytes → Bytes → List Bytes
split_lines line [] = close_line line []
split_lines line (c ∷ rest) = elim (is_line_break c) [
  | true ↦ close_line line (split_lines [] rest)
  | false ↦ split_lines (line ++ c ∷ []) rest
]

-- `%<width>s` of `sscanf`: the word and the text behind it.
unfoldable pub take_word : ℕ → Bytes → Bytes × Bytes
take_word width [] = ([], [])
take_word width (c ∷ rest) =
    let (word, behind) = take_word (width - 1) rest in
    if is_space c || width == 0 then ([], c ∷ rest) else (c ∷ word, behind)

abbrev pub is_empty : Bytes → Bool
is_empty [] = true
is_empty (c ∷ rest) = false

-- `sscanf(line, "%15s %511s", ...)` with both words found.
unfoldable pub scan_request_line : Bytes → Option (Bytes × Bytes)
scan_request_line line =
    let (method, behind) = take_word 15 (skip_space line) in
    let (target, tail) = take_word 511 (skip_space behind) in
    if is_empty method || is_empty target then none else some (method, target)

-- One header line.
unfoldable pub read_header_line : Bytes → Request → Request
read_header_line line request =
    if starts_with_caseless (codes "Content-Length:") line
    then record request { content_length = (strtoul (drop 15 line)).value }
    else if starts_with_caseless (codes "Authorization:") line
    then record request {
      authorization_header = truncated authorization_capacity (skip_space (drop 14 line));
    }
    else request

unfoldable pub read_header_lines : List Bytes → Request → Request
read_header_lines [] request = request
read_header_lines (line ∷ lines) request = read_header_lines lines (read_header_line line request)

abbrev pub with_target : Request → Request
with_target request =
    let (path, query) = split_target request.request_target in
    record request { request_path = path; query_string = query }

-- `mp_cache_http_parse_headers`, on a request that has been zeroed.
unfoldable pub parse_header_lines : List Bytes → Outcome Request
parse_header_lines [] = fail einval
parse_header_lines (line ∷ lines) = elim (scan_request_line line) [
  | none ↦ fail einval
  | some (method, target) ↦ done (
      with_target (
        read_header_lines lines
          (record blank_request { method = method; request_target = target })))
]

unfoldable pub parse_headers : Bytes → Outcome Request
parse_headers headers_text = parse_header_lines (split_lines [] headers_text)

abbrev pub header_end : Bytes
header_end = codes "\r\n\r\n"

-- The length of the head, the empty line included.
unfoldable pub head_length : Bytes → Option ℕ
head_length text = elim (find_text header_end text) [
  | none ↦ none
  | some behind ↦ some (length text - length behind + 4)
]

-- The part of `mp_cache_http_parse_request_buffer` behind the headers: `total_bytes` is the length
-- of the buffer.
unfoldable pub take_body : Bytes → ℕ → Request → Outcome Request
take_body buffer header_length request =
    if ltb (length buffer) (add64 header_length request.content_length)
    then fail einval
    else done
        (record request { request_body = take request.content_length (drop header_length buffer) })

-- `allocated` is the `malloc` of the copy of the head. The search for its end stops at a NUL.
unfoldable pub parse_request_buffer : Bool → Bytes → Outcome Request
parse_request_buffer allocated buffer = elim (head_length (until_nul buffer)) [
  | none ↦ fail einval
  | some header_length ↦ if not allocated then fail enomem else do
    request ← parse_headers (take header_length buffer)
    take_body buffer header_length request
]

-- The body as the C string that the JSON reader gets.
abbrev pub body_text : Request → Option Bytes
body_text request = some (until_nul request.request_body)

-- `mp_cache_http_extract_bearer_token`: NULL, or the text behind the scheme.
unfoldable pub extract_bearer_token : Bytes → Option Bytes
extract_bearer_token authorization_header =
    if starts_with_caseless (codes "Bearer ") authorization_header
    then some (drop 7 authorization_header)
    else none
