-- ===== src/Tests/HandlerTests.antt =====
-- Handlers and readers of request bodies on a small server (tests/unit/http_tests.c).
use mp_cache.Prelude.{
  ◌≡◌, ◌≤◌, refl, true, false, Bytes, codes, Option, none, some, List, [], ◌∷◌, ◌++◌, ◌==◌, length,
  arith, All, ℕ, Bool,
}
use mp_cache.Prelude.Int.{ℤ, pos, ◌+ℤ◌, leb_ℤ}
use mp_cache.Crypto.Base64.{base64_groups}
use mp_cache.Http.Request.{Request, blank_request}
use mp_cache.Http.Server.{Server}
use mp_cache.Http.Response.{success}
use mp_cache.Http.Handlers.{get_body, handle_cache_get, handle_cache_put}
use mp_cache.Http.Cached.{Asks, handle_cache_get-handle_cache_put}
use mp_cache.Http.Purges.{keys_are_valid, purge_selected}
use mp_cache.Http.Purged.{Lacks, purge_selected-Lacks}
use mp_cache.Tests.CacheTests.{fresh_store, fresh_store-IsValid, key_a, key_b}
use mp_cache.Tests.ServerTests.{server, host}

abbrev keys : List Bytes
keys = key_a ∷ key_b ∷ []

keys_fit : keys_are_valid server.config.max_key_bytes keys ≡ true
unfolding keys_are_valid mp_cache.Http.Server.start
keys_fit = refl

purge_selected-Lacks_example :
    Lacks server.store (purge_selected host server keys (pos 101)).1.store keys
unfolding mp_cache.Http.Server.start
purge_selected-Lacks_example =
    purge_selected-Lacks host server keys (pos 101) fresh_store-IsValid refl keys_fit

server_program : Unit {0}
unfolding mp_cache.Text.Scan.is_space mp_cache.Text.Scan.is_digit mp_cache.Text.Scan.skip_space
    mp_cache.Text.Scan.starts_with mp_cache.Text.Scan.to_lower
    mp_cache.Text.Scan.starts_with_caseless mp_cache.Text.Scan.find_byte
    mp_cache.Text.Scan.find_text mp_cache.Text.Scan.truncated mp_cache.Text.Number.read_digits
    mp_cache.Text.Number.convert mp_cache.Text.Number.strtoul_signed mp_cache.Text.Number.strtoul
    mp_cache.Text.Number.digits_on mp_cache.Text.Number.decimal mp_cache.Text.Number.decimal_ℤ
    mp_cache.Http.Json.escape_byte mp_cache.Http.Json.escape_all mp_cache.Http.Json.escape_json
    mp_cache.Http.Json.find_json_field mp_cache.Http.Json.unescape mp_cache.Http.Json.read_string
    mp_cache.Http.Json.field_value mp_cache.Http.Json.read_value
    mp_cache.Http.Json.extract_json_string mp_cache.Http.Json.read_u32
    mp_cache.Http.Json.extract_json_u32 mp_cache.Http.Request.split_target
    mp_cache.Http.Request.query_u32 mp_cache.Http.Request.extract_query_u32
    mp_cache.Http.Request.split_lines mp_cache.Http.Request.take_word
    mp_cache.Http.Request.scan_request_line mp_cache.Http.Request.read_header_line
    mp_cache.Http.Request.read_header_lines mp_cache.Http.Request.parse_header_lines
    mp_cache.Http.Request.parse_headers mp_cache.Http.Request.head_length
    mp_cache.Http.Request.take_body mp_cache.Http.Request.parse_request_buffer
    mp_cache.Http.Request.extract_bearer_token mp_cache.Http.Server.start
    mp_cache.Http.Server.maybe_sweep mp_cache.Http.Server.find_entry
    mp_cache.Http.Server.write_entry mp_cache.Http.Server.renewed mp_cache.Http.Server.count_request
    mp_cache.Http.Server.rate_limit_allow mp_cache.Http.Response.error_code_is_defined
    mp_cache.Http.Response.error_body mp_cache.Http.Response.make_error
    mp_cache.Http.Response.build_health_body mp_cache.Http.Response.build_stats_body
    mp_cache.Http.Response.build_memory_body mp_cache.Http.Response.write_response
    mp_cache.Http.Host.resilient_checkpoint mp_cache.Http.Host.persist
    mp_cache.Http.Handlers.encode_value mp_cache.Http.Handlers.handle_cache_get
    mp_cache.Http.Handlers.record_set mp_cache.Http.Handlers.store_value
    mp_cache.Http.Handlers.ttl_of mp_cache.Http.Handlers.decode_and_store
    mp_cache.Http.Handlers.handle_cache_put mp_cache.Http.Handlers.record_delete
    mp_cache.Http.Handlers.handle_cache_delete mp_cache.Storage.Persist.append_journal
    mp_cache.Storage.Persist.append_change mp_cache.Storage.Persist.save_checkpoint
    mp_cache.Storage.Records.entry_parts mp_cache.Storage.Records.read_entry
    mp_cache.Storage.Records.client_parts mp_cache.Storage.Records.until_nul
    mp_cache.Storage.Records.read_active mp_cache.Storage.Records.read_client
    mp_cache.Storage.Records.restore_live mp_cache.Storage.Records.restore_client
    mp_cache.Storage.Journal.op_parts mp_cache.Storage.Journal.build_journal_payload
    mp_cache.Storage.Journal.change_payload mp_cache.Storage.Journal.read_header
    mp_cache.Storage.Journal.read_key mp_cache.Storage.Journal.apply_operation
    mp_cache.Storage.Journal.apply_journal_payload mp_cache.Storage.Packet.build_packet
    mp_cache.Storage.Packet.open_packet mp_cache.Storage.Packet.read_packet
    mp_cache.Storage.Packet.read_packet_stream mp_cache.Storage.Packet.read_packet_file
    mp_cache.Crypto.Base64.base64_char mp_cache.Crypto.Base64.base64_groups
    mp_cache.Crypto.Base64.base64_encode mp_cache.Crypto.Base64.base64_value
    mp_cache.Crypto.Base64.value_at mp_cache.Crypto.Base64.group_bytes
    mp_cache.Crypto.Base64.decode_group mp_cache.Crypto.Base64.decode_groups
    mp_cache.Crypto.Base64.base64_decode
server_program = tt

abbrev put : Request
put = record blank_request {
  request_body = codes "{\"value_base64\":\"YQ==\"}";
  content_length = 23;
}

put-Asks : Asks server put (codes "a") 10
unfolding server_program mp_cache.Prelude.add64
put-Asks = record { value_base64 = codes "YQ=="; field = refl; decodes = refl; lasts = refl }

put_succeeds : (handle_cache_put host server key_a put (pos 101)).0.status_code ≡ 200
unfolding server_program mp_cache.Tests.StorageTests.storage_program
    mp_cache.Tests.CacheTests.cache_program
put_succeeds = refl

still_live : leb_ℤ (pos 101 +ℤ pos 10) (pos 105) ≡ false
unfolding mp_cache.Prelude.Int.◌+ℤ◌
still_live = refl

handle_cache_get-handle_cache_put_example :
    (handle_cache_get host (handle_cache_put host server key_a put (pos 101)).1 key_a (pos 105)).0
    ≡ success (get_body host key_a (base64_groups (codes "a")) 1 (pos 101 +ℤ pos 10))
unfolding mp_cache.Http.Server.start mp_cache.Cache.Store.init
handle_cache_get-handle_cache_put_example =
    handle_cache_get-handle_cache_put host host server key_a (codes "a") put 10 (pos 101) (pos 105)
      fresh_store-IsValid put-Asks put_succeeds still_live refl refl
