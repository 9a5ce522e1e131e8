-- ===== src/Lib.antt =====
-- Verification of mp-cache, a network cache in C with encrypted persistence.
--
-- Parts of the program and how they interact: the HTTP server (internal/httpserver) authenticates a
-- request by the security component (internal/security), runs it on the cache store
-- (internal/cache) and records it in the storage (internal/storage), which encrypts and
-- authenticates what it writes by the cryptography (internal/crypto).
--
-- Which file models which part:
-- - Cache: `mp_cache_store_t` and its operations in internal/cache/cache.c. Cache/Entry is the
--   entry and the hash, Cache/Slot the search of a chain, Cache/Store the writes, lookups and
--   deletions, Cache/Walk the operations on all buckets. A function keeps its name without
--   `mp_cache_store_`; `set` is `set_entry`, `get_copy` and `delete` have a part behind the NULL
--   checks (`get_present`, `delete_present`). The other files hold the invariant (Cache/Invariant)
--   and what each operation does.
-- - Crypto: internal/crypto/crypto.c. Crypto/Transform is one compression, Crypto/Sha256 the running
--   digest and the keyed digest, Crypto/Stream the cipher and the comparison, Crypto/Positions
--   the cipher byte by byte, Crypto/Hex and Crypto/Base64 the encodings, Crypto/Armor the
--   digits and groups of a text and Crypto/Armored the whole text.
-- - Security: `mp_cache_security_t` in internal/security/security.c. Security/Roles has the roles,
--   Security/Records the array of clients and its search, Security/Tokens the hashes and the issue of
--   tokens, Security/Registry the operations. A write through the pointer of a search replaces the
--   first record with the ID. What the host answers a call (memory, random bytes) is an argument.
-- - Storage: internal/storage/storage.c. Storage/Buffer is the growable buffer, Storage/Cursor the
--   bounded reads, Storage/Records the entries and clients inside a payload, Storage/Journal the
--   journal records and their replay, Storage/Packet the encrypted packet, Storage/Contents the state
--   payload, Storage/Load the checkpoint and the load. Which sizes `realloc`
--   grants is a function argument. The capacity doubles on fuel 64, as a `size_t` has 64 bits. A role
--   that is read from a file may be no enumerator (`other`). A file is the list of its bytes.
--   Storage/Persist is the append to the journal and the checkpoint on the two files, Storage/Exchange
--   init, export and import; what the other files of the directory prove is listed below.
-- - Text: what the source calls of ctype.h, string.h and stdlib.h (Text/Scan the searches and
--   `snprintf` of a text, Text/Number `strtoul` and the printing of numbers), for the next two parts.
-- - Config: `mp_cache_config_t` in internal/config/config.c and constants.h. Config/Fields is the
--   record with its defaults, Config/Values trims and parses one value, Config/Apply has the sections
--   of `mp_cache_apply_value` one by one, Config/Validate the validation, Config/Load the loader on
--   the bytes of a file and Config/Template the lines of the template. Config/Printable says which
--   configurations a template shows as they are, and Config/Reread has one module per group of
--   sections.
-- - Http: `mp_cache_http_server_t` in internal/httpserver/http_server.c. Http/Percent, Http/Json and
--   Http/Items decode, Http/Request parses a request, Http/Serve reads it in the pieces that `recv`
--   gives, Http/Server has the state with the rate limiter and the sweep, Http/Response the bodies and
--   the response, Http/Handlers, Http/Clients, Http/Admin and Http/Purges the handlers, Http/Access
--   the authentication and Http/Route the routes. What the host answers one request is the record
--   `Host` of Http/Host: whether each allocation is granted, the random bytes, what becomes of the
--   files, and the text of the log. Http/Admission is about the authentication, Http/Gates and
--   Http/Rights about the routes, Http/Limits and Http/Budget about the limiter, Http/Cached and
--   Http/Purged about the handlers, Http/Escaped, Http/Fields and Http/Arrays about the decoders.
-- - Prelude: lists, bytes, bits, integers and tests that the others share. Tests: the properties and
--   the definitions at concrete inputs.
--
-- How C is read: a pointer that may be NULL is an Option, and a store or an output pointer that is
-- never NULL in the program is a plain argument. Whether an allocation succeeds is an argument
-- (`Allocations`). `size_t` and `uint64_t` arithmetic wraps at 2^64 (`add64`, `sub64`), `uint32_t` at
-- 2^32; an `int64_t` time is an exact integer, whose overflow is undefined in C. The size of an entry
-- is 48 bytes, as on LP64. A chain is the list of its entries, and the slot that a search returns is
-- the entries before it and the rest. The loops of the digest and of the cipher run on fuel, the
-- number of their bytes; the equalities with the descriptions by recursion on the bytes show that it
-- is enough.
--
-- Not modelled: the set-up of the socket, the poll loop and the sending (internal/httpserver), the
-- files themselves (internal/platform), the log (internal/observability), the start and stop by threads
-- and signals (internal/runtime), the programs under cmd, which read arguments and talk to a socket,
-- and `mp_cache_random_bytes`, which reads the operating system. The names of statuses and the printing
-- of a configuration are left out. The memory test of a write is exact where the limit stays 2^34 below
-- 2^64, which is the condition `roomy` of a configured store.
pub mod Prelude
pub mod Cache
mod Tests
pub mod Crypto
pub mod Security
pub mod Storage
pub mod Text
pub mod Http
pub mod Config
