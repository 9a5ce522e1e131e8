-- ===== src/Http.antt =====
-- The HTTP server on the Unix socket, internal/httpserver/http_server.c and http_server.h.
pub mod Percent
pub mod Json
pub mod Items
pub mod Request
pub mod Server
pub mod Response
pub mod Host
pub mod Handlers
pub mod Clients
pub mod Admin
pub mod Purges
pub mod Access
pub mod Route
pub mod Serve
pub mod Admission
pub mod Gates
pub mod Rights
pub mod Limits
pub mod Budget
pub mod Cached
pub mod Escaped
pub mod Fields
pub mod Arrays
pub mod Purged
