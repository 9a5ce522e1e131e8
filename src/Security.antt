-- ===== src/Security.antt =====
-- The security component (internal/security/security.c).
pub mod Roles
pub mod Records
pub mod Tokens
pub mod Registry
pub mod Invariant
pub mod Calls
pub mod Access
pub mod Grants
pub mod Outcomes
