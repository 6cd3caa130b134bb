-- ===== src/Resolver.antt =====
-- resolver.go: DNS through the tunnel, with retries, a cache and shared lookups.
pub mod Ip
pub mod Query
pub mod Retry
pub mod Lookup
pub mod Literal
pub mod Shared
pub mod Service
pub mod Spec
pub mod Resolve
