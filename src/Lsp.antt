-- ===== src/Lsp.antt =====
-- crates/codequery-lsp: the daemon, its socket protocol, the transport to a language server, and the
-- cascade of resolution tiers.
pub mod Oneshot
pub mod Types
pub mod Uri
pub mod Value
pub mod Transport
pub mod Queries
pub mod Config
pub mod Client
pub mod Server
pub mod Socket
pub mod Daemon
pub mod Cascade
