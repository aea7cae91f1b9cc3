-- ===== src/Tests.antt =====
-- Runs of the theorems on a small project with two files, and on a small daemon.
pub mod Data
mod Index
mod Commands
mod Edits
mod Lsp
mod Views
mod Transport
mod Servers
mod Search
