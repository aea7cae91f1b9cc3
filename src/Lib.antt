-- ===== src/Lib.antt =====
-- codequery answers queries about the symbols of a source tree. It parses every file with
-- tree-sitter, indexes the symbols, and runs commands over the scan; a daemon keeps language
-- servers warm for answers of higher precision.
--
-- Prelude: lists, association lists (HashMap), stable sorting and orders of the Rust standard
--   library, as far as the program uses them. Texts and paths are lists of bytes.
-- Core: crates/codequery-core. Symbol, Reference and Query are symbol.rs, reference.rs and query.rs;
--   Language and Registry are the language tables of discovery.rs; FilePath is Path::join on Unix;
--   Project, Config, Dirs and Error are project.rs, config.rs, dirs.rs and error.rs.
-- Index: crates/codequery-index. SymbolIndex is index.rs: the vector of symbols and the three maps of
--   positions, filled by collect_symbols. Cache and Cache/Store are cache.rs: the types that are
--   written, and CacheStore over a function from paths to contents. Scanner is scanner.rs: a scan
--   with and without the cache. Grep is the word filter of grep.rs.
-- Commands: crates/codequery-cli/src/commands. Name is extract_name_at_column, CallChain is
--   callchain.rs, Dead is dead.rs, Rename is rename.rs with the edits of crates/codequery-core's
--   edit.rs: Rename itself applies edits to lines, Rename/Collect finds and orders them. Common is the
--   search by name of common.rs with its parser caches; Refs and Callers are refs.rs and callers.rs,
--   and Locations is what those two do alike. Hierarchy, Context and Tree are hierarchy.rs,
--   context.rs and tree.rs, with what they show in place of how they print it.
-- Lsp: crates/codequery-lsp. Socket is the framing of socket.rs, Daemon is the pool of daemon.rs,
--   Daemon/Requests its requests, connections and accept loop, Cascade is cascade.rs with the
--   results of crates/codequery-resolve's types.rs. Client is client.rs, on the bytes of the
--   connection to the daemon. Transport is transport.rs with protocol.rs: read_headers is one
--   recursion over the bytes, with read_line in it, and send_request runs on the bytes that the
--   server writes. Queries and Uri are queries.rs over a Channel, the link to a server; Config is
--   config.rs, and Server is server.rs: the handshake, and wait_for_ready as a machine whose rounds
--   are a list of polls. Oneshot has the language's identifier and the column of oneshot.rs.
-- Tests: runs on a small project, a small daemon and the messages of a language server.
--
-- The commands take a scan, build the index from it and use it; the scanner takes the disk cache;
-- the cascade asks the daemon, a one-shot server or the stack graphs. State is passed explicitly:
-- the index, the disk, the visited names, the pool of servers. The daemon's rounds are a list of
-- events, with the flag, the time and what arrives.
--
-- What is outside the repository is a parameter: the parser and the trees, the extraction of symbols
-- and references (which walks those trees), file discovery, bincode, serde_json, SHA-256, the
-- environment, file metadata, the order on paths, the substring search of memchr, the Unicode tables,
-- the order in which a HashMap is iterated, and the processes. Recursions are structural, but for
-- two loops: the search for a word runs on one more round than the text has bytes, and the wait for
-- an answer on one more than the stream has, as every round takes a byte or more;
-- the depth of a call chain and the 30 polls of the daemon's start are the program's own numbers.
-- A decimal number has at most 20 digits, enough for 64 bits.
--
-- Not modelled: the extraction from syntax trees and the stack graphs, which are built on
-- libraries; the queries of one-shot servers; the remaining commands, their arguments and their
-- output; the polling of pipes and the end of processes; the start of the daemon and the writing of
-- its information file. Of a pipe the model has all the bytes that the server will ever write, and
-- whether it stays open behind them, where a read blocks for good. Paths are UTF-8, on which
-- `Path::display` changes nothing.
pub mod Prelude
pub mod Core
pub mod Index
pub mod Commands
pub mod Lsp
pub mod Tests
