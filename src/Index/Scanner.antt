-- ===== src/Index/Scanner.antt =====
-- crates/codequery-index/src/scanner.rs: scanning a project, with and without the disk cache.
-- File discovery, the language tables, the parser, the symbol extraction and the order on paths
-- are given by an `Env`; the parallel iterators keep the order of the files.
pub mod Warm
use codequery.Prelude.{
  ℕ, List, Option, none, some, Text, Bool, true, false, map, filter, filter_map, if◌then◌else◌,
  ◌>>=◌,
}
use codequery.Prelude.Sort.{sort_by}
use codequery.Core.Symbol.{Symbols}
use codequery.Index.{FileSymbols}
use codequery.Core.FilePath.{join}
use codequery.Index.Grep.{Find, SearchedFiles, filter_files}
use codequery.Index.Cache.{CachedFile}
use codequery.Index.Cache.Store.{
  Bincode, Disk, CacheResult, ok, err, Writing, load, store, is_valid,
}

pub record Env (Tree : Type 0) : Type 1 where
  pub Language : Type 0
  -- `discover_files`; `none` is its error
  pub discover_files : Text → Option Text → Option (List Text)
  pub language_for_file : Text → Option Language
  -- `Parser::for_language` and `parse_file`, on an absolute path
  pub parse_file : Language → Text → Option (Text × Tree)
  pub extract_symbols : Text → Tree → Text → Language → Symbols
  -- `Path::cmp` as a test, and `Path::starts_with`
  pub path_le : Text → Text → Bool
  pub starts_with : Text → Text → Bool
  -- `file_metadata`: time and size
  pub metadata : Text → Option (ℕ × ℕ)
  -- `CacheStore::new` of the root, and the serialiser
  pub store_path : Text → Option Text
  pub bincode : Bincode

module _ {Tree : Type 0} (env : Env Tree) where
  open env use {
    discover_files, language_for_file, parse_file, extract_symbols, path_le, starts_with, metadata,
    store_path, bincode,
  }

  unfoldable pub scan_single_file : Text → Text → Option (FileSymbols Tree)
  scan_single_file root relative = do
    let absolute = join root relative
    language ← language_for_file absolute
    parsed ← parse_file language absolute
    some (record {
      file = relative;
      symbols = extract_symbols parsed.0 parsed.1 relative language;
      source = parsed.0;
      tree = parsed.1;
    })

  abbrev pub by_file_path : FileSymbols Tree → FileSymbols Tree → Bool
  by_file_path a b = path_le a.file b.file

  abbrev pub scan_files : Text → List Text → List (FileSymbols Tree)
  scan_files root files = sort_by by_file_path (filter_map (scan_single_file root) files)

  unfoldable pub scan_project : Text → Option Text → Option (List (FileSymbols Tree))
  scan_project root scope = do files ← discover_files root scope; some (scan_files root files)

  unfoldable pub scan_with_filter :
      Find → SearchedFiles → Text → Option Text → Text → Option (List (FileSymbols Tree))
  scan_with_filter find disk root scope word = do
    files ← discover_files root scope
    some (scan_files root (filter_files find disk files root word))

  -- `scope.is_none_or(|s| entry.path.starts_with(s))`
  abbrev pub in_scope : Option Text → CachedFile → Bool
  in_scope none entry = true
  in_scope (some s) entry = starts_with entry.path s

  unfoldable pub rebuild_entry : Text → CachedFile → Option (FileSymbols Tree)
  rebuild_entry root entry = do
    let absolute = join root entry.path
    language ← language_for_file absolute
    parsed ← parse_file language absolute
    some (record { file = entry.path; symbols = entry.symbols; source = parsed.0; tree = parsed.1 })

  unfoldable pub rebuild_from_cache : Text → List CachedFile → Option Text → List (FileSymbols Tree)
  rebuild_from_cache root cached scope =
      sort_by by_file_path (filter_map (rebuild_entry root) (filter (in_scope scope) cached))

  unfoldable pub build_entry : Text → FileSymbols Tree → Option CachedFile
  build_entry root fs = do
    meta ← metadata (join root fs.file)
    some (record { path = fs.file; mtime = meta.0; size = meta.1; symbols = fs.symbols })

  abbrev pub build_cache_entries : Text → List (FileSymbols Tree) → List CachedFile
  build_cache_entries root results = filter_map (build_entry root) results

  -- The cached entries, where there is a store, it loads and it is valid.
  valid_entries : Text → CacheResult (List CachedFile) → Option (List CachedFile)
  valid_entries root (err e) = none
  valid_entries root (ok cached) = if is_valid metadata root cached then some cached else none

  unfoldable pub cache_hit : Text → Option Text → Disk → Option (List CachedFile)
  unfolding valid_entries
  cache_hit root none disk = none
  cache_hit root (some p) disk = valid_entries root (load bincode p disk)

  -- The write of the results after a miss; its failure is ignored.
  save : Text → Option Text → List (FileSymbols Tree) → Writing → Disk → Disk
  save root none results w disk = disk
  save root (some p) results w disk = (store bincode p (build_cache_entries root results) w disk).1

  scan_miss :
      Text
      → Option (List (FileSymbols Tree))
      → Writing
      → Disk
      → Option (List (FileSymbols Tree)) × Disk
  scan_miss root none w disk = (none, disk)
  scan_miss root (some results) w disk = (some results, save root (store_path root) results w disk)

  scan_with :
      Option (List CachedFile)
      → Text
      → Option Text
      → Writing
      → Disk
      → Option (List (FileSymbols Tree)) × Disk
  scan_with (some cached) root scope w disk = (some (rebuild_from_cache root cached scope), disk)
  scan_with none root scope w disk = scan_miss root (scan_project root scope) w disk

  unfoldable pub scan_project_cached :
      Text → Option Text → Bool → Writing → Disk → Option (List (FileSymbols Tree)) × Disk
  unfolding scan_with scan_miss save cache_hit valid_entries
  scan_project_cached root scope use_cache w disk =
      if use_cache
      then scan_with (cache_hit root (store_path root) disk) root scope w disk
      else (scan_project root scope, disk)
