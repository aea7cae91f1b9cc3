-- ===== src/Tests/Index.antt =====
-- Runs of the theorems on the index, the cache and the scanner.
use codequery.Prelude.{
  ℕ, [], ◌∷◌, none, some, Text, codes, ◌≡◌, refl, filter, ◌==◌, text_eq, true, nat_eq,
}
use codequery.Prelude.Sort.{sort_by}
use codequery.Prelude.Order.{le_by, le_by-IsOrder}
use codequery.Core.Symbol.{name_of, kind_eq, nil}
use codequery.Core.FilePath.{join}
use codequery.Index.{FileSymbols}
use codequery.Index.SymbolIndex.{from_scan, find_by_name}
use codequery.Index.SymbolIndex.Lookup.{flatten_scan, find_by_name-from_scan}
use codequery.Index.Cache.{CachedFile, CacheManifest, cached_of_symbol, symbol_of_cached}
use codequery.Index.Cache.Store.{Bincode, Disk, missing, bytes, ok, complete, no_file, load, store}
use codequery.Index.Cache.Store.Laws.{manifest, load-store}
use codequery.Index.Scanner.{
  cache_hit, scan_single_file, build_entry, Env, scan_project_cached, scan_project,
}
use codequery.Index.Scanner.Warm.{after, warm_scan}
use codequery.Tests.Data.{scan, path_cmp, path_cmp-IsCmp}

find_by_name-from_scan_example :
    find_by_name (from_scan scan) (codes "run")
    ≡ some (filter (λ s. name_of s == codes "run") (flatten_scan scan))
find_by_name-from_scan_example = find_by_name-from_scan scan (codes "run")

-- A cache with one entry without symbols, and a serialiser that knows it.
abbrev entry : CachedFile
entry = record { path = codes "a.rs"; mtime = 7; size = 12; symbols = nil }

abbrev one : CacheManifest
one = manifest (entry ∷ [])

abbrev bincode : Bincode
bincode = record {
  serialize = λ m. some (codes "one");
  deserialize = λ d. some one;
  serialize_error = λ m. [];
  deserialize_error = λ d. [];
}

abbrev no_files : Disk
no_files p = missing

abbrev cache_file : Text
cache_file = codes "/c.bin"

load-store_example :
    ((store bincode cache_file (entry ∷ []) complete no_files).0 ≡ ok tt)
    × (load bincode cache_file (store bincode cache_file (entry ∷ []) complete no_files).1
        ≡ ok (entry ∷ []))
load-store_example = load-store bincode cache_file no_files (entry ∷ []) refl refl

abbrev one_file : Disk
one_file p = bytes (codes "one")

-- A project with one file.
abbrev env : Env ℕ
env = record {
  Language = ℕ;
  discover_files = λ root scope. some (codes "a.rs" ∷ []);
  language_for_file = λ f. some 0;
  parse_file = λ l f. some (codes "fn", 5);
  extract_symbols = λ source tree f l. nil;
  path_le = le_by path_cmp;
  starts_with = λ p q. true;
  metadata = λ p. some (7, 12);
  store_path = λ root. some cache_file;
  bincode = bincode;
}

abbrev scanned : FileSymbols ℕ
scanned = record { file = codes "a.rs"; symbols = nil; source = codes "fn"; tree = 5 }

abbrev disk : Disk
disk = after env (codes "/p") none no_files

warm_scan_example :
    scan_project_cached env (codes "/p") none true (no_file (codes "full")) disk
    ≡ (some (scanned ∷ []), disk)
unfolding cache_hit load scan_project scan_single_file sort_by join build_entry
    codequery.Index.Cache.data_of_file codequery.Index.Cache.cached_of_symbol
warm_scan_example =
    warm_scan env (codes "/p") (le_by-IsOrder _ path_cmp-IsCmp) cache_file (codes "one") none
      no_files refl refl refl (((7, 12), refl), tt) refl refl (no_file (codes "full"))
