-- ===== src/Index/Cache/Store/Laws.antt =====
-- What is stored is loaded again, and a cache is valid exactly while its files are unchanged.
use codequery.Prelude.{
  ℕ, List, [], ◌∷◌, map, Option, some, Text, Bool, true, ◌≡◌, ◌↔◌, refl, arith, All, text_eq,
  eq_refl,
}
use codequery.Core.FilePath.{join}
use codequery.Index.Cache.{CachedFile, CacheManifest, cache_version, data_of_file}
use codequery.Index.Cache.RoundTrip.{files_trip}
use codequery.Index.Cache.Store.{
  Bincode, Disk, complete, allowed, load, store, clear, is_valid, ok, err, not_found,
}

abbrev pub manifest : List CachedFile → CacheManifest
manifest files = record { version = cache_version; files = map data_of_file files }

module _ (b : Bincode) (p : Text) (disk : Disk) where
  -- Where the serialiser reads back what it writes, a cache that was stored completely is loaded as
  -- it was: paths, times, sizes and whole symbol trees.
  pub load-store :
      (files : List CachedFile) {d : Text}
      → b.serialize (manifest files) ≡ some d
      → b.deserialize d ≡ some (manifest files)
      → ((store b p files complete disk).0 ≡ ok tt)
        × (load b p (store b p files complete disk).1 ≡ ok files)
  unfolding load store
  load-store files h k = rw (h, eq_refl text_eq p, k, files_trip) (refl, refl)

-- After `clear` succeeds, whether or not there was a file, nothing is loaded.
pub load-clear :
    (b : Bincode) (p : Text) (disk : Disk) (found : Bool)
    → (clear p allowed disk).0 ≡ ok found
    → load b p (clear p allowed disk).1 ≡ err not_found
unfolding load clear
load-clear b p disk found h = ground (arith, eq_refl text_eq p)

-- The cache is valid exactly when each entry's file still has the time and the size of the entry.
pub is_valid_iff :
    (metadata : Text → Option (ℕ × ℕ)) (root : Text) (cached : List CachedFile)
    → (is_valid metadata root cached ≡ true)
      ↔ All (λ e. metadata (join root e.path) ≡ some (e.mtime, e.size)) cached
unfolding is_valid
is_valid_iff metadata root [] = ground arith
is_valid_iff metadata root (e ∷ cached) = ground (arith, is_valid_iff metadata root cached)
