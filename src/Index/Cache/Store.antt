-- ===== src/Index/Cache/Store.antt =====
-- crates/codequery-index/src/cache.rs: `CacheStore` over a disk. The serialiser (bincode), the hash
-- (SHA-256), the environment variables and the file metadata are parameters.
pub mod Laws
use codequery.Prelude.{
  ℕ, List, [], ◌∷◌, ◌++◌, map, Option, none, some, Text, codes, Bool, true, false, not, ◌&&◌, ◌||◌,
  take, is_empty, ◌==◌, text_eq, nat_eq, if◌then◌else◌, ◌>>=◌,
}
use codequery.Prelude.Decimal.{decimal}
use codequery.Core.FilePath.{join}
use codequery.Index.Cache.{
  CachedFile, CachedFileData, CacheManifest, cache_version, data_of_file, file_of_data,
}

pub data CacheError : Type 0 where
  not_found stale : CacheError
  corrupt io : Text → CacheError

pub data CacheResult (A : Type 0) : Type 0 where
  ok : A → CacheResult A
  err : CacheError → CacheResult A

-- What `fs::read` finds at a path; an I/O error is kept as its text.
pub data Entry : Type 0 where
  missing : Entry
  unreadable bytes : Text → Entry

abbrev pub Disk : Type 0
Disk = Text → Entry

abbrev pub write : Text → Entry → Disk → Disk
write p e disk q = if q == p then e else disk q

-- How far the writing of one file gets, with the text of the error; `torn` leaves some bytes behind.
pub data Writing : Type 0 where
  no_directory no_file : (error : Text) → Writing
  torn : (error part : Text) → Writing
  complete : Writing

pub data Removal : Type 0 where
  refused : (error : Text) → Removal
  allowed : Removal

pub record Bincode : Type 0 where
  pub serialize : CacheManifest → Option Text
  pub deserialize : Text → Option CacheManifest
  -- the texts of the errors where there is no result
  pub serialize_error : CacheManifest → Text
  pub deserialize_error : Text → Text

-- The environment variables, `none` where one is not set, and the home directory.
pub record Variables : Type 0 where
  pub cq_cache_dir : Option Text
  pub xdg_cache_home : Option Text
  pub home_dir : Option Text

abbrev pub non_empty : Option Text → Option Text
non_empty none = none
non_empty (some dir) = if is_empty dir then none else some dir

abbrev home_cache : Option Text → Option Text
home_cache none = none
home_cache (some h) = some (join (join h (codes ".cache")) (codes "cq"))

abbrev xdg_or_home : Option Text → Option Text → Option Text
xdg_or_home none home = home_cache home
xdg_or_home (some xdg) home = some (join xdg (codes "cq"))

abbrev first_dir : Option Text → Variables → Option Text
first_dir (some dir) v = some dir
first_dir none v = xdg_or_home (non_empty v.xdg_cache_home) v.home_dir

unfoldable pub resolve_cache_dir : Variables → Option Text
resolve_cache_dir v = first_dir (non_empty v.cq_cache_dir) v

abbrev or_root : Option Text → Text → Text
or_root none root = root
or_root (some canonical) root = canonical

-- `hash` gives the hexadecimal digest; `canonicalize` may fail.
unfoldable pub cache_key : (Text → Text) → (Text → Option Text) → Text → Text
cache_key hash canonicalize root = take 16 (hash (or_root (canonicalize root) root))

-- `CacheStore::new`: the path of the cache file, if there is a directory for it.
unfoldable pub new_store : Variables → (Text → Text) → (Text → Option Text) → Text → Option Text
unfolding resolve_cache_dir cache_key
new_store v hash canonicalize root = do
  dir ← resolve_cache_dir v
  some (join dir (cache_key hash canonicalize root ++ codes ".bin"))

abbrev version_mismatch : ℕ → CacheError
version_mismatch version = corrupt (
    codes "version mismatch: expected "
    ++ decimal cache_version
    ++ codes ", got "
    ++ decimal version)

module _ (b : Bincode) (cache_path : Text) where
  -- The checks of `load` on a file that was read.
  load_manifest : Text → Option CacheManifest → CacheResult (List CachedFile)
  load_manifest d none = err (corrupt (b.deserialize_error d))
  load_manifest d (some m) =
      if not (m.version == cache_version)
      then err (version_mismatch m.version)
      else ok (map file_of_data m.files)

  load_entry : Entry → CacheResult (List CachedFile)
  load_entry missing = err not_found
  load_entry (unreadable e) = err (io e)
  load_entry (bytes d) = load_manifest d (b.deserialize d)

  unfoldable pub load : Disk → CacheResult (List CachedFile)
  unfolding load_entry load_manifest
  load disk = load_entry (disk cache_path)

  store_data : CacheManifest → Option Text → Writing → Disk → CacheResult (Unit {0}) × Disk
  store_data m none w disk =
      (err (corrupt (codes "serialization failed: " ++ b.serialize_error m)), disk)
  store_data m (some d) (no_directory e) disk = (err (io e), disk)
  store_data m (some d) (no_file e) disk = (err (io e), disk)
  store_data m (some d) (torn e part) disk = (err (io e), write cache_path (bytes part) disk)
  store_data m (some d) complete disk = (ok tt, write cache_path (bytes d) disk)

  unfoldable pub store : List CachedFile → Writing → Disk → CacheResult (Unit {0}) × Disk
  unfolding store_data
  store files w disk =
      let manifest : CacheManifest = record {
        version = cache_version;
        files = map data_of_file files;
      } in
      store_data manifest (b.serialize manifest) w disk

-- `clear`: whether a file was removed. A refused removal of a file that is there is an I/O error.
clear_entry : Text → Entry → Removal → Disk → CacheResult Bool × Disk
clear_entry p missing r disk = (ok false, disk)
clear_entry p e (refused error) disk = (err (io error), disk)
clear_entry p e allowed disk = (ok true, write p missing disk)

unfoldable pub clear : Text → Removal → Disk → CacheResult Bool × Disk
unfolding clear_entry
clear cache_path r disk = clear_entry cache_path (disk cache_path) r disk

-- One entry against `file_metadata` of its path.
unfoldable pub entry_fresh : Option (ℕ × ℕ) → CachedFile → Bool
entry_fresh none entry = false
entry_fresh (some (mtime, size)) entry =
    not (not (mtime == entry.mtime) || not (size == entry.size))

-- `is_valid`, the loop over the entries.
unfoldable pub is_valid : (Text → Option (ℕ × ℕ)) → Text → List CachedFile → Bool
unfolding entry_fresh
is_valid metadata root [] = true
is_valid metadata root (entry ∷ cached) =
    if entry_fresh (metadata (join root entry.path)) entry
    then is_valid metadata root cached
    else false
