-- ===== src/Index/Scanner/Warm.antt =====
-- What a scan returns when the cache that an earlier scan wrote is still valid.
use codequery.Prelude.{
  ℕ, List, [], ◌∷◌, Option, none, some, Text, true, filter, filter_map, ◌≡◌, refl, arith, All, ap,
  sym, ◌∙◌, Option-cases, inl, inr, text_eq,
}
use mathlib.Core.Path.{subst}
use codequery.Prelude.Sort.{sort_by, All-sort_by, IsOrder, sort_by-IsSorted, sort_by_sorted}
use codequery.Index.{FileSymbols}
use codequery.Core.FilePath.{join}
use codequery.Index.Cache.{CachedFile}
use codequery.Index.Cache.Store.{Disk, Writing, complete, store, is_valid, entry_fresh}
use codequery.Index.Cache.Store.Laws.{manifest, load-store}
use codequery.Index.Scanner.{
  Env, scan_single_file, by_file_path, scan_files, scan_project, in_scope, rebuild_entry,
  rebuild_from_cache, build_entry, build_cache_entries, cache_hit, scan_project_cached,
}

module _ {Tree : Type 0} (env : Env Tree) (root : Text) where
  open env use {
    Language, language_for_file, parse_file, extract_symbols, metadata, store_path, bincode,
  }

  -- The file was scanned from its own path, and its metadata can be read.
  abbrev IsScanned : FileSymbols Tree → Type 0
  IsScanned fs = scan_single_file env root fs.file ≡ some fs

  abbrev HasMetadata : FileSymbols Tree → Type 0
  HasMetadata fs = (m : ℕ × ℕ) × (metadata (join root fs.file) ≡ some m)

  -- A scanned file, taken apart.
  record Parts (f : Text) (fs : FileSymbols Tree) : Type 0 where
    lang : Language
    parsed : Text × Tree
    language : language_for_file (join root f) ≡ some lang
    contents : parse_file lang (join root f) ≡ some parsed
    result : fs ≡ record {
      file = f;
      symbols = extract_symbols parsed.0 parsed.1 f lang;
      source = parsed.0;
      tree = parsed.1;
    }

  Parts-of :
      (f : Text) (fs : FileSymbols Tree) (l : Option Language)
      → language_for_file (join root f) ≡ l
      → scan_single_file env root f ≡ some fs
      → Parts f fs
  unfolding scan_single_file
  Parts-of f fs none e h = cc (rw e at h)
  Parts-of f fs (some l) e h = elim (Option-cases (parse_file l (join root f))) [
    | inl p ↦ cc (rw (e, p) at h)
    | inr (a, p) ↦ record {
      lang = l;
      parsed = a;
      language = e;
      contents = p;
      result = let w = rw (e, p) at h in cc w;
    }
  ]

  scanned :
      (f : Text) (fs : FileSymbols Tree) → scan_single_file env root f ≡ some fs → IsScanned fs
  scanned f fs h =
      let p = Parts-of f fs _ refl h in
      subst (λ t. scan_single_file env root t ≡ some fs)
        (sym (ap (λ (r : FileSymbols Tree). r.file) p.result)) h

  scanned-All : (files : List Text) → All IsScanned (filter_map (scan_single_file env root) files)
  scanned-All [] = tt
  scanned-All (f ∷ files) = elim (Option-cases (scan_single_file env root f)) [
    | inl e ↦ rw e (scanned-All files)
    | inr (fs, e) ↦ rw e (scanned f fs e, scanned-All files)
  ]

  -- The entry that is written for a file.
  abbrev entry_of : FileSymbols Tree → ℕ × ℕ → CachedFile
  entry_of fs m = record { path = fs.file; mtime = m.0; size = m.1; symbols = fs.symbols }

  entry_fresh-entry_of :
      (fs : FileSymbols Tree) (m : ℕ × ℕ) → entry_fresh (some m) (entry_of fs m) ≡ true
  unfolding entry_fresh
  entry_fresh-entry_of fs m = ground arith

  rebuild_entry-entry_of :
      (fs : FileSymbols Tree) (m : ℕ × ℕ)
      → IsScanned fs
      → rebuild_entry env root (entry_of fs m) ≡ some fs
  unfolding rebuild_entry
  rebuild_entry-entry_of fs m s =
      let p = Parts-of fs.file fs _ refl s in
      let q = sym p.result in
      rw (p.language, p.contents)
        λ i. some (record {
          file = fs.file;
          symbols = fs.symbols;
          source = (q i).source;
          tree = (q i).tree;
        })

  -- The entries that are written for scanned files are valid, and give the files back.
  entries-valid :
      (xs : List (FileSymbols Tree))
      → All HasMetadata xs
      → is_valid metadata root (build_cache_entries env root xs) ≡ true
  unfolding is_valid build_entry
  entries-valid [] h = refl
  entries-valid (fs ∷ xs) h =
      let (m, e) = h.0 in rw (e, e, entry_fresh-entry_of fs m) (entries-valid xs h.1)

  rebuild-entries :
      (xs : List (FileSymbols Tree))
      → All HasMetadata xs
      → All IsScanned xs
      → filter_map
          (rebuild_entry env root)
          (filter (in_scope env none) (build_cache_entries env root xs))
        ≡ xs
  unfolding build_entry
  rebuild-entries [] h s = refl
  rebuild-entries (fs ∷ xs) h s =
      let (m, e) = h.0 in
      rw (e, rebuild_entry-entry_of fs m s.0) (ap (λ ys. fs ∷ ys) (rebuild-entries xs h.1 s.1))

  scan_project-eq-some :
      (scope : Option Text) {results : List (FileSymbols Tree)}
      → scan_project env root scope ≡ some results
      → (files : List Text) × (results ≡ scan_files env root files)
  unfolding scan_project
  scan_project-eq-some scope h = elim (Option-cases (env.discover_files root scope)) [
    | inl e ↦ cc (rw e at h)
    | inr (files, e) ↦ let w = rw e at h in (files, cc w)
  ]

  files_order : IsOrder env.path_le → IsOrder (by_file_path env)
  files_order o = record {
    total = λ a b. o.total a.file b.file;
    trans = λ a b c. o.trans a.file b.file c.file;
  }

  -- The disk after a scan that uses the cache, and whose write completes.
  abbrev pub after : Option Text → Disk → Disk
  after scope disk = (scan_project_cached env root scope true complete disk).1

  module _ (order : IsOrder env.path_le) (p d : Text) (scope : Option Text) (disk : Disk)
      {results : List (FileSymbols Tree)} (here : store_path root ≡ some p)
      (cold : cache_hit env root (some p) disk ≡ none)
      (scan : scan_project env root scope ≡ some results) (readable : All HasMetadata results)
      (written : bincode.serialize (manifest (build_cache_entries env root results)) ≡ some d)
      (read : bincode.deserialize d ≡ some (manifest (build_cache_entries env root results))) where
    cold_scan :
        scan_project_cached env root scope true complete disk
        ≡ (some results, (store bincode p (build_cache_entries env root results) complete disk).1)
    unfolding scan_project_cached
    cold_scan = rw (here, cold, scan, here) refl

    results_scanned : All IsScanned results
    results_scanned =
        let (files, e) = scan_project-eq-some scope scan in
        rw e (
          All-sort_by (by_file_path env) IsScanned (filter_map (scan_single_file env root) files)
            (scanned-All files))

    results_sorted : sort_by (by_file_path env) results ≡ results
    results_sorted =
        let (files, e) = scan_project-eq-some scope scan in
        rw e (
          sort_by_sorted (by_file_path env) (scan_files env root files) (
            sort_by-IsSorted (by_file_path env) (files_order order)
              (filter_map (scan_single_file env root) files)))

    rebuilt : rebuild_from_cache env root (build_cache_entries env root results) none ≡ results
    unfolding rebuild_from_cache
    rebuilt =
        ap (sort_by (by_file_path env)) (rebuild-entries results readable results_scanned)
        ∙ results_sorted

    -- A scan that misses the cache and writes it, with or without a scope, is followed by cached
    -- scans without a scope that return the same files, symbols, sources and trees, in the same
    -- order, and leave the disk alone. The serialiser reads back what it wrote, the order on paths
    -- is total and transitive, and every scanned file keeps its readable metadata.
    pub warm_scan :
        (w : Writing)
        → scan_project_cached env root none true w (after scope disk)
          ≡ (some results, after scope disk)
    unfolding scan_project_cached
    warm_scan w =
        let (_, loaded) =
          load-store bincode p disk (build_cache_entries env root results) written read in
        rw (ap (λ r. r.1) cold_scan, here, loaded, entries-valid results readable, rebuilt)
