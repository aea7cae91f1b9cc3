-- ===== src/Core/Project.antt =====
-- crates/codequery-core/src/project.rs: the root of a project. A canonical path is the list of its
-- names, the last first, so that its parent is the tail.
use codequery.Prelude.{
  ℕ, zero, suc, ◌≤◌, ◌<◌, List, [], ◌∷◌, ◌++◌, Option, none, some, Text, codes, Bool, true, false,
  ◌||◌, if◌then◌else◌, length, drop, ◌≡◌, refl, arith,
}
use codequery.Core.FilePath.{join}
use codequery.Core.Error.{path_error, project_not_found, CoreResult, ok, err}

abbrev pub markers : List Text
markers =
    codes ".git"
    ∷ codes "Cargo.toml"
    ∷ codes "package.json"
    ∷ codes "go.mod"
    ∷ codes "pyproject.toml"
    ∷ codes "setup.py"
    ∷ codes "pom.xml"
    ∷ codes "build.gradle"
    ∷ codes "Makefile"
    ∷ codes "CMakeLists.txt"
    ∷ codes ".cq.toml"
    ∷ []

abbrev pub path_of : List Text → Text
path_of [] = codes "/"
path_of (n ∷ ns) = join (path_of ns) n

-- Paths that exist, `canonicalize` and the text of its error.
pub record Paths : Type 0 where
  pub exists : Text → Bool
  pub canonicalize : Text → Option (List Text)
  pub canonicalize_error : Text → Text

module _ (fs : Paths) where
  unfoldable pub has_marker : List Text → Text → Bool
  has_marker [] current = false
  has_marker (m ∷ ms) current = fs.exists (join current m) || has_marker ms current

  -- The loop, from the directory `current` up.
  unfoldable pub walk_up : Text → List Text → CoreResult Text
  walk_up start [] =
      if has_marker markers (path_of []) then ok (path_of []) else err (project_not_found start)
  walk_up start (n ∷ ns) =
      let above = walk_up start ns in
      if has_marker markers (path_of (n ∷ ns)) then ok (path_of (n ∷ ns)) else above

  abbrev from_canonical : Text → Option (List Text) → CoreResult Text
  from_canonical start none = err (
      path_error
        (codes "cannot canonicalize " ++ start ++ codes ": " ++ fs.canonicalize_error start))
  from_canonical start (some ns) = walk_up start ns

  unfoldable pub detect_project_root : Text → CoreResult Text
  detect_project_root start = from_canonical start (fs.canonicalize start)

  abbrev explicit_root : Text → Option (List Text) → CoreResult Text
  explicit_root path none = err (
      path_error (
        codes "cannot canonicalize explicit path "
        ++ path
        ++ codes ": "
        ++ fs.canonicalize_error path))
  explicit_root path (some ns) = ok (path_of ns)

  unfoldable pub detect_project_root_or : Text → Option Text → CoreResult Text
  detect_project_root_or start none = detect_project_root start
  detect_project_root_or start (some path) =
      if fs.exists path
      then explicit_root path (fs.canonicalize path)
      else err (path_error (codes "explicit project path does not exist: " ++ path))

  -- The directory that is `k` levels above has one of the markers.
  abbrev pub marked : List Text → ℕ → Bool
  marked ns k = has_marker markers (path_of (drop k ns))

  walk_up-nearest :
      (start : Text) (ns : List Text) (k : ℕ)
      → k ≤ length ns
      → ((j : ℕ) → j < k → marked ns j ≡ false)
      → marked ns k ≡ true
      → walk_up start ns ≡ ok (path_of (drop k ns))
  unfolding walk_up
  walk_up-nearest start [] zero h below found = rw found refl
  walk_up-nearest start [] (suc k) h below found = absurd (omega arith)
  walk_up-nearest start (n ∷ ns) zero h below found = rw found refl
  walk_up-nearest start (n ∷ ns) (suc k) h below found =
      rw (below 0 (omega arith))
        (walk_up-nearest start ns k (omega arith) (λ j lt. below (suc j) (omega arith)) found)

  walk_up-none :
      (start : Text) (ns : List Text)
      → ((j : ℕ) → j ≤ length ns → marked ns j ≡ false)
      → walk_up start ns ≡ err (project_not_found start)
  unfolding walk_up
  walk_up-none start [] none_marked = rw (none_marked 0 (omega arith)) refl
  walk_up-none start (n ∷ ns) none_marked =
      rw (none_marked 0 (omega arith))
        (walk_up-none start ns (λ j le. none_marked (suc j) (omega arith)))

  -- The root is the nearest directory on the way up, the start included, that has any of the eleven
  -- markers of the code, whatever stands further up. `.hg` and solution files are none of these, so
  -- that a directory with nothing else is passed by.
  pub detect_project_root-nearest :
      (start : Text) (ns : List Text) (k : ℕ)
      → fs.canonicalize start ≡ some ns
      → k ≤ length ns
      → ((j : ℕ) → j < k → marked ns j ≡ false)
      → marked ns k ≡ true
      → detect_project_root start ≡ ok (path_of (drop k ns))
  unfolding detect_project_root
  detect_project_root-nearest start ns k c h below found =
      rw c (walk_up-nearest start ns k h below found)
