-- ===== src/Lsp/Uri.antt =====
-- crates/codequery-lsp/src/queries.rs: paths and `file://` URIs, lines and columns.
use codequery.Prelude.{
  ℕ, ◌-◌, ◌%◌, ◌^◌, ◌++◌, Option, none, some, Text, codes, strip_prefix, ◌≡◌, refl,
}

abbrev pub or_path : Option Text → Text → Text
or_path none path = path
or_path (some absolute) path = absolute

-- `canonicalize` may fail. A path is UTF-8, which `Path::display` does not change.
unfoldable pub path_to_uri : (canonicalize : Text → Option Text) → Text → Text
path_to_uri canonicalize path = codes "file://" ++ or_path (canonicalize path) path

abbrev pub or_whole : Option Text → Text → Text
or_whole none uri = uri
or_whole (some path) uri = path

unfoldable pub uri_to_path : Text → Text
uri_to_path uri = or_whole (strip_prefix (codes "file://") uri) uri

-- `saturating_sub(1) as u32`
unfoldable pub cq_line_to_lsp : ℕ → ℕ
cq_line_to_lsp line = (line - 1) % 2 ^ 32

unfoldable pub cq_column_to_lsp : ℕ → ℕ
cq_column_to_lsp column = column % 2 ^ 32

-- The URI of a path names its canonical form, or the path itself where there is none.
pub uri_to_path-path_to_uri :
    (canonicalize : Text → Option Text) (path : Text)
    → uri_to_path (path_to_uri canonicalize path) ≡ or_path (canonicalize path) path
unfolding uri_to_path path_to_uri
uri_to_path-path_to_uri canonicalize path = refl
