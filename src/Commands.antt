-- ===== src/Commands.antt =====
-- crates/codequery-cli/src/commands: the commands over a scanned project.
pub mod Name
pub mod References
pub mod Locations
pub mod Common
pub mod Refs
pub mod Callers
pub mod CallChain
pub mod Context
pub mod Tree
pub mod Hierarchy
pub mod Dead
pub mod Rename
use codequery.Prelude.{List, Option, none, some, Text, ◌>>=◌}
use codequery.Core.Language.{
  Language, FileTables, language_for_file, language_name_for_file, from_name,
}
use codequery.Core.Reference.{Reference}

-- What the commands take from the file tables and from the reference extraction.
pub record Extraction (Tree : Type 0) : Type 0 where
  pub tables : FileTables
  pub extract_references : Text → Tree → Text → Language → List Reference

abbrev or_by_name : Option Language → Option Language → Option Language
or_by_name none other = other
or_by_name (some l) other = some l

-- The language of a file; where there is none the loops `continue`.
unfoldable pub language_of : FileTables → Text → Option Language
language_of t file =
    or_by_name (language_for_file t file)
      (do lang_name ← language_name_for_file t file; from_name t.to_lowercase lang_name)
