-- ===== src/Commands/References.antt =====
-- All references of a scan, in its order, as the loops of the commands meet them.
use codequery.Prelude.{List, [], ◌∷◌, ◌++◌, Option, none, some, Text}
use codequery.Core.Language.{Language}
use codequery.Core.Reference.{Reference}
use codequery.Index.{FileSymbols}
use codequery.Commands.{Extraction, language_of}

module _ {Tree : Type 0} (x : Extraction Tree) where
  abbrev pub file_references : Option Language → FileSymbols Tree → List Reference
  file_references none entry = []
  file_references (some language) entry =
      x.extract_references entry.source entry.tree entry.file language

  -- `path` gives the path by which the language of a file is told.
  unfoldable pub all_references : (path : Text → Text) → List (FileSymbols Tree) → List Reference
  all_references path [] = []
  all_references path (entry ∷ scan) =
      file_references (language_of x.tables (path entry.file)) entry ++ all_references path scan
