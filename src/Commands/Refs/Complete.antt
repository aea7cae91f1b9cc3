-- ===== src/Commands/Refs/Complete.antt =====
-- refs.rs: the output has every definition and every reference that the syntax gives.
use codequery.Prelude.{List, Text, Bool, true, ◌≡◌, In}
use codequery.Prelude.Dict.{Dict}
use codequery.Core.Symbol.{Symbol, file_of, fields}
use codequery.Core.Reference.{Reference}
use codequery.Index.{FileSymbols}
use codequery.Commands.Locations.{location, syntactic_references}
use codequery.Commands.Locations.Merge.{At}
use codequery.Commands.Refs.{Outside, RefsOutput, Line, line_of}
use codequery.Lsp.Cascade.{SemanticMode}

-- A reference on the line.
pub record OnLine (line : Line) (refs : List Reference) : Type 0 where
  pub ref : Reference
  pub member : In ref refs
  pub place : line_of ref ≡ line

module _ {Tree : Type 0} (o : Outside Tree) (project_root symbol : Text) (mode : SemanticMode)
    (is_json : Bool) where
  -- What `refs_of` hands on, when it hands anything on.
  abbrev Shown : List (FileSymbols Tree) → List Symbol → RefsOutput → Type 0
  Shown scan defs out =
      ((r : Reference)
        → In r (syntactic_references o.identifier_end o.extraction (λ r. true) symbol scan)
        → At (location r) out.references)
      × ((def : Symbol) → In def defs → OnLine (file_of def, (fields def).line) out.references)
