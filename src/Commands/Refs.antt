-- ===== src/Commands/Refs.antt =====
-- crates/codequery-cli/src/commands/refs.rs: all references to a symbol. The result of `run` is what
-- it hands to the formatting, or nothing where it prints nothing.
pub mod Complete
use codequery.Prelude.{
  ℕ, ◌+◌, ◌-◌, List, [], ◌∷◌, ◌++◌, Option, none, some, Text, Bool, true, false, not, ◌&&◌, ◌||◌,
  ◌==◌, text_eq, nat_eq, Eq, pair_beq, pair_beq_iff, if◌then◌else◌, map, filter, leb, ltb, take,
  drop, length, is_empty,
}
use codequery.Prelude.Dict.{Dict, contains}
use codequery.Prelude.Order.{Ordering}
use codequery.Core.Symbol.{Symbol, file_of, fields}
use codequery.Core.Language.{Language, rust}
use codequery.Core.Reference.{Reference, definition}
use codequery.Core.Query.{Resolution, resolved, semantic, syntactic}
use codequery.Index.{FileSymbols}
use codequery.Index.SymbolIndex.{from_scan, find_by_name}
use codequery.Commands.{Extraction, language_of}
use codequery.Commands.Rename.{lines}
use codequery.Commands.Locations.{
  Location, location, insert_references, sources_of, context_of, merged, best_resolution,
  syntactic_references, sort_references,
}
use codequery.Lsp.Cascade.{
  ResolvedReference, ResolutionResult, SemanticMode, Target, World, resolve_with_cascade,
}

-- `get_context_lines`: the lines from `context` before to `context` behind the line.
unfoldable pub get_context_lines : Text → (ref_line context : ℕ) → List Text
get_context_lines source ref_line context =
    let all = lines source in
    let start = ref_line - 1 - context in
    if nat_eq.beq context 0
    then []
    else if nat_eq.beq ref_line 0 || ltb (length all) ref_line
    then []
    else take (ref_line + context - start) (drop start all)

abbrev pub definitions_found {ℓ} : {A : Type ℓ} → Option (List A) → List A
definitions_found none = []
definitions_found (some xs) = xs

abbrev or_rust : Option Language → Language
or_rust none = rust
or_rust (some l) = l

-- What the command takes from outside: the cascade's world, the resolver without a definition, the
-- length of an identifier, the order in which a map is iterated, and the order on paths.
pub record Outside (Tree : Type 0) : Type 0 where
  pub extraction : Extraction Tree
  pub world : World
  pub resolve_refs : List (FileSymbols Tree) → Text → ResolutionResult
  pub identifier_end : Text → ℕ
  pub iterate : Dict Location Reference → List (Location × Reference)
  pub path_cmp : Text → Text → Ordering

pub record RefsOutput : Type 0 where
  pub definitions : List Symbol
  pub references : List Reference
  pub resolution : Resolution

-- A resolved reference must lead to a file that defines the symbol, or to its own file.
abbrev leads_to : List Text → ResolvedReference → Option Text → Bool
leads_to def_files rr none = true
leads_to def_files rr (some df) = contains df def_files || df == rr.ref_file

abbrev pub is_kept : List Text → ResolvedReference → Bool
is_kept def_files rr = elim rr.resolution [
  | resolved ↦ leads_to def_files rr rr.def_file
  | _ ↦ true
]

unfoldable pub retain : List Symbol → List ResolvedReference → List ResolvedReference
retain definitions rrs =
    if is_empty definitions then rrs else filter (is_kept (map file_of definitions)) rrs

-- `(file, line)`
abbrev pub Line : Type 0
Line = Text × ℕ

instance abbrev pub line_eq : Eq Line
line_eq = record { beq = pair_beq text_eq.beq nat_eq.beq; beq_iff = pair_beq_iff text_eq nat_eq }

abbrev pub line_of : Reference → Line
line_of r = (r.file, r.line)

abbrev pub definition_reference : Dict Text Text → Symbol → Reference
definition_reference sources def = record {
  file = file_of def;
  line = (fields def).line;
  column = (fields def).column;
  kind = definition;
  context = context_of sources (file_of def) (fields def).line;
  caller = none;
  caller_kind = none;
}

-- The definitions on lines that no reference stands on.
unfoldable pub definition_references : Dict Text Text → List Line → List Symbol → List Reference
definition_references sources covered [] = []
definition_references sources covered (def ∷ defs) =
    let rest = definition_references sources covered defs in
    if contains (file_of def, (fields def).line) covered
    then rest
    else definition_reference sources def ∷ rest

module _ {Tree : Type 0} (o : Outside Tree) (project_root symbol : Text) (mode : SemanticMode)
    (is_json : Bool) where
  abbrev target_of : Symbol → Target
  target_of def = record {
    project_root = project_root;
    language = or_rust (language_of o.extraction.tables (file_of def));
    symbol_name = symbol;
    symbol_file = file_of def;
    symbol_line = (fields def).line;
    symbol_column = (fields def).column;
  }

  abbrev pub cascade : List (FileSymbols Tree) → List Symbol → List ResolvedReference
  cascade scan [] = (o.resolve_refs scan symbol).references
  cascade scan (def ∷ _) = (resolve_with_cascade o.world (target_of def) mode).0.references

  abbrev pub with_definitions : Dict Text Text → List Symbol → List Reference → List Reference
  with_definitions sources definitions refs =
      sort_references o.path_cmp
        (refs ++ definition_references sources (map line_of refs) definitions)

  -- Steps 4 to 8 for these definitions.
  unfoldable pub refs_of : List (FileSymbols Tree) → List Symbol → Option RefsOutput
  refs_of scan definitions =
      let matches = syntactic_references o.identifier_end o.extraction (λ r. true) symbol scan in
      let m = insert_references matches [] in
      let rrs = retain definitions (cascade scan definitions) in
      let sources = sources_of scan [] in
      let all_refs = sort_references o.path_cmp (merged sources m (o.iterate m) rrs) in
      if is_empty definitions && (is_empty all_refs && not is_json)
      then none
      else some (record {
        definitions = definitions;
        references = with_definitions sources definitions all_refs;
        resolution = best_resolution rrs;
      })

  unfoldable pub refs_run : List (FileSymbols Tree) → Option RefsOutput
  refs_run scan = refs_of scan (definitions_found (find_by_name (from_scan scan) symbol))
