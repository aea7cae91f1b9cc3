-- ===== src/Commands/Callers.antt =====
-- crates/codequery-cli/src/commands/callers.rs: the calls of a symbol. It differs from refs.rs in the
-- references that the syntax gives, which are calls, and in the filter of the cascade's.
use codequery.Prelude.{
  List, [], ◌∷◌, Option, none, some, Text, Bool, true, false, not, ◌&&◌, ◌||◌, if◌then◌else◌,
  filter, is_empty,
}
use codequery.Core.Symbol.{Symbol}
use codequery.Core.Reference.{Reference, call}
use codequery.Index.{FileSymbols}
use codequery.Index.SymbolIndex.{from_scan, find_by_name}
use codequery.Commands.Locations.{
  insert_references, sources_of, merged, best_resolution, syntactic_references, sort_references,
  is_resolved, is_semantic,
}
use codequery.Commands.Refs.{Outside, RefsOutput, cascade, definitions_found}
use codequery.Lsp.Cascade.{ResolvedReference, ResolutionResult, SemanticMode}

abbrev pub is_call_reference : Reference → Bool
is_call_reference r = elim r.kind [ call ↦ true | _ ↦ false ]

module _ {Tree : Type 0} (o : Outside Tree)
    (resolve_callers : List (FileSymbols Tree) → Text → ResolutionResult)
    (project_root symbol : Text) (mode : SemanticMode) (is_json : Bool) where
  -- References that are resolved or semantic, whatever their kind.
  abbrev pub calls_of_cascade : List (FileSymbols Tree) → List Symbol → List ResolvedReference
  calls_of_cascade scan [] = (resolve_callers scan symbol).references
  calls_of_cascade scan (def ∷ defs) =
      filter (λ rr. is_resolved rr || is_semantic rr)
        (cascade o project_root symbol mode is_json scan (def ∷ defs))

  unfoldable pub callers_of : List (FileSymbols Tree) → List Symbol → Option RefsOutput
  callers_of scan definitions =
      let matches =
        syntactic_references o.identifier_end o.extraction is_call_reference symbol scan in
      let m = insert_references matches [] in
      let rrs = calls_of_cascade scan definitions in
      let call_refs =
        sort_references o.path_cmp (merged (sources_of scan []) m (o.iterate m) rrs) in
      if is_empty definitions && (is_empty call_refs && not is_json)
      then none
      else some (record {
        definitions = definitions;
        references = call_refs;
        resolution = best_resolution rrs;
      })

  unfoldable pub callers_run : List (FileSymbols Tree) → Option RefsOutput
  callers_run scan = callers_of scan (definitions_found (find_by_name (from_scan scan) symbol))
