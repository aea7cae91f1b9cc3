-- ===== src/Tests/Commands.antt =====
-- Runs of the theorems on the call chain, the unused symbols and the names in a line.
use codequery.Prelude.{filter_map, [], none, codes, text_eq, ◌≡◌, ◌↔◌, ◌≤◌, In}
use codequery.Prelude.Dict.{get}
use codequery.Commands.References.{all_references}
use codequery.Commands.CallChain.Callers.{calls_to, build_caller_map-get}
use codequery.Core.Symbol.{function}
use codequery.Index.SymbolIndex.{SymbolIndex, from_scan}
use codequery.Index.SymbolIndex.Lookup.{flatten_scan}
use codequery.Commands.CallChain.{CallerMap, NodeInfo, or_empty, build_caller_map, build_chain_node}
use codequery.Commands.CallChain.Tree.{chain, build_chain_node-eq}
use codequery.Commands.CallChain.Shape.{
  height, IsAcyclic, height-build_chain_node, build_chain_node-IsAcyclic,
}
use codequery.Commands.Dead.{referenced_names, dead_symbols}
use codequery.Commands.Dead.Report.{IsUnused, dead_symbols_iff}
use codequery.Tests.Data.{scan, engine, extraction, path_cmp}

abbrev callers : CallerMap
callers = build_caller_map extraction scan

abbrev index : SymbolIndex
index = from_scan scan

abbrev root : NodeInfo
root = record { name = codes "helper"; kind = function; file = codes "b.rs"; line = 1; column = 3 }

build_chain_node-eq_example :
    build_chain_node callers index 3 root [] ≡ (chain callers index 3 root [], [])
build_chain_node-eq_example = build_chain_node-eq callers index 3 root []

height-build_chain_node_example : height (build_chain_node callers index 3 root []).0 ≤ 3
height-build_chain_node_example = height-build_chain_node callers index 3 root []

build_chain_node-IsAcyclic_example : IsAcyclic [] (build_chain_node callers index 3 root []).0
build_chain_node-IsAcyclic_example = build_chain_node-IsAcyclic callers index 3 root []

dead_symbols_iff_example :
    In engine (dead_symbols extraction path_cmp (codes "/p") none none scan) ↔ (
      In engine (flatten_scan scan)
      × IsUnused none (referenced_names extraction (codes "/p") scan) engine)
dead_symbols_iff_example = dead_symbols_iff extraction path_cmp (codes "/p") none scan engine

build_caller_map-get_example :
    or_empty (get (codes "helper") callers)
    ≡ filter_map (calls_to (codes "helper")) (all_references extraction (λ f. f) scan)
build_caller_map-get_example = build_caller_map-get extraction scan (codes "helper")
