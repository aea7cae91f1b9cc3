-- ===== src/Commands/Tree.antt =====
-- crates/codequery-cli/src/commands/tree.rs: the scan whose symbols are shown, to a depth.
pub mod Levels
use codequery.Prelude.{ℕ, suc, List, Option, none, some, leb, if◌then◌else◌, map}
use codequery.Core.Symbol.{Symbol, symbol, Symbols, nil, cons}
use codequery.Index.{FileSymbols}

-- The recursive call stands before the test that decides whether it is made.
unfoldable mutual
  pub truncate_children : Symbols → ℕ → ℕ → Symbols
  truncate_children nil current_depth max_depth = nil
  truncate_children (cons s rest) current_depth max_depth =
      cons (truncate_symbol s current_depth max_depth)
        (truncate_children rest current_depth max_depth)

  -- the closure of the `map`
  pub truncate_symbol : Symbol → ℕ → ℕ → Symbol
  truncate_symbol (symbol f cs) current_depth max_depth =
      let deeper = truncate_children cs (suc current_depth) max_depth in
      symbol f (if leb max_depth current_depth then nil else deeper)

module _ {Tree : Type 0} where
  abbrev limit_file : ℕ → FileSymbols Tree → FileSymbols Tree
  limit_file max_depth fs = record {
    file = fs.file;
    symbols = truncate_children fs.symbols 1 max_depth;
    source = fs.source;
    tree = fs.tree;
  }

  unfoldable pub limit_depth : List (FileSymbols Tree) → ℕ → List (FileSymbols Tree)
  limit_depth file_symbols max_depth = map (limit_file max_depth) file_symbols

  -- What `run` formats.
  unfoldable pub shown_tree : Option ℕ → List (FileSymbols Tree) → List (FileSymbols Tree)
  shown_tree none file_symbols = file_symbols
  shown_tree (some max_depth) file_symbols = limit_depth file_symbols max_depth
