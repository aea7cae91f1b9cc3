-- ===== src/Index.antt =====
-- crates/codequery-index: the scan results and the symbol index built from them.
pub mod SymbolIndex
pub mod Cache
pub mod Scanner
pub mod Grep
use codequery.Prelude.{Text}
use codequery.Core.Symbol.{Symbols}

-- `FileSymbols` of scanner.rs. `Tree` is `tree_sitter::Tree`, a library's type.
pub record FileSymbols (Tree : Type 0) : Type 0 where
  pub file : Text
  pub symbols : Symbols
  pub source : Text
  pub tree : Tree
