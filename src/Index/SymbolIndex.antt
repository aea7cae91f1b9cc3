-- ===== src/Index/SymbolIndex.antt =====
-- crates/codequery-index/src/index.rs: the flat vector of symbols, and the maps from a name, a
-- file and a kind to positions in it.
pub mod Lookup
use codequery.Prelude.{
  ℕ, List, [], ◌∷◌, ◌++◌, Option, none, some, Text, length, get_elem?, Eq, text_eq, if◌then◌else◌,
  Bool, true, false,
}
use codequery.Prelude.Dict.{Dict, get, insert}
use codequery.Core.Symbol.{
  Symbol, symbol, Symbols, nil, cons, SymbolKind, kind_eq, name_of, file_of, kind_of, children,
}
use codequery.Index.{FileSymbols}

pub record SymbolIndex : Type 0 where
  pub symbols : List Symbol
  pub by_name : Dict Text (List ℕ)
  pub by_file : Dict Text (List ℕ)
  pub by_kind : Dict SymbolKind (List ℕ)

-- `unwrap_or_default` on a list of positions
abbrev pub or_default : Option (List ℕ) → List ℕ
or_default none = []
or_default (some is) = is

-- `map.entry(key).or_default().push(idx)`
unfoldable pub entry_push {ℓ} : {K : Type ℓ} ⦃e : Eq K⦄ → K → ℕ → Dict K (List ℕ) → Dict K (List ℕ)
entry_push key idx m = insert key (or_default (get key m) ++ idx ∷ []) m

-- One round of the loop of `collect_symbols`, before the recursion into the children.
push_symbol : Symbol → SymbolIndex → SymbolIndex
push_symbol sym st =
    let idx = length st.symbols in
    record {
      symbols = st.symbols ++ sym ∷ [];
      by_name = entry_push (name_of sym) idx st.by_name;
      by_file = entry_push (file_of sym) idx st.by_file;
      by_kind = entry_push (kind_of sym) idx st.by_kind;
    }

abbrev is_nil : Symbols → Bool
is_nil nil = true
is_nil (cons _ _) = false

mutual
  unfolding push_symbol

  collect_symbols : Symbols → SymbolIndex → SymbolIndex
  collect_symbols nil st = st
  collect_symbols (cons sym rest) st = collect_symbols rest (collect_symbol sym st)

  -- the body of the loop: the symbol, then its children if it has any
  collect_symbol : Symbol → SymbolIndex → SymbolIndex
  collect_symbol (symbol f cs) st =
      let st' = push_symbol (symbol f cs) st in
      let nested = collect_symbols cs st' in if is_nil cs then st' else nested

abbrev empty_index : SymbolIndex
empty_index = record { symbols = []; by_name = []; by_file = []; by_kind = [] }

collect_scan : {Tree : Type 0} → List (FileSymbols Tree) → SymbolIndex → SymbolIndex
collect_scan [] st = st
collect_scan (file_symbols ∷ scan) st = collect_scan scan (collect_symbols file_symbols.symbols st)

unfoldable pub from_scan : {Tree : Type 0} → List (FileSymbols Tree) → SymbolIndex
unfolding collect_scan collect_symbols
from_scan scan = collect_scan scan empty_index

-- `&self.symbols[i]` for each position; `none` is the panic of an index out of bounds.
symbols_at : List Symbol → List ℕ → Option (List Symbol)
symbols_at symbols [] = some []
symbols_at symbols (i ∷ is) = elim (get_elem? symbols i) [
  | none ↦ none
  | some s ↦ elim (symbols_at symbols is) [ none ↦ none | some rest ↦ some (s ∷ rest) ]
]

-- `map.get(key).map_or_else(Vec::new, …)`
find_in {ℓ} : {K : Type ℓ} ⦃e : Eq K⦄ → List Symbol → Dict K (List ℕ) → K → Option (List Symbol)
unfolding symbols_at
find_in symbols m key = elim (get key m) [ none ↦ some [] | some is ↦ symbols_at symbols is ]

unfoldable pub find_by_name : SymbolIndex → Text → Option (List Symbol)
unfolding find_in
find_by_name index name = find_in index.symbols index.by_name name

unfoldable pub find_by_kind : SymbolIndex → SymbolKind → Option (List Symbol)
unfolding find_in
find_by_kind index kind = find_in index.symbols index.by_kind kind

unfoldable pub symbols_in_file : SymbolIndex → Text → Option (List Symbol)
unfolding find_in
symbols_in_file index file = find_in index.symbols index.by_file file

abbrev pub all_symbols : SymbolIndex → List Symbol
all_symbols index = index.symbols
