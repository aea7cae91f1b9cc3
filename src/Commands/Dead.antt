-- ===== src/Commands/Dead.antt =====
-- crates/codequery-cli/src/commands/dead.rs: the symbols whose name no reference mentions.
pub mod Report
pub mod Referenced
use codequery.Prelude.{
  ℕ, List, [], ◌∷◌, ◌++◌, Option, none, some, Text, codes, Bool, true, false, not, ◌||◌, ◌==◌,
  text_eq, if◌then◌else◌, filter, take,
}
use codequery.Prelude.Dict.{contains}
use codequery.Prelude.Sort.{sort_by}
use codequery.Prelude.Order.{Ordering, then_by, on, nat_cmp, le_by}
use codequery.Core.Symbol.{
  Symbol, SymbolKind, kind_eq, kind_of, name_of, file_of, fields, function, method, struct, class,
  trait, interface, enum, type, const, static, kind_module, impl, test,
}
use codequery.Core.Language.{Language}
use codequery.Core.Reference.{Reference}
use codequery.Core.FilePath.{join}
use codequery.Index.{FileSymbols}
use codequery.Index.SymbolIndex.{SymbolIndex, from_scan, all_symbols}
use codequery.Commands.{Extraction, language_of}
use codequery.Commands.Name.{extract_name_at_column}

abbrev pub insert_name : Option Text → List Text → List Text
insert_name none names = names
insert_name (some name) names = if contains name names then names else name ∷ names

add_names : List Reference → List Text → List Text
add_names [] names = names
add_names (r ∷ refs) names =
    add_names refs (insert_name (extract_name_at_column r.context r.column) names)

module _ {Tree : Type 0} (x : Extraction Tree) (root : Text) where
  add_file_names : Option Language → FileSymbols Tree → List Text → List Text
  add_file_names none entry names = names
  add_file_names (some language) entry names =
      add_names (x.extract_references entry.source entry.tree entry.file language) names

  collect_names : List (FileSymbols Tree) → List Text → List Text
  collect_names [] names = names
  collect_names (entry ∷ scan) names =
      collect_names scan (add_file_names (language_of x.tables (join root entry.file)) entry names)

  unfoldable pub referenced_names : List (FileSymbols Tree) → List Text
  unfolding collect_names add_file_names add_names
  referenced_names scan = collect_names scan []

-- `parse_kind`; `to_lowercase` is the standard library's. `none` is the error.
unfoldable pub parse_kind : (Text → Text) → Text → Option SymbolKind
parse_kind to_lowercase s =
    let t = to_lowercase s in
    if t == codes "function"
    then some function
    else if t == codes "method"
    then some method
    else if t == codes "struct"
    then some struct
    else if t == codes "class"
    then some class
    else if t == codes "trait"
    then some trait
    else if t == codes "interface"
    then some interface
    else if t == codes "enum"
    then some enum
    else if t == codes "type" || t == codes "type_alias"
    then some type
    else if t == codes "const" || t == codes "constant"
    then some const
    else if t == codes "static"
    then some static
    else if t == codes "module"
    then some kind_module
    else none

abbrev wrong_kind : Option SymbolKind → Symbol → Bool
wrong_kind none sym = false
wrong_kind (some k) sym = not (kind_of sym == k)

-- The closure of the filter.
unfoldable pub is_dead : Option SymbolKind → List Text → Symbol → Bool
is_dead kind_filter referenced sym =
    if wrong_kind kind_filter sym
    then false
    else if kind_of sym == impl
    then false
    else if kind_of sym == test
    then false
    else if name_of sym == codes "main"
    then false
    else not (contains (name_of sym) referenced)

-- `a.file.cmp(&b.file).then(a.line.cmp(&b.line))`, given the order on paths
abbrev pub by_file_line : (Text → Text → Ordering) → Symbol → Symbol → Ordering
by_file_line path_cmp = then_by (on path_cmp file_of) (on nat_cmp (λ s. (fields s).line))

abbrev pub truncate : Option ℕ → List Symbol → List Symbol
truncate none xs = xs
truncate (some limit) xs = take limit xs

-- The symbols that `run` reports for a scan.
unfoldable pub dead_symbols :
    {Tree : Type 0} (x : Extraction Tree) (path_cmp : Text → Text → Ordering) (root : Text)
    → Option SymbolKind
    → Option ℕ
    → List (FileSymbols Tree)
    → List Symbol
dead_symbols x path_cmp root kind_filter limit scan = truncate limit (
    sort_by (le_by (by_file_line path_cmp))
      (filter (is_dead kind_filter (referenced_names x root scan)) (all_symbols (from_scan scan))))
