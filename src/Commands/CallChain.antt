-- ===== src/Commands/CallChain.antt =====
-- crates/codequery-cli/src/commands/callchain.rs and crates/codequery-core/src/callchain.rs: the
-- tree of callers of a symbol.
pub mod Tree
pub mod Shape
pub mod Callers
use codequery.Prelude.{
  ℕ, zero, suc, List, [], ◌∷◌, ◌++◌, Option, none, some, Text, codes, Bool, true, false, ◌||◌, ◌==◌,
  text_eq, if◌then◌else◌, filter, not,
}
use codequery.Prelude.Dict.{Dict, get, insert, contains}
use codequery.Core.Symbol.{Symbol, SymbolKind, function, fields, SymbolFields}
use codequery.Core.Language.{Language}
use codequery.Core.Reference.{Reference, ReferenceKind, call}
use codequery.Index.{FileSymbols}
use codequery.Index.SymbolIndex.{SymbolIndex, from_scan, find_by_name}
use codequery.Commands.{Extraction, language_of}
use codequery.Commands.Name.{extract_name_at_column}

-- A caller entry: its name, kind, file, line and column.
pub record CallerEntry : Type 0 where
  pub caller_name : Text
  pub caller_kind : SymbolKind
  pub file : Text
  pub line : ℕ
  pub column : ℕ

abbrev pub CallerMap : Type 0
CallerMap = Dict Text (List CallerEntry)

-- The fields of `CallChainNode` other than `callers`, which is the list type of the block.
pub record NodeInfo : Type 0 where
  pub name : Text
  pub kind : SymbolKind
  pub file : Text
  pub line : ℕ
  pub column : ℕ

mutual
  pub data CallChainNode : Type 0 where
    node : NodeInfo → CallChainNodes → CallChainNode

  pub data CallChainNodes : Type 0 where
    nil : CallChainNodes
    cons : CallChainNode → CallChainNodes → CallChainNodes

abbrev pub or_empty : Option (List CallerEntry) → List CallerEntry
or_empty none = []
or_empty (some es) = es

abbrev kind_or_function : Option SymbolKind → SymbolKind
kind_or_function none = function
kind_or_function (some k) = k

-- `map.entry(called_name).or_default().push(…)`
push_caller : Text → CallerEntry → CallerMap → CallerMap
push_caller called e map = insert called (or_empty (get called map) ++ e ∷ []) map

add_named : Option Text → CallerEntry → CallerMap → CallerMap
add_named none e map = map
add_named (some called) e map = push_caller called e map

add_called : Option Text → Reference → CallerMap → CallerMap
add_called none r map = map
add_called (some caller) r map =
    add_named (extract_name_at_column r.context r.column)
      (record {
        caller_name = caller;
        caller_kind = kind_or_function r.caller_kind;
        file = r.file;
        line = r.line;
        column = r.column;
      })
      map

abbrev is_call : ReferenceKind → Bool
is_call call = true
is_call _ = false

-- One round of the inner loop: a call inside a function, with a name at its column.
unfoldable pub add_reference : Reference → CallerMap → CallerMap
unfolding add_called add_named push_caller
add_reference r map = if is_call r.kind then add_called r.caller r map else map

add_references : List Reference → CallerMap → CallerMap
add_references [] map = map
add_references (r ∷ refs) map = add_references refs (add_reference r map)

module _ {Tree : Type 0} (x : Extraction Tree) where
  add_file : Option Language → FileSymbols Tree → CallerMap → CallerMap
  add_file none entry map = map
  add_file (some language) entry map =
      add_references (x.extract_references entry.source entry.tree entry.file language) map

  add_files : List (FileSymbols Tree) → CallerMap → CallerMap
  add_files [] map = map
  add_files (entry ∷ scan) map =
      add_files scan (add_file (language_of x.tables entry.file) entry map)

  unfoldable pub build_caller_map : List (FileSymbols Tree) → CallerMap
  unfolding add_files add_file add_references add_reference
  build_caller_map scan = add_files scan []

-- The position of the caller's first definition, or of the call where the index has none. (The
-- lookup in an index that was built by a scan is never the `none` of an index out of bounds.)
abbrev located : CallerEntry → Option (List Symbol) → NodeInfo
located e none = record {
  name = e.caller_name;
  kind = e.caller_kind;
  file = e.file;
  line = e.line;
  column = e.column;
}
located e (some []) = record {
  name = e.caller_name;
  kind = e.caller_kind;
  file = e.file;
  line = e.line;
  column = e.column;
}
located e (some (s ∷ _)) =
    let f : SymbolFields = fields s in
    record { name = e.caller_name; kind = f.kind; file = f.file; line = f.line; column = f.column }

unfoldable pub caller_info : SymbolIndex → CallerEntry → NodeInfo
caller_info index e = located e (find_by_name index e.caller_name)

-- `HashSet<String>`: `insert` adds a name that is not there, `remove` takes it out.
abbrev pub NameSet : Type 0
NameSet = List Text

abbrev pub remove : Text → NameSet → NameSet
remove name visited = filter (λ n. not (n == name)) visited

module _ (caller_map : CallerMap) (index : SymbolIndex) where
  -- The loop over the callers: `child` is the recursive call, `seen` the names already taken.
  each_caller :
      (CallerEntry → NameSet → CallChainNode × NameSet)
      → List CallerEntry
      → NameSet
      → NameSet
      → CallChainNodes × NameSet
  each_caller child [] seen visited = (nil, visited)
  each_caller child (e ∷ callers) seen visited =
      let skip = each_caller child callers seen visited in
      let built = child e visited in
      let rest = each_caller child callers (e.caller_name ∷ seen) built.1 in
      if contains e.caller_name seen then skip else (cons built.0 rest.0, rest.1)

  unfoldable pub build_chain_node : ℕ → NodeInfo → NameSet → CallChainNode × NameSet
  unfolding each_caller
  build_chain_node zero info visited = (node info nil, visited)
  build_chain_node (suc remaining) info visited =
      let inner =
        each_caller (λ e v. build_chain_node remaining (caller_info index e) v)
          (or_empty (get info.name caller_map)) [] (info.name ∷ visited) in
      if contains info.name visited
      then (node info nil, visited)
      else (node info inner.0, remove info.name inner.1)

abbrev root_info : Text → Option (List Symbol) → NodeInfo
root_info name (some (s ∷ _)) =
    let f : SymbolFields = fields s in
    record { name = name; kind = f.kind; file = f.file; line = f.line; column = f.column }
root_info name _ = record {
  name = name;
  kind = function;
  file = codes "<unknown>";
  line = 0;
  column = 0;
}

-- The steps of `run` from the scan to the tree.
unfoldable pub call_chain :
    {Tree : Type 0} → Extraction Tree → List (FileSymbols Tree) → Text → ℕ → CallChainNode
call_chain x scan symbol depth =
    let index = from_scan scan in
    (build_chain_node (build_caller_map x scan) index depth
      (root_info symbol (find_by_name index symbol)) []).0
