-- ===== src/Commands/Hierarchy.antt =====
-- crates/codequery-cli/src/commands/hierarchy.rs: the types above and below one type. The extraction
-- of `extract_supertype_relations` from a tree is given; `none` is the panic of an index.
pub mod Names
pub mod Order
pub mod Result
use codequery.Prelude.{
  ℕ, List, [], ◌∷◌, ◌++◌, Option, none, some, Text, codes, Bool, true, false, ◌||◌, ◌==◌, text_eq,
  if◌then◌else◌, ◌>>=◌, map, head?, filter,
}
use codequery.Prelude.Sort.{sort_by}
use codequery.Prelude.Order.{on, le_by}
use codequery.Prelude.TextOrder.{text_cmp}
use codequery.Core.FilePath.{join}
use codequery.Core.Language.{Language, language_beq}
use codequery.Core.Symbol.{
  Symbol, SymbolKind, kind_eq, kind_of, name_of, file_of, fields, struct, class, trait, interface,
  enum,
}
use codequery.Index.{FileSymbols}
use codequery.Index.SymbolIndex.{SymbolIndex, from_scan, find_by_name}
use codequery.Commands.{Extraction, language_of}

pub record TypeHierarchyNode : Type 0 where
  pub name : Text
  pub kind : SymbolKind
  pub file : Text
  pub line : ℕ
  pub column : ℕ

pub record TypeHierarchyResult : Type 0 where
  pub target : TypeHierarchyNode
  pub supertypes : List TypeHierarchyNode
  pub subtypes : List TypeHierarchyNode

pub record SupertypeRelation : Type 0 where
  pub subtype : Text
  pub supertype : Text
  pub file : Text
  pub line : ℕ

abbrev pub node_of_symbol : Symbol → TypeHierarchyNode
node_of_symbol def = record {
  name = name_of def;
  kind = kind_of def;
  file = file_of def;
  line = (fields def).line;
  column = (fields def).column;
}

abbrev pub is_type_like : Symbol → Bool
is_type_like d =
    kind_of d == struct
    || kind_of d == class
    || kind_of d == trait
    || kind_of d == interface
    || kind_of d == enum

abbrev pub or_first : Option Symbol → Option Symbol → Option Symbol
or_first none first = first
or_first (some d) first = some d

abbrev pub or_external : Text → Option Symbol → TypeHierarchyNode
or_external query (some def) = node_of_symbol def
or_external query none = record {
  name = query;
  kind = class;
  file = codes "<unknown>";
  line = 0;
  column = 0;
}

-- The definition that looks like a type, or the first one, or a type from elsewhere.
unfoldable pub target_of_definitions : Text → List Symbol → TypeHierarchyNode
target_of_definitions query definitions =
    or_external query (or_first (head? (filter is_type_like definitions)) (head? definitions))

-- The first definition of a name, or the relation's own place with the kind it suggests.
abbrev pub node_or : SymbolKind → Text → SupertypeRelation → List Symbol → TypeHierarchyNode
node_or kind name rel (def ∷ _) = node_of_symbol def
node_or kind name rel [] = record {
  name = name;
  kind = kind;
  file = rel.file;
  line = rel.line;
  column = 0;
}

pub record Found : Type 0 where
  pub supertypes : List TypeHierarchyNode
  pub subtypes : List TypeHierarchyNode

abbrev pub push_supertype : SymbolIndex → SupertypeRelation → Found → Option Found
push_supertype index rel st = do
  defs ← find_by_name index rel.supertype
  some (record {
    supertypes = st.supertypes ++ node_or trait rel.supertype rel defs ∷ [];
    subtypes = st.subtypes;
  })

abbrev pub push_subtype : SymbolIndex → SupertypeRelation → Found → Option Found
push_subtype index rel st = do
  defs ← find_by_name index rel.subtype
  some (record {
    supertypes = st.supertypes;
    subtypes = st.subtypes ++ node_or struct rel.subtype rel defs ∷ [];
  })

-- The body of the inner loop.
unfoldable pub add_relation : SymbolIndex → Text → SupertypeRelation → Found → Option Found
add_relation index query rel st = do
  above ← if rel.subtype == query then push_supertype index rel st else some st
  if rel.supertype == query then push_subtype index rel above else some above

unfoldable pub add_relations : SymbolIndex → Text → List SupertypeRelation → Found → Option Found
add_relations index query [] st = some st
add_relations index query (rel ∷ relations) st = do
  next ← add_relation index query rel st
  add_relations index query relations next

-- `dedup_by` on names: an element goes when it has the name of the last one that was kept.
abbrev pub dedup_named_after : Text → List TypeHierarchyNode → List TypeHierarchyNode
dedup_named_after previous [] = []
dedup_named_after previous (n ∷ nodes) =
    let dropped = dedup_named_after previous nodes in
    let kept = dedup_named_after n.name nodes in if n.name == previous then dropped else n ∷ kept

abbrev pub dedup_by_name : List TypeHierarchyNode → List TypeHierarchyNode
dedup_by_name [] = []
dedup_by_name (n ∷ nodes) = n ∷ dedup_named_after n.name nodes

abbrev pub sorted_names : List TypeHierarchyNode → List TypeHierarchyNode
sorted_names nodes = dedup_by_name (sort_by (le_by (on text_cmp (λ n. n.name))) nodes)

module _ {Tree : Type 0} (x : Extraction Tree)
    (extract_supertype_relations : Text → Tree → Text → Language → List SupertypeRelation)
    (root : Text) (lang_filter : Option Language) where
  abbrev pub other_language : Option Language → Language → Bool
  other_language none language = false
  other_language (some lang) language = if language_beq language lang then false else true

  abbrev pub file_relations : Option Language → FileSymbols Tree → List SupertypeRelation
  file_relations none entry = []
  file_relations (some language) entry =
      if other_language lang_filter language
      then []
      else extract_supertype_relations entry.source entry.tree entry.file language

  -- The relations in the order in which the two loops meet them.
  unfoldable pub relations_of : List (FileSymbols Tree) → List SupertypeRelation
  relations_of [] = []
  relations_of (entry ∷ scan) =
      file_relations (language_of x.tables (join root entry.file)) entry ++ relations_of scan

  unfoldable pub hierarchy_run : Text → List (FileSymbols Tree) → Option TypeHierarchyResult
  hierarchy_run query scan =
      let index = from_scan scan in
      do
        definitions ← find_by_name index query
        found ←
            add_relations index query (relations_of scan)
              (record { supertypes = []; subtypes = [] })
        some (record {
          target = target_of_definitions query definitions;
          supertypes = sorted_names found.supertypes;
          subtypes = sorted_names found.subtypes;
        })
