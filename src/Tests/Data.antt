-- ===== src/Tests/Data.antt =====
-- A project with two files and its parameters.
use codequery.Prelude.{ℕ, zero, suc, List, [], ◌∷◌, none, some, Text, codes, map}
use codequery.Prelude.TextOrder.{text_cmp, text_cmp-IsCmp}
use codequery.Prelude.Order.{Ordering, IsCmp}
use codequery.Core.Symbol.{
  Symbol, symbol, nil, cons, SymbolKind, function, struct, SymbolFields, public,
}
use codequery.Core.Reference.{Reference, call}
use codequery.Core.Language.{FileTables}
use codequery.Core.Language.Names.{ascii_lower}
use codequery.Index.{FileSymbols}
use codequery.Commands.{Extraction}

abbrev pub fields_of : Text → SymbolKind → Text → ℕ → SymbolFields
fields_of name kind file line = record {
  name = name;
  kind = kind;
  file = file;
  line = line;
  column = 3;
  end_line = line;
  visibility = public;
  doc = none;
  body = none;
  signature = none;
}

abbrev pub run_symbol : Symbol
run_symbol = symbol (fields_of (codes "run") function (codes "a.rs") 2) nil

abbrev pub engine : Symbol
engine = symbol (fields_of (codes "Engine") struct (codes "a.rs") 1) (cons run_symbol nil)

abbrev pub helper : Symbol
helper = symbol (fields_of (codes "helper") function (codes "b.rs") 1) nil

abbrev pub file_a : FileSymbols ℕ
file_a = record {
  file = codes "a.rs";
  symbols = cons engine nil;
  source = codes "struct Engine;";
  tree = 1;
}

abbrev pub file_b : FileSymbols ℕ
file_b = record {
  file = codes "b.rs";
  symbols = cons helper nil;
  source = codes "fn helper() {}";
  tree = 2;
}

abbrev pub scan : List (FileSymbols ℕ)
scan = file_a ∷ file_b ∷ []

-- `run` calls `helper`.
abbrev pub helper_call : Reference
helper_call = record {
  file = codes "a.rs";
  line = 3;
  column = 0;
  kind = call;
  context = codes "helper()";
  caller = some (codes "run");
  caller_kind = some function;
}

abbrev pub references_in : ℕ → List Reference
references_in (suc zero) = helper_call ∷ []
references_in _ = []

abbrev pub tables : FileTables
tables = record {
  to_lowercase = map ascii_lower;
  extension = λ path. some (codes "rs");
  registry = record { name = some (codes "rust"); extensions = some (codes ".rs") ∷ [] } ∷ [];
}

abbrev pub extraction : Extraction ℕ
extraction = record {
  tables = tables;
  extract_references = λ source tree file language. references_in tree;
}

-- The lexicographic order of bytes.
abbrev pub path_cmp : Text → Text → Ordering
path_cmp = text_cmp

pub path_cmp-IsCmp : IsCmp path_cmp
path_cmp-IsCmp = text_cmp-IsCmp
