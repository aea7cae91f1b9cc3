-- ===== src/Core/Reference.antt =====
-- crates/codequery-core/src/reference.rs: where a symbol is used.
use codequery.Prelude.{ℕ, Option, Text, codes}
use codequery.Core.Symbol.{SymbolKind}

pub data ReferenceKind : Type 0 where
  call type_usage import assignment definition : ReferenceKind

-- `impl Display for ReferenceKind`
unfoldable pub display_reference_kind : ReferenceKind → Text
display_reference_kind call = codes "call"
display_reference_kind type_usage = codes "type_usage"
display_reference_kind import = codes "import"
display_reference_kind assignment = codes "assignment"
display_reference_kind definition = codes "definition"

pub record Reference : Type 0 where
  pub file : Text
  pub line : ℕ
  pub column : ℕ
  pub kind : ReferenceKind
  pub context : Text
  pub caller : Option Text
  pub caller_kind : Option SymbolKind
