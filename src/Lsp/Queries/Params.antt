-- ===== src/Lsp/Queries/Params.antt =====
-- crates/codequery-lsp/src/types.rs: the parameters of the requests, as the values that serde makes
-- of them.
use codequery.Prelude.{ℕ, Text, codes, Bool}
use codequery.Prelude.Decimal.{decimal}
use codequery.Lsp.Value.{Value, object, string, number, boolean, no_fields, field}

abbrev position_value : (line character : ℕ) → Value
position_value line character = object (
    field (codes "line") (number (decimal line))
      (field (codes "character") (number (decimal character)) no_fields))

abbrev document_value : Text → Value
document_value uri = object (field (codes "uri") (string uri) no_fields)

unfoldable pub definition_params : Text → (line character : ℕ) → Value
definition_params uri line character = object (
    field (codes "textDocument") (document_value uri)
      (field (codes "position") (position_value line character) no_fields))

unfoldable pub hover_params : Text → (line character : ℕ) → Value
hover_params uri line character = object (
    field (codes "textDocument") (document_value uri)
      (field (codes "position") (position_value line character) no_fields))

abbrev context_value : Bool → Value
context_value include_declaration =
    object (field (codes "includeDeclaration") (boolean include_declaration) no_fields)

unfoldable pub reference_params : Text → (line character : ℕ) → Bool → Value
reference_params uri line character include_declaration = object (
    field (codes "textDocument") (document_value uri) (
      field (codes "position") (position_value line character)
        (field (codes "context") (context_value include_declaration) no_fields)))

abbrev item_value : (uri language_id text : Text) → Value
item_value uri language_id text = object (
    field (codes "uri") (string uri) (
      field (codes "languageId") (string language_id) (
        field (codes "version") (number (codes "1"))
          (field (codes "text") (string text) no_fields))))

unfoldable pub did_open_params : (uri language_id text : Text) → Value
did_open_params uri language_id text =
    object (field (codes "textDocument") (item_value uri language_id text) no_fields)
