-- ===== src/Lsp/Oneshot.antt =====
-- crates/codequery-lsp/src/oneshot.rs: the language's identifier, and the column that is asked about.
pub mod Column
use codequery.Prelude.{
  ℕ, ◌+◌, ◌-◌, ◌≤◌, Option, none, some, Text, codes, Bool, true, false, not, ◌&&◌, ◌||◌, leb,
  nat_beq, if◌then◌else◌, length, get_elem?, drop, ◌≡◌, ◌⊎◌, inl, inr, refl, arith, Bool-cases,
  Option-cases,
}
use codequery.Prelude.Utf8.{is_char_boundary}
use codequery.Core.Language.{
  Language, rust, typescript, javascript, python, go, c, cpp, java, ruby, php, csharp, swift,
  kotlin, scala, zig, lua, bash, html, css, json, yaml, toml,
}
use codequery.Commands.Rename.{lines}
use codequery.Index.Grep.{Find}
use codequery.Index.Grep.Words.{IsFind, Occurs, Occurs-undrop}

unfoldable pub lsp_language_id : Language → Text
lsp_language_id rust = codes "rust"
lsp_language_id typescript = codes "typescript"
lsp_language_id javascript = codes "javascript"
lsp_language_id python = codes "python"
lsp_language_id go = codes "go"
lsp_language_id c = codes "c"
lsp_language_id cpp = codes "cpp"
lsp_language_id java = codes "java"
lsp_language_id ruby = codes "ruby"
lsp_language_id php = codes "php"
lsp_language_id csharp = codes "csharp"
lsp_language_id swift = codes "swift"
lsp_language_id kotlin = codes "kotlin"
lsp_language_id scala = codes "scala"
lsp_language_id zig = codes "zig"
lsp_language_id lua = codes "lua"
lsp_language_id bash = codes "shellscript"
lsp_language_id html = codes "html"
lsp_language_id css = codes "css"
lsp_language_id json = codes "json"
lsp_language_id yaml = codes "yaml"
lsp_language_id toml = codes "toml"

-- `u8::is_ascii_alphanumeric`, which an underscore is not.
abbrev pub is_ascii_alphanumeric : ℕ → Bool
is_ascii_alphanumeric b =
    leb b'0' b && leb b b'9' || leb b'a' b && leb b b'z' || leb b'A' b && leb b b'Z'

abbrev pub alphanumeric_at : Option ℕ → Bool
alphanumeric_at none = false
alphanumeric_at (some b) = is_ascii_alphanumeric b

-- `before_ok && after_ok`; a position outside the line has no byte.
unfoldable pub is_whole_word : Text → ℕ → Text → Bool
is_whole_word line_text pos name =
    let end = pos + length name in
    (nat_beq pos 0 || not (alphanumeric_at (get_elem? line_text (pos - 1))))
    && (leb (length line_text) end || not (alphanumeric_at (get_elem? line_text end)))

module _ (find : Find) where
  abbrev pub column_found : Text → ℕ → Text → Option ℕ → ℕ
  column_found line_text original_column name none = original_column
  column_found line_text original_column name (some offset) =
      let pos = original_column + offset in
      if is_whole_word line_text pos name then pos else original_column

  -- `none` is the panic of the slice `line_text[original_column..]`.
  abbrev pub column_in_line : Option Text → ℕ → Text → Option ℕ
  column_in_line none original_column name = some original_column
  column_in_line (some line_text) original_column name =
      if is_char_boundary line_text original_column
      then some
          (column_found line_text original_column name (find name (drop original_column line_text)))
      else none

  unfoldable pub find_identifier_column : Text → ℕ → ℕ → Text → Option ℕ
  find_identifier_column source line original_column name =
      column_in_line (get_elem? (lines source) (line - 1)) original_column name
