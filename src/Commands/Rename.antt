-- ===== src/Commands/Rename.antt =====
-- crates/codequery-cli/src/commands/rename.rs and crates/codequery-core/src/edit.rs: the edits of a
-- rename, and their application to the lines of a file.
pub mod Apply
pub mod File
pub mod Collect
use codequery.Prelude.{
  ℕ, zero, suc, ◌+◌, ◌-◌, List, [], ◌∷◌, ◌++◌, Option, none, some, Text, codes, Bool, true, false,
  not, ◌||◌, ◌&&◌, ◌==◌, text_eq, nat_eq, if◌then◌else◌, leb, ltb, take, drop, length, get_elem?,
  filter,
}
use codequery.Prelude.Dict.{Dict, get}
use codequery.Prelude.Utf8.{is_char_boundary}
use codequery.Prelude.Sort.{sort_by}
use codequery.Prelude.Order.{Ordering, then_by, on, nat_cmp, le_by, flip_cmp}
use codequery.Core.Symbol.{Symbol, SymbolKind, kind_eq, kind_of, name_of, file_of, fields, impl}
use codequery.Core.Language.{Language, Language-discrete}
use codequery.Core.Query.{Resolution, syntactic, resolved, semantic}
use codequery.Core.Reference.{Reference}
use codequery.Core.FilePath.{join}
use codequery.Index.{FileSymbols}
use codequery.Index.SymbolIndex.{SymbolIndex, from_scan, find_by_name}
use codequery.Commands.{Extraction, language_of}
use codequery.Commands.Name.{extract_name_at_column}

pub record TextEdit : Type 0 where
  pub file : Text
  pub line : ℕ
  pub column : ℕ
  pub end_line : ℕ
  pub end_column : ℕ
  pub new_text : Text

-- `str::lines`: split at each newline, without a last empty line, and without a carriage return at
-- the end of a line.
abbrev strip_cr : Text → Text
strip_cr [] = []
strip_cr (c ∷ []) = if c == b'\r' then [] else c ∷ []
strip_cr (c ∷ d ∷ cs) = c ∷ strip_cr (d ∷ cs)

lines_from : Text → Text → List Text
lines_from current [] = (if current == [] then [] else current ∷ [])
lines_from current (c ∷ rest) =
    let end = lines_from [] rest in
    let more = lines_from (current ++ c ∷ []) rest in
    if c == b'\n' then strip_cr current ∷ end else more

unfoldable pub lines : Text → List Text
unfolding lines_from
lines s = lines_from [] s

-- `lines.join("\n")`
unfoldable pub join_lines : List Text → Text
join_lines [] = []
join_lines (l ∷ []) = l
join_lines (l ∷ m ∷ ls) = l ++ b'\n' ∷ join_lines (m ∷ ls)

-- `str::find` of a text: the first position at which it stands.
abbrev starts_with : Text → Text → Bool
starts_with [] s = true
starts_with (c ∷ cs) [] = false
starts_with (c ∷ cs) (d ∷ ds) = c == d && starts_with cs ds

unfoldable pub find_from : Text → ℕ → Text → Option ℕ
find_from pattern i [] = if starts_with pattern [] then some i else none
find_from pattern i (c ∷ cs) =
    let further = find_from pattern (suc i) cs in
    if starts_with pattern (c ∷ cs) then some i else further

-- `line.replace_range(column..end_column, text)`
abbrev pub replace_range : Text → ℕ → ℕ → Text → Text
replace_range line from end text = take from line ++ text ++ drop end line

-- `lines[line_idx]` changed by `f`; past the end nothing changes.
abbrev pub update : List Text → ℕ → (Text → Text) → List Text
update [] i f = []
update (l ∷ ls) zero f = f l ∷ ls
update (l ∷ ls) (suc i) f = l ∷ update ls i f

-- The guard on the line's length, and the replacement. Where it panics, see `replaceable`.
unfoldable pub edit_line : TextEdit → Text → Text
edit_line e line =
    if leb (e.column + (e.end_column - e.column)) (length line)
    then replace_range line e.column e.end_column e.new_text
    else line

unfoldable pub apply_edit : TextEdit → List Text → List Text
unfolding edit_line
apply_edit e ls = update ls (e.line - 1) (edit_line e)

pub apply_all : List TextEdit → List Text → List Text
apply_all [] ls = ls
apply_all (e ∷ es) ls = apply_all es (apply_edit e ls)

-- `b.line.cmp(&a.line).then(b.column.cmp(&a.column))`
abbrev pub last_first : TextEdit → TextEdit → Ordering
last_first = then_by (flip_cmp (on nat_cmp (λ e. e.line))) (flip_cmp (on nat_cmp (λ e. e.column)))

abbrev pub ends_with_newline : Text → Bool
ends_with_newline [] = false
ends_with_newline (c ∷ []) = c == b'\n'
ends_with_newline (c ∷ d ∷ cs) = ends_with_newline (d ∷ cs)

-- The body of the loop of `apply_edits` for one file: the new content from the old one.
unfoldable pub edit_content : List TextEdit → Text → Text
unfolding apply_all
edit_content file_edits content =
    let new_content =
      join_lines (apply_all (sort_by (le_by last_first) file_edits) (lines content)) in
    if ends_with_newline content && not (ends_with_newline new_content)
    then new_content ++ b'\n' ∷ []
    else new_content

-- `replace_range` panics at a column inside a character, and on a range that ends before it begins.
unfoldable pub replaceable : TextEdit → Option Text → Bool
replaceable e none = true
replaceable e (some line) =
    if leb (e.column + (e.end_column - e.column)) (length line)
    then leb e.column e.end_column
      && is_char_boundary line e.column
      && is_char_boundary line e.end_column
    else true

-- No edit of the loop panics, each on the lines as they are then.
pub all_replaceable : List TextEdit → List Text → Bool
all_replaceable [] ls = true
all_replaceable (e ∷ es) ls =
    replaceable e (get_elem? ls (e.line - 1)) && all_replaceable es (apply_edit e ls)

unfoldable pub content_replaceable : List TextEdit → Text → Bool
unfolding all_replaceable
content_replaceable file_edits content =
    all_replaceable (sort_by (le_by last_first) file_edits) (lines content)
