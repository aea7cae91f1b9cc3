-- ===== src/Commands/Rename/Collect.antt =====
-- crates/codequery-cli/src/commands/rename.rs: the edits that `run` collects, sorts and applies.
pub mod Ascending
pub mod Disk
pub mod Spans
use codequery.Prelude.{
  ℕ, ◌+◌, ◌-◌, List, [], ◌∷◌, ◌++◌, Option, none, some, Text, Bool, true, false, not, ◌||◌, ◌&&◌,
  ◌==◌, text_eq, nat_eq, if◌then◌else◌, length, get_elem?, is_empty, ◌>>=◌,
}
use codequery.Prelude.Dict.{Dict, get, insert}
use codequery.Prelude.Sort.{sort_by}
use codequery.Prelude.Order.{Ordering, then_by, on, nat_cmp, le_by}
use codequery.Core.Symbol.{Symbol, SymbolKind, kind_eq, kind_of, file_of, fields, impl}
use codequery.Core.Language.{Language, language_beq}
use codequery.Core.Query.{Resolution, syntactic, resolved, semantic}
use codequery.Core.Reference.{Reference}
use codequery.Core.FilePath.{join}
use codequery.Index.{FileSymbols}
use codequery.Index.SymbolIndex.{from_scan, find_by_name}
use codequery.Commands.{Extraction, language_of}
use codequery.Commands.Name.{extract_name_at_column}
use codequery.Commands.Rename.{TextEdit, lines, find_from, edit_content, content_replaceable}

module _ (old_name new_name : Text) where
  -- The edit that puts the new name over the old one at a position.
  abbrev pub edit_at : Text → ℕ → ℕ → TextEdit
  edit_at file line column = record {
    file = file;
    line = line;
    column = column;
    end_line = line;
    end_column = column + length old_name;
    new_text = new_name;
  }

  abbrev names_old : Option Text → Bool
  names_old none = false
  names_old (some ref_name) = ref_name == old_name

  reference_edits : List Reference → List TextEdit
  reference_edits [] = []
  reference_edits (r ∷ refs) =
      let rest = reference_edits refs in
      if names_old (extract_name_at_column r.context r.column)
      then edit_at r.file r.line r.column ∷ rest
      else rest

  -- The edit at the first occurrence of the old name in the line of a definition.
  definition_edit : Dict Text Text → Symbol → Option TextEdit
  definition_edit source_map def = if kind_of def == impl then none else do
    source ← get (file_of def) source_map
    line_text ← get_elem? (lines source) ((fields def).line - 1)
    name_col ← find_from old_name 0 line_text
    some (edit_at (file_of def) (fields def).line name_col)

  abbrev push_edit : Option TextEdit → List TextEdit → List TextEdit
  push_edit none rest = rest
  push_edit (some e) rest = e ∷ rest

  definition_edits : Dict Text Text → List Symbol → List TextEdit
  definition_edits source_map [] = []
  definition_edits source_map (def ∷ defs) =
      push_edit (definition_edit source_map def) (definition_edits source_map defs)

source_map : {Tree : Type 0} → List (FileSymbols Tree) → Dict Text Text → Dict Text Text
source_map [] m = m
source_map (fs ∷ scan) m = source_map scan (insert fs.file fs.source m)

abbrev passes : Option Language → Language → Bool
passes none language = true
passes (some l) language = language_beq language l

module _ {Tree : Type 0} (x : Extraction Tree) (root old_name new_name : Text)
    (lang_filter : Option Language) where
  file_edits : Option Language → FileSymbols Tree → List TextEdit
  file_edits none entry = []
  file_edits (some language) entry =
      if passes lang_filter language
      then reference_edits old_name new_name
          (x.extract_references entry.source entry.tree entry.file language)
      else []

  scan_edits : List (FileSymbols Tree) → List TextEdit
  scan_edits [] = []
  scan_edits (entry ∷ scan) =
      file_edits (language_of x.tables (join root entry.file)) entry ++ scan_edits scan

-- `a.file.cmp(&b.file).then(a.line.cmp(&b.line)).then(a.column.cmp(&b.column))`
abbrev pub by_position : (Text → Text → Ordering) → TextEdit → TextEdit → Ordering
by_position path_cmp =
    then_by (on path_cmp (λ e. e.file))
      (then_by (on nat_cmp (λ e. e.line)) (on nat_cmp (λ e. e.column)))

-- Paths are equal where they compare as equal.
abbrev pub path_eq : (Text → Text → Ordering) → Text → Text → Bool
path_eq path_cmp a b = elim (path_cmp a b) [ Ordering.eq ↦ true | _ ↦ false ]

abbrev pub same_position : (Text → Text → Ordering) → TextEdit → TextEdit → Bool
same_position path_cmp a b =
    path_eq path_cmp a.file b.file && a.line == b.line && a.column == b.column

-- `Vec::dedup_by`: an element is dropped if it is the same as the last one kept.
dedup_after : (TextEdit → TextEdit → Bool) → TextEdit → List TextEdit → List TextEdit
dedup_after same kept [] = []
dedup_after same kept (e ∷ es) =
    let drop_it = dedup_after same kept es in
    let keep_it = dedup_after same e es in if same e kept then drop_it else e ∷ keep_it

unfoldable pub dedup_by : (TextEdit → TextEdit → Bool) → List TextEdit → List TextEdit
unfolding dedup_after
dedup_by same [] = []
dedup_by same (e ∷ es) = e ∷ dedup_after same e es

unfoldable pub order_edits : (Text → Text → Ordering) → List TextEdit → List TextEdit
unfolding dedup_by
order_edits path_cmp edits =
    dedup_by (same_position path_cmp) (sort_by (le_by (by_position path_cmp)) edits)

edits_for :
    {Tree : Type 0}
    → Extraction Tree
    → (Text → Text → Ordering)
    → (root old_name new_name : Text) → Option Language
    → List (FileSymbols Tree)
    → List Symbol
    → Option (List TextEdit)
edits_for x path_cmp root old_name new_name lang_filter scan [] = none
edits_for x path_cmp root old_name new_name lang_filter scan (d ∷ ds) = some (
    order_edits path_cmp (
      scan_edits x root old_name new_name lang_filter scan
      ++ definition_edits old_name new_name (source_map scan []) (d ∷ ds)))

-- The edits of `run`; `none` is the error of a symbol that is not found.
unfoldable pub rename_edits :
    {Tree : Type 0}
    → Extraction Tree
    → (Text → Text → Ordering)
    → (root old_name new_name : Text) → Option Language
    → List (FileSymbols Tree)
    → Option (List TextEdit)
unfolding edits_for scan_edits file_edits reference_edits definition_edits definition_edit
    source_map
rename_edits x path_cmp root old_name new_name lang_filter scan = do
  definitions ← find_by_name (from_scan scan) old_name
  edits_for x path_cmp root old_name new_name lang_filter scan definitions

abbrev precise : Resolution → Bool
precise syntactic = false
precise resolved = true
precise semantic = true

-- Whether the edits are written to disk.
unfoldable pub should_apply : Bool → Bool → Resolution → Bool
should_apply force_apply dry_run resolution =
    if force_apply then true else if dry_run then false else precise resolution

-- `by_file.entry(edit.file).or_default().push(edit)`, for each edit.
abbrev pub or_no_edits : Option (List TextEdit) → List TextEdit
or_no_edits none = []
or_no_edits (some es) = es

unfoldable pub group_edits : List TextEdit → Dict Text (List TextEdit) → Dict Text (List TextEdit)
group_edits [] m = m
group_edits (e ∷ es) m = group_edits es (insert e.file (or_no_edits (get e.file m) ++ e ∷ []) m)

-- The contents of the files below the project root; `none` is a file that cannot be read.
abbrev pub Files : Type 0
Files = Text → Option Text

abbrev pub put : Text → Text → Files → Files
put f content files g = if g == f then some content else files g

-- One group: the file is read, edited and written. `false` is the I/O error that ends the loop, or the
-- panic of an edit, before which nothing of this file is written.
apply_group : (Text → Bool) → Text → List TextEdit → Option Text → Files → Bool × Files
apply_group writable file edits none files = (false, files)
apply_group writable file edits (some content) files =
    if content_replaceable edits content && writable file
    then (true, put file (edit_content edits content) files)
    else (false, files)

-- The loop of `apply_edits` over the groups, in the order in which the map yields them.
unfoldable pub apply_groups : (Text → Bool) → List (Text × List TextEdit) → Files → Bool × Files
unfolding apply_group
apply_groups writable [] files = (true, files)
apply_groups writable ((file, edits) ∷ groups) files =
    let (done, files') = apply_group writable file edits (files file) files in
    let rest = apply_groups writable groups files' in if done then rest else (false, files')
