-- ===== src/Commands/Rename/Collect/Spans.antt =====
-- Every edit of a rename puts the new name over a range as long as the old one.
use codequery.Prelude.{
  ℕ, ◌+◌, ◌-◌, ◌>>=◌, List, [], ◌∷◌, ◌++◌, Option, none, some, Text, Bool, ◌==◌, ◌≡◌, refl, All,
  All-append, Bool-cases, Option-cases, inl, inr, length, get_elem?, text_eq,
}
use mathlib.Core.Path.{subst}
use codequery.Prelude.Dict.{Dict, get}
use codequery.Prelude.Sort.{All-sort_by}
use codequery.Prelude.Order.{Ordering, le_by}
use codequery.Core.Symbol.{Symbol, kind_of, kind_eq, impl, file_of, fields}
use codequery.Core.Language.{Language}
use codequery.Core.Reference.{Reference}
use codequery.Core.FilePath.{join}
use codequery.Index.{FileSymbols}
use codequery.Index.SymbolIndex.{from_scan, find_by_name}
use codequery.Commands.{Extraction, language_of}
use codequery.Commands.Name.{extract_name_at_column}
use codequery.Commands.Rename.{TextEdit, lines, find_from}
use codequery.Commands.Rename.Collect.{
  edit_at, names_old, reference_edits, definition_edit, definition_edits, push_edit, file_edits,
  scan_edits, passes, same_position, by_position, dedup_after, dedup_by, order_edits, edits_for,
  source_map, rename_edits,
}

-- The edit replaces a range of the old name's length, within one line, by the new name.
pub record Renames (old_name new_name : Text) (e : TextEdit) : Type 0 where
  pub one_line : e.end_line ≡ e.line
  pub range : e.end_column ≡ e.column + length old_name
  pub text : e.new_text ≡ new_name

module _ (P : TextEdit → Type 0) (same : TextEdit → TextEdit → Bool) where
  All-dedup_after : (e : TextEdit) (es : List TextEdit) → All P es → All P (dedup_after same e es)
  unfolding dedup_after
  All-dedup_after e [] h = tt
  All-dedup_after e (f ∷ es) h = elim (Bool-cases (same f e)) [
    | inl dropped ↦ rw dropped (All-dedup_after e es h.1)
    | inr kept ↦ rw kept (h.0, All-dedup_after f es h.1)
  ]

  All-dedup_by : (es : List TextEdit) → All P es → All P (dedup_by same es)
  unfolding dedup_by
  All-dedup_by [] h = tt
  All-dedup_by (e ∷ es) h = (h.0, All-dedup_after e es h.1)

module _ (old_name new_name : Text) where
  abbrev Each : List TextEdit → Type 0
  Each es = All (Renames old_name new_name) es

  edit_at-Renames :
      (file : Text) (line column : ℕ)
      → Renames old_name new_name (edit_at old_name new_name file line column)
  edit_at-Renames file line column = record { one_line = refl; range = refl; text = refl }

  reference_edits-Each : (refs : List Reference) → Each (reference_edits old_name new_name refs)
  unfolding reference_edits
  reference_edits-Each [] = tt
  reference_edits-Each (r ∷ refs) =
      elim (Bool-cases (names_old old_name new_name (extract_name_at_column r.context r.column))) [
        | inl named ↦ rw named (edit_at-Renames r.file r.line r.column, reference_edits-Each refs)
        | inr other ↦ rw other (reference_edits-Each refs)
      ]

  push_edit-Each :
      (o : Option TextEdit) (es : List TextEdit)
      → ((e : TextEdit) → o ≡ some e → Renames old_name new_name e)
      → Each es
      → Each (push_edit old_name new_name o es)
  push_edit-Each none es h k = k
  push_edit-Each (some e) es h k = (h e refl, k)

  edit_of-Renames :
      (file : Text) (line : ℕ) (found : Option ℕ) (e : TextEdit)
      → (do name_col ← found; some (edit_at old_name new_name file line name_col)) ≡ some e
      → Renames old_name new_name e
  edit_of-Renames file line none e h = cc h
  edit_of-Renames file line (some column) e h =
      let same : edit_at old_name new_name file line column ≡ e = cc h in
      subst (Renames old_name new_name) same (edit_at-Renames file line column)

  line_edit-Renames :
      (file : Text) (line : ℕ) (found : Option Text) (e : TextEdit)
      → (do
        line_text ← found
        name_col ← find_from old_name 0 line_text
        some (edit_at old_name new_name file line name_col))
        ≡ some e
      → Renames old_name new_name e
  line_edit-Renames file line none e h = cc h
  line_edit-Renames file line (some line_text) e h =
      edit_of-Renames file line (find_from old_name 0 line_text) e h

  source_edit-Renames :
      (file : Text) (line : ℕ) (found : Option Text) (e : TextEdit)
      → (do
        source ← found
        line_text ← get_elem? (lines source) (line - 1)
        name_col ← find_from old_name 0 line_text
        some (edit_at old_name new_name file line name_col))
        ≡ some e
      → Renames old_name new_name e
  source_edit-Renames file line none e h = cc h
  source_edit-Renames file line (some source) e h =
      line_edit-Renames file line (get_elem? (lines source) (line - 1)) e h

  definition_edit-Renames :
      (m : Dict Text Text) (def : Symbol) (e : TextEdit)
      → definition_edit old_name new_name m def ≡ some e
      → Renames old_name new_name e
  unfolding definition_edit
  definition_edit-Renames m def e h = elim (Bool-cases (kind_of def == impl)) [
    | inl block ↦ cc (rw block at h)
    | inr other ↦
        source_edit-Renames (file_of def) (fields def).line (get (file_of def) m) e (rw other at h)
  ]

  definition_edits-Each :
      (m : Dict Text Text) (defs : List Symbol) → Each (definition_edits old_name new_name m defs)
  unfolding definition_edits
  definition_edits-Each m [] = tt
  definition_edits-Each m (def ∷ defs) =
      push_edit-Each (definition_edit old_name new_name m def) _ (definition_edit-Renames m def)
        (definition_edits-Each m defs)

  module _ {Tree : Type 0} (x : Extraction Tree) (root : Text) (lang_filter : Option Language) where
    file_edits-Each :
        (o : Option Language) (entry : FileSymbols Tree)
        → Each (file_edits x root old_name new_name lang_filter o entry)
    unfolding file_edits
    file_edits-Each none entry = tt
    file_edits-Each (some language) entry = elim (Bool-cases (passes lang_filter language)) [
      | inl passed ↦ rw passed (reference_edits-Each _)
      | inr other ↦ rw other tt
    ]

    scan_edits-Each :
        (scan : List (FileSymbols Tree))
        → Each (scan_edits x root old_name new_name lang_filter scan)
    unfolding scan_edits
    scan_edits-Each [] = tt
    scan_edits-Each (entry ∷ scan) =
        All-append (Renames old_name new_name) _ _
          (file_edits-Each (language_of x.tables (join root entry.file)) entry)
          (scan_edits-Each scan)

    edits_for-Each :
        (path_cmp : Text → Text → Ordering) (scan : List (FileSymbols Tree)) (defs : List Symbol)
        (es : List TextEdit)
        → edits_for x path_cmp root old_name new_name lang_filter scan defs ≡ some es
        → Each es
    unfolding edits_for order_edits
    edits_for-Each path_cmp scan [] es h = cc h
    edits_for-Each path_cmp scan (d ∷ ds) es h =
        let found : List TextEdit =
          scan_edits x root old_name new_name lang_filter scan
          ++ definition_edits old_name new_name (source_map scan []) (d ∷ ds) in
        let same : order_edits path_cmp found ≡ es = cc h in
        subst Each same (
          All-dedup_by (Renames old_name new_name) (same_position path_cmp) _ (
            All-sort_by (le_by (by_position path_cmp)) (Renames old_name new_name) found (
              All-append (Renames old_name new_name) _ _ (scan_edits-Each scan)
                (definition_edits-Each (source_map scan []) (d ∷ ds)))))

    -- Every edit that a rename returns replaces, within one line, a range of the length of the old
    -- name by the new name, whatever the references and the definitions are.
    pub rename_edits-Renames :
        (path_cmp : Text → Text → Ordering) (scan : List (FileSymbols Tree)) (es : List TextEdit)
        → rename_edits x path_cmp root old_name new_name lang_filter scan ≡ some es
        → All (Renames old_name new_name) es
    unfolding rename_edits
    rename_edits-Renames path_cmp scan es h =
        elim (Option-cases (find_by_name (from_scan scan) old_name)) [
          | inl e ↦ cc (rw e at h)
          | inr (defs, e) ↦ edits_for-Each path_cmp scan defs es (rw e at h)
        ]
