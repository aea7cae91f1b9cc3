-- ===== src/Tests/Edits.antt =====
-- Runs of the theorems on the edits of a rename.
use codequery.Prelude.{
  All, none, ℕ, List, [], ◌∷◌, some, Text, codes, ◌≡◌, refl, inr, In, here, length, filter,
  get_elem?, ◌==◌, text_eq, arith, true, false, ◌+◌,
}
use mathlib.Core.Path.{subst}
use codequery.Prelude.Dict.{get, insert}
use codequery.Prelude.Sort.{sort_by}
use codequery.Prelude.Order.{le_by}
use codequery.Commands.Rename.{TextEdit, apply_all, last_first}
use codequery.Commands.Rename.Apply.{splice}
use codequery.Commands.Rename.File.{IsAscending, apply_all-splice}
use codequery.Commands.Rename.Collect.{dedup_by, order_edits, group_edits, Files, apply_groups}
use codequery.Commands.Rename.Collect.Ascending.{order_edits-IsAscending}
use codequery.Commands.Rename.Collect.Disk.{Edited, apply_groups-group_edits}
use codequery.Core.Symbol.{kind_beq}
use codequery.Core.Language.{language_for_file, language_for_file_with_overrides}
use codequery.Index.SymbolIndex.{entry_push, from_scan, find_by_name}
use codequery.Commands.{language_of}
use codequery.Commands.Name.{extract_name_at_column}
use codequery.Commands.Rename.Collect.{edit_at, rename_edits}
use codequery.Commands.Rename.{lines, find_from}
use codequery.Commands.Rename.Collect.Spans.{Renames, rename_edits-Renames}
use codequery.Tests.Data.{scan, extraction, path_cmp, path_cmp-IsCmp}

abbrev put_at : Text → ℕ → ℕ → TextEdit
put_at file line column = record {
  file = file;
  line = line;
  column = column;
  end_line = line;
  end_column = column + 1;
  new_text = codes "yy";
}

abbrev a : Text
a = codes "a"

-- The line `x + x`, with both names replaced.
abbrev edits : List TextEdit
edits = put_at a 1 0 ∷ put_at a 1 4 ∷ []

abbrev ls : List Text
ls = codes "x + x" ∷ codes "z" ∷ []

apply_all-splice_example :
    (length (apply_all (sort_by (le_by last_first) edits) ls) ≡ 2)
    × (get_elem? (apply_all (sort_by (le_by last_first) edits) ls) 0
        ≡ some (splice 0 (codes "x + x") edits))
apply_all-splice_example =
    apply_all-splice edits ls 0 (codes "x + x") ((inr (refl, omega arith), tt), (tt, tt)) refl
      (omega arith, omega arith, (omega arith, omega arith, omega arith))

abbrev collected : List TextEdit
collected = put_at a 1 4 ∷ put_at (codes "b") 1 0 ∷ put_at a 1 0 ∷ put_at a 1 4 ∷ []

order_edits-IsAscending_example :
    IsAscending (filter (λ e. e.file == a) (order_edits path_cmp collected))
order_edits-IsAscending_example = order_edits-IsAscending path_cmp path_cmp-IsCmp a collected

abbrev files : Files
files f = some (codes "x + x")

abbrev groups : List (Text × List TextEdit)
groups = (a, edits) ∷ []

apply_groups-group_edits_example :
    Edited edits (some (codes "x + x")) ((apply_groups (λ f. true) groups files).1 a)
unfolding apply_groups group_edits get insert codequery.Commands.Rename.content_replaceable sort_by
    codequery.Commands.Rename.replaceable lines codequery.Prelude.Utf8.is_char_boundary
    codequery.Commands.Rename.apply_edit
apply_groups-group_edits_example =
    apply_groups-group_edits (λ f. true) edits groups files a (tt, tt)
      (λ es p. let e : edits ≡ es = cc p in subst (λ fs. In (a, fs) groups) e here) (λ p. cc p) refl

-- `helper` is called in one file and defined in the other.
abbrev renamed : List TextEdit
renamed =
    edit_at (codes "helper") (codes "aid") (codes "a.rs") 3 0
    ∷ edit_at (codes "helper") (codes "aid") (codes "b.rs") 1 3
    ∷ []

rename_edits-Renames_example : All (Renames (codes "helper") (codes "aid")) renamed
unfolding entry_push rename_edits find_by_name from_scan get insert order_edits dedup_by sort_by
    lines find_from language_of language_for_file language_for_file_with_overrides kind_beq
    extract_name_at_column codequery.Core.Language.built_in
rename_edits-Renames_example =
    rename_edits-Renames (codes "helper") (codes "aid") extraction (codes "/p") none path_cmp scan
      renamed refl

-- An edit inside a character of two bytes panics, and the file is as it was.
split_character :
    apply_groups
      (λ f. true)
      ((a, edit_at (codes "x") (codes "y") a 1 1 ∷ []) ∷ [])
      (λ f. some (195 ∷ 169 ∷ []))
    ≡ (false, λ f. some (195 ∷ 169 ∷ []))
unfolding apply_groups codequery.Commands.Rename.content_replaceable sort_by
    codequery.Commands.Rename.replaceable lines codequery.Prelude.Utf8.is_char_boundary
    codequery.Commands.Rename.apply_edit
split_character = refl
