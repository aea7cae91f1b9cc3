-- ===== src/Commands/Dead/Referenced.antt =====
-- Which names count as referenced.
use codequery.Prelude.{
  List, [], ◌∷◌, ◌++◌, Option, none, some, Text, Bool, true, false, ◌||◌, ◌==◌, text_eq, ◌≡◌, refl,
  sym, ap, ◌∙◌, arith, Bool-cases, inl, inr,
}
use codequery.Prelude.Dict.{contains}
use codequery.Core.Language.{Language}
use codequery.Core.Reference.{Reference}
use codequery.Core.FilePath.{join}
use codequery.Index.{FileSymbols}
use codequery.Commands.{Extraction, language_of}
use codequery.Commands.Name.{extract_name_at_column}
use codequery.Commands.References.{file_references, all_references}
use codequery.Commands.Dead.{
  insert_name, add_names, add_file_names, collect_names, referenced_names,
}

abbrev pub is_name : Text → Option Text → Bool
is_name name none = false
is_name name (some n) = name == n

-- Some reference has the name at its column.
abbrev pub mentions : Text → List Reference → Bool
mentions name [] = false
mentions name (r ∷ refs) =
    is_name name (extract_name_at_column r.context r.column) || mentions name refs

or_assoc : (a b c : Bool) → ((a || b) || c) ≡ (a || (b || c))
or_assoc true b c = refl
or_assoc false b c = refl

mentions-append :
    (name : Text) (xs ys : List Reference)
    → mentions name (xs ++ ys) ≡ (mentions name xs || mentions name ys)
mentions-append name [] ys = refl
mentions-append name (x ∷ xs) ys =
    ap (λ b. is_name name (extract_name_at_column x.context x.column) || b)
      (mentions-append name xs ys)
    ∙ sym (
        or_assoc (is_name name (extract_name_at_column x.context x.column)) (mentions name xs)
          (mentions name ys))

contains-insert_name :
    (name : Text) (o : Option Text) (names : List Text)
    → contains name (insert_name o names) ≡ (contains name names || is_name name o)
contains-insert_name name none names = ground arith
contains-insert_name name (some n) names = elim (Bool-cases (name == n)) [
  | inl same ↦
      let e : name ≡ n = (text_eq.beq_iff name n).0 same in
      let there_too : contains name names ≡ contains n names = ap (λ k. contains k names) e in
      ground (arith, there_too, same)
  | inr other ↦ ground (arith, other)
]

contains-add_names :
    (name : Text) (refs : List Reference) (names : List Text)
    → contains name (add_names refs names) ≡ (contains name names || mentions name refs)
unfolding add_names
contains-add_names name [] names = ground arith
contains-add_names name (r ∷ refs) names =
    let o = extract_name_at_column r.context r.column in
    contains-add_names name refs (insert_name o names)
    ∙ ap (λ b. b || mentions name refs) (contains-insert_name name o names)
    ∙ or_assoc (contains name names) (is_name name o) (mentions name refs)

module _ {Tree : Type 0} (x : Extraction Tree) (root : Text) where
  contains-add_file_names :
      (name : Text) (o : Option Language) (entry : FileSymbols Tree) (names : List Text)
      → contains name (add_file_names x root o entry names)
        ≡ (contains name names || mentions name (file_references x o entry))
  unfolding add_file_names
  contains-add_file_names name none entry names = ground arith
  contains-add_file_names name (some language) entry names = contains-add_names name _ names

  contains-collect_names :
      (name : Text) (scan : List (FileSymbols Tree)) (names : List Text)
      → contains name (collect_names x root scan names)
        ≡ (contains name names || mentions name (all_references x (join root) scan))
  unfolding collect_names all_references
  contains-collect_names name [] names = ground arith
  contains-collect_names name (entry ∷ scan) names =
      let o = language_of x.tables (join root entry.file) in
      contains-collect_names name scan (add_file_names x root o entry names)
      ∙ ap (λ b. b || mentions name (all_references x (join root) scan))
          (contains-add_file_names name o entry names)
      ∙ or_assoc (contains name names) (mentions name (file_references x o entry))
          (mentions name (all_references x (join root) scan))
      ∙ ap (λ b. contains name names || b)
          (sym
            (mentions-append name (file_references x o entry) (all_references x (join root) scan)))

  -- A name is in the set of referenced names exactly where some reference of the scan, of whatever
  -- kind, has that name at its column.
  pub contains-referenced_names :
      (name : Text) (scan : List (FileSymbols Tree))
      → contains name (referenced_names x root scan)
        ≡ mentions name (all_references x (join root) scan)
  unfolding referenced_names
  contains-referenced_names name scan = contains-collect_names name scan []
