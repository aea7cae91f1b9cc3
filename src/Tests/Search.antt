-- ===== src/Tests/Search.antt =====
-- Runs of the theorems on the search of a project: its root, the words in its files, the symbols by
-- their name, and the references.
use codequery.Prelude.{
  ℕ, zero, suc, List, [], ◌∷◌, Option, none, some, Text, codes, Bool, true, false, ◌==◌, text_eq,
  if◌then◌else◌, length, ◌≡◌, ◌↔◌, refl, arith, take, drop, drop-nil, Bool-cases, inl, inr, ◌⊎◌,
  ◌≤◌, ap, ◌∙◌, sym,
}
use codequery.Prelude.Dict.{Dict}
use codequery.Core.Error.{ok}
use codequery.Core.Project.{Paths, detect_project_root, detect_project_root-nearest, path_of}
use codequery.Core.Symbol.{Symbol, nil, cons}
use codequery.Core.Reference.{Reference}
use codequery.Core.Query.{syntactic}
use codequery.Index.Grep.{Find, data_contains_word}
use codequery.Index.Grep.Words.{IsFind, Occurs, IsWordAt, data_contains_word_iff}
use codequery.Commands.Common.{Narrow, search_files_for_symbol}
use codequery.Commands.Common.Parsers.{search_each, search_files_for_symbol-eq}
use codequery.Commands.Refs.{Outside, RefsOutput, refs_run}
use codequery.Lsp.Oneshot.{is_whole_word, find_identifier_column}
use codequery.Lsp.Oneshot.Column.{IsColumn, find_identifier_column-IsColumn}
use codequery.Lsp.Cascade.{oneshot, found}
use codequery.Tests.Data.{scan, engine, tables, extraction, path_cmp}

abbrev paths : Paths
paths = record {
  exists = λ p. p == codes "/p/.git";
  canonicalize = λ p. some (codes "src" ∷ codes "p" ∷ []);
  canonicalize_error = λ p. [];
}

detect_project_root-nearest_example : detect_project_root paths (codes ".") ≡ ok (codes "/p")
unfolding codequery.Core.Project.has_marker codequery.Core.FilePath.join
detect_project_root-nearest_example =
    detect_project_root-nearest paths (codes ".") (codes "src" ∷ codes "p" ∷ []) 1 refl
      (omega arith) (λ j h. let first : j ≡ 0 = omega arith in rw first refl) refl

abbrev opt_suc : Option ℕ → Option ℕ
opt_suc none = none
opt_suc (some p) = some (suc p)

-- A search that tries one position after another.
abbrev naive : Find
naive n [] = if take (length n) [] == n then some 0 else none
naive n (c ∷ h) =
    let later = opt_suc (naive n h) in if take (length n) (c ∷ h) == n then some 0 else later

opt_suc-some : (o : Option ℕ) (p : ℕ) → opt_suc o ≡ some p → (q : ℕ) × (o ≡ some q) × (p ≡ suc q)
opt_suc-some none p e = cc
opt_suc-some (some q) p e = (q, refl, cc)

opt_suc-none : (o : Option ℕ) → opt_suc o ≡ none → o ≡ none
opt_suc-none none e = refl
opt_suc-none (some q) e = cc

naive-found : (n h : Text) (p : ℕ) → naive n h ≡ some p → Occurs n h p
naive-found n [] p e = elim (Bool-cases (text_eq.beq (take (length n) []) n)) [
  | inl s ↦ let zero_at : 0 ≡ p = cc (rw s at e) in rw (← zero_at) ((text_eq.beq_iff _ n).0 s)
  | inr s ↦ absurd (cc (rw s at e))
]
naive-found n (c ∷ h) p e = elim (Bool-cases (text_eq.beq (take (length n) (c ∷ h)) n)) [
  | inl s ↦ let zero_at : 0 ≡ p = cc (rw s at e) in rw (← zero_at) ((text_eq.beq_iff _ n).0 s)
  | inr s ↦
      let (q, f, same) = opt_suc-some (naive n h) p (rw s at e) in rw same (naive-found n h q f)
]

later_occurs :
    (n h : Text) (c q : ℕ)
    → Occurs n (c ∷ h) q
    → text_eq.beq (take (length n) (c ∷ h)) n ≡ false
    → (r : ℕ) × (q ≡ suc r) × Occurs n h r
later_occurs n h c zero o s = absurd (cc (sym s ∙ (text_eq.beq_iff _ n).1 o))
later_occurs n h c (suc q) o s = (q, refl, o)

naive-first : (n h : Text) (p q : ℕ) → naive n h ≡ some p → Occurs n h q → p ≤ q
naive-first n [] p q e o = elim (Bool-cases (text_eq.beq (take (length n) []) n)) [
  | inl s ↦ let zero_at : 0 ≡ p = cc (rw s at e) in omega arith
  | inr s ↦ absurd (cc (rw s at e))
]
naive-first n (c ∷ h) p q e o = elim (Bool-cases (text_eq.beq (take (length n) (c ∷ h)) n)) [
  | inl s ↦ let zero_at : 0 ≡ p = cc (rw s at e) in omega arith
  | inr s ↦
      let (r, f, same) = opt_suc-some (naive n h) p (rw s at e) in
      let (t, at_t, o') = later_occurs n h c q o s in
      let ordered = naive-first n h r t f o' in omega arith
]

naive-missing : (n h : Text) (q : ℕ) → naive n h ≡ none → ¬ (Occurs n h q)
naive-missing n [] q e o = elim (Bool-cases (text_eq.beq (take (length n) []) n)) [
  | inl s ↦ absurd (cc (rw s at e))
  | inr s ↦
      let here = ap (take (length n)) (sym (drop-nil q)) ∙ o in
      absurd (cc (sym s ∙ (text_eq.beq_iff _ n).1 here))
]
naive-missing n (c ∷ h) q e o = elim (Bool-cases (text_eq.beq (take (length n) (c ∷ h)) n)) [
  | inl s ↦ absurd (cc (rw s at e))
  | inr s ↦
      let (t, _, o') = later_occurs n h c q o s in
      naive-missing n h t (opt_suc-none (naive n h) (rw s at e)) o'
]

naive-law : IsFind naive
naive-law = record { found = naive-found; first = naive-first; missing = naive-missing }

data_contains_word_iff_example :
    (data_contains_word naive (codes "let run = runner()") (codes "run") ≡ true)
    ↔ ((p : ℕ) × IsWordAt (codes "run") (codes "let run = runner()") p)
data_contains_word_iff_example =
    data_contains_word_iff naive naive-law b'r' (codes "un") (codes "let run = runner()")

-- A parser is a number, and so is a tree.
abbrev narrow : Narrow
narrow = record {
  Parser = ℕ;
  Tree = ℕ;
  tables = tables;
  read_to_string = λ path. some (codes "fn run() {}");
  contains_text = λ source name. true;
  for_language = λ l. some 1;
  for_name = λ name. none;
  parse = λ p source. some 2;
  extract_symbols = λ source tree path l. cons engine nil;
  extract_symbols_by_name = λ source tree path name. nil;
}

search_files_for_symbol-eq_example :
    search_files_for_symbol narrow
      (codes "/p")
      (codes "run")
      none
      (codes "a.rs" ∷ codes "b.rs" ∷ [])
    ≡ search_each narrow (codes "/p") (codes "run") none (codes "a.rs" ∷ codes "b.rs" ∷ [])
search_files_for_symbol-eq_example =
    search_files_for_symbol-eq narrow (codes "/p") (codes "run") none
      (codes "a.rs" ∷ codes "b.rs" ∷ [])

-- No daemon and no server; the cascade ends with no reference at all.
abbrev outside : Outside ℕ
outside = record {
  extraction = extraction;
  world = record {
    running = false;
    spawned = false;
    running_at_poll = λ n. false;
    daemon_locations = λ t. codequery.Lsp.Types.ok [];
    oneshot_references = λ t. codequery.Lsp.Types.ok [];
    stack_graph = λ t. found [];
  };
  resolve_refs = λ scan name. found [];
  identifier_end = λ s. 6;
  iterate = λ m. m;
  path_cmp = path_cmp;
}

abbrev or_none : Option RefsOutput → RefsOutput
or_none none = record { definitions = []; references = []; resolution = syntactic }
or_none (some out) = out

abbrev output : RefsOutput
output = or_none (refs_run outside (codes "/p") (codes "run") oneshot false scan)

abbrev greet_line : Text
greet_line = codes "pub fn greet() {}"

find_identifier_column-IsColumn_example :
    IsColumn greet_line 1 0
      (codes "greet")
      (find_identifier_column naive greet_line 1 0 (codes "greet"))
find_identifier_column-IsColumn_example =
    find_identifier_column-IsColumn naive naive-law greet_line 1 0 (codes "greet")

greet_column : find_identifier_column naive greet_line 1 0 (codes "greet") ≡ some 7
unfolding find_identifier_column codequery.Commands.Rename.lines is_whole_word
    codequery.Prelude.Utf8.is_char_boundary
greet_column = refl

-- A column within a character of two bytes.
inside_character : find_identifier_column naive (195 ∷ 169 ∷ []) 1 1 (codes "f") ≡ none
unfolding find_identifier_column codequery.Commands.Rename.lines
    codequery.Prelude.Utf8.is_char_boundary
inside_character = refl

-- An underscore before the name does not count as part of a longer word.
underscore_before : is_whole_word (codes "my_foo") 3 (codes "foo") ≡ true
unfolding is_whole_word
underscore_before = refl
