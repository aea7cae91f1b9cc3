-- ===== src/Commands/CallChain/Callers.antt =====
-- What the caller map holds for a name.
use codequery.Prelude.{
  List, [], ◌∷◌, ◌++◌, append_assoc, append-nil, Option, none, some, Text, ◌==◌, text_eq,
  if◌then◌else◌, filter_map, keep_some, ◌≡◌, refl, sym, ap, ◌∙◌, Bool-cases, inl, inr,
}
use codequery.Prelude.Dict.{get, get-insert}
use codequery.Core.Language.{Language}
use codequery.Core.Reference.{Reference}
use codequery.Index.{FileSymbols}
use codequery.Commands.{Extraction, language_of}
use codequery.Commands.Name.{extract_name_at_column}
use codequery.Commands.References.{file_references, all_references}
use codequery.Commands.CallChain.{
  CallerEntry, CallerMap, or_empty, kind_or_function, push_caller, add_named, add_called, is_call,
  add_reference, add_references, add_file, add_files, build_caller_map,
}

-- The entry that a reference makes under a name: it is a call of that name inside some function.
abbrev pub entry_for : Text → Option Text → Option Text → Reference → Option CallerEntry
entry_for name none called r = none
entry_for name (some caller) none r = none
entry_for name (some caller) (some called) r =
    if called == name
    then some (record {
      caller_name = caller;
      caller_kind = kind_or_function r.caller_kind;
      file = r.file;
      line = r.line;
      column = r.column;
    })
    else none

abbrev pub calls_to : Text → Reference → Option CallerEntry
calls_to name r =
    if is_call r.kind
    then entry_for name r.caller (extract_name_at_column r.context r.column) r
    else none

push_caller-get :
    (name called : Text) (e : CallerEntry) (m : CallerMap) (rest : List CallerEntry)
    → or_empty (get name (push_caller called e m)) ++ rest
      ≡ or_empty (get name m) ++ keep_some (if called == name then some e else none) rest
unfolding push_caller
push_caller-get name called e m rest = elim (Bool-cases (called == name)) [
  | inl same ↦
      rw (get-insert called name (or_empty (get called m) ++ e ∷ []) m, same, append_assoc)
        (ap (λ k. or_empty (get k m) ++ e ∷ rest) ((text_eq.beq_iff called name).0 same))
  | inr other ↦ rw (get-insert called name (or_empty (get called m) ++ e ∷ []) m, other)
]

add_called-get :
    (name : Text) (caller called : Option Text) (r : Reference) (m : CallerMap)
    (rest : List CallerEntry)
    → extract_name_at_column r.context r.column ≡ called
    → or_empty (get name (add_called caller r m)) ++ rest
      ≡ or_empty (get name m) ++ keep_some (entry_for name caller called r) rest
unfolding add_called add_named
add_called-get name none called r m rest h = refl
add_called-get name (some caller) none r m rest h = rw h
add_called-get name (some caller) (some called) r m rest h =
    rw h (push_caller-get name called _ m rest)

add_reference-get :
    (name : Text) (r : Reference) (m : CallerMap) (rest : List CallerEntry)
    → or_empty (get name (add_reference r m)) ++ rest
      ≡ or_empty (get name m) ++ keep_some (calls_to name r) rest
unfolding add_reference
add_reference-get name r m rest = elim (Bool-cases (is_call r.kind)) [
  | inl call ↦
      rw call
        (add_called-get name r.caller (extract_name_at_column r.context r.column) r m rest refl)
  | inr other ↦ rw other
]

add_references-get :
    (name : Text) (refs : List Reference) (m : CallerMap)
    → or_empty (get name (add_references refs m))
      ≡ or_empty (get name m) ++ filter_map (calls_to name) refs
unfolding add_references
add_references-get name [] m = sym (append-nil _)
add_references-get name (r ∷ refs) m =
    add_references-get name refs (add_reference r m)
    ∙ add_reference-get name r m (filter_map (calls_to name) refs)

keep_some-append :
    (o : Option CallerEntry) (xs ys : List CallerEntry)
    → keep_some o (xs ++ ys) ≡ keep_some o xs ++ ys
keep_some-append none xs ys = refl
keep_some-append (some e) xs ys = refl

filter_map-append :
    (f : Reference → Option CallerEntry) (xs ys : List Reference)
    → filter_map f (xs ++ ys) ≡ filter_map f xs ++ filter_map f ys
filter_map-append f [] ys = refl
filter_map-append f (x ∷ xs) ys =
    ap (keep_some (f x)) (filter_map-append f xs ys)
    ∙ keep_some-append (f x) (filter_map f xs) (filter_map f ys)

module _ {Tree : Type 0} (x : Extraction Tree) where
  add_file-get :
      (name : Text) (o : Option Language) (entry : FileSymbols Tree) (m : CallerMap)
      → or_empty (get name (add_file x o entry m))
        ≡ or_empty (get name m) ++ filter_map (calls_to name) (file_references x o entry)
  unfolding add_file
  add_file-get name none entry m = sym (append-nil _)
  add_file-get name (some language) entry m = add_references-get name _ m

  add_files-get :
      (name : Text) (scan : List (FileSymbols Tree)) (m : CallerMap)
      → or_empty (get name (add_files x scan m))
        ≡ or_empty (get name m) ++ filter_map (calls_to name) (all_references x (λ f. f) scan)
  unfolding add_files all_references
  add_files-get name [] m = sym (append-nil _)
  add_files-get name (entry ∷ scan) m =
      let o = language_of x.tables entry.file in
      add_files-get name scan (add_file x o entry m)
      ∙ ap (λ es. es ++ filter_map (calls_to name) (all_references x (λ f. f) scan))
          (add_file-get name o entry m)
      ∙ rw (filter_map-append, append_assoc)

  -- The caller map holds, under each name, one entry for every call of that name inside a function,
  -- in the order of the scan.
  pub build_caller_map-get :
      (scan : List (FileSymbols Tree)) (name : Text)
      → or_empty (get name (build_caller_map x scan))
        ≡ filter_map (calls_to name) (all_references x (λ f. f) scan)
  unfolding build_caller_map get
  build_caller_map-get scan name = add_files-get name scan []
