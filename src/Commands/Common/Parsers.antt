-- ===== src/Commands/Common/Parsers.antt =====
-- common.rs: the parser caches change nothing.
use codequery.Prelude.{
  List, [], ◌∷◌, ◌++◌, Option, none, some, Text, true, false, text_eq, if◌then◌else◌, ◌>>=◌, ◌≡◌,
  refl, sym, ap, ◌∙◌, Bool-cases, ◌⊎◌, inl, inr,
}
use codequery.Core.Symbol.{Symbol}
use codequery.Core.Language.{
  Language, language_beq, language_beq_iff, language_for_file, language_name_for_file,
}
use codequery.Commands.Common.{
  Narrow, Cache, created, get_or_create_parser, get_or_create_runtime_parser, filtered_source,
  symbols_in, symbols_by_name, passes, parsed_with, builtin_source, builtin_file, runtime_parsed,
  runtime_source, runtime_file, Caches, builtin_done, other_file, search_file, search_files,
  search_files_for_symbol,
}

module _ (n : Narrow) where
  -- The cached parser is the one that is created for its key.
  abbrev IsValid : {K : Type 0} → (K → Option n.Parser) → Cache n K → Type 0
  IsValid create none = Unit
  IsValid create (some (key, p)) = (create key ≡ some p)

  -- A lookup agrees with the creation of a parser, and leaves a valid cache.
  abbrev Agrees :
      {K A : Type 0} → (K → Option n.Parser) → Option A → Option (A × Cache n K) → Type 0
  Agrees create none none = Unit
  Agrees create (some a) (some (b, cache)) = (b ≡ a) × IsValid create cache
  Agrees create _ _ = ⊥

  created-Agrees :
      {K : Type 0} (create : K → Option n.Parser) (key : K) (o : Option n.Parser)
      → create key ≡ o
      → Agrees create o (created n key o)
  created-Agrees create key none e = tt
  created-Agrees create key (some p) e = (refl, e)

  get_or_create_parser-Agrees :
      (cache : Cache n Language) (language : Language)
      → IsValid n.for_language cache
      → Agrees n.for_language (n.for_language language) (get_or_create_parser n cache language)
  unfolding get_or_create_parser
  get_or_create_parser-Agrees none language v =
      created-Agrees n.for_language language (n.for_language language) refl
  get_or_create_parser-Agrees (some (lang, p)) language v =
      elim (Bool-cases (language_beq lang language)) [
        | inl e ↦
            let made : n.for_language language ≡ some p =
              ap n.for_language (sym ((language_beq_iff lang language).0 e)) ∙ v in
            rw (e, made) (refl, v)
        | inr e ↦ rw e (created-Agrees n.for_language language (n.for_language language) refl)
      ]

  get_or_create_runtime_parser-Agrees :
      (cache : Cache n Text) (name : Text)
      → IsValid n.for_name cache
      → Agrees n.for_name (n.for_name name) (get_or_create_runtime_parser n cache name)
  unfolding get_or_create_runtime_parser
  get_or_create_runtime_parser-Agrees none name v =
      created-Agrees n.for_name name (n.for_name name) refl
  get_or_create_runtime_parser-Agrees (some (key, p)) name v =
      elim (Bool-cases (text_eq.beq key name)) [
        | inl e ↦
            let made : n.for_name name ≡ some p =
              ap n.for_name (sym ((text_eq.beq_iff key name).0 e)) ∙ v in
            rw (e, made) (refl, v)
        | inr e ↦ rw e (created-Agrees n.for_name name (n.for_name name) refl)
      ]

  module _ (project_root name : Text) (lang_filter : Option Language) where
    -- The search of one file with a parser of its own.
    abbrev fresh_symbols : Language → Text → Text → Option n.Parser → Option (List Symbol)
    fresh_symbols language path source none = none
    fresh_symbols language path source (some p) =
        some (symbols_in n project_root name lang_filter language path source (n.parse p source))

    abbrev builtin_symbols : Language → Text → Option Text → Option (List Symbol)
    builtin_symbols language path none = some []
    builtin_symbols language path (some source) =
        fresh_symbols language path source (n.for_language language)

    abbrev fresh_by_name : Text → Text → Text → Option n.Parser → List Symbol
    fresh_by_name lang_name path source none = []
    fresh_by_name lang_name path source (some p) =
        symbols_by_name n project_root name lang_filter lang_name path source (n.parse p source)

    abbrev runtime_symbols : Text → Text → Option Text → List Symbol
    runtime_symbols lang_name path none = []
    runtime_symbols lang_name path (some source) =
        fresh_by_name lang_name path source (n.for_name lang_name)

    abbrev other_symbols : Option Language → Text → Option Text → List Symbol
    other_symbols filter path none = []
    other_symbols (some l) path (some lang_name) = []
    other_symbols none path (some lang_name) =
        runtime_symbols lang_name path (filtered_source n project_root name lang_filter path)

    abbrev pub file_symbols : Text → Option Language → Option (List Symbol)
    file_symbols path (some language) =
        if passes n project_root name lang_filter lang_filter language
        then builtin_symbols language path (filtered_source n project_root name lang_filter path)
        else some []
    file_symbols path none =
        some (other_symbols lang_filter path (language_name_for_file n.tables path))

    -- The search without caches: the files one by one, an error ending it.
    abbrev pub search_each : List Text → Option (List Symbol)
    search_each [] = some []
    search_each (path ∷ files) = do
      found ← file_symbols path (language_for_file n.tables path)
      others ← search_each files
      some (found ++ others)

    -- The same symbols, and a valid cache behind them.
    abbrev Same :
        {C : Type 0} → (C → Type 0) → Option (List Symbol) → Option (C × List Symbol) → Type 0
    Same V none none = Unit
    Same V (some a) (some (cache, b)) = (b ≡ a) × V cache
    Same V _ _ = ⊥

    parsed_with-Same :
        (language : Language) (path source : Text) (o : Option n.Parser)
        (g : Option (n.Parser × Cache n Language))
        → Agrees n.for_language o g
        → Same
            (IsValid n.for_language)
            (fresh_symbols language path source o)
            (parsed_with n project_root name lang_filter language path source g)
    parsed_with-Same language path source none none h = tt
    parsed_with-Same language path source (some p) (some (q, cache)) h = (
      ap (λ r. symbols_in n project_root name lang_filter language path source (n.parse r source))
          h.0,
      h.1,
    )
    parsed_with-Same language path source none (some g) h = absurd h
    parsed_with-Same language path source (some p) none h = absurd h

    builtin_source-Same :
        (cache : Cache n Language) (language : Language) (path : Text) (o : Option Text)
        → IsValid n.for_language cache
        → Same
            (IsValid n.for_language)
            (builtin_symbols language path o)
            (builtin_source n project_root name lang_filter cache language path o)
    builtin_source-Same cache language path none v = (refl, v)
    builtin_source-Same cache language path (some source) v =
        parsed_with-Same language path source _ _ (get_or_create_parser-Agrees cache language v)

    runtime_parsed-Same :
        (cache : Cache n Text) (lang_name path source : Text) (o : Option n.Parser)
        (g : Option (n.Parser × Cache n Text))
        → IsValid n.for_name cache
        → Agrees n.for_name o g
        → Same
            (IsValid n.for_name)
            (some (fresh_by_name lang_name path source o))
            (some (runtime_parsed n project_root name lang_filter cache lang_name path source g))
    runtime_parsed-Same cache lang_name path source none none v h = (refl, v)
    runtime_parsed-Same cache lang_name path source (some p) (some (q, cache')) v h = (
      ap
          (λ r.
            symbols_by_name n project_root name lang_filter lang_name path source
              (n.parse r source))
          h.0,
      h.1,
    )
    runtime_parsed-Same cache lang_name path source none (some g) v h = absurd h
    runtime_parsed-Same cache lang_name path source (some p) none v h = absurd h

    runtime_source-Same :
        (cache : Cache n Text) (lang_name path : Text) (o : Option Text)
        → IsValid n.for_name cache
        → Same
            (IsValid n.for_name)
            (some (runtime_symbols lang_name path o))
            (some (runtime_source n project_root name lang_filter cache lang_name path o))
    runtime_source-Same cache lang_name path none v = (refl, v)
    runtime_source-Same cache lang_name path (some source) v =
        runtime_parsed-Same cache lang_name path source _ _ v
          (get_or_create_runtime_parser-Agrees cache lang_name v)

    runtime_file-Same :
        (filter : Option Language) (cache : Cache n Text) (lang_name path : Text)
        → IsValid n.for_name cache
        → Same
            (IsValid n.for_name)
            (some (other_symbols filter path (some lang_name)))
            (some (runtime_file n project_root name lang_filter filter cache lang_name path))
    runtime_file-Same none cache lang_name path v = runtime_source-Same cache lang_name path _ v
    runtime_file-Same (some l) cache lang_name path v = (refl, v)

    abbrev BothValid : Caches n project_root name lang_filter → Type 0
    BothValid caches = IsValid n.for_language caches.0 × IsValid n.for_name caches.1

    builtin_done-Same :
        (runtime : Cache n Text) (s : Option (List Symbol))
        (r : Option (Cache n Language × List Symbol))
        → IsValid n.for_name runtime
        → Same (IsValid n.for_language) s r
        → Same BothValid s (builtin_done n project_root name lang_filter runtime r)
    builtin_done-Same runtime none none v h = tt
    builtin_done-Same runtime (some a) (some (cache, b)) v h = (h.0, (h.1, v))
    builtin_done-Same runtime none (some r) v h = absurd h
    builtin_done-Same runtime (some a) none v h = absurd h

    search_file-Same :
        (caches : Caches n project_root name lang_filter) (path : Text) (l : Option Language)
        → BothValid caches
        → Same BothValid
            (file_symbols path l)
            (search_file n project_root name lang_filter caches path l)
    unfolding search_file builtin_file
    search_file-Same (current, runtime) path (some language) v =
        builtin_done-Same runtime _ _ v.1 (filtered (Bool-cases _))
      where
        filtered :
            (passes n project_root name lang_filter lang_filter language ≡ true)
              ⊎ (passes n project_root name lang_filter lang_filter language ≡ false)
            → Same
                (IsValid n.for_language)
                (file_symbols path (some language))
                (builtin_file n project_root name lang_filter current language path)
        filtered (inl e) = rw (builtin_file, e) (builtin_source-Same current language path _ v.0)
        filtered (inr e) = rw (builtin_file, e) (refl, v.0)
    search_file-Same (current, runtime) path none v = others (language_name_for_file n.tables path)
      where
        others :
            (o : Option Text)
            → Same BothValid
                (some (other_symbols lang_filter path o))
                (some (other_file n project_root name lang_filter (current, runtime) path o))
        others none = (refl, v)
        others (some lang_name) =
            let (same, valid) = runtime_file-Same lang_filter runtime lang_name path v.1 in
            (same, (v.0, valid))

    more :
        (s : Option (List Symbol))
        (r : Option (Caches n project_root name lang_filter × List Symbol))
        (others : Option (List Symbol))
        (go : Caches n project_root name lang_filter → Option (List Symbol))
        → Same BothValid s r
        → ((caches : Caches n project_root name lang_filter)
            → BothValid caches
            → go caches ≡ others)
        → (do step ← r; rest ← go step.0; some (step.1 ++ rest))
          ≡ (do found ← s; rest ← others; some (found ++ rest))
    more none none others go h ih = refl
    more (some a) (some (caches, b)) others go h ih = rw (ih caches h.1, h.0) refl
    more none (some r) others go h ih = absurd h
    more (some a) none others go h ih = absurd h

    search_files-eq :
        (caches : Caches n project_root name lang_filter) (files : List Text)
        → BothValid caches
        → search_files n project_root name lang_filter caches files ≡ search_each files
    unfolding search_files
    search_files-eq caches [] v = refl
    search_files-eq caches (path ∷ files) v =
        more _ _ _ (λ next. search_files n project_root name lang_filter next files)
          (search_file-Same caches path (language_for_file n.tables path) v)
          (λ next valid. search_files-eq next files valid)

  -- The parsers that are kept from file to file do not show: the search gives, file by file and in
  -- their order, what a search gives that creates the parser anew for every file, and it fails
  -- exactly where that one fails.
  pub search_files_for_symbol-eq :
      (project_root name : Text) (lang_filter : Option Language) (files : List Text)
      → search_files_for_symbol n project_root name lang_filter files
        ≡ search_each project_root name lang_filter files
  unfolding search_files_for_symbol
  search_files_for_symbol-eq project_root name lang_filter files =
      search_files-eq project_root name lang_filter (none, none) files (tt, tt)
