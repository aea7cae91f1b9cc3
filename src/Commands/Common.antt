-- ===== src/Commands/Common.antt =====
-- crates/codequery-cli/src/commands/common.rs: the search for symbols by name that def, body, sig and
-- deps share. The parsers, the trees and the extraction are given by a `Narrow`; an error that the
-- command returns is `none`.
pub mod Parsers
use codequery.Prelude.{
  ℕ, List, [], ◌∷◌, ◌++◌, Option, none, some, Text, Bool, true, false, not, ◌&&◌, ◌==◌, text_eq,
  if◌then◌else◌, ◌>>=◌,
}
use codequery.Prelude.Sort.{sort_by}
use codequery.Prelude.Order.{Ordering, le_by}
use codequery.Core.Symbol.{Symbol, Symbols, nil, cons, kind_of, name_of, children, impl, kind_eq}
use codequery.Core.Language.{
  Language, language_beq, FileTables, language_for_file, language_name_for_file,
}
use codequery.Core.FilePath.{join}
use codequery.Core.Project.{Paths, detect_project_root_or}
use codequery.Core.Error.{CoreResult, ok, err}
use codequery.Commands.Dead.{by_file_line}

pub record Narrow : Type 1 where
  pub Parser : Type 0
  pub Tree : Type 0
  pub tables : FileTables
  pub read_to_string : Text → Option Text
  -- `str::contains`
  pub contains_text : Text → Text → Bool
  pub for_language : Language → Option Parser
  pub for_name : Text → Option Parser
  pub parse : Parser → Text → Option Tree
  pub extract_symbols : Text → Tree → Text → Language → Symbols
  pub extract_symbols_by_name : Text → Tree → Text → Text → Symbols

abbrev named_children : Symbols → Text → List Symbol
named_children nil query = []
named_children (cons child rest) query =
    let others = named_children rest query in
    if name_of child == query then child ∷ others else others

-- What is pushed for a list of symbols: a symbol that is not an impl, and the children of each.
unfoldable pub collect_matching_symbols : Symbols → Text → List Symbol
collect_matching_symbols nil query = []
collect_matching_symbols (cons sym rest) query =
    let nested = named_children (children sym) query in
    let others = collect_matching_symbols rest query in
    if not (kind_of sym == impl) && name_of sym == query
    then sym ∷ (nested ++ others)
    else nested ++ others

module _ (n : Narrow) where
  -- Either parser cache: the key of the last parser, and the parser.
  abbrev pub Cache : Type 0 → Type 0
  Cache K = Option (K × n.Parser)

  -- The parser and the cache behind it, or the error, which leaves the cache alone.
  abbrev pub created : {K : Type 0} → K → Option n.Parser → Option (n.Parser × Cache K)
  created key none = none
  created key (some p) = some (p, some (key, p))

  unfoldable pub get_or_create_parser :
      Cache Language → Language → Option (n.Parser × Cache Language)
  get_or_create_parser none language = created language (n.for_language language)
  get_or_create_parser (some (lang, p)) language =
      let fresh = created language (n.for_language language) in
      if language_beq lang language then some (p, some (lang, p)) else fresh

  unfoldable pub get_or_create_runtime_parser : Cache Text → Text → Option (n.Parser × Cache Text)
  get_or_create_runtime_parser none name = created name (n.for_name name)
  get_or_create_runtime_parser (some (key, p)) name =
      let fresh = created name (n.for_name name) in
      if key == name then some (p, some (key, p)) else fresh

  module _ (project_root name : Text) (lang_filter : Option Language) where
    -- The source of a file that can be read and has the name in it.
    abbrev pub filtered_source : Text → Option Text
    filtered_source path = do
      source ← n.read_to_string (join project_root path)
      if n.contains_text source name then some source else none

    abbrev pub symbols_in : Language → Text → Text → Option n.Tree → List Symbol
    symbols_in language path source none = []
    symbols_in language path source (some tree) =
        collect_matching_symbols (n.extract_symbols source tree path language) name

    abbrev pub symbols_by_name : Text → Text → Text → Option n.Tree → List Symbol
    symbols_by_name lang_name path source none = []
    symbols_by_name lang_name path source (some tree) =
        collect_matching_symbols (n.extract_symbols_by_name source tree path lang_name) name

    abbrev pub passes : Option Language → Language → Bool
    passes none language = true
    passes (some filter) language = language_beq language filter

    abbrev pub parsed_with :
        Language
        → Text
        → Text
        → Option (n.Parser × Cache Language)
        → Option (Cache Language × List Symbol)
    parsed_with language path source none = none
    parsed_with language path source (some (p, cache)) =
        some (cache, symbols_in language path source (n.parse p source))

    abbrev pub builtin_source :
        Cache Language → Language → Text → Option Text → Option (Cache Language × List Symbol)
    builtin_source cache language path none = some (cache, [])
    builtin_source cache language path (some source) =
        parsed_with language path source (get_or_create_parser cache language)

    -- A file of a built-in language; a parser that cannot be created ends the search.
    unfoldable pub builtin_file :
        Cache Language → Language → Text → Option (Cache Language × List Symbol)
    builtin_file cache language path =
        if passes lang_filter language
        then builtin_source cache language path (filtered_source path)
        else some (cache, [])

    abbrev pub runtime_parsed :
        Cache Text → Text → Text → Text → Option (n.Parser × Cache Text) → Cache Text × List Symbol
    runtime_parsed cache lang_name path source none = (cache, [])
    runtime_parsed cache lang_name path source (some (p, cache')) =
        (cache', symbols_by_name lang_name path source (n.parse p source))

    abbrev pub runtime_source : Cache Text → Text → Text → Option Text → Cache Text × List Symbol
    runtime_source cache lang_name path none = (cache, [])
    runtime_source cache lang_name path (some source) =
        runtime_parsed cache lang_name path source (get_or_create_runtime_parser cache lang_name)

    -- A file of a runtime language, which no filter passes; its errors are skipped.
    abbrev pub runtime_file : Option Language → Cache Text → Text → Text → Cache Text × List Symbol
    runtime_file (some filter) cache lang_name path = (cache, [])
    runtime_file none cache lang_name path =
        runtime_source cache lang_name path (filtered_source path)

    abbrev pub Caches : Type 0
    Caches = Cache Language × Cache Text

    abbrev pub builtin_done :
        Cache Text → Option (Cache Language × List Symbol) → Option (Caches × List Symbol)
    builtin_done runtime none = none
    builtin_done runtime (some (cache, found)) = some ((cache, runtime), found)

    abbrev pub other_file : Caches → Text → Option Text → Caches × List Symbol
    other_file caches path none = (caches, [])
    other_file (current, runtime) path (some lang_name) =
        let (runtime', found) = runtime_file lang_filter runtime lang_name path in
        ((current, runtime'), found)

    unfoldable pub search_file : Caches → Text → Option Language → Option (Caches × List Symbol)
    search_file (current, runtime) path (some language) =
        builtin_done runtime (builtin_file current language path)
    search_file caches path none =
        some (other_file caches path (language_name_for_file n.tables path))

    unfoldable pub search_files : Caches → List Text → Option (List Symbol)
    search_files caches [] = some []
    search_files caches (path ∷ files) = do
      step ← search_file caches path (language_for_file n.tables path)
      others ← search_files step.0 files
      some (step.1 ++ others)

    unfoldable pub search_files_for_symbol : List Text → Option (List Symbol)
    search_files_for_symbol files = search_files (none, none) files

  abbrev pub root_of : CoreResult Text → Option Text
  root_of (ok root) = some root
  root_of (err e) = none

  -- `discover_files` is given by its result for a root.
  unfoldable pub find_symbols_by_name :
      Paths
      → (discover_files : Text → Option (List Text)) → (Text → Text → Ordering)
      → (cwd name : Text) → Option Text
      → Option Language
      → Option (List Symbol)
  find_symbols_by_name paths discover_files path_cmp cwd name project lang_filter = do
    project_root ← root_of (detect_project_root_or paths cwd project)
    files ← discover_files project_root
    matches ← search_files_for_symbol project_root name lang_filter files
    some (sort_by (le_by (by_file_line path_cmp)) matches)
