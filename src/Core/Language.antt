-- ===== src/Core/Language.antt =====
-- crates/codequery-core/src/discovery.rs: the languages, their names, and the language of a file.
pub mod Names
use codequery.Prelude.{
  Option, none, some, Text, codes, ◌==◌, ◌||◌, text_eq, List, if◌then◌else◌, ◌++◌, ◌>>=◌, [], Bool,
  true, false, Eq, ◌≡◌, ◌↔◌, arith,
}
use codequery.Prelude.Dict.{Dict, get}
use codequery.Core.Registry.{RegistryLanguage, extension_map}

pub data Language : Type 0 where
  rust typescript javascript python go c cpp java ruby php csharp swift kotlin scala zig : Language
  lua bash html css json yaml toml : Language

pub Language-discrete : Discrete Language
Language-discrete = hlevel

-- `Language::name`
unfoldable pub name : Language → Text
name rust = codes "rust"
name typescript = codes "typescript"
name javascript = codes "javascript"
name python = codes "python"
name go = codes "go"
name c = codes "c"
name cpp = codes "cpp"
name java = codes "java"
name ruby = codes "ruby"
name php = codes "php"
name csharp = codes "csharp"
name swift = codes "swift"
name kotlin = codes "kotlin"
name scala = codes "scala"
name zig = codes "zig"
name lua = codes "lua"
name bash = codes "bash"
name html = codes "html"
name css = codes "css"
name json = codes "json"
name yaml = codes "yaml"
name toml = codes "toml"

-- The `match` of `from_name`, on the lowercased text.
unfoldable pub from_lowercase : Text → Option Language
from_lowercase t =
    if t == codes "rust" || t == codes "rs"
    then some rust
    else if t == codes "typescript" || t == codes "ts"
    then some typescript
    else if t == codes "javascript" || t == codes "js"
    then some javascript
    else if t == codes "python" || t == codes "py"
    then some python
    else if t == codes "go"
    then some go
    else if t == codes "c"
    then some c
    else if t == codes "cpp" || t == codes "c++" || t == codes "cxx"
    then some cpp
    else if t == codes "java"
    then some java
    else if t == codes "ruby" || t == codes "rb"
    then some ruby
    else if t == codes "php"
    then some php
    else if t == codes "csharp" || t == codes "c#" || t == codes "cs"
    then some csharp
    else if t == codes "swift"
    then some swift
    else if t == codes "kotlin" || t == codes "kt"
    then some kotlin
    else if t == codes "scala"
    then some scala
    else if t == codes "zig"
    then some zig
    else if t == codes "lua"
    then some lua
    else if t == codes "bash" || t == codes "sh"
    then some bash
    else if t == codes "html"
    then some html
    else if t == codes "css"
    then some css
    else if t == codes "json"
    then some json
    else if t == codes "yaml" || t == codes "yml"
    then some yaml
    else if t == codes "toml"
    then some toml
    else none

-- `Language::from_name`; `to_lowercase` is `str::to_lowercase`.
unfoldable pub from_name : (Text → Text) → Text → Option Language
from_name to_lowercase s = from_lowercase (to_lowercase s)

-- The `match` of `language_for_file_with_overrides` on the extension, without its fallback.
unfoldable pub built_in : Text → Option Language
built_in ext =
    if ext == codes "rs"
    then some rust
    else if ext == codes "ts" || ext == codes "tsx"
    then some typescript
    else if ext == codes "js" || ext == codes "jsx"
    then some javascript
    else if ext == codes "py"
    then some python
    else if ext == codes "go"
    then some go
    else if ext == codes "c" || ext == codes "h"
    then some c
    else if ext == codes "cpp"
        || ext == codes "cc"
        || ext == codes "cxx"
        || ext == codes "hpp"
        || ext == codes "hxx"
        || ext == codes "hh"
    then some cpp
    else if ext == codes "java"
    then some java
    else if ext == codes "rb"
    then some ruby
    else if ext == codes "php"
    then some php
    else if ext == codes "cs"
    then some csharp
    else if ext == codes "swift"
    then some swift
    else if ext == codes "kt"
    then some kotlin
    else if ext == codes "scala"
    then some scala
    else if ext == codes "zig"
    then some zig
    else if ext == codes "lua"
    then some lua
    else if ext == codes "sh" || ext == codes "bash"
    then some bash
    else if ext == codes "html" || ext == codes "htm"
    then some html
    else if ext == codes "css"
    then some css
    else if ext == codes "json"
    then some json
    else if ext == codes "yaml" || ext == codes "yml"
    then some yaml
    else if ext == codes "toml"
    then some toml
    else none

abbrev or_registry : Option Language → Option Language → Option Language
or_registry none fallback = fallback
or_registry (some l) fallback = some l

abbrev or_override : Option (Option Language) → Option Language → Option Language
or_override none rest = rest
or_override (some l) rest = l

abbrev named : (Text → Text) → Option Text → Option (Option Language)
named to_lowercase none = none
named to_lowercase (some lang_name) = some (from_name to_lowercase lang_name)

-- What the functions below take from outside: `str::to_lowercase`, `Path::extension`, and the
-- languages that are parsed from languages/registry.json.
pub record FileTables : Type 0 where
  pub to_lowercase : Text → Text
  pub extension : Text → Option Text
  pub registry : List RegistryLanguage

abbrev dot : Text → Text
dot ext = codes "." ++ ext

language_for_extension : FileTables → Dict Text Text → Text → Option Language
language_for_extension t overrides ext =
    or_override (named t.to_lowercase (get (dot ext) overrides)) (
      or_registry (built_in ext)
        (do lang_name ← get ext (extension_map t.registry); from_name t.to_lowercase lang_name))

unfoldable pub language_for_file_with_overrides :
    FileTables → Text → Dict Text Text → Option Language
unfolding language_for_extension
language_for_file_with_overrides t path overrides = do
  ext ← t.extension path
  language_for_extension t overrides ext

unfoldable pub language_for_file : FileTables → Text → Option Language
unfolding language_for_file_with_overrides
language_for_file t path = language_for_file_with_overrides t path []

unfoldable pub language_name_for_file : FileTables → Text → Option Text
language_name_for_file t path = do ext ← t.extension path; get ext (extension_map t.registry)

-- `PartialEq` of `Language`
unfoldable pub language_beq : Language → Language → Bool
unfolding Language-discrete
language_beq a b = elim (Language-discrete a b) [ yes _ ↦ true | no _ ↦ false ]

pub language_beq_iff : (a b : Language) → (language_beq a b ≡ true) ↔ (a ≡ b)
unfolding language_beq
language_beq_iff a b = ground arith

instance abbrev pub language_eq : Eq Language
language_eq = record { beq = language_beq; beq_iff = language_beq_iff }
