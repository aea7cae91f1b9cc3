-- ===== src/Lsp/Config.antt =====
-- crates/codequery-lsp/src/config.rs: the language servers that are known, and their overrides. The
-- entries of a `HashMap` come in the order in which it is iterated.
pub mod Overrides
use codequery.Prelude.{
  List, [], ◌∷◌, ◌++◌, Option, none, some, Text, codes, Bool, true, false, if◌then◌else◌, map,
}
use codequery.Prelude.Dict.{Dict}
use codequery.Core.Language
use codequery.Core.Language.{Language, from_name, language_beq}
use codequery.Core.Config.{LspServerOverride, unwrap_or_default}

pub record ServerConfig : Type 0 where
  pub binary : Text
  pub args : List Text
  pub env : List (Text × Text)

abbrev pub Configs : Type 0
Configs = List (Language × ServerConfig)

abbrev server : Text → List Text → ServerConfig
server binary args = record { binary = binary; args = args; env = [] }

-- `LanguageServerRegistry::new`
unfoldable pub new_configs : Configs
new_configs =
    (Language.rust, server (codes "rust-analyzer") [])
    ∷ (Language.typescript, server (codes "typescript-language-server") (codes "--stdio" ∷ []))
    ∷ (Language.javascript, server (codes "typescript-language-server") (codes "--stdio" ∷ []))
    ∷ (Language.python, server (codes "pyright-langserver") (codes "--stdio" ∷ []))
    ∷ (Language.go, server (codes "gopls") (codes "serve" ∷ []))
    ∷ (Language.c, server (codes "clangd") [])
    ∷ (Language.cpp, server (codes "clangd") [])
    ∷ (Language.java, server (codes "jdtls") [])
    ∷ (Language.ruby, server (codes "solargraph") (codes "stdio" ∷ []))
    ∷ (Language.csharp, server (codes "OmniSharp") (codes "--languageserver" ∷ []))
    ∷ (Language.swift, server (codes "sourcekit-lsp") [])
    ∷ (Language.kotlin, server (codes "kotlin-language-server") [])
    ∷ (Language.php, server (codes "intelephense") (codes "--stdio" ∷ []))
    ∷ (Language.zig, server (codes "zls") [])
    ∷ (Language.lua, server (codes "lua-language-server") [])
    ∷ (Language.bash, server (codes "bash-language-server") (codes "start" ∷ []))
    ∷ []

unfoldable pub env_var_languages : List (Language × Text)
env_var_languages =
    (Language.rust, codes "RUST")
    ∷ (Language.typescript, codes "TYPESCRIPT")
    ∷ (Language.javascript, codes "JAVASCRIPT")
    ∷ (Language.python, codes "PYTHON")
    ∷ (Language.go, codes "GO")
    ∷ (Language.c, codes "C")
    ∷ (Language.cpp, codes "CPP")
    ∷ (Language.java, codes "JAVA")
    ∷ (Language.ruby, codes "RUBY")
    ∷ (Language.csharp, codes "CSHARP")
    ∷ (Language.swift, codes "SWIFT")
    ∷ (Language.kotlin, codes "KOTLIN")
    ∷ (Language.php, codes "PHP")
    ∷ (Language.zig, codes "ZIG")
    ∷ (Language.lua, codes "LUA")
    ∷ (Language.bash, codes "BASH")
    ∷ []

unfoldable pub config_for : Language → Configs → Option ServerConfig
config_for lang [] = none
config_for lang ((l, config) ∷ configs) =
    let rest = config_for lang configs in if language_beq l lang then some config else rest

abbrev pub or_kept {ℓ} : {A : Type ℓ} → Option A → A → A
or_kept none old = old
or_kept (some new) old = new

-- The fields of an existing entry that the override sets.
abbrev pub set_fields : LspServerOverride → ServerConfig → ServerConfig
set_fields o config = record config {
  binary = or_kept o.binary config.binary;
  args = or_kept o.args config.args;
}

-- A new entry wants a binary.
abbrev pub new_entry : LspServerOverride → Option Text → Option ServerConfig
new_entry o none = none
new_entry o (some binary) =
    some (record { binary = binary; args = unwrap_or_default o.args; env = [] })

abbrev pub push_entry : Language → Option ServerConfig → Configs
push_entry lang none = []
push_entry lang (some config) = (lang, config) ∷ []

-- The first entry of the language is changed; without one, an entry is added at the end.
unfoldable pub apply_override : Language → LspServerOverride → Configs → Configs
apply_override lang o [] = push_entry lang (new_entry o o.binary)
apply_override lang o ((l, config) ∷ configs) =
    let rest = apply_override lang o configs in
    if language_beq l lang then (l, set_fields o config) ∷ configs else (l, config) ∷ rest

module _ (to_lowercase : Text → Text) (env_var : Text → Option Text) where
  abbrev pub apply_named : Option Language → LspServerOverride → Configs → Configs
  apply_named none o configs = configs
  apply_named (some lang) o configs = apply_override lang o configs

  unfoldable pub apply_overrides : Dict Text LspServerOverride → Configs → Configs
  apply_overrides [] configs = configs
  apply_overrides ((lang_name, o) ∷ overrides) configs =
      apply_overrides overrides (apply_named (from_name to_lowercase lang_name) o configs)

  abbrev pub env_override : Text → LspServerOverride
  env_override binary = record { binary = some binary; args = none }

  abbrev pub apply_set : Language → Option Text → Configs → Configs
  apply_set lang none configs = configs
  apply_set lang (some binary) configs = apply_override lang (env_override binary) configs

  unfoldable pub apply_env : List (Language × Text) → Configs → Configs
  apply_env [] configs = configs
  apply_env ((lang, suffix) ∷ langs) configs =
      apply_env langs (apply_set lang (env_var (codes "CQ_LSP_" ++ suffix)) configs)

  unfoldable pub with_overrides : Dict Text LspServerOverride → Configs
  with_overrides overrides = apply_env env_var_languages (apply_overrides overrides new_configs)
