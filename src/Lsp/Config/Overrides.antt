-- ===== src/Lsp/Config/Overrides.antt =====
-- crates/codequery-lsp/src/config.rs: what the overrides make of the configuration of one language.
use codequery.Prelude.{
  List, [], ◌∷◌, ◌++◌, Option, none, some, Text, codes, if◌then◌else◌, ◌≡◌, refl, ap, ◌∙◌, arith,
}
use codequery.Prelude.Dict.{Dict, get}
use codequery.Core.Language.{Language, from_name, language_beq, language_beq_iff, language_eq}
use codequery.Core.Config.{LspServerOverride}
use codequery.Lsp.Config.{
  ServerConfig, Configs, config_for, set_fields, new_entry, push_entry, apply_override,
  apply_overrides, env_override, apply_env, with_overrides, new_configs, env_var_languages,
  apply_named, apply_set,
}

-- The configuration of one language under one override.
abbrev pub merge : LspServerOverride → Option ServerConfig → Option ServerConfig
merge o none = new_entry o o.binary
merge o (some config) = some (set_fields o config)

config_for-push :
    (l lang : Language) (c : Option ServerConfig)
    → config_for l (push_entry lang c) ≡ (if language_beq lang l then c else none)
unfolding config_for
config_for-push l lang none = ground arith
config_for-push l lang (some config) = refl

config_for-apply_override :
    (l lang : Language) (o : LspServerOverride) (configs : Configs)
    → config_for l (apply_override lang o configs)
      ≡ (if language_beq lang l then merge o (config_for l configs) else config_for l configs)
unfolding apply_override config_for
config_for-apply_override l lang o [] = config_for-push l lang (new_entry o o.binary)
config_for-apply_override l lang o ((k, config) ∷ configs) = ground (
  arith,
  config_for-apply_override l lang o configs,
  language_beq_iff k lang,
  language_beq_iff lang l,
  language_beq_iff k l,
)

-- The entries of the file that name the language, merged one after another.
abbrev pub for_named :
    Language → Option Language → LspServerOverride → Option ServerConfig → Option ServerConfig
for_named l none o config = config
for_named l (some lang) o config = if language_beq lang l then merge o config else config

abbrev pub from_file :
    (Text → Text)
    → Language
    → Dict Text LspServerOverride
    → Option ServerConfig
    → Option ServerConfig
from_file f l [] config = config
from_file f l ((lang_name, o) ∷ overrides) config =
    from_file f l overrides (for_named l (from_name f lang_name) o config)

-- The variable, where the language has one and it is set.
abbrev pub from_variable : Option Text → Option ServerConfig → Option ServerConfig
from_variable none config = config
from_variable (some binary) config = merge (record { binary = some binary; args = none }) config

abbrev pub variable_of : (Text → Option Text) → Option Text → Option Text
variable_of env_var none = none
variable_of env_var (some suffix) = env_var (codes "CQ_LSP_" ++ suffix)

module _ (to_lowercase : Text → Text) (env_var : Text → Option Text) (l : Language) where
  apply_named-lem :
      (lang : Option Language) (o : LspServerOverride) (configs : Configs)
      → config_for l (apply_named to_lowercase env_var lang o configs)
        ≡ for_named l lang o (config_for l configs)
  apply_named-lem none o configs = refl
  apply_named-lem (some lang) o configs = config_for-apply_override l lang o configs

  apply_overrides-lem :
      (overrides : Dict Text LspServerOverride) (configs : Configs)
      → config_for l (apply_overrides to_lowercase env_var overrides configs)
        ≡ from_file to_lowercase l overrides (config_for l configs)
  unfolding apply_overrides
  apply_overrides-lem [] configs = refl
  apply_overrides-lem ((lang_name, o) ∷ overrides) configs =
      apply_overrides-lem overrides _
      ∙ ap (from_file to_lowercase l overrides)
          (apply_named-lem (from_name to_lowercase lang_name) o configs)

  -- What one variable does to the language.
  abbrev step : Language → Text → Option ServerConfig → Option ServerConfig
  step lang suffix config =
      if language_beq lang l
      then from_variable (env_var (codes "CQ_LSP_" ++ suffix)) config
      else config

  step-set :
      (lang : Language) (set : Option Text) (configs : Configs)
      → config_for l (apply_set to_lowercase env_var lang set configs) ≡ (
          if language_beq lang l
          then from_variable set (config_for l configs)
          else config_for l configs)
  step-set lang none configs = ground arith
  step-set lang (some binary) configs =
      config_for-apply_override l lang (env_override to_lowercase env_var binary) configs

  abbrev steps : List (Language × Text) → Option ServerConfig → Option ServerConfig
  steps [] config = config
  steps ((lang, suffix) ∷ langs) config = steps langs (step lang suffix config)

  apply_env-steps :
      (langs : List (Language × Text)) (configs : Configs)
      → config_for l (apply_env to_lowercase env_var langs configs)
        ≡ steps langs (config_for l configs)
  unfolding apply_env
  apply_env-steps [] configs = refl
  apply_env-steps ((lang, suffix) ∷ langs) configs =
      apply_env-steps langs _
      ∙ ap (steps langs) (step-set lang (env_var (codes "CQ_LSP_" ++ suffix)) configs)

steps-variable :
    (f : Text → Text) (env_var : Text → Option Text) (l : Language) (config : Option ServerConfig)
    → steps f env_var l env_var_languages config
      ≡ from_variable (variable_of env_var (get l env_var_languages)) config
unfolding env_var_languages language_beq get
steps-variable f env_var Language.rust config = refl
steps-variable f env_var _ config = refl

-- What the registry says of a language depends on nothing but that language: it is the built-in
-- entry, with the file's entries that name the language merged into it in their order, and then with
-- the variable of the language, so that a variable that is set decides the binary. An override
-- replaces the fields it has; without an entry it makes one, if it has a binary.
pub with_overrides-config :
    (to_lowercase : Text → Text) (env_var : Text → Option Text) (l : Language)
    (overrides : Dict Text LspServerOverride)
    → config_for l (with_overrides to_lowercase env_var overrides)
      ≡ from_variable
          (variable_of env_var (get l env_var_languages))
          (from_file to_lowercase l overrides (config_for l new_configs))
unfolding with_overrides
with_overrides-config f env_var l overrides =
    apply_env-steps f env_var l env_var_languages _
    ∙ ap (steps f env_var l env_var_languages)
        (apply_overrides-lem f env_var l overrides new_configs)
    ∙ steps-variable f env_var l _
