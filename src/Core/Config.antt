-- ===== src/Core/Config.antt =====
-- crates/codequery-core/src/config.rs: the settings of `.cq.toml`. What the file holds, once TOML
-- and serde have read it, is a `ConfigFile`.
use codequery.Prelude.{ℕ, List, [], ◌++◌, Option, none, some, Text, codes, Bool, if◌then◌else◌, map}
use codequery.Prelude.Dict.{Dict}
use codequery.Core.FilePath.{join}
use codequery.Core.Error.{io, config_error, CoreResult, ok, err}

pub record LspServerOverride : Type 0 where
  pub binary : Option Text
  pub args : Option (List Text)

pub record LspConfig : Type 0 where
  pub timeout : Option ℕ
  pub servers : Dict Text LspServerOverride

pub record ProjectConfig : Type 0 where
  pub exclude : List Text
  pub language_overrides : Dict Text Text
  pub cache_enabled : Option Bool
  pub lsp : Option LspConfig

pub record ProjectSection : Type 0 where
  pub exclude : Option (List Text)
  pub cache : Option Bool

pub record LspServerOverrideToml : Type 0 where
  pub binary : Option Text
  pub args : Option (List Text)

pub record LspSection : Type 0 where
  pub timeout : Option ℕ
  pub servers : Dict Text LspServerOverrideToml

pub record ConfigFile : Type 0 where
  pub project : Option ProjectSection
  pub languages : Option (Dict Text Text)
  pub lsp : Option LspSection

abbrev pub unwrap_or_default {ℓ} : {A : Type ℓ} → Option (List A) → List A
unwrap_or_default none = []
unwrap_or_default (some xs) = xs

abbrev exclude_of : Option ProjectSection → List Text
exclude_of none = []
exclude_of (some p) = unwrap_or_default p.exclude

abbrev cache_of : Option ProjectSection → Option Bool
cache_of none = none
cache_of (some p) = p.cache

abbrev lsp_of : Option LspSection → Option LspConfig
lsp_of none = none
lsp_of (some s) = some (record {
  timeout = s.timeout;
  servers = map (λ (name, o). (name, record { binary = o.binary; args = o.args })) s.servers;
})

unfoldable pub project_config : ConfigFile → ProjectConfig
project_config parsed = record {
  exclude = exclude_of parsed.project;
  language_overrides = unwrap_or_default parsed.languages;
  cache_enabled = cache_of parsed.project;
  lsp = lsp_of parsed.lsp;
}

-- What the file system and TOML give: `none` is a failure, with the text of its error.
pub record ConfigFiles : Type 0 where
  pub exists : Text → Bool
  pub read_to_string : Text → Option Text
  pub read_error : Text → Text
  pub from_str : Text → Option ConfigFile
  pub toml_error : Text → Text

module _ (fs : ConfigFiles) where
  abbrev parsed_config : Text → Text → Option ConfigFile → CoreResult (Option ProjectConfig)
  parsed_config path contents none =
      err (
        config_error (codes "invalid .cq.toml at " ++ path ++ codes ": " ++ fs.toml_error contents))
  parsed_config path contents (some parsed) = ok (some (project_config parsed))

  abbrev read_config : Text → Option Text → CoreResult (Option ProjectConfig)
  read_config path none = err (io (fs.read_error path))
  read_config path (some contents) = parsed_config path contents (fs.from_str contents)

  unfoldable pub load_config : Text → CoreResult (Option ProjectConfig)
  load_config project_root =
      let path = join project_root (codes ".cq.toml") in
      if fs.exists path then read_config path (fs.read_to_string path) else ok none
