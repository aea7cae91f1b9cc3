-- ===== src/Core/Dirs.antt =====
-- crates/codequery-core/src/dirs.rs: where the program keeps its files. The environment and the home
-- directory are arguments.
use codequery.Prelude.{Option, none, some, Text, codes}
use codequery.Core.FilePath.{join}

pub record Env : Type 0 where
  pub var : Text → Option Text
  pub home_dir : Option Text
  pub temp_dir : Text

abbrev opt_map : (Text → Text) → Option Text → Option Text
opt_map f none = none
opt_map f (some d) = some (f d)

-- The program's own variable, then the XDG variable, then the fallback.
abbrev or_xdg : Option Text → Option Text → Option Text → Option Text
or_xdg (some dir) xdg fallback = some dir
or_xdg none (some xdg) fallback = some (join xdg (codes "cq"))
or_xdg none none fallback = fallback

module _ (env : Env) where
  unfoldable pub data_dir : Option Text
  data_dir = or_xdg (env.var (codes "CQ_DATA_DIR")) (env.var (codes "XDG_DATA_HOME")) (
      opt_map (λ h. join (join (join h (codes ".local")) (codes "share")) (codes "cq"))
        env.home_dir)

  unfoldable pub cache_dir : Option Text
  cache_dir =
      or_xdg (env.var (codes "CQ_CACHE_DIR")) (env.var (codes "XDG_CACHE_HOME"))
        (opt_map (λ h. join (join h (codes ".cache")) (codes "cq")) env.home_dir)

  unfoldable pub languages_dir : Option Text
  languages_dir = opt_map (λ d. join d (codes "languages")) data_dir

  unfoldable pub cwasm_dir : Option Text
  cwasm_dir = opt_map (λ d. join d (codes "cwasm")) cache_dir

  unfoldable pub daemons_dir : Option Text
  daemons_dir = opt_map (λ d. join d (codes "daemons")) cache_dir

  unfoldable pub registry_cache_path : Option Text
  registry_cache_path = opt_map (λ d. join d (codes "registry.json")) cache_dir

  unfoldable pub runtime_dir : Option Text
  runtime_dir =
      or_xdg (env.var (codes "CQ_RUNTIME_DIR")) (env.var (codes "XDG_RUNTIME_DIR"))
        (some (join env.temp_dir (codes "cq")))
