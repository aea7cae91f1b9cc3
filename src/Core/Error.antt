-- ===== src/Core/Error.antt =====
-- crates/codequery-core/src/error.rs: the errors of the crate. A foreign error is kept as its text.
use codequery.Prelude.{Text, codes, ◌++◌}

pub data CoreError : Type 0 where
  project_not_found no_source_files io path_error config_error : Text → CoreError

-- `Display`
unfoldable pub display_core_error : CoreError → Text
display_core_error (project_not_found p) = codes "no project root found from " ++ p
display_core_error (no_source_files p) = codes "no source files found in " ++ p
display_core_error (io e) = e
display_core_error (path_error s) = s
display_core_error (config_error s) = s

pub data CoreResult {ℓ} (A : Type ℓ) : Type ℓ where
  ok : A → CoreResult A
  err : CoreError → CoreResult A
