-- ===== src/Core/Query.antt =====
-- crates/codequery-core/src/query.rs: how a result was obtained, and whether it is complete.
use codequery.Prelude.{Text, codes}

pub data Resolution : Type 0 where
  syntactic resolved semantic : Resolution

unfoldable pub display_resolution : Resolution → Text
display_resolution syntactic = codes "syntactic"
display_resolution resolved = codes "resolved"
display_resolution semantic = codes "semantic"

pub data Completeness : Type 0 where
  exhaustive best_effort : Completeness

unfoldable pub display_completeness : Completeness → Text
display_completeness exhaustive = codes "exhaustive"
display_completeness best_effort = codes "best_effort"
