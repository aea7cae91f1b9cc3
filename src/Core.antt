-- ===== src/Core.antt =====
-- codequery-core: the data types that the other crates share.
pub mod Symbol
pub mod Reference
pub mod Query
pub mod FilePath
pub mod Error
pub mod Config
pub mod Project
pub mod Dirs
pub mod Registry
pub mod Language
