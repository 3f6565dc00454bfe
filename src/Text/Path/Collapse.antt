-- ===== src/Text/Path/Collapse.antt =====
-- `string_collapse_path` of dttools/src/stringtools.c against a description by path components.
pub mod Components
pub mod Spec
pub mod Fixed
