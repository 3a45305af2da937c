-- ===== src/Config.antt =====
-- The parts of the JSON configuration of a CGRA.
pub mod Strings
pub mod Mapping
pub mod Setting
