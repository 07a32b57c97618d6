-- ===== src/Engines.antt =====
-- The detection engines of include/gcad/engines and src/engines, a module to a file of it.
pub mod Yara
