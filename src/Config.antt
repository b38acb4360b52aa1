-- ===== src/Config.antt =====
-- How the solver's options get their values.
pub mod OptionValue
