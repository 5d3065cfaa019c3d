-- ===== src/Config.antt =====
-- core/include/bmoe/config.h and core/src/config.cpp: the run's configuration, its parsers and its
-- validation. Text is a list of bytes; floating-point values are a parameter.
pub mod Types
pub mod Names
pub mod Checks
pub mod Validate
pub mod Moe
pub mod Speculation
mod Examples
