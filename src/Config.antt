-- ===== src/Config.antt =====
-- config/mod.rs: the parts of a configuration that the pipeline is built from.
pub mod Mixer
pub mod Pipeline
pub mod Validate
pub mod Formats
pub mod Diff
pub mod FormatTrips
mod Tests
