-- ===== src/Processors.antt =====
-- processors/: the processors of the pipeline, each with its implementation of the trait `Processor`.
pub mod Dispatch
pub mod Retyped
pub mod NoiseGate
pub mod Compressor
pub mod Race
mod Tests
mod RetypedTests
