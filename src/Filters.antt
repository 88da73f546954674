-- ===== src/Filters.antt =====
-- filters/: the filters of the pipeline, each with its state and its implementation of the trait
-- `Filter`. A filter's name only documents it and is left out.
pub mod Dispatch
pub mod QueueTests
pub mod Gain
pub mod Biquad
pub mod Delay
pub mod Limiter
pub mod Volume
pub mod DiffEq
pub mod Tests
