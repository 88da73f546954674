-- ===== src/Counters.antt =====
-- utils/countertimer.rs: counters of chunks, and the history of signal levels. An `Instant` is a
-- number, and the current one is an argument where the code reads the clock.
pub mod Silence
pub mod History
mod Tests
