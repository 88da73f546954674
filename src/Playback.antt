-- ===== src/Playback.antt =====
-- utils/ringbuffer.rs and utils/rate_controller.rs: what the playback devices use to fill their
-- buffers and to keep them filled.
pub mod RingBuffer
pub mod RateController
mod Tests
