-- ===== src/AudioChunk.antt =====
-- audiochunk.rs: the container of audio data. A timestamp is a number.
pub mod Stats
use astra_camilla_dsp.Common.{ℕ, List, length}

pub record AudioChunk (S : Type 0) : Type 0 where
  pub frames : ℕ
  pub channels : ℕ
  pub maxval : S
  pub minval : S
  pub timestamp : ℕ
  pub valid_frames : ℕ
  pub waveforms : List (List S)

module _ {S : Type 0} where
  abbrev pub from : AudioChunk S → List (List S) → AudioChunk S
  from chunk waveforms = record chunk { channels = length waveforms; waveforms = waveforms }

  -- `AudioChunk::new`; the clock gives the timestamp.
  unfoldable pub new : ℕ → List (List S) → S → S → ℕ → ℕ → AudioChunk S
  new timestamp waveforms maxval minval frames valid_frames = record {
    frames = frames;
    channels = length waveforms;
    maxval = maxval;
    minval = minval;
    timestamp = timestamp;
    valid_frames = valid_frames;
    waveforms = waveforms;
  }
