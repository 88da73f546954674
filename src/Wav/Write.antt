-- ===== src/Wav/Write.antt =====
-- utils/wavtools.rs: `write_wav_header`, as the bytes that it writes.
use astra_camilla_dsp.Common.{ℕ, ◌*◌, ◌/◌, ◌%◌, [], ◌∷◌, ◌++◌}
use astra_camilla_dsp.Config.Formats.{BinarySampleFormat}
use astra_camilla_dsp.Wav.{Bytes, riff, wave, data_id, fmt_id}

-- `(n as u16).to_le_bytes()`
unfoldable pub u16_bytes : ℕ → Bytes
u16_bytes n = n % 256 ∷ n / 256 % 256 ∷ []

-- `(n as u32).to_le_bytes()`
unfoldable pub u32_bytes : ℕ → Bytes
u32_bytes n = n % 256 ∷ n / 256 % 256 ∷ n / 65536 % 256 ∷ n / 16777216 % 256 ∷ []

pub record Coding : Type 0 where
  pub formatcode : ℕ
  pub bits_per_sample : ℕ
  pub bytes_per_sample : ℕ

abbrev coding : ℕ → ℕ → ℕ → Coding
coding f bits bytes = record { formatcode = f; bits_per_sample = bits; bytes_per_sample = bytes }

-- The match on the sample format.
unfoldable pub coding_of : BinarySampleFormat → Coding
coding_of BinarySampleFormat.s16_le = coding 1 16 2
coding_of BinarySampleFormat.s24_3_le = coding 1 24 3
coding_of BinarySampleFormat.s24_4_lj_le = coding 1 24 4
coding_of BinarySampleFormat.s32_le = coding 1 32 4
coding_of BinarySampleFormat.f32_le = coding 3 32 4
coding_of BinarySampleFormat.f64_le = coding 3 64 8
coding_of BinarySampleFormat.s24_4_rj_le = coding 0 0 0

abbrev pub u32_max : ℕ
u32_max = 4294967295

-- A product of usize that wraps has the same low bits, so its wrap-around is not written.
unfoldable pub write_wav_header : ℕ → BinarySampleFormat → ℕ → Bytes
unfolding coding_of
write_wav_header channels sample_format samplerate =
    let c = coding_of sample_format in
    riff
    ++ u32_bytes u32_max
    ++ wave
    ++ fmt_id
    ++ u32_bytes 16
    ++ u16_bytes c.formatcode
    ++ u16_bytes channels
    ++ u32_bytes samplerate
    ++ u32_bytes (channels * samplerate * c.bytes_per_sample)
    ++ u16_bytes (channels * c.bytes_per_sample)
    ++ u16_bytes c.bits_per_sample
    ++ data_id
    ++ u32_bytes u32_max
