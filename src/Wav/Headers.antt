-- ===== src/Wav/Headers.antt =====
-- utils/wavtools.rs: how the search reads the chunks of a header that was written.
use astra_camilla_dsp.Common.{ℕ, suc, ◌+◌, ◌*◌, ◌/◌, ◌%◌, ◌^◌, ◌<◌, ◌≡◌, refl, true, false, ◌++◌}
use astra_camilla_dsp.Common.{arith, ◌==◌}
use astra_camilla_dsp.Config.Formats.{BinarySampleFormat}
use astra_camilla_dsp.Wav.{Bytes, ok, ◌>>=?◌, read_u16, read_u32, compare_4cc, look_up_format}
use astra_camilla_dsp.Wav.Success.{>>=?_assoc}
use native.Mathlib.Nat.{mul-div_cancel_left}
use astra_camilla_dsp.Wav.Find.{WavParams, Scan, read_exact, read_fmt, read_chunk, scan_chunk}
use astra_camilla_dsp.Wav.Find.{goes_on, scan_chunks, start}
use astra_camilla_dsp.Wav.Write.{u16_bytes, u32_bytes, coding_of, write_wav_header, Coding}
use astra_camilla_dsp.Wav.Write.{u32_max}

unfoldable pub fmt_bytes : ℕ → BinarySampleFormat → ℕ → Bytes
unfolding u16_bytes u32_bytes coding_of
fmt_bytes channels format rate =
    let c = coding_of format in
    u16_bytes c.formatcode
    ++ u16_bytes channels
    ++ u32_bytes rate
    ++ u32_bytes (channels * rate * c.bytes_per_sample)
    ++ u16_bytes (channels * c.bytes_per_sample)
    ++ u16_bytes c.bits_per_sample

-- Two bytes and four bytes hold what they were written from.
u16_lem : (n : ℕ) → n < 65536 → n % 256 + 256 * (n / 256 % 256) ≡ n
u16_lem n h = omega arith

u32_lem :
    (n : ℕ)
    → n < 2 ^ 32
    → n % 256 + 256 * (n / 256 % 256) + 256 * 256 * (n / 65536 % 256 + 256 * (n / 16777216 % 256))
      ≡ n
u32_lem n h = omega arith

abbrev pub with_data : WavParams → WavParams
with_data p = record p { data_offset = 44; data_length = u32_max }

pub scan_chunks-round :
    (fuel : ℕ) (file : Bytes) (s : Scan)
    → goes_on file s ≡ true
    → scan_chunks (suc fuel) file s ≡ (scan_chunk file s >>=? scan_chunks fuel file)
unfolding scan_chunks
scan_chunks-round fuel file s on = rw (scan_chunks, on) refl

module _ (channels : ℕ) (format : BinarySampleFormat) (rate : ℕ) (samples : Bytes) where
  abbrev pub file : Bytes
  file = write_wav_header channels format rate ++ samples

  pub first_chunk : scan_chunk file start ≡ (
      read_fmt (fmt_bytes channels format rate) 16 start.params >>=? λ p.
      ok (record start { next_chunk_location = 36; found_fmt = true; params = p }))
  unfolding scan_chunk read_exact read_chunk read_u16 read_u32 compare_4cc write_wav_header
      u16_bytes u32_bytes coding_of fmt_bytes
  first_chunk = >>=?_assoc (read_fmt (fmt_bytes channels format rate) 16 start.params) _ _

  pub second_chunk :
      (p : WavParams)
      → scan_chunk file
          (record { next_chunk_location = 36; found_fmt = true; found_data = false; params = p })
        ≡ ok (record {
          next_chunk_location = 44 + u32_max;
          found_fmt = true;
          found_data = true;
          params = record p { data_offset = 44; data_length = u32_max };
        })
  unfolding scan_chunk read_exact read_chunk read_u16 read_u32 compare_4cc write_wav_header
      u16_bytes u32_bytes coding_of fmt_bytes
  second_chunk p = refl

abbrev pub parsed : ℕ → BinarySampleFormat → ℕ → WavParams → WavParams
parsed channels format rate p = record p {
  sample_format = format;
  sample_rate = rate;
  channels = channels;
}

IsCoding : Coding → Type 0
IsCoding c = (c.formatcode < 65536) × (c.bits_per_sample < 65536)

coding_of-IsCoding : (format : BinarySampleFormat) → IsCoding (coding_of format)
unfolding IsCoding coding_of
coding_of-IsCoding BinarySampleFormat.s16_le = (omega arith, omega arith)
coding_of-IsCoding BinarySampleFormat.s24_3_le = (omega arith, omega arith)
coding_of-IsCoding BinarySampleFormat.s24_4_lj_le = (omega arith, omega arith)
coding_of-IsCoding BinarySampleFormat.s24_4_rj_le = (omega arith, omega arith)
coding_of-IsCoding BinarySampleFormat.s32_le = (omega arith, omega arith)
coding_of-IsCoding BinarySampleFormat.f32_le = (omega arith, omega arith)
coding_of-IsCoding BinarySampleFormat.f64_le = (omega arith, omega arith)

-- A fmt chunk that was written is read back up to the look-up of the format.
pub read_fmt-fmt_bytes :
    (channels : ℕ) (format : BinarySampleFormat) (rate : ℕ) (p : WavParams)
    → 0 < channels
    → channels < 65536
    → channels * (coding_of format).bytes_per_sample < 65536
    → rate < 2 ^ 32
    → read_fmt (fmt_bytes channels format rate) 16 p ≡ (
        look_up_format
          (fmt_bytes channels format rate)
          (coding_of format).formatcode
          (coding_of format).bits_per_sample
          (coding_of format).bytes_per_sample
          16
        >>=? λ f. ok (parsed channels f rate p))
unfolding read_fmt read_u16 read_u32 fmt_bytes u16_bytes u32_bytes IsCoding
read_fmt-fmt_bytes channels format rate p some_channels few frame_fits rate_fits =
    let c = coding_of format in
    let (code_fits, bits_fit) = coding_of-IsCoding format in
    let heard : (channels == 0) ≡ false = ground arith in
    rw
      (
        u16_lem channels few,
        heard,
        u16_lem c.formatcode code_fits,
        u16_lem (channels * c.bytes_per_sample) frame_fits,
        u16_lem c.bits_per_sample bits_fit,
        mul-div_cancel_left c.bytes_per_sample some_channels,
        u32_lem rate rate_fits,
      )
      refl
