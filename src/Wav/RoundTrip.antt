-- ===== src/Wav/RoundTrip.antt =====
-- utils/wavtools.rs: what `find_data_in_wav_stream` reads in a header of `write_wav_header`.
use astra_camilla_dsp.Common.{ℕ, zero, suc, ◌+◌, ◌-◌, ◌*◌, ◌/◌, ◌%◌, ◌^◌, ◌≤◌, ◌<◌, ◌≡◌, refl, ap}
use astra_camilla_dsp.Common.{◌∙◌, fun_ext, ◌≢◌, true, false, ◌&&◌, ◌++◌, arith, ◌==◌}
use astra_camilla_dsp.Common.{if◌then◌else◌, lt→ltb, ==_iff, length}
use astra_camilla_dsp.Config.Formats.{bytes_per_sample, BinarySampleFormat}
use astra_camilla_dsp.Wav.{unable_to_parse, Bytes, ok, err, panic, ◌>>=?◌, unsupported_wav_format}
use astra_camilla_dsp.Wav.{read_u16, read_u32, compare_4cc, look_up_format, first_match}
use astra_camilla_dsp.Wav.Success.{>>=?_assoc}
use astra_camilla_dsp.Wav.Find.{WavParams, Scan, read_exact, read_fmt, goes_on, scan_chunks}
use astra_camilla_dsp.Wav.Find.{start, find_data_in_wav_stream}
use astra_camilla_dsp.Wav.Write.{u16_bytes, u32_bytes, coding_of, write_wav_header, u32_max}
use astra_camilla_dsp.Wav.Headers.{fmt_bytes, with_data, scan_chunks-round, file, first_chunk}
use astra_camilla_dsp.Wav.Headers.{second_chunk, parsed, read_fmt-fmt_bytes}

module _ (channels : ℕ) (format : BinarySampleFormat) (rate : ℕ) (samples : Bytes) where
  length-file : length (file channels format rate samples) ≡ 44 + length samples
  unfolding write_wav_header u16_bytes u32_bytes
  length-file = omega arith

  abbrev found : WavParams → Scan
  found p = record {
    next_chunk_location = 44 + u32_max;
    found_fmt = true;
    found_data = true;
    params = with_data p;
  }

  abbrev with_fmt : WavParams → Scan
  with_fmt p = record { next_chunk_location = 36; found_fmt = true; found_data = false; params = p }

  ends :
      (n : ℕ) (p : WavParams)
      → scan_chunks n (file channels format rate samples) (found p) ≡ ok (found p)
  unfolding scan_chunks
  ends zero p = refl
  ends (suc n) p = refl

  last_rounds :
      (fuel : ℕ) (p : WavParams)
      → scan_chunks (suc fuel) (file channels format rate samples) (with_fmt p) ≡ ok (found p)
  last_rounds fuel p =
      let on : goes_on (file channels format rate samples) (with_fmt p) ≡ true =
        lt→ltb 36 (length (file channels format rate samples)) (omega (arith, length-file)) in
      scan_chunks-round fuel (file channels format rate samples) (with_fmt p) on
      ∙ ap (λ m. m >>=? scan_chunks fuel (file channels format rate samples))
          (second_chunk channels format rate samples p)
      ∙ ends fuel p

  rounds :
      (fuel : ℕ)
      → scan_chunks (suc (suc fuel)) (file channels format rate samples) start
        ≡ (read_fmt (fmt_bytes channels format rate) 16 start.params >>=? λ p. ok (found p))
  rounds fuel =
      let on : goes_on (file channels format rate samples) start ≡ true =
        lt→ltb 12 (length (file channels format rate samples)) (omega (arith, length-file)) in
      let m = read_fmt (fmt_bytes channels format rate) 16 start.params in
      scan_chunks-round (suc fuel) (file channels format rate samples) start on
      ∙ ap (λ m. m >>=? scan_chunks (suc fuel) (file channels format rate samples))
          (first_chunk channels format rate samples)
      ∙ >>=?_assoc m _ _
      ∙ ap (λ f. m >>=? f) (fun_ext λ p. last_rounds fuel p)

  -- A header is read up to the decoding of its fmt chunk, whatever follows it.
  find-write :
      find_data_in_wav_stream (file channels format rate samples)
      ≡ (read_fmt (fmt_bytes channels format rate) 16 start.params >>=? λ p. ok (with_data p))
  unfolding find_data_in_wav_stream read_exact compare_4cc write_wav_header u16_bytes u32_bytes
  find-write =
      let m = read_fmt (fmt_bytes channels format rate) 16 start.params in
      let fuel = length (file channels format rate samples) / 8 - 2 in
      let enough : length (file channels format rate samples) / 8 ≡ suc (suc fuel) =
        omega (arith, length-file) in
      let all_rounds =
        ap (λ n. scan_chunks n (file channels format rate samples) start) enough ∙ rounds fuel in
      ap (λ m. m >>=? λ s. if s.found_data && s.found_fmt then ok s.params else err unable_to_parse)
        all_rounds
      ∙ >>=?_assoc m _ _

-- The formats that wav files support are told by their codings.
look_up_format-coding_of :
    (bytes : Bytes) (format : BinarySampleFormat)
    → format ≢ BinarySampleFormat.s24_4_rj_le
    → (look_up_format bytes
          (coding_of format).formatcode
          (coding_of format).bits_per_sample
          (coding_of format).bytes_per_sample
          16
        ≡ ok format)
      × ((coding_of format).bytes_per_sample ≡ bytes_per_sample format)
      × (1 ≤ bytes_per_sample format)
unfolding look_up_format first_match coding_of bytes_per_sample
look_up_format-coding_of bytes BinarySampleFormat.s16_le h = (refl, refl, omega arith)
look_up_format-coding_of bytes BinarySampleFormat.s24_3_le h = (refl, refl, omega arith)
look_up_format-coding_of bytes BinarySampleFormat.s24_4_lj_le h = (refl, refl, omega arith)
look_up_format-coding_of bytes BinarySampleFormat.s32_le h = (refl, refl, omega arith)
look_up_format-coding_of bytes BinarySampleFormat.f32_le h = (refl, refl, omega arith)
look_up_format-coding_of bytes BinarySampleFormat.f64_le h = (refl, refl, omega arith)
look_up_format-coding_of bytes BinarySampleFormat.s24_4_rj_le h = absurd (h refl)

factor_lt : (m n k : ℕ) → 1 ≤ n → m * n < k → m < k
factor_lt m n k h p = grind arith

-- A header that is written for a format that wav files support is found again: the search gives the
-- number of channels, the format and the sample rate that were written, and data that begins behind
-- the 44 bytes of the header, whatever the data is. The channels are at least one, and a frame and
-- the sample rate are within the 16 and the 32 bits that the header has for them.
pub find-write_wav_header :
    (channels : ℕ) (format : BinarySampleFormat) (rate : ℕ) (samples : Bytes)
    → format ≢ BinarySampleFormat.s24_4_rj_le
    → 0 < channels
    → channels * bytes_per_sample format < 65536
    → rate < 2 ^ 32
    → find_data_in_wav_stream (write_wav_header channels format rate ++ samples)
      ≡ ok (record {
        sample_format = format;
        sample_rate = rate;
        data_offset = 44;
        data_length = 4294967295;
        channels = channels;
      })
find-write_wav_header channels format rate samples supported some_channels fits rate_fits =
    let bytes = fmt_bytes channels format rate in
    let (known, size, sized) = look_up_format-coding_of bytes format supported in
    let few = factor_lt channels (bytes_per_sample format) 65536 sized fits in
    find-write channels format rate samples
    ∙ ap (λ m. m >>=? λ p. ok (with_data p))
        (read_fmt-fmt_bytes channels format rate start.params some_channels few (rw size fits)
            rate_fits
          ∙ ap (λ m. m >>=? λ f. ok (parsed channels f rate start.params)) known)

-- A header that is written for the format that wav files do not support is refused when it is read,
-- whatever follows it: its format code is zero.
find-write_unsupported :
    (channels rate : ℕ) (samples : Bytes)
    → 0 < channels
    → channels < 65536
    → rate < 2 ^ 32
    → find_data_in_wav_stream
        (write_wav_header channels BinarySampleFormat.s24_4_rj_le rate ++ samples)
      ≡ err unsupported_wav_format
unfolding coding_of look_up_format first_match
find-write_unsupported channels rate samples some_channels few rate_fits =
    find-write channels BinarySampleFormat.s24_4_rj_le rate samples
    ∙ ap (λ m. m >>=? λ p. ok (with_data p))
        (read_fmt-fmt_bytes channels BinarySampleFormat.s24_4_rj_le rate start.params some_channels
          few (omega arith) rate_fits)

-- A header whose number of channels is zero in the 16 bits that hold it makes the search panic, by a
-- division, whatever the format and the data are.
pub find-write_no_channels :
    (channels : ℕ) (format : BinarySampleFormat) (rate : ℕ) (samples : Bytes)
    → channels % 65536 ≡ 0
    → find_data_in_wav_stream (write_wav_header channels format rate ++ samples) ≡ panic
unfolding read_fmt read_u16 read_u32 fmt_bytes u16_bytes u32_bytes
find-write_no_channels channels format rate samples h =
    let silent : (channels % 256 + 256 * (channels / 256 % 256) == 0) ≡ true =
      (==_iff _ 0).1 (omega arith) in
    find-write channels format rate samples ∙ rw silent refl
