-- ===== src/Wav/Tests.antt =====
-- utils/wavtools.rs: runs of the wav functions, and the witnesses of their theorems.
use astra_camilla_dsp.Common.{◌≡◌, refl, ◌≢◌, [], ◌∷◌, ◌++◌, arith, replicate}
use astra_camilla_dsp.Wav.{read_u32, compare_4cc, look_up_format, out_of_fuel, Bytes, ok, err}
use astra_camilla_dsp.Wav.{panic, invalid_wav_header, unexpected_eof, riff, wave, fmt_id}
use astra_camilla_dsp.Wav.Find.{scan_chunk, scan_chunks, read_fmt, read_chunk}
use astra_camilla_dsp.Wav.Find.{find_data_in_wav_stream, WavParams}
use astra_camilla_dsp.Config.Formats.{BinarySampleFormat, bytes_per_sample}
use astra_camilla_dsp.Wav.Write.{write_wav_header, u32_bytes, u16_bytes}
use astra_camilla_dsp.Wav.Terminates.{find_data_in_wav_stream-ne-out_of_fuel}
use astra_camilla_dsp.Wav.Chunks.{FmtAt, DataAt}
use astra_camilla_dsp.Wav.Within.{find_data_in_wav_stream-Found}
use astra_camilla_dsp.Wav.RoundTrip.{find-write_wav_header, find-write_no_channels}

abbrev stereo : WavParams
stereo = record {
  sample_format = BinarySampleFormat.s32_le;
  sample_rate = 44100;
  data_offset = 44;
  data_length = 4294967295;
  channels = 2;
}

abbrev silence : Bytes
silence = replicate 20 0

abbrev stereo_file : Bytes
stereo_file = write_wav_header 2 BinarySampleFormat.s32_le 44100 ++ silence

-- The source's test of writing and reading.
write_and_read_wav : find_data_in_wav_stream stereo_file ≡ ok stereo
unfolding find_data_in_wav_stream write_wav_header u32_bytes u16_bytes compare_4cc scan_chunks
    scan_chunk read_u32 read_chunk read_fmt look_up_format
write_and_read_wav = refl

-- The source's test of bytes that are no wav file.
invalid_wav : find_data_in_wav_stream (replicate 1000 0) ≡ err invalid_wav_header
unfolding find_data_in_wav_stream compare_4cc
invalid_wav = refl

short_wav : find_data_in_wav_stream (82 ∷ 73 ∷ 70 ∷ 70 ∷ []) ≡ err unexpected_eof
unfolding find_data_in_wav_stream
short_wav = refl

-- A fmt chunk that the file does not hold in full.
abbrev truncated : Bytes
truncated = riff ++ (0 ∷ 0 ∷ 0 ∷ 0 ∷ []) ++ wave ++ fmt_id ++ (16 ∷ 0 ∷ 0 ∷ 0 ∷ 1 ∷ 0 ∷ [])

truncated_fmt : find_data_in_wav_stream truncated ≡ panic
unfolding find_data_in_wav_stream compare_4cc scan_chunks scan_chunk read_u32 read_chunk
truncated_fmt = refl

find_data_in_wav_stream-ne-out_of_fuel_example : find_data_in_wav_stream truncated ≢ out_of_fuel
find_data_in_wav_stream-ne-out_of_fuel_example = find_data_in_wav_stream-ne-out_of_fuel truncated

find_data_in_wav_stream-Found_example : FmtAt stereo_file stereo × DataAt stereo_file stereo
find_data_in_wav_stream-Found_example = find_data_in_wav_stream-Found stereo_file write_and_read_wav

find-write_wav_header_example : find_data_in_wav_stream stereo_file ≡ ok stereo
unfolding bytes_per_sample
find-write_wav_header_example =
    find-write_wav_header 2 BinarySampleFormat.s32_le 44100 silence (λ p. cc) (omega arith)
      (omega arith) (omega arith)

find-write_no_channels_example :
    find_data_in_wav_stream (write_wav_header 0 BinarySampleFormat.s16_le 44100 ++ silence) ≡ panic
find-write_no_channels_example =
    find-write_no_channels 0 BinarySampleFormat.s16_le 44100 silence refl
