-- ===== src/Wav/Find.antt =====
-- utils/wavtools.rs: `find_data_in_wav_stream`. The stream is the list of a file's bytes; seeking past
-- its end is allowed and reading there is an error.
use astra_camilla_dsp.Common.{ℕ, zero, suc, ◌+◌, ◌/◌, Bool, true, false, ◌&&◌, ◌||◌, not, Option}
use astra_camilla_dsp.Common.{none, some, ltb, ◌==◌, if◌then◌else◌, length, take, drop}
use astra_camilla_dsp.Config.Formats.{BinarySampleFormat}
use astra_camilla_dsp.Wav.{Bytes, Outcome, ok, err, panic, out_of_fuel, ◌>>=?◌, or_panic, or_err}
use astra_camilla_dsp.Wav.{riff, wave, data_id, fmt_id, read_u16, read_u32, compare_4cc}
use astra_camilla_dsp.Wav.{look_up_format, unexpected_eof, invalid_wav_header, unable_to_parse}

pub record WavParams : Type 0 where
  pub sample_format : BinarySampleFormat
  pub sample_rate : ℕ
  pub data_offset : ℕ
  pub data_length : ℕ
  pub channels : ℕ

-- The local variables of the search.
pub record Scan : Type 0 where
  pub next_chunk_location : ℕ
  pub found_fmt : Bool
  pub found_data : Bool
  pub params : WavParams

abbrev pub start : Scan
start = record {
  next_chunk_location = 12;
  found_fmt = false;
  found_data = false;
  params = record {
    sample_format = BinarySampleFormat.s16_le;
    sample_rate = 0;
    data_offset = 0;
    data_length = 0;
    channels = 0;
  };
}

-- `read_exact` of `count` bytes at a position.
unfoldable pub read_exact : Bytes → ℕ → ℕ → Option Bytes
read_exact file position count =
    let bytes = take count (drop position file) in
    if length bytes == count then some bytes else none

-- What a fmt chunk says; the division of u16 panics for no channels.
unfoldable pub read_fmt : Bytes → ℕ → WavParams → Outcome WavParams
read_fmt bytes chunk_length params = or_panic (read_u16 bytes 0) >>=? λ formatcode.
    or_panic (read_u16 bytes 2) >>=? λ channels. or_panic (read_u32 bytes 4) >>=? λ sample_rate.
    or_panic (read_u16 bytes 12) >>=? λ bytes_per_frame. or_panic (read_u16 bytes 14) >>=? λ bits.
    if channels == 0
    then panic
    else (look_up_format bytes formatcode bits (bytes_per_frame / channels) chunk_length
        >>=? λ sample_format. ok (record params {
          sample_format = sample_format;
          sample_rate = sample_rate;
          channels = channels;
        }))

-- The chunks' lengths that a fmt chunk may have.
abbrev pub is_fmt_length : ℕ → Bool
is_fmt_length n = (n == 16) || (n == 18) || (n == 40)

-- The branches of the loop, by the header of the chunk.
unfoldable pub read_chunk : Bytes → Bytes → ℕ → Scan → Outcome Scan
unfolding read_exact
read_chunk file buffer chunk_length s =
    let is_data = compare_4cc buffer data_id in
    let is_fmt = compare_4cc buffer fmt_id in
    if is_fmt && is_fmt_length chunk_length
    then (or_panic (read_exact file (s.next_chunk_location + 8) chunk_length) >>=? λ bytes.
        read_fmt bytes chunk_length s.params >>=? λ params.
        ok (record s { found_fmt = true; params = params }))
    else if is_data
    then ok (record s {
      found_data = true;
      params = record (s.params) {
        data_offset = s.next_chunk_location + 8;
        data_length = chunk_length;
      };
    })
    else ok s

-- The body of the loop: `next_chunk_location += 8 + chunk_length` at its end.
unfoldable pub scan_chunk : Bytes → Scan → Outcome Scan
unfolding read_exact
scan_chunk file s = or_err unexpected_eof (read_exact file s.next_chunk_location 8) >>=? λ buffer.
    or_panic (read_u32 buffer 4) >>=? λ chunk_length.
    read_chunk file buffer chunk_length s >>=? λ t.
    ok (record t { next_chunk_location = s.next_chunk_location + (8 + chunk_length) })

abbrev pub goes_on : Bytes → Scan → Bool
goes_on file s = (not s.found_fmt || not s.found_data) && ltb s.next_chunk_location (length file)

-- The loop, on fuel.
unfoldable pub scan_chunks : ℕ → Bytes → Scan → Outcome Scan
scan_chunks zero file s = if goes_on file s then out_of_fuel else ok s
scan_chunks (suc fuel) file s = elim (goes_on file s) [
  | false ↦ ok s
  | true ↦ scan_chunk file s >>=? λ t. scan_chunks fuel file t
]

-- A round passes at least the eight bytes of a chunk's header.
unfoldable pub find_data_in_wav_stream : Bytes → Outcome WavParams
unfolding read_exact
find_data_in_wav_stream file = or_err unexpected_eof (read_exact file 0 12) >>=? λ header.
    if not (compare_4cc header riff) || not (compare_4cc (drop 8 header) wave)
    then err invalid_wav_header
    else scan_chunks (length file / 8) file start >>=? λ s.
        if s.found_data && s.found_fmt then ok s.params else err unable_to_parse
