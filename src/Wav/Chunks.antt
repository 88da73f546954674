-- ===== src/Wav/Chunks.antt =====
-- utils/wavtools.rs: what it is for chunks to stand in a file.
use astra_camilla_dsp.Common.{ℕ, ◌+◌, ◌/◌, ◌≤◌, ◌<◌, ◌≡◌, ◌≢◌, inl, inr, true, some, arith, ◌==◌}
use astra_camilla_dsp.Common.{==_iff, Bool-cases, length, take, drop, length-take_le, length-drop}
use astra_camilla_dsp.Wav.{Bytes, ok, read_u16, read_u32, compare_4cc, data_id, fmt_id}
use astra_camilla_dsp.Wav.{look_up_format}
use astra_camilla_dsp.Wav.Find.{WavParams, Scan, read_exact}

-- A chunk's header with an id at a position, and the length that it gives.
pub record HeaderAt (file id : Bytes) (position chunk_length : ℕ) : Type 0 where
  pub buffer : Bytes
  pub is_read : read_exact file position 8 ≡ some buffer
  pub has_id : compare_4cc buffer id ≡ true
  pub has_length : read_u32 buffer 4 ≡ some chunk_length

-- What the bytes of a fmt chunk say of the parameters.
pub record FmtBytes (bytes : Bytes) (chunk_length : ℕ) (p : WavParams) : Type 0 where
  pub formatcode : ℕ
  pub bits : ℕ
  pub bytes_per_frame : ℕ
  pub has_code : read_u16 bytes 0 ≡ some formatcode
  pub has_channels : read_u16 bytes 2 ≡ some p.channels
  pub has_rate : read_u32 bytes 4 ≡ some p.sample_rate
  pub has_frame : read_u16 bytes 12 ≡ some bytes_per_frame
  pub has_bits : read_u16 bytes 14 ≡ some bits
  pub some_channels : p.channels ≢ 0
  pub has_format :
      look_up_format bytes formatcode bits (bytes_per_frame / p.channels) chunk_length
      ≡ ok p.sample_format

-- The parameters are those of a fmt chunk in the file.
pub record FmtAt (file : Bytes) (p : WavParams) : Type 0 where
  pub position : ℕ
  pub chunk_length : ℕ
  pub header : HeaderAt file fmt_id position chunk_length
  pub bytes : Bytes
  pub is_read : read_exact file (position + 8) chunk_length ≡ some bytes
  pub is_fmt : FmtBytes bytes chunk_length p

-- The data begins behind the header of a data chunk, which is inside the file.
pub record DataAt (file : Bytes) (p : WavParams) : Type 0 where
  pub position : ℕ
  pub header : HeaderAt file data_id position p.data_length
  pub is_behind : p.data_offset ≡ position + 8
  pub is_inside : p.data_offset ≤ length file

abbrev pub IsScan : Bytes → Scan → Type 0
IsScan file s =
    (s.found_fmt ≡ true → FmtAt file s.params) × (s.found_data ≡ true → DataAt file s.params)

-- What is read in full ends inside the file.
pub read_exact-le :
    (file : Bytes) (position count : ℕ) {bytes : Bytes}
    → 0 < count
    → read_exact file position count ≡ some bytes
    → position + count ≤ length file
unfolding read_exact
read_exact-le file position count h e =
    elim (Bool-cases (length (take count (drop position file)) == count)) [
      | inl full ↦ omega (
        arith,
        h,
        (==_iff (length (take count (drop position file))) count).0 full,
        length-take_le count (drop position file),
        length-drop position file,
      )
      | inr short ↦ cc
    ]
