-- ===== src/Wav.antt =====
-- utils/wavtools.rs: wav files as lists of bytes, the header that is written and the search for the
-- format and the data of a file that is read.
pub mod Chunks
pub mod Headers
pub mod Find
pub mod Write
pub mod Success
pub mod Terminates
pub mod Within
pub mod RoundTrip
mod Tests
use astra_camilla_dsp.Common.{ℕ, ◌+◌, ◌*◌, Bool, true, false, ◌&&◌, not, Option, none, some, List}
use astra_camilla_dsp.Common.{[], ◌∷◌, ◌==◌, if◌then◌else◌, get_elem?, take, drop, ◌>>=◌}
use astra_camilla_dsp.Config.Formats.{BinarySampleFormat}

abbrev pub Bytes : Type 0
Bytes = List ℕ

-- The errors, an `io::Error` of `read_exact` among them.
pub data WavError : Type 0 where
  unexpected_eof invalid_wav_header unsupported_wav_format invalid_extended_header : WavError
  unsupported_extended_wav_format unable_to_parse : WavError

-- `Res<A>`, a panic, and fuel that did not last.
pub data Outcome {ℓ} (A : Type ℓ) : Type ℓ where
  ok : A → Outcome A
  err : WavError → Outcome A
  panic : Outcome A
  out_of_fuel : Outcome A

infixl 5 ◌>>=?◌
-- `?` behind a step.
abbrev pub ◌>>=?◌ {ℓ κ} : {A : Type ℓ} {B : Type κ} → Outcome A → (A → Outcome B) → Outcome B
ok a >>=? f = f a
err e >>=? f = err e
panic >>=? f = panic
out_of_fuel >>=? f = out_of_fuel

-- An index or a slice that may be out of bounds.
abbrev pub or_panic {ℓ} : {A : Type ℓ} → Option A → Outcome A
or_panic none = panic
or_panic (some a) = ok a

abbrev pub or_err {ℓ} : {A : Type ℓ} → WavError → Option A → Outcome A
or_err e none = err e
or_err e (some a) = ok a

abbrev pub riff : Bytes
riff = 82 ∷ 73 ∷ 70 ∷ 70 ∷ []

abbrev pub wave : Bytes
wave = 87 ∷ 65 ∷ 86 ∷ 69 ∷ []

abbrev pub data_id : Bytes
data_id = 100 ∷ 97 ∷ 116 ∷ 97 ∷ []

abbrev pub fmt_id : Bytes
fmt_id = 102 ∷ 109 ∷ 116 ∷ 32 ∷ []

-- `u16::from_le_bytes` of two bytes of a slice.
unfoldable pub read_u16 : Bytes → ℕ → Option ℕ
read_u16 buffer start_index = do
  b₀ ← get_elem? buffer start_index
  b₁ ← get_elem? buffer (start_index + 1)
  some (b₀ + 256 * b₁)

-- `u32::from_le_bytes` of four bytes of a slice.
unfoldable pub read_u32 : Bytes → ℕ → Option ℕ
unfolding read_u16
read_u32 buffer start_index = do
  low ← read_u16 buffer start_index
  high ← read_u16 buffer (start_index + 2)
  some (low + 256 * 256 * high)

-- `all` over the pairs of a zip.
abbrev pub zip_equal : Bytes → Bytes → Bool
zip_equal [] ys = true
zip_equal (x ∷ xs) [] = true
zip_equal (x ∷ xs) (y ∷ ys) = if x == y then zip_equal xs ys else false

unfoldable pub compare_4cc : Bytes → Bytes → Bool
compare_4cc buffer bytes = zip_equal (take 4 buffer) bytes

pub record Guid : Type 0 where
  pub data1 : ℕ
  pub data2 : ℕ
  pub data3 : ℕ
  pub data4 : Bytes

abbrev equal : Bytes → Bytes → Bool
equal [] [] = true
equal [] (y ∷ ys) = false
equal (x ∷ xs) [] = false
equal (x ∷ xs) (y ∷ ys) = if x == y then equal xs ys else false

guid_equal : Guid → Guid → Bool
guid_equal g h =
    (g.data1 == h.data1) && (g.data2 == h.data2) && (g.data3 == h.data3) && equal g.data4 h.data4

-- `data` has the sixteen bytes that the type of the parameter asks for.
unfoldable pub from_slice : Bytes → Option Guid
unfolding read_u16 read_u32
from_slice bytes = do
  data1 ← read_u32 bytes 0
  data2 ← read_u16 bytes 4
  data3 ← read_u16 bytes 6
  some (record { data1 = data1; data2 = data2; data3 = data3; data4 = take 8 (drop 8 bytes) })

abbrev subtype_float : Guid
subtype_float = record {
  data1 = 3;
  data2 = 0;
  data3 = 16;
  data4 = 128 ∷ 0 ∷ 0 ∷ 170 ∷ 0 ∷ 56 ∷ 155 ∷ 113 ∷ [];
}

abbrev subtype_pcm : Guid
subtype_pcm = record {
  data1 = 1;
  data2 = 0;
  data3 = 16;
  data4 = 128 ∷ 0 ∷ 0 ∷ 170 ∷ 0 ∷ 56 ∷ 155 ∷ 113 ∷ [];
}

-- The arms of a `match` that give a format, in their order, and what the last arms give.
unfoldable pub first_match :
    List (Bool × BinarySampleFormat) → Outcome BinarySampleFormat → Outcome BinarySampleFormat
first_match [] rest = rest
first_match ((hit, format) ∷ arms) rest = if hit then ok format else first_match arms rest

-- The arms on subformat, bits, bytes per sample and valid bits.
abbrev pub extended_arms : Guid → ℕ → ℕ → ℕ → List (Bool × BinarySampleFormat)
unfolding guid_equal
extended_arms guid bits bytes valid =
    let fields = bits ∷ bytes ∷ valid ∷ [] in
    let pcm = guid_equal guid subtype_pcm in
    let float = guid_equal guid subtype_float in
    (pcm && equal fields (16 ∷ 2 ∷ 16 ∷ []), BinarySampleFormat.s16_le)
    ∷ (pcm && equal fields (24 ∷ 3 ∷ 24 ∷ []), BinarySampleFormat.s24_3_le)
    ∷ (pcm && equal fields (24 ∷ 4 ∷ 24 ∷ []), BinarySampleFormat.s24_4_lj_le)
    ∷ (pcm && equal fields (32 ∷ 4 ∷ 32 ∷ []), BinarySampleFormat.s32_le)
    ∷ (float && equal fields (32 ∷ 4 ∷ 32 ∷ []), BinarySampleFormat.f32_le)
    ∷ (float && equal fields (64 ∷ 8 ∷ 64 ∷ []), BinarySampleFormat.f64_le)
    ∷ []

-- `cb_size` and `channel_mask` are read as well, for the log alone.
unfoldable pub look_up_extended_format : Bytes → ℕ → ℕ → ℕ → Outcome BinarySampleFormat
unfolding read_u16 read_u32 from_slice first_match
look_up_extended_format bytes bits bytes_per_sample chunk_length =
    if not (chunk_length == 40)
    then err invalid_extended_header
    else or_panic (read_u16 bytes 16) >>=? λ cb_size. or_panic (read_u16 bytes 18) >>=? λ valid.
        or_panic (read_u32 bytes 20) >>=? λ channel_mask.
        or_panic (from_slice (take 16 (drop 24 bytes))) >>=? λ guid.
        first_match (extended_arms guid bits bytes_per_sample valid)
          (err unsupported_extended_wav_format)

-- The arms on format code, bits and bytes per sample.
abbrev pub format_arms : ℕ → ℕ → ℕ → List (Bool × BinarySampleFormat)
format_arms formatcode bits bytes =
    let fields = formatcode ∷ bits ∷ bytes ∷ [] in
    (equal fields (1 ∷ 16 ∷ 2 ∷ []), BinarySampleFormat.s16_le)
    ∷ (equal fields (1 ∷ 24 ∷ 3 ∷ []), BinarySampleFormat.s24_3_le)
    ∷ (equal fields (1 ∷ 24 ∷ 4 ∷ []), BinarySampleFormat.s24_4_lj_le)
    ∷ (equal fields (1 ∷ 32 ∷ 4 ∷ []), BinarySampleFormat.s32_le)
    ∷ (equal fields (3 ∷ 32 ∷ 4 ∷ []), BinarySampleFormat.f32_le)
    ∷ (equal fields (3 ∷ 64 ∷ 8 ∷ []), BinarySampleFormat.f64_le)
    ∷ []

unfoldable pub look_up_format : Bytes → ℕ → ℕ → ℕ → ℕ → Outcome BinarySampleFormat
unfolding look_up_extended_format first_match
look_up_format bytes formatcode bits bytes_per_sample chunk_length =
    first_match (format_arms formatcode bits bytes_per_sample) (
      if formatcode == 0xfffe
      then look_up_extended_format bytes bits bytes_per_sample chunk_length
      else err unsupported_wav_format)
