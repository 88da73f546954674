-- ===== src/Config/FormatTrips.antt =====
-- config/mod.rs: sample formats and their names are turned into one another and back.
use astra_camilla_dsp.Common.{◌≡◌, refl, some}
use astra_camilla_dsp.Config.Formats.{BinarySampleFormat, file_format_name, binary_format_name}
use astra_camilla_dsp.Config.Formats.{from_name, from_file_sample_format, to_file_sample_format}
use astra_camilla_dsp.Config.Formats.{alsa_from_binary_format, alsa_to_binary_format}

-- The left justified format of 24 bits as the right justified one.
abbrev pub right_justified : BinarySampleFormat → BinarySampleFormat
right_justified BinarySampleFormat.s24_4_lj_le = BinarySampleFormat.s24_4_rj_le
right_justified f = f

-- A format of raw data is found again by the name that it is shown with, which is the name of the
-- file format that it becomes; the file format gives it back; and the Alsa format that it becomes
-- gives it back, but for the left justified one of 24 bits, which comes back right justified.
abbrev pub Returns : BinarySampleFormat → Type 0
Returns f =
    (from_name (binary_format_name f) ≡ some f)
    × (file_format_name (to_file_sample_format f) ≡ binary_format_name f)
    × (from_file_sample_format (to_file_sample_format f) ≡ some f)
    × (alsa_to_binary_format (alsa_from_binary_format f) ≡ right_justified f)

-- A format of raw data is found again by its name, has the same name as the file format that it
-- becomes, and comes back from that file format. It comes back from the Alsa format that it becomes
-- as well, but for the left justified format of 24 bits, which comes back right justified.
pub formats-Returns : (f : BinarySampleFormat) → Returns f
unfolding file_format_name binary_format_name from_name from_file_sample_format
    to_file_sample_format alsa_from_binary_format alsa_to_binary_format
formats-Returns BinarySampleFormat.s16_le = (refl, refl, refl, refl)
formats-Returns BinarySampleFormat.s24_4_rj_le = (refl, refl, refl, refl)
formats-Returns BinarySampleFormat.s24_4_lj_le = (refl, refl, refl, refl)
formats-Returns BinarySampleFormat.s24_3_le = (refl, refl, refl, refl)
formats-Returns BinarySampleFormat.s32_le = (refl, refl, refl, refl)
formats-Returns BinarySampleFormat.f32_le = (refl, refl, refl, refl)
formats-Returns BinarySampleFormat.f64_le = (refl, refl, refl, refl)
