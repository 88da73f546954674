-- ===== src/Config/Formats.antt =====
-- config/mod.rs: the sample formats of raw data, of files and of the audio systems, and what turns
-- one into another.
use astra_camilla_dsp.Common.{ℕ, Option, none, some, if◌then◌else◌}
use Prim.Native.String.{String}
use package.text.Mathlib.Text.{◌==◌ as str_eq}

pub data BinarySampleFormat : Type 0 where
  s16_le s24_4_rj_le s24_4_lj_le s24_3_le s32_le f32_le f64_le : BinarySampleFormat

-- `BinarySampleFormat::bits_per_sample`
unfoldable pub bits_per_sample : BinarySampleFormat → ℕ
bits_per_sample s16_le = 16
bits_per_sample s24_4_rj_le = 24
bits_per_sample s24_4_lj_le = 24
bits_per_sample s24_3_le = 24
bits_per_sample s32_le = 32
bits_per_sample f32_le = 32
bits_per_sample f64_le = 64

-- `BinarySampleFormat::bytes_per_sample`
unfoldable pub bytes_per_sample : BinarySampleFormat → ℕ
bytes_per_sample s16_le = 2
bytes_per_sample s24_4_rj_le = 4
bytes_per_sample s24_4_lj_le = 4
bytes_per_sample s24_3_le = 3
bytes_per_sample s32_le = 4
bytes_per_sample f32_le = 4
bytes_per_sample f64_le = 8

-- A file may hold text as well.
pub data FileSampleFormat : Type 0 where
  text s16_le s24_4_rj_le s24_4_lj_le s24_3_le s32_le f32_le f64_le : FileSampleFormat

pub data WasapiSampleFormat : Type 0 where
  s16 s24 s32 f32 : WasapiSampleFormat

pub data AsioSampleFormat : Type 0 where
  s16_le s24_4_le s24_3_le s32_le f32_le f64_le : AsioSampleFormat

pub data CoreAudioSampleFormat : Type 0 where
  s16 s24 s32 f32 : CoreAudioSampleFormat

pub data AlsaSampleFormat : Type 0 where
  s16_le s24_3_le s24_4_le s32_le f32_le f64_le : AlsaSampleFormat

-- `Display for FileSampleFormat`
unfoldable pub file_format_name : FileSampleFormat → String
file_format_name FileSampleFormat.text = "TEXT"
file_format_name FileSampleFormat.s16_le = "S16_LE"
file_format_name FileSampleFormat.s24_4_rj_le = "S24_4_RJ_LE"
file_format_name FileSampleFormat.s24_4_lj_le = "S24_4_LJ_LE"
file_format_name FileSampleFormat.s24_3_le = "S24_3_LE"
file_format_name FileSampleFormat.s32_le = "S32_LE"
file_format_name FileSampleFormat.f32_le = "F32_LE"
file_format_name FileSampleFormat.f64_le = "F64_LE"

-- `Display for BinarySampleFormat`
unfoldable pub binary_format_name : BinarySampleFormat → String
binary_format_name BinarySampleFormat.s16_le = "S16_LE"
binary_format_name BinarySampleFormat.s24_4_rj_le = "S24_4_RJ_LE"
binary_format_name BinarySampleFormat.s24_4_lj_le = "S24_4_LJ_LE"
binary_format_name BinarySampleFormat.s24_3_le = "S24_3_LE"
binary_format_name BinarySampleFormat.s32_le = "S32_LE"
binary_format_name BinarySampleFormat.f32_le = "F32_LE"
binary_format_name BinarySampleFormat.f64_le = "F64_LE"

-- `BinarySampleFormat::from_file_sample_format`; text is `unreachable!`.
unfoldable pub from_file_sample_format : FileSampleFormat → Option BinarySampleFormat
from_file_sample_format FileSampleFormat.text = none
from_file_sample_format FileSampleFormat.s16_le = some BinarySampleFormat.s16_le
from_file_sample_format FileSampleFormat.s24_4_rj_le = some BinarySampleFormat.s24_4_rj_le
from_file_sample_format FileSampleFormat.s24_4_lj_le = some BinarySampleFormat.s24_4_lj_le
from_file_sample_format FileSampleFormat.s24_3_le = some BinarySampleFormat.s24_3_le
from_file_sample_format FileSampleFormat.s32_le = some BinarySampleFormat.s32_le
from_file_sample_format FileSampleFormat.f32_le = some BinarySampleFormat.f32_le
from_file_sample_format FileSampleFormat.f64_le = some BinarySampleFormat.f64_le

-- `BinarySampleFormat::to_file_sample_format`
unfoldable pub to_file_sample_format : BinarySampleFormat → FileSampleFormat
to_file_sample_format BinarySampleFormat.s16_le = FileSampleFormat.s16_le
to_file_sample_format BinarySampleFormat.s24_4_rj_le = FileSampleFormat.s24_4_rj_le
to_file_sample_format BinarySampleFormat.s24_4_lj_le = FileSampleFormat.s24_4_lj_le
to_file_sample_format BinarySampleFormat.s24_3_le = FileSampleFormat.s24_3_le
to_file_sample_format BinarySampleFormat.s32_le = FileSampleFormat.s32_le
to_file_sample_format BinarySampleFormat.f32_le = FileSampleFormat.f32_le
to_file_sample_format BinarySampleFormat.f64_le = FileSampleFormat.f64_le

-- `BinarySampleFormat::from_name`
unfoldable pub from_name : String → Option BinarySampleFormat
from_name label =
    if str_eq label "F32_LE"
    then some BinarySampleFormat.f32_le
    else if str_eq label "F64_LE"
    then some BinarySampleFormat.f64_le
    else if str_eq label "S16_LE"
    then some BinarySampleFormat.s16_le
    else if str_eq label "S24_4_RJ_LE"
    then some BinarySampleFormat.s24_4_rj_le
    else if str_eq label "S24_4_LJ_LE"
    then some BinarySampleFormat.s24_4_lj_le
    else if str_eq label "S24_3_LE"
    then some BinarySampleFormat.s24_3_le
    else if str_eq label "S32_LE"
    then some BinarySampleFormat.s32_le
    else none

-- `WasapiSampleFormat::from_binary_format`
unfoldable pub wasapi_from_binary_format : BinarySampleFormat → Option WasapiSampleFormat
wasapi_from_binary_format BinarySampleFormat.s16_le = some WasapiSampleFormat.s16
wasapi_from_binary_format BinarySampleFormat.s24_4_rj_le = some WasapiSampleFormat.s24
wasapi_from_binary_format BinarySampleFormat.s24_4_lj_le = some WasapiSampleFormat.s24
wasapi_from_binary_format BinarySampleFormat.s24_3_le = some WasapiSampleFormat.s24
wasapi_from_binary_format BinarySampleFormat.s32_le = some WasapiSampleFormat.s32
wasapi_from_binary_format BinarySampleFormat.f32_le = some WasapiSampleFormat.f32
wasapi_from_binary_format BinarySampleFormat.f64_le = none

-- `CoreAudioSampleFormat::from_binary_format`
unfoldable pub core_audio_from_binary_format : BinarySampleFormat → Option CoreAudioSampleFormat
core_audio_from_binary_format BinarySampleFormat.s16_le = some CoreAudioSampleFormat.s16
core_audio_from_binary_format BinarySampleFormat.s24_4_rj_le = some CoreAudioSampleFormat.s24
core_audio_from_binary_format BinarySampleFormat.s24_4_lj_le = some CoreAudioSampleFormat.s24
core_audio_from_binary_format BinarySampleFormat.s24_3_le = some CoreAudioSampleFormat.s24
core_audio_from_binary_format BinarySampleFormat.s32_le = some CoreAudioSampleFormat.s32
core_audio_from_binary_format BinarySampleFormat.f32_le = some CoreAudioSampleFormat.f32
core_audio_from_binary_format BinarySampleFormat.f64_le = none

-- `AsioSampleFormat::from_binary_format`
unfoldable pub asio_from_binary_format : BinarySampleFormat → Option AsioSampleFormat
asio_from_binary_format BinarySampleFormat.s16_le = some AsioSampleFormat.s16_le
asio_from_binary_format BinarySampleFormat.s24_4_rj_le = some AsioSampleFormat.s24_4_le
asio_from_binary_format BinarySampleFormat.s24_4_lj_le = some AsioSampleFormat.s24_4_le
asio_from_binary_format BinarySampleFormat.s24_3_le = some AsioSampleFormat.s24_3_le
asio_from_binary_format BinarySampleFormat.s32_le = some AsioSampleFormat.s32_le
asio_from_binary_format BinarySampleFormat.f32_le = some AsioSampleFormat.f32_le
asio_from_binary_format BinarySampleFormat.f64_le = some AsioSampleFormat.f64_le

-- `AlsaSampleFormat::from_binary_format`
unfoldable pub alsa_from_binary_format : BinarySampleFormat → AlsaSampleFormat
alsa_from_binary_format BinarySampleFormat.s16_le = AlsaSampleFormat.s16_le
alsa_from_binary_format BinarySampleFormat.s24_4_rj_le = AlsaSampleFormat.s24_4_le
alsa_from_binary_format BinarySampleFormat.s24_4_lj_le = AlsaSampleFormat.s24_4_le
alsa_from_binary_format BinarySampleFormat.s24_3_le = AlsaSampleFormat.s24_3_le
alsa_from_binary_format BinarySampleFormat.s32_le = AlsaSampleFormat.s32_le
alsa_from_binary_format BinarySampleFormat.f32_le = AlsaSampleFormat.f32_le
alsa_from_binary_format BinarySampleFormat.f64_le = AlsaSampleFormat.f64_le

-- `AlsaSampleFormat::to_binary_format`
unfoldable pub alsa_to_binary_format : AlsaSampleFormat → BinarySampleFormat
alsa_to_binary_format AlsaSampleFormat.s16_le = BinarySampleFormat.s16_le
alsa_to_binary_format AlsaSampleFormat.s24_3_le = BinarySampleFormat.s24_3_le
alsa_to_binary_format AlsaSampleFormat.s24_4_le = BinarySampleFormat.s24_4_rj_le
alsa_to_binary_format AlsaSampleFormat.s32_le = BinarySampleFormat.s32_le
alsa_to_binary_format AlsaSampleFormat.f32_le = BinarySampleFormat.f32_le
alsa_to_binary_format AlsaSampleFormat.f64_le = BinarySampleFormat.f64_le
