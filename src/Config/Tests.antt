-- ===== src/Config/Tests.antt =====
-- config/mod.rs, config/utils.rs: the witnesses of the theorems on configurations.
use astra_camilla_dsp.Config.Formats.{BinarySampleFormat}
use astra_camilla_dsp.Config.FormatTrips.{Returns, formats-Returns}

formats-Returns_example : Returns BinarySampleFormat.s24_3_le
formats-Returns_example = formats-Returns BinarySampleFormat.s24_3_le
