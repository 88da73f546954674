-- ===== src/Processors/Tests.antt =====
-- The processors at whole numbers, and the theorems about them at concrete processors.
use astra_camilla_dsp.Common.{◌≡◌, refl, true, false, none, some, [], ◌∷◌, map, arith, contains}
use astra_camilla_dsp.Common.{length, get_elem?, All, Yields, IfSome, accepted}
use astra_camilla_dsp.Mixer.Tests as M
use astra_camilla_dsp.Processors.Compressor as C
use astra_camilla_dsp.Filters.Limiter as L
use astra_camilla_dsp.Processors.Race as R
use astra_camilla_dsp.Filters.QueueTests.{queue, queue-IsFifo}
use astra_camilla_dsp.Filters.Delay.{samples, delay_samples}
use astra_camilla_dsp.Processors.Race.Recursion.{race-Crosses, Crosses}
use astra_camilla_dsp.Processors.Race.{RaceParameters, delay_config, sample_period, max_nought}
use astra_camilla_dsp.Processors.Race.{process_channels}
use astra_camilla_dsp.Decibels.{db_to_linear}
use astra_camilla_dsp.Filters.Limiter.{NotBeyond, IsLimit}
use astra_camilla_dsp.Processors.NoiseGate.{sum_channels, copy_into, add_waveform}
use astra_camilla_dsp.Processors.NoiseGate.{NoiseGateParameters, or_all, from_config}
use astra_camilla_dsp.Processors.NoiseGate.{process_chunk, validate_noise_gate, check_channels_of}
use astra_camilla_dsp.Processors.Compressor.Clipped.{CanLimit, compressor-process_chunk}
use astra_camilla_dsp.Processors.Compressor.Clipped.{compressor-NotBeyond}
use astra_camilla_dsp.Processors.Compressor.{CompressorParameters, Compressor}
use astra_camilla_dsp.Processors.Compressor.{validate_compressor, limiter_from_config}
use astra_camilla_dsp.Processors.Compressor.{sum_monitor_channels}
use astra_camilla_dsp.Arith.Whole.{ℤ, pos, whole}
use astra_camilla_dsp.Processors.NoiseGate.Checked.{from_config-process_chunk}

abbrev pub gate_config : NoiseGateParameters ℤ
gate_config = record {
  channels = 3;
  monitor_channels = none;
  process_channels = some (1 ∷ []);
  attack = pos 1;
  release = pos 2;
  threshold = pos 3;
  attenuation = pos 20;
}

gate_accepted : validate_noise_gate gate_config ≡ accepted
unfolding validate_noise_gate check_channels_of
gate_accepted = refl

gate_leaves : contains (from_config gate_config 2 2).process_channels 2 ≡ false
unfolding from_config or_all
gate_leaves = refl

from_config-process_chunk_example :
    Yields
      (λ out.
        (map length (out.0).waveforms ≡ 2 ∷ 2 ∷ 0 ∷ []) × (get_elem? (out.0).waveforms 2 ≡ some []))
      (process_chunk (from_config gate_config 2 2) M.chunk)
from_config-process_chunk_example =
    from_config-process_chunk gate_config 2 2 M.chunk 2 gate_accepted refl
      (omega arith, (omega arith, (omega arith, tt))) gate_leaves

abbrev pub compressor_config : CompressorParameters ℤ
compressor_config = record {
  channels = 3;
  monitor_channels = none;
  process_channels = some (1 ∷ []);
  attack = pos 1;
  release = pos 2;
  threshold = pos 3;
  factor = pos 2;
  makeup_gain = none;
  soft_clip = none;
  clip_limit = some (pos 20);
}

compressor_accepted : validate_compressor compressor_config ≡ accepted
unfolding validate_compressor check_channels_of
compressor_accepted = refl

compressor_leaves : contains (C.from_config compressor_config 2 2).process_channels 2 ≡ false
unfolding C.from_config or_all
compressor_leaves = refl

compressor_limits : CanLimit (C.from_config compressor_config 2 2).limiter
unfolding C.from_config limiter_from_config L.from_config db_to_linear
compressor_limits = (refl, refl)

compressor-process_chunk_example :
    Yields
      (λ out.
        (map length (out.0).waveforms ≡ 2 ∷ 2 ∷ 0 ∷ []) × (get_elem? (out.0).waveforms 2 ≡ some []))
      (C.process_chunk (C.from_config compressor_config 2 2) M.chunk)
compressor-process_chunk_example =
    compressor-process_chunk compressor_config 2 2 M.chunk 2 compressor_accepted compressor_limits
      refl (omega arith, (omega arith, (omega arith, tt))) compressor_leaves

abbrev loud : Compressor ℤ
loud = record {
  channels = 3;
  monitor_channels = 0 ∷ 1 ∷ 2 ∷ [];
  process_channels = 1 ∷ 0 ∷ [];
  attack = pos 1;
  release = pos 1;
  threshold = pos 3;
  factor = pos 1;
  makeup_gain = pos 40;
  limiter = some (record { soft_clip = false; clip_limit = pos 2 });
  samplerate = 2;
  scratch = pos 0 ∷ pos 0 ∷ [];
  prev_loudness = pos 0;
}

loud_sum : sum_monitor_channels loud M.chunk ≡ some (true, pos 5 ∷ pos 0 ∷ [])
unfolding sum_monitor_channels sum_channels copy_into add_waveform
loud_sum = refl

two-IsLimit : IsLimit (pos 2)
two-IsLimit = record { in_order = refl; low = refl; high = refl; apart = refl }

compressor-NotBeyond_example :
    Yields
      (λ out. IfSome (All (NotBeyond (pos 2))) (get_elem? (out.0).waveforms 0))
      (C.process_chunk loud M.chunk)
compressor-NotBeyond_example =
    compressor-NotBeyond loud (record { soft_clip = false; clip_limit = pos 2 }) M.chunk
      (pos 5 ∷ pos 0 ∷ []) 0 refl refl two-IsLimit (omega arith, (omega arith, tt)) loud_sum refl

-- A delay of two samples, of which one is the feedback.
abbrev race_config : RaceParameters ℤ
race_config = record {
  channels = 2;
  channel_a = 0;
  channel_b = 1;
  delay = pos 2;
  subsample_delay = none;
  delay_unit = some samples;
  attenuation = pos 20;
}

race_delay : whole.to_ℕ (whole.round (delay_samples 48000 (delay_config race_config 48000))) ≡ 1
unfolding delay_samples delay_config sample_period max_nought
race_delay = refl

race-Crosses_example :
    Yields
      (Crosses queue-IsFifo
        (R.from_config race_config 48000)
        (pos 0 ∷ [])
        (pos 0 ∷ [])
        (pos 1 ∷ pos 2 ∷ pos 3 ∷ [])
        (pos 4 ∷ pos 5 ∷ pos 6 ∷ []))
      (process_channels
        (R.from_config race_config 48000)
        (pos 1 ∷ pos 2 ∷ pos 3 ∷ [])
        (pos 4 ∷ pos 5 ∷ pos 6 ∷ []))
race-Crosses_example =
    race-Crosses queue-IsFifo race_config 48000 1 (pos 1 ∷ pos 2 ∷ pos 3 ∷ [])
      (pos 4 ∷ pos 5 ∷ pos 6 ∷ []) refl race_delay refl
