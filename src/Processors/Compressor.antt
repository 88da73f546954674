-- ===== src/Processors/Compressor.antt =====
-- processors/compressor.rs: the compressor, on the routines that it shares with the noise gate.
-- `none` is a panic: a channel that the chunk does not have, a waveform longer than the scratch
-- memory, or a clamp between limits that are out of order.
pub mod Clipped
use astra_camilla_dsp.Common.{ℕ, Bool, false, Option, none, some, List, [], map, if◌then◌else◌}
use astra_camilla_dsp.Common.{replicate, ◌>>=◌, Check, ◌then_check◌, rejected}
use astra_camilla_dsp.Filters.Limiter as L
use astra_camilla_dsp.Processors.NoiseGate as Gate
use astra_camilla_dsp.Arith.{Arith, ◌⊕◌, ◌⊖◌, ◌⊗◌, ◌⊘◌, nought}
use astra_camilla_dsp.AudioChunk.{AudioChunk}
use astra_camilla_dsp.Config.Mixer.{unwrap_or}
use astra_camilla_dsp.Decibels.{db_to_linear}
use astra_camilla_dsp.Filters.Limiter.{Limiter, apply_clip}
use astra_camilla_dsp.Pipeline.{ProcessorTrait}
use astra_camilla_dsp.Processors.NoiseGate.{or_all, check_channels_of, smoothing, sum_channels}
use astra_camilla_dsp.Processors.NoiseGate.{apply_gain, apply_channels}

pub record CompressorParameters (S : Type 0) : Type 0 where
  pub channels : ℕ
  pub monitor_channels : Option (List ℕ)
  pub process_channels : Option (List ℕ)
  pub attack : S
  pub release : S
  pub threshold : S
  pub factor : S
  pub makeup_gain : Option S
  pub soft_clip : Option Bool
  pub clip_limit : Option S

pub record Compressor (S : Type 0) : Type 0 where
  pub channels : ℕ
  pub monitor_channels : List ℕ
  pub process_channels : List ℕ
  pub attack : S
  pub release : S
  pub threshold : S
  pub factor : S
  pub makeup_gain : S
  pub limiter : Option (Limiter S)
  pub samplerate : ℕ
  pub scratch : List S
  pub prev_loudness : S

pub data CompressorError : Type 0 where
  attack_not_positive release_not_positive : CompressorError
  invalid_monitor_channel invalid_process_channel : ℕ → CompressorError

module _ {S : Type 0} ⦃a : Arith S⦄ where
  -- A limiter where there is a limit.
  unfoldable pub limiter_from_config : CompressorParameters S → Option (Limiter S)
  limiter_from_config config = do
    limit ← config.clip_limit
    some (L.from_config (record { soft_clip = config.soft_clip; clip_limit = limit }))

  unfoldable pub from_config : CompressorParameters S → ℕ → ℕ → Compressor S
  from_config config samplerate chunksize = record {
    channels = config.channels;
    monitor_channels = or_all (unwrap_or config.monitor_channels []) config.channels;
    process_channels = or_all (unwrap_or config.process_channels []) config.channels;
    attack = smoothing config.attack samplerate;
    release = smoothing config.release samplerate;
    threshold = config.threshold;
    factor = config.factor;
    makeup_gain = unwrap_or config.makeup_gain nought;
    limiter = limiter_from_config config;
    samplerate = samplerate;
    scratch = replicate chunksize nought;
    prev_loudness = a.neg (a.lit 100 1);
  }

  -- The number of channels stays as it was.
  unfoldable pub update_parameters : Compressor S → CompressorParameters S → Compressor S
  update_parameters c config = record c {
    monitor_channels = or_all (unwrap_or config.monitor_channels []) config.channels;
    process_channels = or_all (unwrap_or config.process_channels []) config.channels;
    attack = smoothing config.attack c.samplerate;
    release = smoothing config.release c.samplerate;
    threshold = config.threshold;
    factor = config.factor;
    makeup_gain = unwrap_or config.makeup_gain nought;
    limiter = limiter_from_config config;
  }

  unfoldable pub sum_monitor_channels : Compressor S → AudioChunk S → Option (Bool × List S)
  sum_monitor_channels c input = sum_channels input.waveforms c.monitor_channels false c.scratch

  unfoldable pub estimate_loudness : Compressor S → List S → List S × S
  estimate_loudness c scratch = Gate.estimate_loudness c.attack c.release c.prev_loudness scratch

  -- The gain of one value of the loudness.
  compress : Compressor S → S → S
  compress c val =
      let reduced =
        if a.lt c.threshold val
        then a.neg (val ⊖ c.threshold) ⊗ (c.factor ⊖ a.lit 1 1) ⊘ c.factor
        else nought in
      db_to_linear (reduced ⊕ c.makeup_gain)

  unfoldable pub calculate_linear_gain : Compressor S → List S → List S
  unfolding compress
  calculate_linear_gain c scratch = map (compress c) scratch

  unfoldable pub apply_limiter : Compressor S → List S → Option (List S)
  apply_limiter c input = elim c.limiter [ none ↦ some input | some l ↦ apply_clip l input ]

  -- `process_chunk` behind the summing.
  unfoldable pub process_summed :
      Compressor S → List S → List (List S) → Option (List (List S) × Compressor S)
  process_summed c scratch waveforms =
      let loudness = estimate_loudness c scratch in
      let gains = calculate_linear_gain c loudness.0 in
      do
        out ←
            apply_channels (λ w. apply_limiter c (apply_gain w gains)) c.process_channels waveforms
        some (out, record c { scratch = gains; prev_loudness = loudness.1 })

  unfoldable pub process_chunk : Compressor S → AudioChunk S → Option (AudioChunk S × Compressor S)
  process_chunk c input = do
    sum ← sum_monitor_channels c input
    out ←
        if sum.0
        then process_summed c sum.1 input.waveforms
        else some (input.waveforms, record c { scratch = sum.1 })
    some (record input { waveforms = out.0 }, out.1)

  unfoldable pub validate_compressor : CompressorParameters S → Check CompressorError
  validate_compressor config =
      if a.le config.attack nought
      then rejected attack_not_positive
      else if a.le config.release nought
      then rejected release_not_positive
      else check_channels_of invalid_monitor_channel config.channels
          (unwrap_or config.monitor_channels [])
        then_check check_channels_of invalid_process_channel config.channels
            (unwrap_or config.process_channels [])

  instance abbrev pub compressor_processor : ProcessorTrait S (Compressor S)
  compressor_processor = record { process_chunk = process_chunk }
