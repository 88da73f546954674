-- ===== src/Processors/NoiseGate.antt =====
-- processors/noisegate.rs: the noise gate. `none` is a panic: a channel that the chunk does not have,
-- or a waveform longer than the scratch memory.
pub mod Lengths
pub mod Frame
pub mod Checked
use astra_camilla_dsp.Common.{ℕ, Bool, false, ◌||◌, not, Option, none, some, List, [], ◌∷◌, map}
use astra_camilla_dsp.Common.{leb, if◌then◌else◌, is_empty, get_elem?, set, replicate, range_from}
use astra_camilla_dsp.Common.{◌>>=◌, Check, ◌then_check◌, accepted, rejected}
use astra_camilla_dsp.Arith.{Arith, ◌⊕◌, ◌⊖◌, ◌⊗◌, ◌⊘◌, nought}
use astra_camilla_dsp.AudioChunk.{AudioChunk}
use astra_camilla_dsp.Config.Mixer.{unwrap_or}
use astra_camilla_dsp.Decibels.{db_to_linear}
use astra_camilla_dsp.Pipeline.{ProcessorTrait}

pub record NoiseGateParameters (S : Type 0) : Type 0 where
  pub channels : ℕ
  pub monitor_channels : Option (List ℕ)
  pub process_channels : Option (List ℕ)
  pub attack : S
  pub release : S
  pub threshold : S
  pub attenuation : S

pub record NoiseGate (S : Type 0) : Type 0 where
  pub channels : ℕ
  pub monitor_channels : List ℕ
  pub process_channels : List ℕ
  pub attack : S
  pub release : S
  pub threshold : S
  pub factor : S
  pub samplerate : ℕ
  pub scratch : List S
  pub prev_loudness : S

pub data NoiseGateError : Type 0 where
  attack_not_positive release_not_positive : NoiseGateError
  invalid_monitor_channel invalid_process_channel : ℕ → NoiseGateError

-- An empty list of channels stands for all of them.
unfoldable pub or_all : List ℕ → ℕ → List ℕ
or_all [] channels = range_from 0 channels
or_all (c ∷ cs) channels = c ∷ cs

unfoldable pub check_channels_of : {E : Type 0} → (ℕ → E) → ℕ → List ℕ → Check E
check_channels_of error channels [] = accepted
check_channels_of error channels (ch ∷ chs) =
    if leb channels ch then rejected (error ch) else check_channels_of error channels chs

module _ {S : Type 0} where
  -- `scratch[..waveform.len()].copy_from_slice(waveform)`
  unfoldable pub copy_into : List S → List S → Option (List S)
  copy_into scratch [] = some scratch
  copy_into [] (w ∷ waveform) = none
  copy_into (s ∷ scratch) (w ∷ waveform) = do rest ← copy_into scratch waveform; some (w ∷ rest)

module _ {S : Type 0} ⦃a : Arith S⦄ where
  -- `exp(-1 / srate / time)`
  abbrev pub smoothing : S → ℕ → S
  smoothing time samplerate = a.exp (a.neg (a.lit 1 1) ⊘ a.of_ℕ samplerate ⊘ time)

  unfoldable pub from_config : NoiseGateParameters S → ℕ → ℕ → NoiseGate S
  from_config config samplerate chunksize = record {
    channels = config.channels;
    monitor_channels = or_all (unwrap_or config.monitor_channels []) config.channels;
    process_channels = or_all (unwrap_or config.process_channels []) config.channels;
    attack = smoothing config.attack samplerate;
    release = smoothing config.release samplerate;
    threshold = config.threshold;
    factor = db_to_linear (a.neg config.attenuation);
    samplerate = samplerate;
    scratch = replicate chunksize nought;
    prev_loudness = nought;
  }

  unfoldable pub update_parameters : NoiseGate S → NoiseGateParameters S → NoiseGate S
  update_parameters g config = record g {
    monitor_channels = or_all (unwrap_or config.monitor_channels []) config.channels;
    process_channels = or_all (unwrap_or config.process_channels []) config.channels;
    attack = smoothing config.attack g.samplerate;
    release = smoothing config.release g.samplerate;
    threshold = config.threshold;
    factor = db_to_linear (a.neg config.attenuation);
  }

  -- `iter_mut().zip(iter())` with `+=`.
  unfoldable pub add_waveform : List S → List S → List S
  add_waveform [] waveform = []
  add_waveform (s ∷ scratch) [] = s ∷ scratch
  add_waveform (s ∷ scratch) (w ∷ waveform) = (s ⊕ w) ∷ add_waveform scratch waveform

  -- The loop over the monitored channels, with the flag `summed` and the scratch memory.
  unfoldable pub sum_channels : List (List S) → List ℕ → Bool → List S → Option (Bool × List S)
  sum_channels waveforms [] summed scratch = some (summed, scratch)
  sum_channels waveforms (ch ∷ chs) summed scratch = do
    waveform ← get_elem? waveforms ch
    scratch' ←
        if is_empty waveform
        then some scratch
        else if summed
        then some (add_waveform scratch waveform)
        else copy_into scratch waveform
    sum_channels waveforms chs (summed || not (is_empty waveform)) scratch'

  -- Loudness in decibels, smoothed by the attack and the release; the loudness before is `prev`.
  pub estimate_loudness : S → S → S → List S → List S × S
  estimate_loudness attack release prev [] = ([], prev)
  estimate_loudness attack release prev (val ∷ scratch) =
      let one : S = a.lit 1 1 in
      let db = a.lit 20 1 ⊗ a.log10 (a.abs val ⊕ a.lit 1 1000000000) in
      let value =
        if a.le prev db
        then attack ⊗ prev ⊕ (one ⊖ attack) ⊗ db
        else release ⊗ prev ⊕ (one ⊖ release) ⊗ db in
      let rest = estimate_loudness attack release value scratch in (value ∷ rest.0, rest.1)

  pub calculate_linear_gain : NoiseGate S → List S → List S
  calculate_linear_gain g scratch =
      map (λ val. if a.lt val g.threshold then g.factor else a.lit 1 1) scratch

  pub apply_gain : List S → List S → List S
  apply_gain [] gains = []
  apply_gain (val ∷ input) [] = val ∷ input
  apply_gain (val ∷ input) (gain ∷ gains) = (val ⊗ gain) ∷ apply_gain input gains

  -- The loop over the processed channels, with what is done to a waveform.
  unfoldable pub apply_channels :
      (List S → Option (List S)) → List ℕ → List (List S) → Option (List (List S))
  apply_channels change [] waveforms = some waveforms
  apply_channels change (ch ∷ chs) waveforms = do
    waveform ← get_elem? waveforms ch
    changed ← change waveform
    apply_channels change chs (set waveforms ch changed)

  -- `process_chunk` behind the summing.
  pub gate : NoiseGate S → List S → List (List S) → Option (List (List S) × NoiseGate S)
  gate g scratch waveforms =
      let loudness = estimate_loudness g.attack g.release g.prev_loudness scratch in
      let gains = calculate_linear_gain g loudness.0 in
      do
        out ← apply_channels (λ w. some (apply_gain w gains)) g.process_channels waveforms
        some (out, record g { scratch = gains; prev_loudness = loudness.1 })

  unfoldable pub process_chunk : NoiseGate S → AudioChunk S → Option (AudioChunk S × NoiseGate S)
  process_chunk g input = do
    sum ← sum_channels input.waveforms g.monitor_channels false g.scratch
    out ←
        if sum.0
        then gate g sum.1 input.waveforms
        else some (input.waveforms, record g { scratch = sum.1 })
    some (record input { waveforms = out.0 }, out.1)

  unfoldable pub validate_noise_gate : NoiseGateParameters S → Check NoiseGateError
  validate_noise_gate config =
      if a.le config.attack nought
      then rejected attack_not_positive
      else if a.le config.release nought
      then rejected release_not_positive
      else check_channels_of invalid_monitor_channel config.channels
          (unwrap_or config.monitor_channels [])
        then_check check_channels_of invalid_process_channel config.channels
            (unwrap_or config.process_channels [])

  instance abbrev pub noise_gate_processor : ProcessorTrait S (NoiseGate S)
  noise_gate_processor = record { process_chunk = process_chunk }
