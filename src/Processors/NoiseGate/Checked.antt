-- ===== src/Processors/NoiseGate/Checked.antt =====
-- processors/noisegate.rs: a noise gate whose configuration was validated finds its channels.
use astra_camilla_dsp.Common.{ℕ, zero, suc, ◌+◌, ◌≤◌, ◌<◌, ◌≡◌, false, List, [], ◌∷◌, map, arith}
use astra_camilla_dsp.Common.{contains, length, get_elem?, All, range_from, length-replicate}
use astra_camilla_dsp.Common.{then_check-accepted, reject_if-accepted, Yields, accepted}
use astra_camilla_dsp.Arith.{Arith, nought}
use astra_camilla_dsp.AudioChunk.{AudioChunk}
use astra_camilla_dsp.Config.Mixer.{unwrap_or}
use astra_camilla_dsp.Processors.NoiseGate.{NoiseGateParameters, or_all, check_channels_of}
use astra_camilla_dsp.Processors.NoiseGate.{from_config, process_chunk, validate_noise_gate}
use astra_camilla_dsp.Processors.NoiseGate.{invalid_monitor_channel, invalid_process_channel}
use astra_camilla_dsp.Processors.NoiseGate.Frame.{process_chunk-Leaves}

pub check_channels_of-lt :
    {E : Type 0} (error : ℕ → E) (n : ℕ) (cs : List ℕ)
    → check_channels_of error n cs ≡ accepted
    → All (λ c. c < n) cs
unfolding check_channels_of
check_channels_of-lt error n [] h = tt
check_channels_of-lt error n (c ∷ cs) h = ground (arith, check_channels_of-lt error n cs)

range_from_lt : (n start k : ℕ) → start + k ≤ n → All (λ c. c < n) (range_from start k)
range_from_lt n start zero h = tt
range_from_lt n start (suc k) h = (omega arith, range_from_lt n (start + 1) k (omega arith))

pub or_all-lt : (cs : List ℕ) (n : ℕ) → All (λ c. c < n) cs → All (λ c. c < n) (or_all cs n)
unfolding or_all
or_all-lt [] n h = range_from_lt n 0 n (omega arith)
or_all-lt (c ∷ cs) n h = h

module _ {S : Type 0} ⦃a : Arith S⦄ where
  -- For an accepted configuration, a chunk of as many waveforms as it has channels, none longer than
  -- a chunk, and a channel `j` that the gate is not to process: the new noise gate does not panic,
  -- keeps the lengths of the waveforms, and leaves the channel `j` as it is.
  pub from_config-process_chunk :
      (config : NoiseGateParameters S) (samplerate chunksize : ℕ) (input : AudioChunk S) (j : ℕ)
      → validate_noise_gate config ≡ accepted
      → length input.waveforms ≡ config.channels
      → All (λ w. length w ≤ chunksize) input.waveforms
      → contains (from_config config samplerate chunksize).process_channels j ≡ false
      → Yields
          (λ out.
            (map length (out.0).waveforms ≡ map length input.waveforms)
            × (get_elem? (out.0).waveforms j ≡ get_elem? input.waveforms j))
          (process_chunk (from_config config samplerate chunksize) input)
  unfolding validate_noise_gate from_config
  from_config-process_chunk config samplerate chunksize input j valid wide short other =
      let (attack, v₁) = reject_if-accepted (a.le config.attack nought) _ _ valid in
      let (release, v₂) = reject_if-accepted (a.le config.release nought) _ _ v₁ in
      let (mon, proc) =
        then_check-accepted
          (check_channels_of invalid_monitor_channel config.channels
            (unwrap_or config.monitor_channels []))
          _ v₂ in
      let monitored =
        or_all-lt (unwrap_or config.monitor_channels []) config.channels
          (check_channels_of-lt invalid_monitor_channel config.channels _ mon) in
      let processed =
        or_all-lt (unwrap_or config.process_channels []) config.channels
          (check_channels_of-lt invalid_process_channel config.channels _ proc) in
      let (out, e, (l, f, _)) =
        process_chunk-Leaves (from_config config samplerate chunksize) input j (rw wide monitored)
          (rw wide processed) (rw (length-replicate {A = S} chunksize nought) short) other in
      (out, e, (l, f))
