-- ===== src/Processors/Compressor/Clipped.antt =====
-- processors/compressor.rs: what the compressor leaves as it is, and that it keeps to its limit.
use astra_camilla_dsp.Common.{ℕ, ◌≤◌, ◌<◌, ◌≡◌, refl, ◌∙◌, subst, ◌≢◌, ◌⊎◌, inl, inr, true, false}
use astra_camilla_dsp.Common.{Option, none, some, List, [], ◌∷◌, map, ◌==◌, ==_iff, Bool-cases}
use astra_camilla_dsp.Common.{Option-cases, contains, length, get_elem?, set, All, length-set}
use astra_camilla_dsp.Common.{length-replicate, get_elem?-lt, get_elem?-set_self}
use astra_camilla_dsp.Common.{get_elem?-set_ne, then_check-accepted, reject_if-accepted, Yields}
use astra_camilla_dsp.Common.{IfSome, accepted}
use astra_camilla_dsp.Filters.Limiter.{IsLimit, NotBeyond, apply_clip-NotBeyond, Limiter, CanClip}
use astra_camilla_dsp.Filters.Limiter.{apply_clip-length}
use astra_camilla_dsp.Arith.{Arith, nought}
use astra_camilla_dsp.AudioChunk.{AudioChunk}
use astra_camilla_dsp.Config.Mixer.{unwrap_or}
use astra_camilla_dsp.Processors.NoiseGate.{apply_gain, apply_channels}
use astra_camilla_dsp.Processors.NoiseGate.Checked.{check_channels_of-lt, or_all-lt}
use astra_camilla_dsp.Processors.NoiseGate.Lengths.{sum_channels-some, length-apply_gain}
use astra_camilla_dsp.Processors.NoiseGate.Frame.{Leaves, KeepsWaveform, apply_channels-Leaves}
use astra_camilla_dsp.Processors.Compressor.{Compressor, CompressorParameters, from_config}
use astra_camilla_dsp.Processors.Compressor.{sum_monitor_channels, estimate_loudness}
use astra_camilla_dsp.Processors.Compressor.{calculate_linear_gain, apply_limiter, process_summed}
use astra_camilla_dsp.Processors.Compressor.{process_chunk, validate_compressor}
use astra_camilla_dsp.Processors.Compressor.{invalid_monitor_channel, invalid_process_channel}

module _ {S : Type 0} ⦃a : Arith S⦄ where
  -- Where there is a limiter, it can clip.
  abbrev pub CanLimit : Option (Limiter S) → Type 0
  CanLimit none = Unit
  CanLimit (some l) = CanClip l

  apply_limiter-length :
      (c : Compressor S) (w : List S)
      → CanLimit c.limiter
      → Yields (λ v. length v ≡ length w) (apply_limiter c w)
  unfolding apply_limiter
  apply_limiter-length c w h = elim (Option-cases c.limiter) [
    | inl off ↦ rw off (w, refl, refl)
    | inr (l, on) ↦ rw on (apply_clip-length l w (rw on at h))
  ]

  gain_and_limit-length :
      (c : Compressor S) (gains : List S)
      → CanLimit c.limiter
      → KeepsWaveform (λ w. apply_limiter c (apply_gain w gains))
  gain_and_limit-length c gains h w =
      let (v, e, l) = apply_limiter-length c (apply_gain w gains) h in
      (v, e, l ∙ length-apply_gain w gains)

  process_summed-Leaves :
      (c : Compressor S) (scratch : List S) (ws : List (List S)) (j : ℕ)
      → CanLimit c.limiter
      → All (λ ch. ch < length ws) c.process_channels
      → contains c.process_channels j ≡ false
      → Yields (λ r. Leaves ws j r.0) (process_summed c scratch ws)
  unfolding process_summed
  process_summed-Leaves c scratch ws j h proc other =
      let gains = calculate_linear_gain c (estimate_loudness c scratch).0 in
      let (out, e, l) =
        apply_channels-Leaves (λ w. apply_limiter c (apply_gain w gains))
          (gain_and_limit-length c gains h) c.process_channels ws j proc other in
      rw e (_, refl, l)

  -- For an accepted configuration, whose limiter, if it has one, has its limits in order, a chunk of as
  -- many waveforms as the configuration has channels, none longer than a chunk, and a channel `j` that
  -- is not to be processed: the new compressor does not panic, keeps the lengths of the waveforms, and
  -- leaves the channel `j` as it is.
  pub compressor-process_chunk :
      (config : CompressorParameters S) (samplerate chunksize : ℕ) (input : AudioChunk S) (j : ℕ)
      → validate_compressor config ≡ accepted
      → CanLimit (from_config config samplerate chunksize).limiter
      → length input.waveforms ≡ config.channels
      → All (λ w. length w ≤ chunksize) input.waveforms
      → contains (from_config config samplerate chunksize).process_channels j ≡ false
      → Yields
          (λ out.
            (map length (out.0).waveforms ≡ map length input.waveforms)
            × (get_elem? (out.0).waveforms j ≡ get_elem? input.waveforms j))
          (process_chunk (from_config config samplerate chunksize) input)
  unfolding validate_compressor from_config process_chunk sum_monitor_channels
  compressor-process_chunk config samplerate chunksize input j valid limits wide short other =
      let c = from_config config samplerate chunksize in
      let (attack, v₁) = reject_if-accepted (a.le config.attack nought) _ _ valid in
      let (release, v₂) = reject_if-accepted (a.le config.release nought) _ _ v₁ in
      let (mon, proc) = then_check-accepted _ _ v₂ in
      let monitored =
        or_all-lt (unwrap_or config.monitor_channels []) config.channels
          (check_channels_of-lt invalid_monitor_channel config.channels _ mon) in
      let processed =
        or_all-lt (unwrap_or config.process_channels []) config.channels
          (check_channels_of-lt invalid_process_channel config.channels _ proc) in
      let (sum, e, _) =
        sum_channels-some input.waveforms c.monitor_channels false c.scratch (rw wide monitored)
          (rw (length-replicate {A = S} chunksize nought) short) in
      rw e (elim (Bool-cases sum.0) [
        | inl summed ↦
            let (out, e', l) =
              process_summed-Leaves c sum.1 input.waveforms j limits (rw wide processed) other in
            rw (summed, e') (_, refl, l)
        | inr silent ↦ rw silent (_, refl, (refl, refl))
      ])

  -- A channel that a change reaches comes out with a property that the change gives.
  apply_channels-gives :
      (P : List S → Type 0) (change : List S → Option (List S))
      (gives : (w : List S) → Yields P (change w)) (chs : List ℕ) (ws : List (List S)) (j : ℕ)
      → All (λ ch. ch < length ws) chs
      → (IfSome P (get_elem? ws j)) ⊎ (contains chs j ≡ true)
      → Yields (λ out. IfSome P (get_elem? out j)) (apply_channels change chs ws)
  unfolding apply_channels
  apply_channels-gives P change gives [] ws j h (inl p) = (ws, refl, p)
  apply_channels-gives P change gives [] ws j h (inr c) = cc
  apply_channels-gives P change gives (ch ∷ chs) ws j h p =
      let (w, e) = get_elem?-lt ws ch h.0 in
      let (v, k, q) = gives w in
      let h' : All (λ c. c < length (set ws ch v)) chs = rw (length-set ws ch v) h.1 in
      let (out, e', r) = apply_channels-gives P change gives chs (set ws ch v) j h' (next v q p) in
      rw (e, k) (out, e', r)
    where
      next :
          (v : List S)
          → P v
          → ((IfSome P (get_elem? ws j)) ⊎ (contains (ch ∷ chs) j ≡ true))
          → (IfSome P (get_elem? (set ws ch v) j)) ⊎ (contains chs j ≡ true)
      next v q p = elim (Bool-cases (ch == j)) [
        | inl same ↦
            let is : ch ≡ j = (==_iff ch j).0 same in
            inl (
              subst (λ k. IfSome P (get_elem? (set ws ch v) k)) is
                (rw (get_elem?-set_self ws ch v h.0) q))
        | inr differ ↦ let ne : ch ≢ j = λ is. cc (differ, (==_iff ch j).1 is) in later ne differ p
      ]
        where
          later :
              ch ≢ j
              → (ch == j) ≡ false
              → ((IfSome P (get_elem? ws j)) ⊎ (contains (ch ∷ chs) j ≡ true))
              → (IfSome P (get_elem? (set ws ch v) j)) ⊎ (contains chs j ≡ true)
          later ne differ (inl p) = inl (rw (get_elem?-set_ne ws v ne) p)
          later ne differ (inr c) = inr (rw differ at c)

  -- A compressor with a hard limiter whose limit is in order with its negative, with its channels among
  -- those of the chunk: where some monitored channel has data, so that there is a sum, and the channel
  -- `j` is processed, the compressor does not panic, and no sample of the channel `j` that comes out
  -- compares below minus the limit or above the limit. Nothing is assumed of the samples; one that is
  -- NaN, or becomes NaN by the gain, stays NaN.
  pub compressor-NotBeyond :
      (c : Compressor S) (l : Limiter S) (input : AudioChunk S) (sum : List S) (j : ℕ)
      → c.limiter ≡ some l
      → l.soft_clip ≡ false
      → IsLimit l.clip_limit
      → All (λ ch. ch < length input.waveforms) c.process_channels
      → sum_monitor_channels c input ≡ some (true, sum)
      → contains c.process_channels j ≡ true
      → Yields
          (λ out. IfSome (All (NotBeyond l.clip_limit)) (get_elem? (out.0).waveforms j))
          (process_chunk c input)
  unfolding process_chunk process_summed apply_limiter
  compressor-NotBeyond c l input sum j is hard pos proc heard chosen =
      let gains = calculate_linear_gain c (estimate_loudness c sum).0 in
      let change : List S → Option (List S) = λ w. apply_limiter c (apply_gain w gains) in
      let (out, e, r) =
        apply_channels-gives (All (NotBeyond l.clip_limit)) change
          (λ w. limited (apply_gain w gains)) c.process_channels input.waveforms j proc
          (inr chosen) in
      rw (heard, e) (_, refl, r)
    where
      limited : (w : List S) → Yields (All (NotBeyond l.clip_limit)) (apply_limiter c w)
      limited w = let (out, e, q) = apply_clip-NotBeyond l w hard pos in rw (is, e) (out, refl, q)
