-- ===== src/Processors/NoiseGate/Frame.antt =====
-- processors/noisegate.rs: what the noise gate leaves as it is.
use astra_camilla_dsp.Common.{ℕ, ◌≤◌, ◌<◌, ◌≡◌, refl, sym, ap, ◌∙◌, subst, inl, inr, Bool, true}
use astra_camilla_dsp.Common.{false, Option, some, List, [], ◌∷◌, map, if◌then◌else◌, Bool-cases}
use astra_camilla_dsp.Common.{contains, length, get_elem?, set, All, length-set, length-map}
use astra_camilla_dsp.Common.{get_elem?-lt, get_elem?-set_ne, >>=-eq-some, some-eq, Yields}
use astra_camilla_dsp.Arith.{Arith}
use astra_camilla_dsp.AudioChunk.{AudioChunk}
use astra_camilla_dsp.Pipeline.Widths.{KeepsChannels}
use astra_camilla_dsp.Processors.NoiseGate.{NoiseGate, sum_channels, estimate_loudness}
use astra_camilla_dsp.Processors.NoiseGate.{calculate_linear_gain, apply_gain, apply_channels}
use astra_camilla_dsp.Processors.NoiseGate.{gate, process_chunk, noise_gate_processor}
use astra_camilla_dsp.Processors.NoiseGate.Lengths.{contains-false, map-length-set}
use astra_camilla_dsp.Processors.NoiseGate.Lengths.{length-apply_gain, length-estimate_loudness}
use astra_camilla_dsp.Processors.NoiseGate.Lengths.{sum_channels-some}

module _ {S : Type 0} ⦃a : Arith S⦄ where
  -- The lengths stay, and so does the channel `j`.
  abbrev pub Leaves : List (List S) → ℕ → List (List S) → Type 0
  Leaves ws j out = (map length out ≡ map length ws) × (get_elem? out j ≡ get_elem? ws j)

  -- A change of a waveform that does not panic and keeps the length.
  abbrev pub KeepsWaveform : (List S → Option (List S)) → Type 0
  KeepsWaveform change = (w : List S) → Yields (λ v. length v ≡ length w) (change w)

  pub apply_channels-Leaves :
      (change : List S → Option (List S)) (keeps : KeepsWaveform change) (chs : List ℕ)
      (ws : List (List S)) (j : ℕ)
      → All (λ ch. ch < length ws) chs
      → contains chs j ≡ false
      → Yields (Leaves ws j) (apply_channels change chs ws)
  unfolding apply_channels
  apply_channels-Leaves change keeps [] ws j h out = (ws, refl, (refl, refl))
  apply_channels-Leaves change keeps (ch ∷ chs) ws j h out =
      let (w, e) = get_elem?-lt ws ch h.0 in
      let (v, k, kept) = keeps w in
      let h' : All (λ c. c < length (set ws ch v)) chs = rw (length-set ws ch v) h.1 in
      let (ne, later) = contains-false ch chs j out in
      let (r, e', (l, f)) = apply_channels-Leaves change keeps chs (set ws ch v) j h' later in
      rw (e, k) (r, e', (l ∙ map-length-set ws ch w v e kept, f ∙ get_elem?-set_ne ws v ne))

  -- A noise gate with its channels among those of the chunk, and scratch memory for the longest
  -- waveform, does not panic. It keeps the length of every waveform and the size of its scratch
  -- memory, and a channel that it is not to process comes out as it went in.
  pub process_chunk-Leaves :
      (g : NoiseGate S) (input : AudioChunk S) (j : ℕ)
      → All (λ ch. ch < length input.waveforms) g.monitor_channels
      → All (λ ch. ch < length input.waveforms) g.process_channels
      → All (λ w. length w ≤ length g.scratch) input.waveforms
      → contains g.process_channels j ≡ false
      → Yields
          (λ out.
            (map length (out.0).waveforms ≡ map length input.waveforms)
            × (get_elem? (out.0).waveforms j ≡ get_elem? input.waveforms j)
            × (length (out.1).scratch ≡ length g.scratch))
          (process_chunk g input)
  unfolding process_chunk gate calculate_linear_gain
  process_chunk-Leaves g input j mon proc short other =
      let (s, e, l) =
        sum_channels-some input.waveforms g.monitor_channels false g.scratch mon short in
      rw e (elim (Bool-cases s.0) [
        | inl summed ↦
            let loud = estimate_loudness g.attack g.release g.prev_loudness s.1 in
            let gains = calculate_linear_gain g loud.0 in
            let (r, e', (m, f)) =
              apply_channels-Leaves (λ w. some (apply_gain w gains))
                (λ w. (_, refl, length-apply_gain w gains)) g.process_channels input.waveforms j
                proc other in
            rw (summed, e')
              (
                _,
                refl,
                (
                  m,
                  f,
                  length-map loud.0 _
                      ∙ length-estimate_loudness g.attack g.release s.1 g.prev_loudness
                      ∙ l,
                ),
              )
        | inr silent ↦ rw silent (_, refl, (refl, refl, l))
      ])

  sum_channels-unused :
      (ws : List (List S)) (chs : List ℕ) (scratch : List S)
      → All (λ ch. get_elem? ws ch ≡ some []) chs
      → sum_channels ws chs false scratch ≡ some (false, scratch)
  unfolding sum_channels
  sum_channels-unused ws [] scratch h = refl
  sum_channels-unused ws (ch ∷ chs) scratch h = rw h.0 (sum_channels-unused ws chs scratch h.1)

  -- Where all the monitored channels are unused, the noise gate does nothing.
  pub process_chunk-unmonitored :
      (g : NoiseGate S) (input : AudioChunk S)
      → All (λ ch. get_elem? input.waveforms ch ≡ some []) g.monitor_channels
      → process_chunk g input ≡ some (input, g)
  unfolding process_chunk
  process_chunk-unmonitored g input h =
      rw (sum_channels-unused input.waveforms g.monitor_channels g.scratch h) refl

  pub apply_channels-length :
      (change : List S → Option (List S)) (chs : List ℕ) (ws : List (List S)) {out : List (List S)}
      → apply_channels change chs ws ≡ some out
      → length out ≡ length ws
  unfolding apply_channels
  apply_channels-length change [] ws e = ap length (sym (some-eq e))
  apply_channels-length change (ch ∷ chs) ws e =
      let (w, e₁, e₂) = >>=-eq-some (get_elem? ws ch) _ e in
      let (v, e₃, e₄) = >>=-eq-some (change w) _ e₂ in
      apply_channels-length change chs (set ws ch v) e₄ ∙ length-set ws ch v

  gate-length :
      (g : NoiseGate S) (s : List S) (ws : List (List S)) {r : List (List S) × NoiseGate S}
      → gate g s ws ≡ some r
      → length r.0 ≡ length ws
  unfolding gate
  gate-length g s ws e =
      let gains =
        calculate_linear_gain g (estimate_loudness g.attack g.release g.prev_loudness s).0 in
      let change : List S → Option (List S) = λ w. some (apply_gain w gains) in
      let (out, e₁, e₂) = >>=-eq-some (apply_channels change g.process_channels ws) _ e in
      subst (λ (r : List (List S) × NoiseGate S). length r.0 ≡ length ws) (some-eq e₂)
        (apply_channels-length change g.process_channels ws e₁)

  pub noise_gate-KeepsChannels : KeepsChannels {S = S} noise_gate_processor
  unfolding process_chunk
  noise_gate-KeepsChannels = record { keeps_channels = λ g c e. go g c e }
    where
      go :
          (g : NoiseGate S) (c : AudioChunk S) {r : AudioChunk S × NoiseGate S}
          → process_chunk g c ≡ some r
          → length (r.0).waveforms ≡ length c.waveforms
      go g c e =
          let (s, e₁, e₂) =
            >>=-eq-some (sum_channels c.waveforms g.monitor_channels false g.scratch) _ e in
          let (out, e₃, e₄) =
            >>=-eq-some
              (if s.0
                then gate g s.1 c.waveforms
                else some (c.waveforms, record g { scratch = s.1 }))
              _ e₂ in
          subst (λ (r : AudioChunk S × NoiseGate S). length (r.0).waveforms ≡ length c.waveforms)
            (some-eq e₄) (kept g c s.0 s.1 e₃)
        where
          kept :
              (g : NoiseGate S) (c : AudioChunk S) (summed : Bool) (s : List S)
              {out : List (List S) × NoiseGate S}
              → (if summed
                  then gate g s c.waveforms
                  else some (c.waveforms, record g { scratch = s }))
                ≡ some out
              → length out.0 ≡ length c.waveforms
          kept g c true s e = gate-length g s c.waveforms e
          kept g c false s e =
              subst (λ (o : List (List S) × NoiseGate S). length o.0 ≡ length c.waveforms)
                (some-eq e) refl
