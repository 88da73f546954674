-- ===== src/Mixer/Mix.antt =====
-- mixer.rs, `process_chunk`: what each output channel holds.
use astra_camilla_dsp.Common.{ℕ, zero, suc, ◌+◌, ◌<◌, ◌≡◌, refl, sym, ap, ◌∙◌, subst, some, List}
use astra_camilla_dsp.Common.{[], ◌∷◌, ◌++◌, map, append-nil, append_assoc, arith, if◌then◌else◌}
use astra_camilla_dsp.Common.{length, is_empty, get_elem?, get_or, replicate, All, length-append}
use astra_camilla_dsp.Common.{get_elem?-eq-get_or, get_elem?-append, set-append, Yields}
use astra_camilla_dsp.Common.{Yields-bind}
use astra_camilla_dsp.Arith.{Arith, nought}
use astra_camilla_dsp.AudioChunk.{AudioChunk, from}
use astra_camilla_dsp.Stash.{Stash, vec_from_stash, container_from_stash}
use astra_camilla_dsp.Stash.Clean.{IsClean, vec_from_stash_lem, container_from_stash_lem}
use astra_camilla_dsp.Stash.Clean.{recycle_container-IsClean}
use astra_camilla_dsp.Mixer.{MixerSource, Mixer, mix_into, add_to, mix_source, mix_sources}
use astra_camilla_dsp.Mixer.{mix_channels, process_chunk}
use astra_camilla_dsp.Mixer.Build.{IsSafe}

module _ {S : Type 0} ⦃a : Arith S⦄ (input : AudioChunk S) where
  -- One source added to an output channel.
  abbrev pub add_source : List S → MixerSource S → List S
  add_source out s = mix_into input.frames s.gain out (get_or input.waveforms s.channel [])

  -- One output channel: every source is added to what is there, in order.
  abbrev pub mix_channel : List S → List (MixerSource S) → List S
  mix_channel out [] = out
  mix_channel out (s ∷ sources) = mix_channel (add_source out s) sources

  abbrev pub silence : List S
  silence = replicate input.frames nought

  mix_into-nil : (n : ℕ) (g : S) (out : List S) → mix_into n g out [] ≡ out
  unfolding mix_into
  mix_into-nil zero g out = refl
  mix_into-nil (suc n) g [] = refl
  mix_into-nil (suc n) g (o ∷ out) = refl

  pub length-mix_into :
      (n : ℕ) (g : S) (out ins : List S) → length (mix_into n g out ins) ≡ length out
  unfolding mix_into
  length-mix_into zero g out ins = refl
  length-mix_into (suc n) g [] ins = refl
  length-mix_into (suc n) g (o ∷ out) [] = refl
  length-mix_into (suc n) g (o ∷ out) (i ∷ ins) = ap suc (length-mix_into n g out ins)

  pub length-mix_channel :
      (out : List S) (sources : List (MixerSource S))
      → length (mix_channel out sources) ≡ length out
  length-mix_channel out [] = refl
  length-mix_channel out (s ∷ sources) =
      length-mix_channel (add_source out s) sources ∙ length-mix_into input.frames s.gain out _

  mix_source_lem :
      (done : List (List S)) (out : List S) (s : MixerSource S)
      → s.channel < length input.waveforms
      → mix_source input (length done) s (done ++ (out ∷ []))
        ≡ some (done ++ (add_source out s ∷ []))
  unfolding mix_source add_to
  mix_source_lem done out s lt =
      rw (get_elem?-eq-get_or input.waveforms s.channel [] lt)
        (go (get_or input.waveforms s.channel []))
    where
      go :
          (ins : List S)
          → (if is_empty ins
              then some (done ++ (out ∷ []))
              else add_to (length done) s.gain input.frames ins (done ++ (out ∷ [])))
            ≡ some (done ++ (mix_into input.frames s.gain out ins ∷ []))
      go [] = rw (mix_into-nil input.frames s.gain out)
      go (i ∷ ins) = rw (get_elem?-append done out [], set-append)

  mix_sources_lem :
      (done : List (List S)) (out : List S) (sources : List (MixerSource S))
      → All (λ s. s.channel < length input.waveforms) sources
      → mix_sources input (length done) sources (done ++ (out ∷ []))
        ≡ some (done ++ (mix_channel out sources ∷ []))
  unfolding mix_sources
  mix_sources_lem done out [] h = refl
  mix_sources_lem done out (s ∷ sources) h =
      rw (mix_source_lem done out s h.0) (mix_sources_lem done (add_source out s) sources h.1)

  module _ (self : Mixer S) where
    -- The waveforms that the remaining rows of the mapping give.
    abbrev Mixed : List (List S) → List (List (MixerSource S)) → List (List S) × Stash S → Type 0
    Mixed done rows r = (r.0 ≡ done ++ map (mix_channel silence) rows) × IsClean r.1

    mix_channels_lem :
        (prev rows : List (List (MixerSource S))) (done : List (List S)) (stash : Stash S)
        → self.mapping ≡ prev ++ rows
        → length prev ≡ length done
        → All (All (λ s. s.channel < length input.waveforms)) rows
        → IsClean stash
        → Yields (Mixed done rows) (mix_channels self input (length rows) (length done) done stash)
    unfolding mix_channels
    mix_channels_lem prev [] done stash e l h c = ((done, stash), refl, (sym (append-nil done), c))
    mix_channels_lem prev (row ∷ rows) done stash e l h c =
        let (v, stash') = vec_from_stash input.frames stash in
        let (silent, clean) = vec_from_stash_lem input.frames stash c in
        let out = mix_channel silence row in
        let row_at : get_elem? self.mapping (length done) ≡ some row =
          rw (e, ← l) (get_elem?-append prev row rows) in
        let next : length (done ++ (out ∷ [])) ≡ length done + 1 = length-append done (out ∷ []) in
        let (r, e', p) =
          mix_channels_lem (prev ++ (row ∷ [])) rows (done ++ (out ∷ [])) stash'
            (e ∙ sym (append_assoc prev (row ∷ []) rows))
            (omega (arith, length-append {0} prev (row ∷ []), length-append {0} done (out ∷ [])))
            h.1 clean in
        (
          r,
          rw (silent, row_at, mix_sources_lem done silence row h.0, ← next) e',
          (p.0 ∙ append_assoc done (out ∷ []) _, p.1),
        )

  -- The chunk that a mixer with rows `mapping` makes of `input`.
  abbrev pub mix : Mixer S → AudioChunk S
  mix self = from input (map (mix_channel silence) self.mapping)

  -- For a mixer with all indices in range, an input chunk of its width and a clean stash the mixer
  -- does not panic; each output channel holds the sum of its sources over silence; the stash that
  -- is left is clean.
  pub process_chunk_lem :
      (self : Mixer S) (stash : Stash S)
      → IsSafe self
      → length input.waveforms ≡ self.channels_in
      → IsClean stash
      → Yields (λ r. (r.0 ≡ mix self) × IsClean r.1) (process_chunk self input stash)
  unfolding process_chunk
  process_chunk_lem self stash safe wide c =
      let (empty, clean) = container_from_stash_lem stash c in
      rw empty (
        Yields-bind (λ r. (r.0 ≡ mix self) × IsClean r.1)
          (mix_channels self input self.channels_out 0 [] (container_from_stash stash).1) _
          (subst
            (λ n.
              Yields (Mixed self [] self.mapping)
                (mix_channels self input n 0 [] (container_from_stash stash).1))
            safe.outputs
            (mix_channels_lem self [] self.mapping [] (container_from_stash stash).1 refl refl
              (rw wide safe.sources) clean))
          λ r p.
            (_, refl, (ap (from input) p.0, recycle_container-IsClean input.waveforms r.1 p.1)))
