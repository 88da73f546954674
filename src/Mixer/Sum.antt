-- ===== src/Mixer/Sum.antt =====
-- mixer.rs, `process_chunk`: the samples that a mixer puts out, as sums.
use astra_camilla_dsp.Common.{ℕ, zero, suc, ◌≡◌, refl, ap, ap₂, ◌∙◌, Option, none, some, List, []}
use astra_camilla_dsp.Common.{◌∷◌, map, length, get_elem?, get_or, replicate, Yields}
use astra_camilla_dsp.Arith.{Arith, nought, ◌⊕◌, ◌⊗◌}
use astra_camilla_dsp.AudioChunk.{AudioChunk, from}
use astra_camilla_dsp.Stash.{Stash}
use astra_camilla_dsp.Stash.Clean.{IsClean}
use astra_camilla_dsp.Mixer.{MixerSource, Mixer, mix_into, process_chunk}
use astra_camilla_dsp.Mixer.Build.{IsSafe}
use astra_camilla_dsp.Mixer.Mix.{mix_channel, silence, process_chunk_lem}

module _ {S : Type 0} where
  -- `f 0`, `f 1`, … up to `n` values.
  abbrev pub tabulate : ℕ → (ℕ → S) → List S
  tabulate zero f = []
  tabulate (suc n) f = f 0 ∷ tabulate n (λ k. f (suc k))

module _ {S : Type 0} ⦃a : Arith S⦄ where
  -- A sample that an input has, with its gain, added to `acc`.
  abbrev pub add_sample : S → S → Option S → S
  add_sample acc gain none = acc
  add_sample acc gain (some x) = acc ⊕ gain ⊗ x

  -- The sources of an output channel at the frame `k`, added up from `acc` in their order.
  abbrev pub mixed_sample : AudioChunk S → List (MixerSource S) → S → ℕ → S
  mixed_sample input [] acc k = acc
  mixed_sample input (s ∷ sources) acc k =
      mixed_sample input sources
        (add_sample acc s.gain (get_elem? (get_or input.waveforms s.channel []) k)) k

  abbrev pub sum_of : AudioChunk S → List (MixerSource S) → List S
  sum_of input sources = tabulate input.frames (mixed_sample input sources nought)

  tabulate-replicate : (n : ℕ) (v : S) → replicate n v ≡ tabulate n (λ _. v)
  tabulate-replicate zero v = refl
  tabulate-replicate (suc n) v = ap (λ t. v ∷ t) (tabulate-replicate n v)

  mix_into-tabulate :
      (n : ℕ) (gain : S) (f : ℕ → S) (ins : List S)
      → mix_into n gain (tabulate n f) ins
        ≡ tabulate n (λ k. add_sample (f k) gain (get_elem? ins k))
  unfolding mix_into
  mix_into-tabulate zero gain f ins = refl
  mix_into-tabulate (suc n) gain f [] = refl
  mix_into-tabulate (suc n) gain f (i ∷ ins) =
      ap (λ t. (f 0 ⊕ gain ⊗ i) ∷ t) (mix_into-tabulate n gain (λ k. f (suc k)) ins)

  mix_channel-tabulate :
      (input : AudioChunk S) (sources : List (MixerSource S)) (f : ℕ → S)
      → mix_channel input (tabulate input.frames f) sources
        ≡ tabulate input.frames (λ k. mixed_sample input sources (f k) k)
  mix_channel-tabulate input [] f = refl
  mix_channel-tabulate input (s ∷ sources) f =
      ap (λ out. mix_channel input out sources)
        (mix_into-tabulate input.frames s.gain f (get_or input.waveforms s.channel []))
      ∙ mix_channel-tabulate input sources
          (λ k. add_sample (f k) s.gain (get_elem? (get_or input.waveforms s.channel []) k))

  mix_rows :
      (input : AudioChunk S) (rows : List (List (MixerSource S)))
      → map (mix_channel input (silence input)) rows ≡ map (sum_of input) rows
  mix_rows input [] = refl
  mix_rows input (row ∷ rows) =
      ap₂ ◌∷◌
        (ap (λ out. mix_channel input out row) (tabulate-replicate input.frames nought)
          ∙ mix_channel-tabulate input row (λ _. nought))
        (mix_rows input rows)

  -- A mixer whose mapping is in range, on a chunk with its input channels and with a clean stash,
  -- does not panic. Each output channel has at each frame the sum, from 0.0 and in the order of its
  -- sources, of the samples that its inputs have there, each times the gain of its source; the rest
  -- of the chunk is kept, and the stash that is left is clean.
  pub process_chunk-sum_of :
      (input : AudioChunk S) (self : Mixer S) (stash : Stash S)
      → IsSafe self
      → length input.waveforms ≡ self.channels_in
      → IsClean stash
      → Yields
          (λ r. (r.0 ≡ from input (map (sum_of input) self.mapping)) × IsClean r.1)
          (process_chunk self input stash)
  process_chunk-sum_of input self stash safe wide clean =
      let (r, e, (p, c)) = process_chunk_lem input self stash safe wide clean in
      (r, e, (p ∙ ap (from input) (mix_rows input self.mapping), c))
