-- ===== src/AudioChunk/Stats.antt =====
-- audiochunk.rs: the RMS and peak values of a chunk, and the mask of the channels in use.
use astra_camilla_dsp.Common.{◌≡◌, refl, sym, ap, ap₂, ◌∙◌, Bool, not, List, [], ◌∷◌, map, arith}
use astra_camilla_dsp.Common.{if◌then◌else◌, length, is_empty, resize, map-map, length-resize}
use astra_camilla_dsp.Arith.{Arith, nought, ◌⊕◌, ◌⊗◌, ◌⊘◌}
use astra_camilla_dsp.AudioChunk.{AudioChunk}

pub record ChunkStats (S : Type 0) : Type 0 where
  pub rms : List S
  pub peak : List S

module _ {A B : Type 0} where
  -- `for (slot, value) in slots.iter_mut().zip(source) { *slot = f(value); }`
  unfoldable pub write_zip : (A → B) → List A → List B → List B
  write_zip f [] slots = slots
  write_zip f (value ∷ source) [] = []
  write_zip f (value ∷ source) (slot ∷ slots) = f value ∷ write_zip f source slots

  -- `ChunkStats::write_values`; `nought` is the zero of the values written.
  unfoldable pub write_values : B → List A → List B → (A → B) → List B
  write_values nought source values f = write_zip f source (resize (length source) nought values)

  write_zip-map :
      (f : A → B) (source : List A) (slots : List B)
      → length slots ≡ length source
      → write_zip f source slots ≡ map f source
  unfolding write_zip
  write_zip-map f [] [] e = refl
  write_zip-map f [] (slot ∷ slots) e = absurd (omega arith)
  write_zip-map f (value ∷ source) [] e = absurd (omega arith)
  write_zip-map f (value ∷ source) (slot ∷ slots) e =
      ap (λ t. f value ∷ t) (write_zip-map f source slots (omega arith))

  -- Whatever values there were, the values that are written are those of the source.
  pub write_values-map :
      (zero_value : B) (source : List A) (values : List B) (f : A → B)
      → write_values zero_value source values f ≡ map f source
  unfolding write_values
  write_values-map zero_value source values f =
      write_zip-map f source (resize (length source) zero_value values)
        (length-resize (length source) zero_value values)

module _ {S : Type 0} where
  unfoldable pub update_channel_mask : AudioChunk S → List Bool → List Bool
  update_channel_mask chunk mask = write_zip (λ w. not (is_empty w)) chunk.waveforms mask

  -- A mask of as many channels as there are waveforms says of each whether it has samples.
  pub update_channel_mask-map :
      (chunk : AudioChunk S) (mask : List Bool)
      → length mask ≡ length chunk.waveforms
      → update_channel_mask chunk mask ≡ map (λ w. not (is_empty w)) chunk.waveforms
  unfolding update_channel_mask
  update_channel_mask-map chunk mask e =
      write_zip-map (λ w. not (is_empty w)) chunk.waveforms mask e

module _ {S : Type 0} ⦃a : Arith S⦄ where
  fold_squares : S → S → List S → S × S
  fold_squares sqsum peak [] = (sqsum, peak)
  fold_squares sqsum peak (value ∷ values) =
      let newpeak = if a.lt (a.abs value) peak then peak else a.abs value in
      fold_squares (sqsum ⊕ value ⊗ value) newpeak values

  -- The RMS and the peak value; zeros for no samples.
  unfoldable pub rms_and_peak : List S → S × S
  unfolding fold_squares
  rms_and_peak [] = (nought, nought)
  rms_and_peak (v ∷ vs) =
      let (squaresum, peakval) = fold_squares nought nought (v ∷ vs) in
      (a.sqrt (squaresum ⊘ a.of_ℕ (length (v ∷ vs))), peakval)

  unfoldable pub stats : AudioChunk S → ChunkStats S
  stats chunk =
      let rms_peak = map rms_and_peak chunk.waveforms in
      record {
        rms = map (λ (rp : S × S). rp.0) rms_peak;
        peak = map (λ (rp : S × S). rp.1) rms_peak;
      }

  unfoldable pub update_stats : AudioChunk S → ChunkStats S → ChunkStats S
  update_stats chunk s = record {
    rms =
        write_zip (λ wf. (rms_and_peak wf).0) chunk.waveforms (resize chunk.channels nought s.rms);
    peak =
        write_zip (λ wf. (rms_and_peak wf).1) chunk.waveforms (resize chunk.channels nought s.peak);
  }

  updated :
      (f : List S → S) (chunk : AudioChunk S) (slots : List S)
      → chunk.channels ≡ length chunk.waveforms
      → write_zip f chunk.waveforms (resize chunk.channels nought slots) ≡ map f chunk.waveforms
  updated f chunk slots e =
      write_zip-map f chunk.waveforms (resize chunk.channels nought slots)
        (length-resize chunk.channels nought slots ∙ e)

  -- Where a chunk's number of channels is that of its waveforms, updating any statistics gives those
  -- that would be made anew.
  pub update_stats-eq-stats :
      (chunk : AudioChunk S) (s : ChunkStats S)
      → chunk.channels ≡ length chunk.waveforms
      → update_stats chunk s ≡ stats chunk
  unfolding update_stats stats
  update_stats-eq-stats chunk s e = rw (updated (λ wf. (rms_and_peak wf).0) chunk s.rms e) (
      rw (updated (λ wf. (rms_and_peak wf).1) chunk s.peak e) (
        ap₂ (λ x y. record { rms = x; peak = y })
          (sym (map-map (λ (rp : S × S). rp.0) rms_and_peak chunk.waveforms))
          (sym (map-map (λ (rp : S × S). rp.1) rms_and_peak chunk.waveforms))))
