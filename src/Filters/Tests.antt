-- ===== src/Filters/Tests.antt =====
-- The filters at whole numbers, and the theorems about them at concrete filters.
use astra_camilla_dsp.Common.{ℕ, zero, suc, ◌+◌, ◌-◌, ◌%◌, ◌<◌, ◌≡◌, refl, false, none, some}
use astra_camilla_dsp.Common.{List, [], ◌∷◌, arith, ◌==◌, if◌then◌else◌, length, get_elem?}
use astra_camilla_dsp.Common.{replicate, All, ◌>>=◌, Yields}
use astra_camilla_dsp.Filters.DiffEq as DiffEq
use astra_camilla_dsp.Filters.Volume.Settle.{run, run-settles}
use astra_camilla_dsp.Params.{Params, IsComplete}
use astra_camilla_dsp.Filters.DiffEq.Stream.{equation_outputs, behind, process_waveform-Remembers}
use astra_camilla_dsp.Filters.DiffEq.History.{Remembers}
use astra_camilla_dsp.Arith.{◌⊖◌}
use astra_camilla_dsp.Arith.Whole.{ℤ, pos, negsuc, whole}
use astra_camilla_dsp.AudioChunk.{AudioChunk}
use astra_camilla_dsp.Filters.Biquad.{direct_form, process_samples, process_samples-direct_form}
use astra_camilla_dsp.Filters.Limiter.{IsOrder, Limiter, Within, apply_clip, apply_clip-Within}
use astra_camilla_dsp.Filters.Volume.{Casts, Volume, VolumeParameters, is_changed, min_f32}
use astra_camilla_dsp.Filters.Volume.{process_chunk, process_waveform, update_parameters}
use astra_camilla_dsp.Filters.Volume.{linear_gain, in_chunks}
use astra_camilla_dsp.Filters.Volume.Ramp.{IsRamping, IsTuned, Asks, Next, with_gain}
use astra_camilla_dsp.Filters.Volume.Stuck.{update_parameters-stuck}
use astra_camilla_dsp.Filters.Volume.Stuck.{process_waveform-process_chunk, waveforms_of, in_one}

pub whole-IsOrder : IsOrder whole
whole-IsOrder = record {
  le_refl = λ v. ground arith;
  le_of_not_lt = λ v w h. ground arith;
  not_lt_of_le = λ v w h. ground arith;
}

abbrev hard : Limiter ℤ
hard = record { soft_clip = false; clip_limit = pos 3 }

apply_clip-Within_example :
    Yields
      (λ out. (length out ≡ 3) × All (Within (pos 3)) out × (apply_clip hard out ≡ some out))
      (apply_clip hard (pos 5 ∷ negsuc 9 ∷ pos 1 ∷ []))
apply_clip-Within_example =
    apply_clip-Within whole-IsOrder hard (pos 5 ∷ negsuc 9 ∷ pos 1 ∷ []) refl refl

process_samples-direct_form_example :
    (process_samples
      (record {
        samplerate = 48000;
        s1 = pos 0;
        s2 = pos 0;
        coeffs = record { a1 = pos 1; a2 = pos 2; b0 = pos 3; b1 = pos 4; b2 = pos 5 };
      })
      (pos 1 ∷ pos 2 ∷ [])).0
    ≡ direct_form
        (record { a1 = pos 1; a2 = pos 2; b0 = pos 3; b1 = pos 4; b2 = pos 5 })
        (pos 0)
        (pos 0)
        (pos 0)
        (pos 0)
        (pos 1 ∷ pos 2 ∷ [])
process_samples-direct_form_example =
    process_samples-direct_form
      (record {
        samplerate = 48000;
        s1 = pos 0;
        s2 = pos 0;
        coeffs = record { a1 = pos 1; a2 = pos 2; b0 = pos 3; b1 = pos 4; b2 = pos 5 };
      })
      (pos 0) (pos 0) (pos 0) (pos 0) (pos 1 ∷ pos 2 ∷ []) (refl, refl)

instance abbrev pub casts : Casts ℤ ℤ
casts = record { widen = λ v. v; narrow = λ v. v }

abbrev pub params : Params ℤ
params = record {
  target_volume = replicate 5 (pos 1);
  current_volume = replicate 5 (pos 0);
  mute = replicate 5 false;
  processing_load = pos 0;
  resampler_load = pos 0;
}

params-IsComplete : IsComplete params
params-IsComplete = record { targets = refl; currents = refl; mutes = refl }

abbrev volume_config : VolumeParameters ℤ
volume_config = record { ramp_time = some (pos 2); fader = 1; limit = none }

-- In the second of three chunks of a ramp to the volume 1.
abbrev pub ramping : Volume ℤ ℤ
ramping = record {
  ramptime_in_chunks = 3;
  current_volume = pos 0;
  target_volume = pos 1;
  target_linear_gain = pos 1;
  mute = false;
  ramp_start = pos 0;
  ramp_step = 2;
  samplerate = 2000;
  chunksize = 2;
  fader = 1;
  volume_limit = pos 50;
}

abbrev chunk : AudioChunk ℤ
chunk = record {
  frames = 2;
  channels = 1;
  maxval = pos 5;
  minval = pos 0;
  timestamp = 7;
  valid_frames = 2;
  waveforms = (pos 4 ∷ negsuc 0 ∷ []) ∷ [];
}

ramping-IsRamping : IsRamping ramping
ramping-IsRamping = record {
  in_time = omega arith;
  has_samples = omega arith;
  has_fader = omega arith;
}

ramping-IsTuned : IsTuned ramping
unfolding linear_gain
ramping-IsTuned = refl

asked : Asks params 1 (pos 1) false
asked = (params-IsComplete, refl, refl)

steady : is_changed ramping (min_f32 (pos 1) ramping.volume_limit) false ≡ false
unfolding is_changed min_f32
steady = refl

same_volume :
    whole.lt
      (whole.lit 1 100)
      (whole.abs (min_f32 (pos 1) ramping.volume_limit ⊖ min_f32 (pos 1) ramping.volume_limit))
    ≡ false
unfolding min_f32
same_volume = refl

run-settles_example :
    Yields
      (λ (out : Next ℤ ℤ).
        (out.0 ≡ with_gain (linear_gain (out.2).target_volume false) chunk)
        × (is_changed out.2 (min_f32 (pos 1) (out.2).volume_limit) false ≡ false))
      (run ramping params (chunk ∷ chunk ∷ chunk ∷ []) >>= λ s. process_chunk s.1 s.0 chunk)
run-settles_example =
    run-settles ramping params (pos 1) false (chunk ∷ chunk ∷ chunk ∷ []) chunk ramping-IsRamping
      ramping-IsTuned asked same_volume refl

process_waveform-process_chunk_example :
    (process_chunk ramping params chunk >>= λ out. some (waveforms_of out))
    ≡ (process_waveform ramping params (pos 4 ∷ negsuc 0 ∷ []) >>= λ out. some (in_one out))
process_waveform-process_chunk_example =
    process_waveform-process_chunk ramping params chunk (pos 4 ∷ negsuc 0 ∷ []) refl

-- A ramp time of one chunk.
abbrev shorter : VolumeParameters ℤ
shorter = record { ramp_time = some (pos 1); fader = 1; limit = none }

shorter_time : (update_parameters ramping shorter).ramptime_in_chunks < ramping.ramp_step
unfolding update_parameters in_chunks
shorter_time = omega arith

shorter_steady :
    is_changed
      (update_parameters ramping shorter)
      (min_f32 (pos 1) (update_parameters ramping shorter).volume_limit)
      false
    ≡ false
unfolding update_parameters is_changed min_f32
shorter_steady = refl

update_parameters-stuck_example :
    Yields
      (λ (out : List ℤ × Params ℤ × Volume ℤ ℤ).
        (out.0 ≡ pos 7 ∷ [])
        × (out.2 ≡ update_parameters ramping shorter)
        × Asks out.1 1 (pos 1) false)
      (process_waveform (update_parameters ramping shorter) params (pos 7 ∷ []))
update_parameters-stuck_example =
    update_parameters-stuck ramping shorter params (pos 1) false (pos 7 ∷ []) shorter_time
      (omega arith) asked shorter_steady

abbrev equation_filter : DiffEq.DiffEq ℤ
equation_filter = record {
  x = pos 5 ∷ pos 4 ∷ [];
  y = pos 3 ∷ pos 2 ∷ [];
  a = pos 1 ∷ pos 2 ∷ [];
  a_len = 2;
  b = pos 3 ∷ pos 1 ∷ [];
  b_len = 2;
  idx_x = 1;
  idx_y = 0;
}

abbrev inputs_before : ℕ → ℤ
inputs_before k = if k == 0 then pos 4 else pos 5

abbrev outputs_before : ℕ → ℤ
outputs_before k = if k == 0 then pos 3 else pos 2

equation_filter-Remembers : Remembers equation_filter inputs_before outputs_before
equation_filter-Remembers = record {
  inputs = record { size = refl; here = omega arith; held = held_x };
  outputs = record { size = refl; here = omega arith; held = held_y };
  b_size = refl;
  a_size = refl;
}
  where
    held_x :
        (k : ℕ) → k < 2 → get_elem? equation_filter.x ((1 + 2 - k) % 2) ≡ some (inputs_before k)
    held_x zero h = refl
    held_x (suc zero) h = refl
    held_x (suc (suc k)) h = absurd (omega arith)

    held_y :
        (k : ℕ) → k < 2 → get_elem? equation_filter.y ((0 + 2 - k) % 2) ≡ some (outputs_before k)
    held_y zero h = refl
    held_y (suc zero) h = refl
    held_y (suc (suc k)) h = absurd (omega arith)

process_waveform-Remembers_example :
    Yields
      (λ out.
        (out.0
          ≡ equation_outputs equation_filter.a equation_filter.b inputs_before outputs_before
              (pos 7 ∷ pos 8 ∷ []))
        × Remembers out.1
            (λ k. DiffEq.flush (behind (pos 7 ∷ pos 8 ∷ []) inputs_before k))
            (λ k. DiffEq.flush (
              behind
                (equation_outputs equation_filter.a equation_filter.b inputs_before outputs_before
                  (pos 7 ∷ pos 8 ∷ []))
                outputs_before
                k))
        × ((out.1).a ≡ equation_filter.a)
        × ((out.1).b ≡ equation_filter.b))
      (DiffEq.process_waveform equation_filter (pos 7 ∷ pos 8 ∷ []))
process_waveform-Remembers_example =
    process_waveform-Remembers equation_filter inputs_before outputs_before (pos 7 ∷ pos 8 ∷ [])
      equation_filter-Remembers
