-- ===== src/Playback/Tests.antt =====
-- utils/ringbuffer.rs and utils/rate_controller.rs: runs, and the witnesses of the theorems.
use astra_camilla_dsp.Common.{ℕ, ◌≡◌, refl, List, [], ◌∷◌, arith, length, take, drop, replicate}
use astra_camilla_dsp.Common.{Yields}
use astra_camilla_dsp.Arith.{◌⊖◌}
use astra_camilla_dsp.Arith.Whole.{whole, ℤ, pos}
use astra_camilla_dsp.Filters.Limiter.{Within}
use astra_camilla_dsp.Filters.Tests.{whole-IsOrder}
use astra_camilla_dsp.Playback.RingBuffer.{Consumer, IsConsumer}
use astra_camilla_dsp.Playback.RingBuffer.{fill_playback_output_from_ringbuffer}
use astra_camilla_dsp.Playback.RingBuffer.{fill_playback_output_from_ringbuffer-eq}
use astra_camilla_dsp.Playback.RateController.{PiRateController, new_with_default_gains, next}
use astra_camilla_dsp.Playback.RateController.{new, IsRamping, next-Within}

-- A ring buffer that is the list of its bytes.
instance abbrev list_consumer : Consumer (List ℕ)
list_consumer = record { occupied_len = length; pop_slice = λ q n. (take n q, drop n q) }

abbrev list-IsConsumer : IsConsumer list_consumer
list-IsConsumer = record {
  contents = λ q. q;
  occupied = λ q. refl;
  popped = λ q n. refl;
  remaining = λ q n. refl;
}

abbrev three : List ℕ
three = 1 ∷ 2 ∷ 3 ∷ []

-- The source's test of an underrun.
partial_underrun :
    (fill_playback_output_from_ringbuffer three (replicate 8 170)).out_slice
    ≡ 1 ∷ 2 ∷ 3 ∷ 0 ∷ 0 ∷ 0 ∷ 0 ∷ 0 ∷ []
unfolding fill_playback_output_from_ringbuffer
partial_underrun = refl

fill_playback_output_from_ringbuffer-eq_example :
    let filled = fill_playback_output_from_ringbuffer three (170 ∷ 170 ∷ []) in
    (filled.out_slice ≡ 1 ∷ 2 ∷ [])
    × (filled.consumer ≡ 3 ∷ [])
    × (filled.available_bytes ≡ 3)
    × (filled.bytes_from_rb ≡ 2)
    × (length filled.out_slice ≡ 2)
unfolding fill_playback_output_from_ringbuffer
fill_playback_output_from_ringbuffer-eq_example =
    fill_playback_output_from_ringbuffer-eq list-IsConsumer three (170 ∷ 170 ∷ [])

abbrev controller : PiRateController ℤ
controller = new_with_default_gains 48000 (pos 1) 1024

controller-IsRamping : IsRamping controller
unfolding new_with_default_gains new
controller-IsRamping = omega arith

next-Within_example :
    Yields
      (λ out.
        ((output : ℤ) × (out.0 ≡ whole.lit 1 1 ⊖ output) × Within (whole.lit 5 1000) output)
        × IsRamping out.1
        × (out.1.ramp_steps ≡ controller.ramp_steps))
      (next controller (pos 900))
next-Within_example = next-Within whole-IsOrder controller (pos 900) refl controller-IsRamping
