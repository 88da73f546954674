-- ===== src/Processing/Tests.antt =====
-- processing.rs: rounds of the processing loop with the pipeline of the tests, and the witnesses of
-- the theorems about them.
use astra_camilla_dsp.Common.{ℕ, refl, true, Option, none, some, List, [], ◌∷◌, IfSome}
use astra_camilla_dsp.Mixer.Tests as M
use astra_camilla_dsp.Pipeline.Tests.{turns, gain_config, through_processor, through_config}
use astra_camilla_dsp.Pipeline.Tests.{Through, make, make-Builds, sections, steps-Fit, pipeline}
use astra_camilla_dsp.Pipeline.Tests.{updates, steps_accepted, through-KeepsChannels}
use astra_camilla_dsp.Processing.Messages.{Passes, sent_of, has_ended}
use astra_camilla_dsp.Processing.Stream.{run-Delivers}
use astra_camilla_dsp.Arith.Whole.{whole, ℤ, pos}
use astra_camilla_dsp.Config.Diff.{ConfigChange}
use astra_camilla_dsp.Filters.Gain.{Gain, GainParameters, gain_filter, gain-KeepsLength}
use astra_camilla_dsp.Filters.Tests.{casts, params}
use astra_camilla_dsp.Pipeline.Start.{Devices}
use astra_camilla_dsp.Processing.{AudioMessage, audio, end_of_stream, pause, Event, Running, run}
use astra_camilla_dsp.Processing.Width.{Keeps, run-Keeps}

abbrev event : Option (AudioMessage ℤ) → Event ℤ ℤ (GainParameters ℤ) ℕ
event received = record {
  control = λ p. p;
  received = received;
  accepts = true;
  secs_elapsed = pos 1;
  change = none;
  accepts_end = true;
}

abbrev devices : Devices ℤ
devices = record {
  samplerate = 48000;
  chunksize = 4;
  capture_channels = 3;
  ramp_time = none;
  volume_limit = none;
  multithreaded = some true;
}

-- A chunk and a new pipeline, a pause and changed filters, and the end of the stream.
abbrev events : List (Event ℤ ℤ (GainParameters ℤ) ℕ)
events =
    (record (event (some (audio M.chunk))) {
      change = some (ConfigChange.pipeline, devices, sections);
    })
    ∷ (record (event (some pause)) {
      change = some (ConfigChange.filter_parameters ("triple" ∷ []) [] [], devices, sections);
    })
    ∷ event (some end_of_stream)
    ∷ event (some pause)
    ∷ []

abbrev running : Running ℤ ℤ (Gain ℤ) Through
running = record { pipeline = pipeline; params = params; stash = M.stash }

run-Delivers_example :
    IfSome
      (λ turn. Passes make updates events running (sent_of turn) (has_ended turn))
      (run make updates events running)
run-Delivers_example = run-Delivers make updates events running

run-Keeps_example : IfSome (Keeps 3 2) (run make updates events running)
run-Keeps_example =
    run-Keeps make-Builds gain-KeepsLength through-KeepsChannels updates 3 2 events running
      (
        (refl, (refl, steps_accepted, ((λ _. refl), (tt, (tt, ((λ _. refl), tt)))))),
        ((tt, refl), ((tt, tt), ((tt, tt), tt))),
      )
      ((steps-Fit, refl), M.stash-IsClean)
