-- ===== src/Pipeline/Start.antt =====
-- pipeline.rs: `Pipeline::from_config`, with the volume control in front of the steps.
use astra_camilla_dsp.Common.{ℕ, Bool, false, Option, some, get_elem?, ◌>>=◌}
use astra_camilla_dsp.Filters.Volume as V
use astra_camilla_dsp.Pipeline.Build as Build
use astra_camilla_dsp.Arith.{Arith, ◌⊘◌}
use astra_camilla_dsp.Config.Mixer.{unwrap_or}
use astra_camilla_dsp.Config.Pipeline.{Sections}
use astra_camilla_dsp.Filters.Volume.{Casts}
use astra_camilla_dsp.Params.{Params}
use astra_camilla_dsp.Pipeline.Build.{Constructors}
use astra_camilla_dsp.Pipeline.Process.{Pipeline}

-- What the pipeline reads of `Devices`.
pub record Devices (R : Type 0) : Type 0 where
  pub samplerate : ℕ
  pub chunksize : ℕ
  pub capture_channels : ℕ
  pub ramp_time : Option R
  pub volume_limit : Option R
  pub multithreaded : Option Bool

module _ {R S F P FC PC : Type 0} ⦃r : Arith R⦄ ⦃a : Arith S⦄ ⦃cast : Casts R S⦄
    (make : Constructors F P FC PC) where
  unfoldable pub new_pipeline : Devices R → Sections S FC PC → Params R → Option (Pipeline R S F P)
  new_pipeline devices sections params = do
    steps ←
        Build.from_config make sections devices.capture_channels
          (unwrap_or devices.multithreaded false)
    current_volume ← get_elem? params.current_volume 0
    mute ← get_elem? params.mute 0
    some (record {
      steps = steps;
      volume =
          V.new (unwrap_or devices.ramp_time (r.lit 400 1))
            (unwrap_or devices.volume_limit (r.lit 50 1)) current_volume mute devices.chunksize
            devices.samplerate 0;
      secs_per_chunk = r.of_ℕ devices.chunksize ⊘ r.of_ℕ devices.samplerate;
      overloaded_chunks = 0;
    })
