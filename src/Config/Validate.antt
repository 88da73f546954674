-- ===== src/Config/Validate.antt =====
-- config/utils.rs: `validate_config`, the checks of the pipeline; and `used_capture_channels`.
use astra_camilla_dsp.Common.{ℕ, Bool, true, Option, none, some, List, [], ◌∷◌, leb, ◌==◌}
use astra_camilla_dsp.Common.{if◌then◌else◌, contains, replicate, ◌>>=◌, Check, ◌then_check◌}
use astra_camilla_dsp.Common.{accepted, rejected}
use Prim.Native.String.{String}
use astra_camilla_dsp.Config.Mixer.{Mixer, unwrap_or}
use astra_camilla_dsp.Config.Pipeline.{PipelineStep, mixer, filter, processor, is_bypassed}
use astra_camilla_dsp.Config.Pipeline.{lookup, Sections, FilterConfig, ProcessorConfig}
use astra_camilla_dsp.Mixer.{MixerError, validate_mixer, used_input_channels}

-- The error messages of the pipeline checks, with what they show.
pub data PipelineError (E : Type 0) : Type 0 where
  missing_mixer : String → PipelineError E
  mixer_channels : String → ℕ → ℕ → PipelineError E
  invalid_mixer : String → MixerError → PipelineError E
  no_channel : ℕ → PipelineError E
  duplicated_channel : ℕ → PipelineError E
  missing_filter : String → PipelineError E
  invalid_filter : String → E → PipelineError E
  missing_processor : String → PipelineError E
  processor_channels : String → ℕ → ℕ → PipelineError E
  invalid_processor : String → E → PipelineError E
  output_channels : ℕ → ℕ → PipelineError E

-- `map_err`.
abbrev pub map_err {ℓ κ} : {A : Type ℓ} {B : Type κ} → (A → B) → Check A → Check B
map_err f accepted = accepted
map_err f (rejected e) = rejected (f e)

module _ {E : Type 0} where
  unfoldable pub check_channels : ℕ → List ℕ → Check (PipelineError E)
  check_channels num_channels [] = accepted
  check_channels num_channels (c ∷ cs) =
      if leb num_channels c then rejected (no_channel c) else check_channels num_channels cs

  -- Each channel but the last is looked for among those behind it.
  unfoldable pub check_duplicates : List ℕ → Check (PipelineError E)
  check_duplicates [] = accepted
  check_duplicates (c ∷ cs) =
      if contains cs c then rejected (duplicated_channel c) else check_duplicates cs

  unfoldable pub check_step_channels : ℕ → Option (List ℕ) → Check (PipelineError E)
  check_step_channels num_channels none = accepted
  check_step_channels num_channels (some cs) =
      check_channels num_channels cs then_check check_duplicates cs

module _ {FC E : Type 0} ⦃fc : FilterConfig FC E⦄ where
  unfoldable pub check_found_filter : ℕ → String → Option FC → Check (PipelineError E)
  check_found_filter fs name none = rejected (missing_filter name)
  check_found_filter fs name (some conf) =
      map_err (invalid_filter name) (fc.validate_filter fs conf)

  unfoldable pub check_filter : ℕ → Option (List (String × FC)) → String → Check (PipelineError E)
  unfolding check_found_filter
  check_filter fs none name = rejected (missing_filter name)
  check_filter fs (some filters) name = check_found_filter fs name (lookup name filters)

  unfoldable pub check_names :
      ℕ → Option (List (String × FC)) → List String → Check (PipelineError E)
  check_names fs filters [] = accepted
  check_names fs filters (name ∷ names) =
      check_filter fs filters name then_check check_names fs filters names

-- Ends with the number of channels behind the step.
abbrev pub Widened : Type 0 → Type 0
Widened E = Check (PipelineError E) × ℕ

module _ {S E : Type 0} where
  unfoldable pub check_found_mixer : ℕ → String → Option (Mixer S) → Widened E
  check_found_mixer num_channels name none = (rejected (missing_mixer name), num_channels)
  check_found_mixer num_channels name (some conf) =
      if conf.channels.inputs == num_channels
      then (map_err (invalid_mixer name) (validate_mixer conf), conf.channels.out)
      else (rejected (mixer_channels name num_channels conf.channels.inputs), num_channels)

  unfoldable pub check_mixer : ℕ → Option (List (String × Mixer S)) → String → Widened E
  unfolding check_found_mixer
  check_mixer num_channels none name = (rejected (missing_mixer name), num_channels)
  check_mixer num_channels (some mixers) name =
      check_found_mixer num_channels name (lookup name mixers)

module _ {PC E : Type 0} ⦃pc : ProcessorConfig PC E⦄ where
  unfoldable pub check_found_processor : ℕ → ℕ → String → Option PC → Check (PipelineError E)
  check_found_processor fs num_channels name none = rejected (missing_processor name)
  check_found_processor fs num_channels name (some conf) =
      if pc.channels conf == num_channels
      then map_err (invalid_processor name) (pc.validate_processor fs conf)
      else rejected (processor_channels name num_channels (pc.channels conf))

  unfoldable pub check_processor :
      ℕ → ℕ → Option (List (String × PC)) → String → Check (PipelineError E)
  unfolding check_found_processor
  check_processor fs num_channels none name = rejected (missing_processor name)
  check_processor fs num_channels (some processors) name =
      check_found_processor fs num_channels name (lookup name processors)

module _ {S FC PC E : Type 0} ⦃fc : FilterConfig FC E⦄ ⦃pc : ProcessorConfig PC E⦄ where
  unfoldable pub check_step : ℕ → Sections S FC PC → ℕ → PipelineStep → Widened E
  check_step fs conf num_channels (mixer step) =
      if is_bypassed step.bypassed
      then (accepted, num_channels)
      else check_mixer num_channels conf.mixers step.name
  check_step fs conf num_channels (filter step) =
      if is_bypassed step.bypassed then (accepted, num_channels) else (
        check_step_channels num_channels step.channels
            then_check check_names fs conf.filters step.names,
        num_channels,
      )
  check_step fs conf num_channels (processor step) =
      if is_bypassed step.bypassed
      then (accepted, num_channels)
      else (check_processor fs num_channels conf.processors step.name, num_channels)

  unfoldable pub check_steps : ℕ → Sections S FC PC → ℕ → List PipelineStep → Widened E
  check_steps fs conf num_channels [] = (accepted, num_channels)
  check_steps fs conf num_channels (step ∷ steps) =
      let (here, n) = check_step fs conf num_channels step in
      let (rest, m) = check_steps fs conf n steps in (here then_check rest, m)

  -- From `let mut num_channels` to the end of `validate_config`.
  unfoldable pub check_pipeline : ℕ → Sections S FC PC → ℕ → ℕ → Check (PipelineError E)
  check_pipeline fs conf capture_channels playback_channels =
      let (checked, n) = check_steps fs conf capture_channels (unwrap_or conf.pipeline []) in
      checked
      then_check (if n == playback_channels
          then accepted
          else rejected (output_channels n playback_channels))

module _ {S FC PC : Type 0} where
  -- The input channels of the first mixer that is not bypassed; all channels where there is none.
  -- Unwrapping a missing mixer panics.
  used_by : Sections S FC PC → ℕ → List PipelineStep → Option (List Bool)
  used_by conf capture_channels [] = some (replicate capture_channels true)
  used_by conf capture_channels (mixer step ∷ steps) =
      if is_bypassed step.bypassed then used_by conf capture_channels steps else (do
        mixers ← conf.mixers
        mixerconf ← lookup step.name mixers
        used_input_channels mixerconf)
  used_by conf capture_channels (filter step ∷ steps) = used_by conf capture_channels steps
  used_by conf capture_channels (processor step ∷ steps) = used_by conf capture_channels steps

  unfoldable pub used_capture_channels : Sections S FC PC → ℕ → Option (List Bool)
  unfolding used_by
  used_capture_channels conf capture_channels =
      used_by conf capture_channels (unwrap_or conf.pipeline [])
