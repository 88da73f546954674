-- ===== src/Pipeline/Build.antt =====
-- pipeline.rs: `FilterGroup::from_config` and the building of the steps in `Pipeline::from_config`.
-- `none` is a panic: an unwrapped section that is absent, or an index that a map does not have.
use astra_camilla_dsp.Common.{ℕ, Bool, Option, none, some, List, [], ◌∷◌, ◌++◌, if◌then◌else◌}
use astra_camilla_dsp.Common.{range_from, ◌>>=◌}
use astra_camilla_dsp.Mixer as Mix
use Prim.Native.String.{String}
use astra_camilla_dsp.Arith.{Arith}
use astra_camilla_dsp.Config.Pipeline.{PipelineStep, mixer, filter, processor, is_bypassed}
use astra_camilla_dsp.Config.Pipeline.{lookup, Sections}
use astra_camilla_dsp.Config.Mixer.{unwrap_or}
use astra_camilla_dsp.Pipeline.{parallelize_filters, FilterGroup, Step, mixer_step, filter_step}
use astra_camilla_dsp.Pipeline.{processor_step}

-- `from_config` of the filters and of the processors, by name and configuration.
pub record Constructors (F P FC PC : Type 0) : Type 0 where
  pub filter_from_config : String → FC → Option F
  pub processor_from_config : String → PC → Option P

module _ {F P FC PC : Type 0} (make : Constructors F P FC PC) where
  -- The filters of a group, in the order of their names.
  unfoldable pub filters_from_config : List String → List (String × FC) → Option (List F)
  filters_from_config [] configs = some []
  filters_from_config (name ∷ names) configs = do
    filter_cfg ← lookup name configs
    first ← make.filter_from_config name filter_cfg
    rest ← filters_from_config names configs
    some (first ∷ rest)

  unfoldable pub group_from_config : ℕ → List String → List (String × FC) → Option (FilterGroup F)
  group_from_config channel names configs = do
    filters ← filters_from_config names configs
    some (record { channel = channel; filters = filters })

abbrev pub step_channels : Option (List ℕ) → ℕ → List ℕ
step_channels none num_channels = range_from 0 num_channels
step_channels (some channels) num_channels = channels

module _ {S F P FC PC : Type 0} ⦃a : Arith S⦄ (make : Constructors F P FC PC) where
  -- The loop over the channels of a filter step.
  unfoldable pub groups_from_config :
      List ℕ → List String → Option (List (String × FC)) → Option (List (Step S F P))
  groups_from_config [] names filters = some []
  groups_from_config (channel ∷ channels) names filters = do
    configs ← filters
    group ← group_from_config make channel names configs
    rest ← groups_from_config channels names filters
    some (filter_step group ∷ rest)

  -- The steps that one configured step adds, and the number of channels behind it.
  unfoldable pub step_from_config :
      Sections S FC PC → ℕ → PipelineStep → Option (List (Step S F P) × ℕ)
  step_from_config conf num_channels (mixer step) =
      if is_bypassed step.bypassed then some ([], num_channels) else (do
        mixers ← conf.mixers
        mixconf ← lookup step.name mixers
        mix ← Mix.from_config step.name mixconf
        some (mixer_step mix ∷ [], mixconf.channels.out))
  step_from_config conf num_channels (filter step) =
      if is_bypassed step.bypassed then some ([], num_channels) else (do
        groups ←
            groups_from_config (step_channels step.channels num_channels) step.names conf.filters
        some (groups, num_channels))
  step_from_config conf num_channels (processor step) =
      if is_bypassed step.bypassed then some ([], num_channels) else (do
        processors ← conf.processors
        procconf ← lookup step.name processors
        proc ← make.processor_from_config step.name procconf
        some (processor_step proc ∷ [], num_channels))

  unfoldable pub steps_from_config :
      Sections S FC PC → ℕ → List PipelineStep → Option (List (Step S F P))
  steps_from_config conf num_channels [] = some []
  steps_from_config conf num_channels (step ∷ steps) = do
    first ← step_from_config conf num_channels step
    rest ← steps_from_config conf first.1 steps
    some (first.0 ++ rest)

  -- The steps of `Pipeline::from_config`, merged where the devices ask for several threads.
  unfoldable pub from_config : Sections S FC PC → ℕ → Bool → Option (List (Step S F P))
  from_config conf capture_channels multithreaded = do
    steps ← steps_from_config conf capture_channels (unwrap_or conf.pipeline [])
    if multithreaded then parallelize_filters steps capture_channels else some steps
