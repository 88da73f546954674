-- ===== src/Pipeline/Update.antt =====
-- pipeline.rs: `update_parameters` of the pipeline and of its filter steps. `none` is a panic: a
-- section that is absent, a name that it does not have, or a step that refuses its configuration.
pub mod Total
mod Tests
use astra_camilla_dsp.Common.{Option, some, List, [], ◌∷◌, if◌then◌else◌, ◌>>=◌}
use astra_camilla_dsp.Mixer as Mix
use Prim.Native.String.{String}
use astra_camilla_dsp.Arith.{Arith}
use astra_camilla_dsp.Config.Pipeline.{lookup, any_is, Sections}
use astra_camilla_dsp.Pipeline.{Step, mixer_step, filter_step, parallel_step, processor_step}
use astra_camilla_dsp.Pipeline.Process.{Pipeline}

-- `name` and `update_parameters` of the traits Filter and Processor.
pub record Updates (F P FC PC : Type 0) : Type 0 where
  pub filter_name : F → String
  pub update_filter : F → FC → Option F
  pub processor_name : P → String
  pub update_processor : P → PC → Option P

module _ {F P FC PC : Type 0} (u : Updates F P FC PC) where
  unfoldable pub update_filter : List (String × FC) → List String → F → Option F
  update_filter configs changed f =
      if any_is changed (u.filter_name f)
      then (lookup (u.filter_name f) configs >>= λ cfg. u.update_filter f cfg)
      else some f

  -- The loop over the filters of a group.
  unfoldable pub update_filters : List (String × FC) → List String → List F → Option (List F)
  update_filters configs changed [] = some []
  update_filters configs changed (f ∷ fs) = do
    first ← update_filter configs changed f
    rest ← update_filters configs changed fs
    some (first ∷ rest)

  -- `ParallelFilters::update_parameters`
  unfoldable pub update_parallel :
      List (String × FC) → List String → List (List F) → Option (List (List F))
  update_parallel configs changed [] = some []
  update_parallel configs changed (fs ∷ ps) = do
    first ← update_filters configs changed fs
    rest ← update_parallel configs changed ps
    some (first ∷ rest)

  unfoldable pub update_processor : Option (List (String × PC)) → List String → P → Option P
  update_processor section changed p =
      if any_is changed (u.processor_name p)
      then (section >>= λ configs.
          lookup (u.processor_name p) configs >>= λ cfg. u.update_processor p cfg)
      else some p

  module _ {S : Type 0} ⦃a : Arith S⦄ where
    -- The arms of the loop over the steps.
    unfoldable pub update_step :
        Sections S FC PC
        → List String
        → List String
        → List String
        → Step S F P
        → Option (Step S F P)
    update_step conf filters mixers processors (mixer_step mix) =
        if any_is mixers mix.name
        then (do
          configs ← conf.mixers
          mixconf ← lookup mix.name configs
          updated ← Mix.update_parameters mix mixconf
          some (mixer_step updated))
        else some (mixer_step mix)
    update_step conf filters mixers processors (filter_step flt) = do
      configs ← conf.filters
      updated ← update_filters configs filters flt.filters
      some (filter_step (record flt { filters = updated }))
    update_step conf filters mixers processors (parallel_step flt) = do
      configs ← conf.filters
      updated ← update_parallel configs filters flt
      some (parallel_step updated)
    update_step conf filters mixers processors (processor_step p) = do
      updated ← update_processor conf.processors processors p
      some (processor_step updated)

    unfoldable pub update_steps :
        Sections S FC PC
        → List String
        → List String
        → List String
        → List (Step S F P)
        → Option (List (Step S F P))
    update_steps conf filters mixers processors [] = some []
    update_steps conf filters mixers processors (step ∷ steps) = do
      first ← update_step conf filters mixers processors step
      rest ← update_steps conf filters mixers processors steps
      some (first ∷ rest)

    unfoldable pub update_parameters :
        {R : Type 0}
        → Pipeline R S F P
        → Sections S FC PC
        → List String
        → List String
        → List String
        → Option (Pipeline R S F P)
    update_parameters self conf filters mixers processors = do
      steps ← update_steps conf filters mixers processors self.steps
      some (record self { steps = steps })
