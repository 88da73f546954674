-- ===== src/Processors/Retyped.antt =====
-- pipeline.rs, config/utils.rs and processors/: a processor whose type changes under its name.
use astra_camilla_dsp.Common.{◌≡◌, refl, ◌∙◌, ◌≢◌, inl, inr, true, false, Option, none, some}
use astra_camilla_dsp.Common.{List, [], ◌∷◌, ◌++◌, Bool-cases, bind_none}
use astra_camilla_dsp.Pipeline.Update as U
use Prim.Native.String.{String}
use astra_camilla_dsp.Arith.{Arith}
use astra_camilla_dsp.Config.Diff.{Comparisons, Configuration, config_diff}
use astra_camilla_dsp.Config.Diff.{changed_filters_section, changed_section, same_configuration}
use astra_camilla_dsp.Config.Diff.{same_section, parameter_changes, filter_parameters}
use astra_camilla_dsp.Config.Diff.Changed.{changed-any}
use astra_camilla_dsp.Config.Pipeline.{lookup, any_is, Sections}
use astra_camilla_dsp.Filters.Delay.{RingBuffer}
use astra_camilla_dsp.Pipeline.{Step, processor_step}
use astra_camilla_dsp.Pipeline.Process.{Pipeline}
use astra_camilla_dsp.Pipeline.Update.{Updates, update_step, update_steps, update_processor}
use astra_camilla_dsp.Processors.Dispatch.{Processor, ProcessorParameters, config_kind, kind}
use astra_camilla_dsp.Processors.Dispatch.{named_updates, update_parameters-other_kind}

module _ {S F P FC PC : Type 0} (u : Updates F P FC PC) where
  update_steps-none :
      ⦃a : Arith S⦄ (conf : Sections S FC PC) (fs ms ps : List String)
      (before after : List (Step S F P)) (step : Step S F P)
      → update_step u conf fs ms ps step ≡ none
      → update_steps u conf fs ms ps (before ++ (step ∷ after)) ≡ none
  unfolding update_steps
  update_steps-none conf fs ms ps [] after step e = rw e refl
  update_steps-none conf fs ms ps (b ∷ before) after step e =
      bind_none (update_step u conf fs ms ps b) _
        λ first. rw (update_steps-none conf fs ms ps before after step e) refl

-- The configurations differ in processors only, or in parameters of filters besides.
pub record DiffersBehindMixers {D O S FC PC : Type 0} (c : Comparisons D O S FC PC)
    (current new : Configuration D O S FC PC) (filters : List String) : Type 0 where
  pub differ : same_configuration c current new ≡ false
  pub devices : c.same_devices current.devices new.devices ≡ true
  pub pipeline : c.same_pipeline current.sections.pipeline new.sections.pipeline ≡ true
  pub mixers : same_section c.same_mixer current.sections.mixers new.sections.mixers ≡ true
  pub filters_noted :
      changed_filters_section c new.sections.filters current.sections.filters ≡ some filters

module _ {D O S F FC Q M NC : Type 0} ⦃a : Arith S⦄ ⦃rb : RingBuffer S Q⦄
    (c : Comparisons D O S FC (ProcessorParameters S NC)) (update_night : M → NC → M)
    (filter_name : F → String) (update_filter : F → FC → Option F) where
  -- Let the new configuration have the devices, the pipeline and the mixers of the current one, and
  -- filters of the same types, and let a processor of the pipeline have the type of the current
  -- configuration of its name, but not that of the new one. `config_diff` hands this over as changed
  -- parameters, and their update panics, wherever the processor stands. Assumed is that the comparison
  -- of processors tells those of different types apart.
  pub config_diff-retyped_processor :
      {R : Type 0}
      (tells : (v w : ProcessorParameters S NC)
        → c.same_processor v w ≡ true
        → config_kind v ≡ config_kind w)
      (current new : Configuration D O S FC (ProcessorParameters S NC)) (filters : List String)
      (olds news : List (String × ProcessorParameters S NC))
      (old_config new_config : ProcessorParameters S NC)
      (self : Pipeline R S F (String × Processor S Q M))
      (before after : List (Step S F (String × Processor S Q M))) (name : String)
      (p : Processor S Q M)
      → DiffersBehindMixers c current new filters
      → current.sections.processors ≡ some olds
      → new.sections.processors ≡ some news
      → lookup name olds ≡ some old_config
      → lookup name news ≡ some new_config
      → config_kind old_config ≡ kind p
      → config_kind new_config ≢ kind p
      → self.steps ≡ before ++ (processor_step (name, p) ∷ after)
      → (mixers : List String) × (processors : List String) × (config_diff c current new
          ≡ filter_parameters filters mixers processors)
        × (U.update_parameters
              (named_updates update_night filter_name update_filter)
              self
              new.sections
              filters
              mixers
              processors
            ≡ none)
  unfolding config_diff parameter_changes U.update_parameters update_step update_processor
      changed_section
  config_diff-retyped_processor tells current new filters olds news o n self before after name p d
        was is old_is new_is own other at_step =
      let u =
        named_updates {S = S} {Q = Q} {M = M} {NC = NC} update_night filter_name update_filter in
      let mixers = changed_section c.same_mixer new.sections.mixers current.sections.mixers in
      let processors =
        changed_section c.same_processor new.sections.processors current.sections.processors in
      let differs : c.same_processor n o ≡ false = elim (Bool-cases (c.same_processor n o)) [
        | inl e ↦ absurd (other (tells n o e ∙ own))
        | inr e ↦ e
      ] in
      let hit : any_is processors name ≡ true =
        rw (is, was) (changed-any c.same_processor news olds name new_is old_is differs) in
      let refused = update_parameters-other_kind update_night p n other in
      let fails : update_step u new.sections filters mixers processors (processor_step (name, p))
          ≡ none =
        rw (hit, is, new_is, refused) refl in
      let changes : parameter_changes c current.sections new.sections
          ≡ filter_parameters filters mixers processors =
        rw (parameter_changes, d.filters_noted) refl in
      (
        mixers,
        processors,
        rw (d.differ, d.devices, d.pipeline, d.mixers) changes,
        rw
            (
              at_step,
              update_steps-none u new.sections filters mixers processors before after
                  (processor_step (name, p)) fails,
            )
            refl,
      )
