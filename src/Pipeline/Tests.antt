-- ===== src/Pipeline/Tests.antt =====
-- Runs of the pipeline with gains, a mixer and a processor that does nothing, and the theorems about
-- it at that pipeline.
use astra_camilla_dsp.Common.{ℕ, ◌≡◌, refl, subst, true, false, none, some, List, [], ◌∷◌, arith}
use astra_camilla_dsp.Common.{◌==◌, if◌then◌else◌, length, ◌>>=◌, some-eq, Yields, IfSome}
use astra_camilla_dsp.Common.{accepted}
use astra_camilla_dsp.Filters.Gain as G
use astra_camilla_dsp.Mixer.Tests as M
use astra_camilla_dsp.Params.{Params}
use astra_camilla_dsp.Pipeline.Lanes.{IsLocal, local_filter-IsLocal}
use astra_camilla_dsp.Pipeline.{ThreadPool, ProcessorTrait, Step, Flow, mixer_step, filter_step}
use astra_camilla_dsp.Pipeline.{processor_step, run_steps, parallelize_filters}
use astra_camilla_dsp.Pipeline.Update.{Updates}
use astra_camilla_dsp.Pipeline.Process.{Pipeline, Continues, process_chunk}
use astra_camilla_dsp.Pipeline.Process.{process_chunk-Continues}
use astra_camilla_dsp.Filters.Tests.{casts, params, ramping}
use astra_camilla_dsp.Filters.Gain.{gain_filter, Gain, GainParameters, GainError}
use astra_camilla_dsp.Filters.Gain.{gain-KeepsLength, validate_gain_config}
use astra_camilla_dsp.Arith.Whole.{whole, ℤ, pos}
use astra_camilla_dsp.Pipeline.Build.{from_config, Constructors, step_from_config}
use astra_camilla_dsp.Pipeline.Validated.{from_config-threads, flow_after, unnamed_filter_panics}
use astra_camilla_dsp.Mixer.{validate_mixer, validate_mappings, validate_sources}
use astra_camilla_dsp.Config.Validate.{check_steps, check_step_channels, check_channels}
use astra_camilla_dsp.Config.Validate.{check_duplicates, check_names, check_filter}
use astra_camilla_dsp.Config.Validate.{check_found_filter, check_mixer, check_found_mixer}
use astra_camilla_dsp.Config.Validate.{check_processor, check_found_processor, check_pipeline}
use astra_camilla_dsp.Config.Validate.{check_step}
use astra_camilla_dsp.Config.Mixer.{linear}
use astra_camilla_dsp.Config.Pipeline.{mixer, filter, processor, Sections, FilterConfig}
use astra_camilla_dsp.Config.Pipeline.{ProcessorConfig, PipelineStepFilter}
use astra_camilla_dsp.Pipeline.Equivalence.{parallelize_filters-run_steps}
use astra_camilla_dsp.Pipeline.Safe.{Builds}
use astra_camilla_dsp.Pipeline.Widths.{KeepsChannels, Fit, IsFlow}

pub data Through : Type 0 where
  through : Through

instance abbrev pub through_processor : ProcessorTrait ℤ Through
through_processor = record { process_chunk = λ p c. some (c, p) }

pub through-KeepsChannels : KeepsChannels through_processor
through-KeepsChannels = record {
  keeps_channels =
      λ p c e. subst (λ r. length (r.0).waveforms ≡ length c.waveforms) (some-eq e) refl;
}

instance abbrev pub gain_config : FilterConfig (GainParameters ℤ) GainError
gain_config = record { validate_filter = λ _ conf. validate_gain_config conf }

-- A processor is configured by its number of channels.
instance abbrev pub through_config : ProcessorConfig ℕ GainError
through_config = record { channels = λ n. n; validate_processor = λ _ _. accepted }

abbrev pub make : Constructors (Gain ℤ) Through (GainParameters ℤ) ℕ
make = record {
  filter_from_config = λ _ conf. some (G.from_config conf);
  processor_from_config = λ _ _. some through;
}

pub make-Builds : Builds make gain_config through_config 48000
make-Builds = record {
  filter_builds = λ _ conf _. (G.from_config conf, refl, tt);
  processor_builds = λ _ _ _. (through, refl, tt);
}

-- Threads that take turns: the second channel first.
instance abbrev pub turns : ThreadPool ℤ (Gain ℤ) (Params ℤ)
turns = record { order = λ lanes shared. 1 ∷ 0 ∷ 1 ∷ [] }

pub gain-IsLocal : IsLocal {S = ℤ} {F = Gain ℤ} {W = Params ℤ} gain_filter
gain-IsLocal = local_filter-IsLocal (λ (g : Gain ℤ) w. some (G.process_waveform g w, g))

abbrev pub triple : Gain ℤ
triple = record { gain = pos 3 }

abbrev everywhere : PipelineStepFilter
everywhere = record { channels = none; names = "triple" ∷ []; bypassed = none }

abbrev pub sections : Sections ℤ (GainParameters ℤ) ℕ
sections = record {
  mixers = some (("mix", M.config) ∷ []);
  filters =
      some (
        ("triple", record { gain = pos 3; inverted = none; mute = none; scale = some linear })
        ∷ []);
  processors = some (("through", 2) ∷ []);
  pipeline = some (
      filter
        (record { channels = some (1 ∷ 0 ∷ []); names = "triple" ∷ "triple" ∷ []; bypassed = none })
      ∷ mixer (record { name = "mix"; bypassed = none })
      ∷ processor (record { name = "through"; bypassed = some false })
      ∷ filter everywhere
      ∷ []);
}

abbrev pub steps : List (Step ℤ (Gain ℤ) Through)
steps =
    filter_step (record { channel = 1; filters = triple ∷ triple ∷ [] })
    ∷ filter_step (record { channel = 0; filters = triple ∷ triple ∷ [] })
    ∷ mixer_step M.built
    ∷ processor_step through
    ∷ filter_step (record { channel = 0; filters = triple ∷ [] })
    ∷ filter_step (record { channel = 1; filters = triple ∷ [] })
    ∷ []

pub steps_accepted : check_pipeline {E = GainError} 48000 sections 3 2 ≡ accepted
unfolding check_pipeline check_steps check_step check_step_channels check_channels check_duplicates
    check_names check_filter check_found_filter validate_gain_config check_mixer check_found_mixer
    check_processor check_found_processor validate_mixer validate_mappings validate_sources
steps_accepted = refl

pub steps-Fit : Fit 3 steps
steps-Fit = (omega arith, (omega arith, (M.built-IsSafe, refl, (omega arith, (omega arith, tt)))))

abbrev flow : Flow ℤ
flow = (M.chunk, M.stash)

flow-IsFlow : IsFlow 3 flow
flow-IsFlow = (refl, M.stash-IsClean)

abbrev unfiltered : Sections ℤ (GainParameters ℤ) ℕ
unfiltered = record sections { filters = none }

abbrev nameless : PipelineStepFilter
nameless = record { channels = some (1 ∷ []); names = []; bypassed = none }

nameless_accepted : (check_step {E = GainError} 48000 unfiltered 2 (filter nameless)).0 ≡ accepted
unfolding check_step check_step_channels check_channels check_duplicates check_names
nameless_accepted = refl

unnamed_filter_panics_example :
    (nameless.names ≡ [])
    × (step_from_config {P = Through} make unfiltered 2 (filter nameless) ≡ none)
unnamed_filter_panics_example =
    unnamed_filter_panics make 48000 2 unfiltered nameless refl refl nameless_accepted

parallelize_filters-run_steps_example :
    Yields
      (λ merged. run_steps merged (flow, params) ≡ (
        run_steps steps (flow, params) >>= λ s.
        parallelize_filters s.0 3 >>= λ merged'. some (merged', s.1)))
      (parallelize_filters steps 3)
parallelize_filters-run_steps_example =
    parallelize_filters-run_steps gain-IsLocal gain-KeepsLength through-KeepsChannels steps 3 flow
      params steps-Fit flow-IsFlow

from_config-threads_example :
    Yields
      (λ single.
        Yields
          (λ multi.
            (flow_after single flow params ≡ flow_after multi flow params)
            × IfSome (IsFlow 2) (flow_after single flow params))
          (from_config make sections 3 true))
      (from_config make sections 3 false)
from_config-threads_example =
    from_config-threads make-Builds gain-IsLocal gain-KeepsLength through-KeepsChannels sections 3 2
      flow params steps_accepted ((λ _. refl), (tt, (tt, ((λ _. refl), tt)))) flow-IsFlow

abbrev pub pipeline : Pipeline ℤ ℤ (Gain ℤ) Through
pipeline = record { steps = steps; volume = ramping; secs_per_chunk = pos 4; overloaded_chunks = 0 }

process_chunk-Continues_example :
    IfSome (Continues 3 pipeline (pos 2)) (process_chunk pipeline params flow (pos 2))
process_chunk-Continues_example =
    process_chunk-Continues gain-KeepsLength through-KeepsChannels pipeline params 3 flow (pos 2)
      steps-Fit flow-IsFlow

-- The update of gains; the processor that does nothing takes a number of channels from one up.
abbrev pub updates : Updates (Gain ℤ) Through (GainParameters ℤ) ℕ
updates = record {
  filter_name = λ _. "triple";
  update_filter = λ _ conf. some (G.from_config conf);
  processor_name = λ _. "through";
  update_processor = λ p n. if n == 0 then none else some p;
}
