-- ===== src/Processors/RetypedTests.antt =====
-- A noise gate that is configured as a compressor under the same name.
use astra_camilla_dsp.Common.{ℕ, ◌≡◌, refl, Bool, true, false, none, some, List, [], ◌∷◌, ◌==◌}
use astra_camilla_dsp.Pipeline.Update as U
use astra_camilla_dsp.Processors.NoiseGate as G
use Prim.Native.String.{String}
use astra_camilla_dsp.Arith.Whole.{ℤ, pos, whole}
use astra_camilla_dsp.Config.Diff.{Comparisons, Configuration, FilterKind, config_diff}
use astra_camilla_dsp.Config.Diff.{filter_parameters, same_configuration, same_section, same_map}
use astra_camilla_dsp.Config.Diff.{changed_filters_section}
use astra_camilla_dsp.Config.Pipeline.{processor}
use astra_camilla_dsp.Filters.QueueTests.{Queue, queue}
use astra_camilla_dsp.Filters.Tests.{casts, ramping}
use astra_camilla_dsp.Pipeline.{processor_step}
use astra_camilla_dsp.Pipeline.Process.{Pipeline}
use astra_camilla_dsp.Processors.Dispatch.{Processor, ProcessorParameters, config_kind}
use astra_camilla_dsp.Processors.Dispatch.{named_updates}
use astra_camilla_dsp.Processors.Retyped.{DiffersBehindMixers, config_diff-retyped_processor}
use astra_camilla_dsp.Processors.Tests.{gate_config, compressor_config}

abbrev Parameters : Type 0
Parameters = ProcessorParameters ℤ ℕ

-- Compares the numbers of channels, where the types agree.
abbrev same_parameters : Parameters → Parameters → Bool
same_parameters (ProcessorParameters.compressor v) (ProcessorParameters.compressor w) =
    v.channels == w.channels
same_parameters (ProcessorParameters.noise_gate v) (ProcessorParameters.noise_gate w) =
    v.channels == w.channels
same_parameters v w = false

same_parameters-kind :
    (v w : Parameters) → same_parameters v w ≡ true → config_kind v ≡ config_kind w
same_parameters-kind (ProcessorParameters.compressor v) (ProcessorParameters.compressor w) e = refl
same_parameters-kind (ProcessorParameters.compressor v) (ProcessorParameters.noise_gate w) e = cc
same_parameters-kind (ProcessorParameters.compressor v) (ProcessorParameters.race w) e = cc
same_parameters-kind (ProcessorParameters.compressor v) (ProcessorParameters.night_mode w) e = cc
same_parameters-kind (ProcessorParameters.noise_gate v) (ProcessorParameters.compressor w) e = cc
same_parameters-kind (ProcessorParameters.noise_gate v) (ProcessorParameters.noise_gate w) e = refl
same_parameters-kind (ProcessorParameters.noise_gate v) (ProcessorParameters.race w) e = cc
same_parameters-kind (ProcessorParameters.noise_gate v) (ProcessorParameters.night_mode w) e = cc
same_parameters-kind (ProcessorParameters.race v) w e = cc
same_parameters-kind (ProcessorParameters.night_mode v) w e = cc

abbrev comparisons : Comparisons ℕ ℕ ℤ ℕ Parameters
comparisons = record {
  same_described = λ j k. j == k;
  same_devices = λ j k. j == k;
  same_pipeline = λ _ _. true;
  same_mixer = λ v w. true;
  same_filter = λ j k. j == k;
  same_processor = same_parameters;
  filter_kind = λ _. FilterKind.gain;
}

abbrev with_processor : Parameters → Configuration ℕ ℕ ℤ ℕ Parameters
with_processor config = record {
  described = 0;
  devices = 0;
  sections = record {
    mixers = none;
    filters = none;
    processors = some (("dynamics", config) ∷ []);
    pipeline = some (processor (record { name = "dynamics"; bypassed = none }) ∷ []);
  };
}

abbrev gated : Configuration ℕ ℕ ℤ ℕ Parameters
gated = with_processor (ProcessorParameters.noise_gate gate_config)

abbrev compressed : Configuration ℕ ℕ ℤ ℕ Parameters
compressed = with_processor (ProcessorParameters.compressor compressor_config)

gated-compressed : DiffersBehindMixers comparisons gated compressed []
unfolding same_configuration same_section same_map changed_filters_section
gated-compressed = record {
  differ = refl;
  devices = refl;
  pipeline = refl;
  mixers = refl;
  filters_noted = refl;
}

abbrev gate : Processor ℤ Queue ℕ
gate = Processor.noise_gate (G.from_config gate_config 2 2)

abbrev pipeline : Pipeline ℤ ℤ ℕ (String × Processor ℤ Queue ℕ)
pipeline = record {
  steps = processor_step ("dynamics", gate) ∷ [];
  volume = ramping;
  secs_per_chunk = pos 4;
  overloaded_chunks = 0;
}

abbrev night : ℕ → ℕ → ℕ
night m config = config

config_diff-retyped_processor_example :
    (mixers : List String) × (processors : List String) × (config_diff comparisons gated compressed
      ≡ filter_parameters [] mixers processors)
    × (U.update_parameters
          (named_updates {S = ℤ} {Q = Queue} night (λ (f : ℕ). "") (λ f (config : ℕ). some f))
          pipeline
          compressed.sections
          []
          mixers
          processors
        ≡ none)
config_diff-retyped_processor_example =
    config_diff-retyped_processor comparisons night (λ (f : ℕ). "") (λ f config. some f)
      same_parameters-kind gated compressed []
      (("dynamics", ProcessorParameters.noise_gate gate_config) ∷ [])
      (("dynamics", ProcessorParameters.compressor compressor_config) ∷ [])
      (ProcessorParameters.noise_gate gate_config)
      (ProcessorParameters.compressor compressor_config) pipeline [] [] "dynamics" gate
      gated-compressed refl refl refl refl refl (λ e. cc) refl
