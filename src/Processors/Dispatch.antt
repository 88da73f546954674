-- ===== src/Processors/Dispatch.antt =====
-- processors/: `update_parameters` of the trait `Processor`, which panics ("Invalid config change!") for
-- the configuration of another processor. The night mode processor and its update are parameters.
use astra_camilla_dsp.Common.{◌≡◌, refl, ◌≢◌, Option, none, some, ◌>>=◌}
use astra_camilla_dsp.Processors.NoiseGate as G
use astra_camilla_dsp.Processors.Compressor as C
use astra_camilla_dsp.Processors.Race as R
use Prim.Native.String.{String}
use astra_camilla_dsp.Arith.{Arith}
use astra_camilla_dsp.Filters.Delay.{RingBuffer}
use astra_camilla_dsp.Pipeline.Update.{Updates}
use astra_camilla_dsp.Processors.NoiseGate.{NoiseGate, NoiseGateParameters}
use astra_camilla_dsp.Processors.Compressor.{Compressor, CompressorParameters}
use astra_camilla_dsp.Processors.Race.{Race, RaceParameters}

-- `config::Processor`, and the processors that are built from it.
pub data ProcessorParameters (S NC : Type 0) : Type 0 where
  compressor : CompressorParameters S → ProcessorParameters S NC
  noise_gate : NoiseGateParameters S → ProcessorParameters S NC
  race : RaceParameters S → ProcessorParameters S NC
  night_mode : NC → ProcessorParameters S NC

pub data Processor (S Q M : Type 0) : Type 0 where
  compressor : Compressor S → Processor S Q M
  noise_gate : NoiseGate S → Processor S Q M
  race : Race S Q → Processor S Q M
  night_mode : M → Processor S Q M

pub data ProcessorKind : Type 0 where
  compressor noise_gate race night_mode : ProcessorKind

abbrev pub config_kind : {S NC : Type 0} → ProcessorParameters S NC → ProcessorKind
config_kind (ProcessorParameters.compressor config) = ProcessorKind.compressor
config_kind (ProcessorParameters.noise_gate config) = ProcessorKind.noise_gate
config_kind (ProcessorParameters.race config) = ProcessorKind.race
config_kind (ProcessorParameters.night_mode config) = ProcessorKind.night_mode

abbrev pub kind : {S Q M : Type 0} → Processor S Q M → ProcessorKind
kind (Processor.compressor p) = ProcessorKind.compressor
kind (Processor.noise_gate p) = ProcessorKind.noise_gate
kind (Processor.race p) = ProcessorKind.race
kind (Processor.night_mode p) = ProcessorKind.night_mode

-- `if let config::Processor::... { parameters: config, .. } = config { ... } else { panic!(...) }`.
module _ {S NC : Type 0} ⦃a : Arith S⦄ where
  unfoldable pub update_compressor : Compressor S → ProcessorParameters S NC → Option (Compressor S)
  update_compressor p (ProcessorParameters.compressor config) = some (C.update_parameters p config)
  update_compressor p config = none

  unfoldable pub update_noise_gate : NoiseGate S → ProcessorParameters S NC → Option (NoiseGate S)
  update_noise_gate p (ProcessorParameters.noise_gate config) = some (G.update_parameters p config)
  update_noise_gate p config = none

  unfoldable pub update_race :
      {Q : Type 0} ⦃rb : RingBuffer S Q⦄ → Race S Q → ProcessorParameters S NC → Option (Race S Q)
  update_race p (ProcessorParameters.race config) = some (R.update_parameters p config)
  update_race p config = none

module _ {S M NC : Type 0} (update_night : M → NC → M) where
  unfoldable pub update_night_mode : M → ProcessorParameters S NC → Option M
  update_night_mode p (ProcessorParameters.night_mode config) = some (update_night p config)
  update_night_mode p config = none

module _ {S Q M NC : Type 0} ⦃a : Arith S⦄ ⦃rb : RingBuffer S Q⦄ (update_night : M → NC → M) where
  -- The call of the trait's method.
  unfoldable pub update_parameters :
      Processor S Q M → ProcessorParameters S NC → Option (Processor S Q M)
  unfolding update_compressor update_noise_gate update_race update_night_mode
  update_parameters (Processor.compressor p) config = do
    updated ← update_compressor p config
    some (Processor.compressor updated)
  update_parameters (Processor.noise_gate p) config = do
    updated ← update_noise_gate p config
    some (Processor.noise_gate updated)
  update_parameters (Processor.race p) config = do
    updated ← update_race p config
    some (Processor.race updated)
  update_parameters (Processor.night_mode p) config = do
    updated ← update_night_mode update_night p config
    some (Processor.night_mode updated)

  -- A processor with its name, among any filters.
  abbrev pub named_updates :
      {F FC : Type 0}
      → (F → String)
      → (F → FC → Option F)
      → Updates F (String × Processor S Q M) FC (ProcessorParameters S NC)
  named_updates filter_name update_filter = record {
    filter_name = filter_name;
    update_filter = update_filter;
    processor_name = λ p. p.0;
    update_processor = λ p config. do
      updated ← update_parameters p.1 config
      some (p.0, updated);
  }

  pub update_parameters-other_kind :
      (p : Processor S Q M) (config : ProcessorParameters S NC)
      → config_kind config ≢ kind p
      → update_parameters p config ≡ none
  unfolding update_parameters update_compressor update_noise_gate update_race update_night_mode
  update_parameters-other_kind (Processor.compressor p) (ProcessorParameters.compressor config) h =
      absurd (h refl)
  update_parameters-other_kind (Processor.compressor p) (ProcessorParameters.noise_gate config) h =
      refl
  update_parameters-other_kind (Processor.compressor p) (ProcessorParameters.race config) h = refl
  update_parameters-other_kind (Processor.compressor p) (ProcessorParameters.night_mode config) h =
      refl
  update_parameters-other_kind (Processor.noise_gate p) (ProcessorParameters.compressor config) h =
      refl
  update_parameters-other_kind (Processor.noise_gate p) (ProcessorParameters.noise_gate config) h =
      absurd (h refl)
  update_parameters-other_kind (Processor.noise_gate p) (ProcessorParameters.race config) h = refl
  update_parameters-other_kind (Processor.noise_gate p) (ProcessorParameters.night_mode config) h =
      refl
  update_parameters-other_kind (Processor.race p) (ProcessorParameters.compressor config) h = refl
  update_parameters-other_kind (Processor.race p) (ProcessorParameters.noise_gate config) h = refl
  update_parameters-other_kind (Processor.race p) (ProcessorParameters.race config) h =
      absurd (h refl)
  update_parameters-other_kind (Processor.race p) (ProcessorParameters.night_mode config) h = refl
  update_parameters-other_kind (Processor.night_mode p) (ProcessorParameters.compressor config) h =
      refl
  update_parameters-other_kind (Processor.night_mode p) (ProcessorParameters.noise_gate config) h =
      refl
  update_parameters-other_kind (Processor.night_mode p) (ProcessorParameters.race config) h = refl
  update_parameters-other_kind (Processor.night_mode p) (ProcessorParameters.night_mode config) h =
      absurd (h refl)
