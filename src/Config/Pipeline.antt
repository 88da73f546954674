-- ===== src/Config/Pipeline.antt =====
-- config/mod.rs: the steps of a pipeline and the named mixers, filters and processors. A `HashMap`
-- is a list of names and values of which the first of a name counts; what only documents a
-- configuration (titles, descriptions, labels) is left out.
use astra_camilla_dsp.Common.{ℕ, Bool, true, false, Option, none, some, List, [], ◌∷◌}
use astra_camilla_dsp.Common.{if◌then◌else◌, Check}
use Prim.Native.String.{String}
use text.Mathlib.Text.{◌==◌ as str_eq}
use astra_camilla_dsp.Config.Mixer.{Mixer, unwrap_or}

pub record PipelineStepMixer : Type 0 where
  pub name : String
  pub bypassed : Option Bool

pub record PipelineStepFilter : Type 0 where
  pub channels : Option (List ℕ)
  pub names : List String
  pub bypassed : Option Bool

pub record PipelineStepProcessor : Type 0 where
  pub name : String
  pub bypassed : Option Bool

pub data PipelineStep : Type 0 where
  mixer : PipelineStepMixer → PipelineStep
  filter : PipelineStepFilter → PipelineStep
  processor : PipelineStepProcessor → PipelineStep

abbrev pub is_bypassed : Option Bool → Bool
is_bypassed b = unwrap_or b false

module _ {ℓ} {V : Type ℓ} where
  abbrev pub lookup : String → List (String × V) → Option V
  lookup k [] = none
  lookup k ((j, v) ∷ m) = if str_eq j k then some v else lookup k m

-- `names.iter().any(|n| n == name)`
abbrev pub any_is : List String → String → Bool
any_is [] name = false
any_is (n ∷ names) name = if str_eq n name then true else any_is names name

-- `FC` and `PC` are the configurations of filters and of processors.
pub record Sections (S FC PC : Type 0) : Type 0 where
  pub mixers : Option (List (String × Mixer S))
  pub filters : Option (List (String × FC))
  pub processors : Option (List (String × PC))
  pub pipeline : Option (List PipelineStep)

-- The traits of the configurations: what validation asks of a filter or processor.
pub record FilterConfig (FC E : Type 0) : Type 0 where
  pub validate_filter : ℕ → FC → Check E

pub record ProcessorConfig (PC E : Type 0) : Type 0 where
  pub channels : PC → ℕ
  pub validate_processor : ℕ → PC → Check E
