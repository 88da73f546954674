-- ===== src/Config/Diff.antt =====
-- config/utils.rs: `config_diff`, what a new configuration changes of the current one.
pub mod Changed
pub mod Unchanged
use astra_camilla_dsp.Common.{Bool, true, false, ◌&&◌, not, Option, none, some, List, [], ◌∷◌}
use astra_camilla_dsp.Common.{◌==◌, if◌then◌else◌, length, ◌>>=◌}
use Prim.Native.String.{String}
use astra_camilla_dsp.Config.Mixer.{Mixer}
use astra_camilla_dsp.Config.Pipeline.{PipelineStep, lookup, Sections}

-- `Configuration`: `D` are the devices, `O` the title and the description.
pub record Configuration (D O S FC PC : Type 0) : Type 0 where
  pub described : O
  pub devices : D
  pub sections : Sections S FC PC

-- The types of filters, the variants of `Filter`.
pub data FilterKind : Type 0 where
  biquad biquad_combo conv delay gain dither diff_eq volume loudness limiter : FilterKind

-- The derived comparisons of the parts, and the variant of a filter.
pub record Comparisons (D O S FC PC : Type 0) : Type 0 where
  pub same_described : O → O → Bool
  pub same_devices : D → D → Bool
  pub same_pipeline : Option (List PipelineStep) → Option (List PipelineStep) → Bool
  pub same_mixer : Mixer S → Mixer S → Bool
  pub same_filter : FC → FC → Bool
  pub same_processor : PC → PC → Bool
  pub filter_kind : FC → FilterKind

pub data ConfigChange : Type 0 where
  filter_parameters : List String → List String → List String → ConfigChange
  mixer_parameters pipeline devices unchanged : ConfigChange

-- The pairs of variants that the match names.
unfoldable pub same_kind : FilterKind → FilterKind → Bool
same_kind biquad biquad = true
same_kind biquad_combo biquad_combo = true
same_kind conv conv = true
same_kind delay delay = true
same_kind gain gain = true
same_kind dither dither = true
same_kind diff_eq diff_eq = true
same_kind volume volume = true
same_kind loudness loudness = true
same_kind limiter limiter = true
same_kind j k = false

module _ {V : Type 0} where
  -- Whether every entry is in another map.
  abbrev all_in : (V → V → Bool) → List (String × V) → List (String × V) → Bool
  all_in same [] n = true
  all_in same ((k, v) ∷ m) n = elim (lookup k n) [
    | none ↦ false
    | some w ↦ same v w && all_in same m n
  ]

  -- `==` of maps, which have one entry for each name, and of sections that may be absent.
  unfoldable pub same_map : (V → V → Bool) → List (String × V) → List (String × V) → Bool
  same_map same m n = (length m == length n) && all_in same m n

  unfoldable pub same_section :
      (V → V → Bool) → Option (List (String × V)) → Option (List (String × V)) → Bool
  unfolding same_map
  same_section same none none = true
  same_section same none (some n) = false
  same_section same (some m) none = false
  same_section same (some m) (some n) = same_map same m n

  -- The loops over new mixers and processors: an added one is passed over.
  abbrev pub note_changed : (V → V → Bool) → String → V → Option V → List String → List String
  note_changed same name params none names = names
  note_changed same name params (some current) names =
      if same params current then names else name ∷ names

  unfoldable pub changed : (V → V → Bool) → List (String × V) → List (String × V) → List String
  changed same [] old = []
  changed same ((name, params) ∷ new) old =
      note_changed same name params (lookup name old) (changed same new old)

  unfoldable pub changed_section :
      (V → V → Bool) → Option (List (String × V)) → Option (List (String × V)) → List String
  changed_section same (some new) (some old) = changed same new old
  changed_section same (some new) none = []
  changed_section same none old = []

module _ {D O S FC PC : Type 0} (c : Comparisons D O S FC PC) where
  -- One round of the loop over the new filters, ahead of what the later rounds note; `none` is the
  -- early return for a filter of another type.
  unfoldable pub note_filter : String → FC → Option FC → List String → Option (List String)
  note_filter name params none names = some names
  note_filter name params (some current) names =
      if same_kind (c.filter_kind params) (c.filter_kind current)
      then some (note_changed c.same_filter name params (some current) names)
      else none

  unfoldable pub changed_filters : List (String × FC) → List (String × FC) → Option (List String)
  changed_filters [] old = some []
  changed_filters ((name, params) ∷ new) old =
      changed_filters new old >>= note_filter name params (lookup name old)

  unfoldable pub changed_filters_section :
      Option (List (String × FC)) → Option (List (String × FC)) → Option (List String)
  changed_filters_section (some new) (some old) = changed_filters new old
  changed_filters_section (some new) none = some []
  changed_filters_section none old = some []

  -- The lists of changed names, with filters whose types did not change.
  unfoldable pub parameter_changes : Sections S FC PC → Sections S FC PC → ConfigChange
  parameter_changes current new = elim (changed_filters_section new.filters current.filters) [
    | none ↦ pipeline
    | some filters ↦
        filter_parameters filters (changed_section c.same_mixer new.mixers current.mixers)
          (changed_section c.same_processor new.processors current.processors)
  ]

  -- The derived `==` of configurations.
  unfoldable pub same_configuration : Configuration D O S FC PC → Configuration D O S FC PC → Bool
  same_configuration current new =
      c.same_described current.described new.described
      && c.same_devices current.devices new.devices
      && same_section c.same_mixer current.sections.mixers new.sections.mixers
      && same_section c.same_filter current.sections.filters new.sections.filters
      && same_section c.same_processor current.sections.processors new.sections.processors
      && c.same_pipeline current.sections.pipeline new.sections.pipeline

  unfoldable pub config_diff : Configuration D O S FC PC → Configuration D O S FC PC → ConfigChange
  config_diff current new =
      if same_configuration current new
      then unchanged
      else if not (c.same_devices current.devices new.devices)
      then devices
      else if not (c.same_pipeline current.sections.pipeline new.sections.pipeline)
      then pipeline
      else if not (same_section c.same_mixer current.sections.mixers new.sections.mixers)
      then mixer_parameters
      else parameter_changes current.sections new.sections
