-- ===== src/Pipeline/Update/Total.antt =====
-- pipeline.rs and config/utils.rs: the change that `config_diff` finds, applied to the pipeline that
-- was built from the current configuration.
use astra_camilla_dsp.Common.{◌≡◌, refl, sym, ◌∙◌, inl, inr, Bool, true, Option, none, some, List}
use astra_camilla_dsp.Common.{[], ◌∷◌, Bool-cases, All}
use astra_camilla_dsp.Config.Mixer.{Mixer}
use Prim.Native.String.{String}
use astra_camilla_dsp.Arith.{Arith}
use astra_camilla_dsp.Config.Pipeline.{lookup, any_is, Sections}
use astra_camilla_dsp.Config.Diff.{Comparisons, Configuration, FilterKind, same_kind, config_diff}
use astra_camilla_dsp.Config.Diff.{changed_filters, changed_section, filter_parameters}
use astra_camilla_dsp.Config.Diff.{changed_filters_section}
use astra_camilla_dsp.Config.Diff.Changed.{changed-known, changed_filters-same_kind}
use astra_camilla_dsp.Config.Diff.Changed.{changed_filters-known, config_diff-IsParameters}
use astra_camilla_dsp.Config.Diff.Unchanged.{UniqueSection, changed_section-nil}
use astra_camilla_dsp.Pipeline.{Step, mixer_step, filter_step, parallel_step, processor_step}
use astra_camilla_dsp.Pipeline.Process.{Pipeline}
use astra_camilla_dsp.Pipeline.Update.{Updates, update_filter, update_filters, update_parallel}
use astra_camilla_dsp.Pipeline.Update.{update_processor, update_step, update_steps}
use astra_camilla_dsp.Pipeline.Update.{update_parameters}

-- A step that does not panic.
abbrev pub Succeeds {ℓ} : {A : Type ℓ} → Option A → Type ℓ
Succeeds {A} o = (a : A) × (o ≡ some a)

-- A filter takes a configuration of its own type.
pub record TakesOwnKind {D O S FC PC F P : Type 0} (c : Comparisons D O S FC PC)
    (u : Updates F P FC PC) (kind_of : F → FilterKind) : Type 0 where
  pub takes :
      (f : F) (cfg : FC)
      → same_kind (c.filter_kind cfg) (kind_of f) ≡ true
      → Succeeds (u.update_filter f cfg)

module _ {D O S FC PC F P : Type 0} (c : Comparisons D O S FC PC) (u : Updates F P FC PC)
    (kind_of : F → FilterKind) where
  -- A filter has the type of the configuration that its name finds.
  abbrev pub BuiltFrom : List (String × FC) → F → Type 0
  BuiltFrom configs f =
      (cfg : FC) × (lookup (u.filter_name f) configs ≡ some cfg) × (c.filter_kind cfg ≡ kind_of f)

  module _ (t : TakesOwnKind c u kind_of) (old new : List (String × FC)) {names : List String}
      (noted : changed_filters c new old ≡ some names) where
    update_filter-total : (f : F) → BuiltFrom old f → Succeeds (update_filter u new names f)
    unfolding update_filter
    update_filter-total f (o, found, kind) = elim (Bool-cases (any_is names (u.filter_name f))) [
      | inl hit ↦
          let (n, known) = changed_filters-known c new old (u.filter_name f) noted hit in
          let own = changed_filters-same_kind c new old (u.filter_name f) noted known found in
          rw (hit, known) (t.takes f n (rw⁻¹ kind own))
      | inr miss ↦ rw miss (f, refl)
    ]

    update_filters-total :
        (fs : List F) → All (BuiltFrom old) fs → Succeeds (update_filters u new names fs)
    unfolding update_filters
    update_filters-total [] b = ([], refl)
    update_filters-total (f ∷ fs) b =
        let (f', e) = update_filter-total f b.0 in
        let (fs', e') = update_filters-total fs b.1 in rw (e, e') (_, refl)

    update_parallel-total :
        (ps : List (List F))
        → All (All (BuiltFrom old)) ps
        → Succeeds (update_parallel u new names ps)
    unfolding update_parallel
    update_parallel-total [] b = ([], refl)
    update_parallel-total (fs ∷ ps) b =
        let (fs', e) = update_filters-total fs b.0 in
        let (ps', e') = update_parallel-total ps b.1 in rw (e, e') (_, refl)

  -- A processor takes the configuration that it finds.
  abbrev pub TakesFound : Option (List (String × PC)) → P → Type 0
  TakesFound section p =
      (configs : List (String × PC)) (cfg : PC)
      → section ≡ some configs
      → lookup (u.processor_name p) configs ≡ some cfg
      → Succeeds (u.update_processor p cfg)

  changed_section-known :
      (same : PC → PC → Bool) (new old : Option (List (String × PC))) (name : String)
      → any_is (changed_section same new old) name ≡ true
      → (configs : List (String × PC)) × (new ≡ some configs)
        × ((cfg : PC) × (lookup name configs ≡ some cfg))
  unfolding changed_section
  changed_section-known same (some n) (some o) name h = (n, refl, changed-known same n o name h)
  changed_section-known same (some n) none name h = cc
  changed_section-known same none old name h = cc

  update_processor-total :
      (new old : Option (List (String × PC))) (p : P)
      → TakesFound new p
      → Succeeds (update_processor u new (changed_section c.same_processor new old) p)
  unfolding update_processor
  update_processor-total new old p t =
      elim (Bool-cases (any_is (changed_section c.same_processor new old) (u.processor_name p))) [
        | inl hit ↦
            let (configs, is, (cfg, found)) =
              changed_section-known c.same_processor new old (u.processor_name p) hit in
            let (p', e) = t configs cfg is found in rw (hit, is, found) (p', e)
        | inr miss ↦ rw miss (p, refl)
      ]

  -- The filters have the types of the current configuration, and the processors take the new one.
  abbrev pub IsCurrent : Sections S FC PC → List (String × FC) → Step S F P → Type 0
  IsCurrent new filters (mixer_step mix) = Unit
  IsCurrent new filters (filter_step flt) = All (BuiltFrom filters) flt.filters
  IsCurrent new filters (parallel_step ps) = All (All (BuiltFrom filters)) ps
  IsCurrent new filters (processor_step p) = TakesFound new.processors p

  module _ ⦃a : Arith S⦄ (t : TakesOwnKind c u kind_of) (conf : Sections S FC PC)
      (old new : List (String × FC)) {names : List String}
      (processors : Option (List (String × PC))) (there : conf.filters ≡ some new)
      (noted : changed_filters c new old ≡ some names) where
    update_step-total :
        (step : Step S F P)
        → IsCurrent conf old step
        → Succeeds (
            update_step u conf names []
              (changed_section c.same_processor conf.processors processors)
              step)
    unfolding update_step
    update_step-total (mixer_step mix) b = (_, refl)
    update_step-total (filter_step flt) b =
        let (r, e) = update_filters-total t old new noted flt.filters b in rw (there, e) (_, refl)
    update_step-total (parallel_step ps) b =
        let (r, e) = update_parallel-total t old new noted ps b in rw (there, e) (_, refl)
    update_step-total (processor_step p) b =
        let (r, e) = update_processor-total conf.processors processors p b in rw e (_, refl)

    update_steps-total :
        (steps : List (Step S F P))
        → All (IsCurrent conf old) steps
        → Succeeds (
            update_steps u conf names []
              (changed_section c.same_processor conf.processors processors)
              steps)
    unfolding update_steps
    update_steps-total [] b = ([], refl)
    update_steps-total (step ∷ steps) b =
        let (r, e) = update_step-total step b.0 in
        let (rs, e') = update_steps-total steps b.1 in rw (e, e') (_, refl)

  -- Let the current and the new configuration have a section of filters. A change that `config_diff`
  -- hands over as changed parameters is applied to the pipeline without a panic, where the pipeline's
  -- filters have the types of the current configuration, a filter takes a
  -- configuration of its own type, and the pipeline's processors take the new configuration of their
  -- names. The comparison of mixers is assumed to be symmetric, and a name to have one entry among the
  -- new mixers.
  pub config_diff-update_parameters :
      {R : Type 0} ⦃a : Arith S⦄ (t : TakesOwnKind c u kind_of)
      (symmetric : (v w : Mixer S) → c.same_mixer v w ≡ true → c.same_mixer w v ≡ true)
      (current new : Configuration D O S FC PC) (old_filters new_filters : List (String × FC))
      (self : Pipeline R S F P) {filters mixers processors : List String}
      → config_diff c current new ≡ filter_parameters filters mixers processors
      → UniqueSection new.sections.mixers
      → current.sections.filters ≡ some old_filters
      → new.sections.filters ≡ some new_filters
      → All (IsCurrent new.sections old_filters) self.steps
      → Succeeds (update_parameters u self new.sections filters mixers processors)
  unfolding update_parameters changed_filters_section
  config_diff-update_parameters t symmetric current new olds news self e unique was is ready =
      let i = config_diff-IsParameters c current new e in
      let noted = i.noted_filters in
      let noted' = rw (is, was) at noted in
      let none_changed =
        changed_section-nil c.same_mixer symmetric current.sections.mixers new.sections.mixers
          i.same_mixers unique in
      let mixers_nil = sym i.noted_mixers ∙ none_changed in
      let (steps, done) =
        update_steps-total t new.sections olds news current.sections.processors is noted' self.steps
          ready in
      rw (mixers_nil, ← i.noted_processors, done) (_, refl)
