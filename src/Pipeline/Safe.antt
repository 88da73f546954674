-- ===== src/Pipeline/Safe.antt =====
-- pipeline.rs and config/utils.rs: a validated configuration builds a pipeline that fits.
use astra_camilla_dsp.Common.{ℕ, ◌<◌, ◌≡◌, refl, ◌∙◌, inl, inr, false, Option, none, some, List}
use astra_camilla_dsp.Common.{[], ◌∷◌, ◌==◌, ==_iff, Bool-cases, is_empty, All, ◌>>=◌}
use astra_camilla_dsp.Common.{then_check-accepted, Yields, accepted}
use astra_camilla_dsp.Config.Mixer as Config
use astra_camilla_dsp.Mixer as Mix
use astra_camilla_dsp.Config.Validate.{check_found_mixer, check_found_filter}
use astra_camilla_dsp.Config.Validate.{check_found_processor, invalid_filter, invalid_mixer}
use astra_camilla_dsp.Config.Validate.{invalid_processor, check_step_channels, check_filter}
use astra_camilla_dsp.Config.Validate.{check_names, check_mixer, check_processor, check_step}
use Prim.Native.String.{String}
use astra_camilla_dsp.Arith.{Arith}
use astra_camilla_dsp.Config.Pipeline.{PipelineStep, mixer, filter, processor, is_bypassed}
use astra_camilla_dsp.Config.Pipeline.{lookup, Sections, FilterConfig, ProcessorConfig}
use astra_camilla_dsp.Mixer.Build.{from_config-IsSafe}
use astra_camilla_dsp.Pipeline.{Step, mixer_step, processor_step}
use astra_camilla_dsp.Pipeline.Build.{Constructors, filters_from_config, group_from_config}
use astra_camilla_dsp.Pipeline.Build.{step_channels, groups_from_config, step_from_config}
use astra_camilla_dsp.Pipeline.Widths.{Fit, width}
use astra_camilla_dsp.Pipeline.Ranges.{map_err-accepted, step_channels-lt, Named}

-- What the pipeline relies on: a filter or processor whose configuration was accepted is built.
pub record Builds {F P FC PC E : Type 0} (make : Constructors F P FC PC) (fc : FilterConfig FC E)
    (pc : ProcessorConfig PC E) (fs : ℕ) : Type 0 where
  pub filter_builds :
      (name : String) (conf : FC)
      → fc.validate_filter fs conf ≡ accepted
      → Yields (λ _. Unit {0}) (make.filter_from_config name conf)
  pub processor_builds :
      (name : String) (conf : PC)
      → pc.validate_processor fs conf ≡ accepted
      → Yields (λ _. Unit {0}) (make.processor_from_config name conf)

module _ {FC E : Type 0} ⦃fc : FilterConfig FC E⦄ where
  check_filter-accepted :
      (fs : ℕ) (configs : List (String × FC)) (name : String)
      → check_filter {E = E} fs (some configs) name ≡ accepted
      → Yields (λ conf. fc.validate_filter fs conf ≡ accepted) (lookup name configs)
  unfolding check_filter
  check_filter-accepted fs configs name = go (lookup name configs)
    where
      go :
          (found : Option FC)
          → check_found_filter {E = E} fs name found ≡ accepted
          → Yields (λ conf. fc.validate_filter fs conf ≡ accepted) found
      go none h = cc
      go (some conf) h =
          (conf, refl, map_err-accepted (invalid_filter name) (fc.validate_filter fs conf) h)

module _ {F P FC PC E : Type 0} ⦃fc : FilterConfig FC E⦄ ⦃pc : ProcessorConfig PC E⦄
    {make : Constructors F P FC PC} {fs : ℕ} (b : Builds make fc pc fs) where
  filters-build :
      (names : List String) (configs : List (String × FC))
      → check_names {E = E} fs (some configs) names ≡ accepted
      → Yields (λ _. Unit {0}) (filters_from_config make names configs)
  unfolding check_names filters_from_config
  filters-build [] configs h = ([], refl, tt)
  filters-build (name ∷ names) configs h =
      let (here, later) =
        then_check-accepted (check_filter fs (some configs) name)
          (check_names fs (some configs) names) h in
      let (conf, found, valid) = check_filter-accepted fs configs name here in
      let (f, e, u) = b.filter_builds name conf valid in
      let (rest, e', u') = filters-build names configs later in rw (found, e, e') (_, refl, tt)

module _ {S F P FC PC E : Type 0} ⦃a : Arith S⦄ ⦃fc : FilterConfig FC E⦄ ⦃pc : ProcessorConfig PC E⦄
    {make : Constructors F P FC PC} {fs : ℕ} (b : Builds make fc pc fs) where
  group_builds :
      (n : ℕ) (channels : List ℕ) (names : List String) (configs : List (String × FC))
      → All (λ c. c < n) channels
      → check_names {E = E} fs (some configs) names ≡ accepted
      → Yields
          (λ (steps : List (Step S F P)). Fit n steps × (width n steps ≡ n))
          (groups_from_config make channels names (some configs))
  unfolding groups_from_config group_from_config
  group_builds n [] names configs h v = ([], refl, (tt, refl))
  group_builds n (c ∷ channels) names configs h v =
      let (filters, e, u) = filters-build b names configs v in
      let (rest, e', (fit, w)) = group_builds n channels names configs h.1 v in
      rw (e, e') (_, refl, ((h.0, fit), w))

  filter_groups_build :
      (n : ℕ) (channels : List ℕ) (names : List String) (filters : Option (List (String × FC)))
      → All (λ c. c < n) channels
      → is_empty names ≡ false
      → check_names {E = E} fs filters names ≡ accepted
      → Yields
          (λ (steps : List (Step S F P)). Fit n steps × (width n steps ≡ n))
          (groups_from_config make channels names filters)
  unfolding check_names check_filter
  filter_groups_build n channels names (some configs) h ne v =
      group_builds n channels names configs h v
  filter_groups_build n channels [] none h ne v = cc
  filter_groups_build n channels (name ∷ names) none h ne v = cc

  abbrev pub Built : ℕ → ℕ → List (Step S F P) × ℕ → Type 0
  Built n m r = Fit n r.0 × (width n r.0 ≡ m) × (r.1 ≡ m)

  found_mixer_builds :
      (n : ℕ) (name : String) (found : Option (Config.Mixer S))
      → (check_found_mixer {E = E} n name found).0 ≡ accepted
      → Yields (Built n (check_found_mixer {E = E} n name found).1) (
          found >>= λ conf.
          Mix.from_config name conf >>= λ m. some (mixer_step m ∷ [], conf.channels.out))
  unfolding check_found_mixer
  found_mixer_builds n name none h = cc
  found_mixer_builds n name (some conf) h = elim (Bool-cases (conf.channels.inputs == n)) [
    | inl same ↦
        let valid =
          map_err-accepted (invalid_mixer name) (Mix.validate_mixer conf) (rw same at h) in
        let (m, e, (safe, i, o)) = from_config-IsSafe name conf valid in
        rw (same, e) (_, refl, ((safe, i ∙ (==_iff conf.channels.inputs n).0 same, tt), o, refl))
    | inr differ ↦ cc (rw differ at h)
  ]

  mixer_builds :
      (n : ℕ) (name : String) (mixers : Option (List (String × Config.Mixer S)))
      → (check_mixer {E = E} n mixers name).0 ≡ accepted
      → Yields (Built n (check_mixer {E = E} n mixers name).1) (
          mixers >>= λ ms. lookup name ms >>= λ conf.
          Mix.from_config name conf >>= λ m. some (mixer_step m ∷ [], conf.channels.out))
  unfolding check_mixer
  mixer_builds n name none h = cc
  mixer_builds n name (some ms) h = found_mixer_builds n name (lookup name ms) h

  found_processor_builds :
      (n : ℕ) (name : String) (found : Option PC)
      → check_found_processor {E = E} fs n name found ≡ accepted
      → Yields (Built n n) (
          found >>= λ conf.
          make.processor_from_config name conf >>= λ p. some (processor_step p ∷ [], n))
  unfolding check_found_processor
  found_processor_builds n name none h = cc
  found_processor_builds n name (some conf) h = elim (Bool-cases (pc.channels conf == n)) [
    | inl same ↦
        let valid =
          map_err-accepted (invalid_processor name) (pc.validate_processor fs conf)
            (rw same at h) in
        let (p, e, u) = b.processor_builds name conf valid in rw e (_, refl, (tt, refl, refl))
    | inr differ ↦ cc (rw differ at h)
  ]

  processor_builds' :
      (n : ℕ) (name : String) (processors : Option (List (String × PC)))
      → check_processor {E = E} fs n processors name ≡ accepted
      → Yields (Built n n) (
          processors >>= λ ps. lookup name ps >>= λ conf.
          make.processor_from_config name conf >>= λ p. some (processor_step p ∷ [], n))
  unfolding check_processor
  processor_builds' n name none h = cc
  processor_builds' n name (some ps) h = found_processor_builds n name (lookup name ps) h

  -- An accepted step is built, and is as wide behind as the check says.
  pub step_builds :
      (conf : Sections S FC PC) (n : ℕ) (step : PipelineStep)
      → Named step
      → (check_step {E = E} fs conf n step).0 ≡ accepted
      → Yields (Built n (check_step {E = E} fs conf n step).1) (step_from_config make conf n step)
  unfolding check_step step_from_config
  step_builds conf n (mixer s) named v = elim (Bool-cases (is_bypassed s.bypassed)) [
    | inl off ↦ rw off (_, refl, (tt, refl, refl))
    | inr on ↦ rw on (mixer_builds n s.name conf.mixers (rw on at v))
  ]
  step_builds conf n (filter s) named v = elim (Bool-cases (is_bypassed s.bypassed)) [
    | inl off ↦ rw off (_, refl, (tt, refl, refl))
    | inr on ↦
        let (ok, ok') =
          then_check-accepted (check_step_channels n s.channels)
            (check_names fs conf.filters s.names) (rw on at v) in
        let (gs, e, (fit, w)) =
          filter_groups_build n (step_channels s.channels n) s.names conf.filters
            (step_channels-lt {E = E} n s.channels ok) (named on) ok' in
        rw (on, e) (_, refl, (fit, w, refl))
  ]
  step_builds conf n (processor s) named v = elim (Bool-cases (is_bypassed s.bypassed)) [
    | inl off ↦ rw off (_, refl, (tt, refl, refl))
    | inr on ↦ rw on (processor_builds' n s.name conf.processors (rw on at v))
  ]
