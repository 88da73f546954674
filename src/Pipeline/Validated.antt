-- ===== src/Pipeline/Validated.antt =====
-- pipeline.rs and config/utils.rs: what validation promises of the pipeline that is built.
use astra_camilla_dsp.Common.{ℕ, ◌≡◌, refl, sym, ap, ◌∙◌, subst, true, false, Option, none, some}
use astra_camilla_dsp.Common.{List, [], ◌∷◌, arith, ◌==◌, if◌then◌else◌, is_empty, All, ◌>>=◌}
use astra_camilla_dsp.Common.{>>=-eq-some, bind_assoc, some-eq, bind_ext, then_check-accepted}
use astra_camilla_dsp.Common.{Yields, IfSome, IfSome-intro, accepted, rejected}
use Prim.Native.String.{String}
use astra_camilla_dsp.Pipeline.Build.{step_channels, Constructors, groups_from_config}
use astra_camilla_dsp.Pipeline.Build.{step_from_config, steps_from_config, from_config}
use astra_camilla_dsp.Config.Validate.{check_names, check_filter, check_step_channels, check_step}
use astra_camilla_dsp.Config.Validate.{check_steps, check_pipeline, output_channels}
use astra_camilla_dsp.Arith.{Arith}
use astra_camilla_dsp.Config.Mixer.{unwrap_or}
use astra_camilla_dsp.Config.Pipeline.{PipelineStep, filter, is_bypassed, Sections}
use astra_camilla_dsp.Config.Pipeline.{PipelineStepFilter, FilterConfig, ProcessorConfig}
use astra_camilla_dsp.Pipeline.Lanes.{IsLocal}
use astra_camilla_dsp.Pipeline.{ThreadPool, FilterTrait, ProcessorTrait, Step, run_steps, Flow}
use astra_camilla_dsp.Pipeline.Merge.{KeepsLength}
use astra_camilla_dsp.Pipeline.Widths.{KeepsChannels, Fit, width, IsFlow, run_steps-Fit}
use astra_camilla_dsp.Pipeline.Equivalence.{parallelize_filters-run_steps}
use astra_camilla_dsp.Pipeline.Ranges.{Named, Fit-append}
use astra_camilla_dsp.Pipeline.Safe.{Builds, step_builds}

module _ {S F P FC PC E : Type 0} ⦃a : Arith S⦄ ⦃fc : FilterConfig FC E⦄ ⦃pc : ProcessorConfig PC E⦄
    {make : Constructors F P FC PC} {fs : ℕ} (b : Builds make fc pc fs) where
  steps_build :
      (conf : Sections S FC PC) (n : ℕ) (steps : List PipelineStep)
      → All Named steps
      → (check_steps {E = E} fs conf n steps).0 ≡ accepted
      → Yields
          (λ ss. Fit n ss × (width n ss ≡ (check_steps {E = E} fs conf n steps).1))
          (steps_from_config make conf n steps)
  unfolding check_steps steps_from_config
  steps_build conf n [] named v = ([], refl, (tt, refl))
  steps_build conf n (step ∷ steps) named v =
      let (here, later) =
        then_check-accepted (check_step fs conf n step).0
          (check_steps fs conf (check_step {E = E} fs conf n step).1 steps).0 v in
      let (r, e, (fit, w, m)) = step_builds b conf n step named.0 here in
      let (ss, e', (fit', w')) =
        steps_build conf (check_step {E = E} fs conf n step).1 steps named.1 later in
      let (f, wa) = Fit-append n r.0 ss fit (rw w fit') in
      rw (e, m, e') (_, refl, (f, wa ∙ ap (λ k. width k ss) w ∙ w'))

  -- A pipeline that is accepted for capture and playback devices with `n` and `m` channels, in which
  -- every filter step names a filter, is built without a panic; its steps are in range of the channels
  -- that they meet, from `n` at the front to `m` at the end. Filters and processors are assumed to be
  -- built from configurations that were accepted.
  pub steps_from_config-Fit :
      (conf : Sections S FC PC) (n m : ℕ)
      → check_pipeline {E = E} fs conf n m ≡ accepted
      → All Named (unwrap_or conf.pipeline [])
      → Yields
          (λ ss. Fit n ss × (width n ss ≡ m))
          (steps_from_config make conf n (unwrap_or conf.pipeline []))
  unfolding check_pipeline
  steps_from_config-Fit conf n m v named =
      let steps = unwrap_or conf.pipeline [] in
      let (here, last) =
        then_check-accepted (check_steps {E = E} fs conf n steps).0
          (if (check_steps {E = E} fs conf n steps).1 == m
            then accepted
            else rejected (output_channels (check_steps {E = E} fs conf n steps).1 m))
          v in
      let (ss, e, (fit, w)) = steps_build conf n steps named here in
      (ss, e, (fit, w ∙ ground arith))

module _ {S F P W : Type 0} ⦃a : Arith S⦄ ⦃ft : FilterTrait S F W⦄ ⦃pool : ThreadPool S F W⦄
    ⦃pt : ProcessorTrait S P⦄ where
  -- The chunk and stash behind the steps.
  abbrev pub flow_after : List (Step S F P) → Flow S → W → Option (Flow S)
  flow_after ss flow shared = run_steps ss (flow, shared) >>= λ s. some s.1.0

  -- A pipeline that is accepted for capture and playback devices with `n` and `m` channels, in which
  -- every filter step names a filter, is built with and without multithreading. On a chunk of `n`
  -- waveforms with a clean stash the two panic alike and give the same chunk and stash, in whatever order
  -- the threads make the calls of the filters, and what they give has `m` waveforms and a clean stash.
  -- Assumed are that the filters are local, which the volume and the loudness filter are not, and keep
  -- the length of a waveform, that filters and processors are built from configurations that were
  -- accepted, and that processors keep the number of waveforms.
  pub from_config-threads :
      {FC PC E : Type 0} ⦃fc : FilterConfig FC E⦄ ⦃pc : ProcessorConfig PC E⦄
      {make : Constructors F P FC PC} {fs : ℕ} (b : Builds make fc pc fs) (l : IsLocal ft)
      (kf : KeepsLength ft) (kp : KeepsChannels pt) (conf : Sections S FC PC) (n m : ℕ)
      (flow : Flow S) (shared : W)
      → check_pipeline {E = E} fs conf n m ≡ accepted
      → All Named (unwrap_or conf.pipeline [])
      → IsFlow n flow
      → Yields
          (λ single.
            Yields
              (λ multi.
                (flow_after single flow shared ≡ flow_after multi flow shared)
                × IfSome (IsFlow m) (flow_after single flow shared))
              (from_config make conf n true))
          (from_config make conf n false)
  unfolding from_config
  from_config-threads b l kf kp conf n m flow shared v named i =
      let (ss, e, (fit, w)) = steps_from_config-Fit b conf n m v named in
      let (multi, e', same) = parallelize_filters-run_steps l kf kp ss n flow shared fit i in
      rw e (
        ss,
        refl,
        (
          multi,
          e',
          (
            sym (
                rw same (
                  simp bind_assoc (
                    bind_ext (run_steps ss (flow, shared)) _ _ λ s k.
                      let (fit', _, _) = run_steps-Fit kf kp ss n flow shared fit i k in
                      let (_, e'', _) =
                        parallelize_filters-run_steps l kf kp s.0 n flow shared fit' i in
                      rw e'' refl))),
            IfSome-intro (IsFlow m) (flow_after ss flow shared) λ g k.
                let (s, e₁, e₂) = >>=-eq-some (run_steps ss (flow, shared)) _ k in
                let (_, left, _) = run_steps-Fit kf kp ss n flow shared fit i e₁ in
                subst (IsFlow m) (some-eq e₂) (subst (λ k. IsFlow k s.1.0) w left),
          ),
        ),
      )

accepted-unnamed :
    (FC E : Type 0) ⦃fc : FilterConfig FC E⦄ (fs : ℕ) (names : List String)
    → check_names {FC = FC} {E = E} fs none names ≡ accepted
    → names ≡ []
unfolding check_names check_filter
accepted-unnamed FC E fs [] v = refl
accepted-unnamed FC E fs (name ∷ names) v = cc

-- Without a section `filters`, a filter step that passes validation and is not bypassed has no names.
-- It may have channels, from its own list or those of the pipeline; then building it panics, and only
-- then.
pub unnamed_filter_panics :
    {S F P FC PC E : Type 0} ⦃a : Arith S⦄ ⦃fc : FilterConfig FC E⦄ ⦃pc : ProcessorConfig PC E⦄
    (make : Constructors F P FC PC) (fs n : ℕ) (conf : Sections S FC PC) (s : PipelineStepFilter)
    → conf.filters ≡ none
    → is_bypassed s.bypassed ≡ false
    → (check_step {E = E} fs conf n (filter s)).0 ≡ accepted
    → (s.names ≡ [])
      × (step_from_config {P = P} make conf n (filter s)
          ≡ (if is_empty (step_channels s.channels n) then some ([], n) else none))
unfolding check_step step_from_config groups_from_config
unnamed_filter_panics {S = S} {F = F} {P = P} {FC = FC} {E = E} make fs n conf s none_there on v =
    let v' = rw (on, none_there) at v in
    let (_, named) = then_check-accepted (check_step_channels n s.channels) _ v' in
    (
      accepted-unnamed FC E fs s.names named,
      rw (on, none_there) (built (step_channels s.channels n)),
    )
  where
    built :
        (channels : List ℕ)
        → ◌>>=◌ {B = List (Step S F P) × ℕ}
            (groups_from_config make channels s.names none)
            (λ groups. some (groups, n))
          ≡ (if is_empty channels then some ([], n) else none)
    built [] = refl
    built (c ∷ cs) = refl
