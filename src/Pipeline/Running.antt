-- ===== src/Pipeline/Running.antt =====
-- pipeline.rs: a pipeline that is merged, built or updated fits the channels of the devices.
use astra_camilla_dsp.Common.{ℕ, ◌≡◌, sym, ◌∙◌, subst, Bool, true, false, Option, none, some}
use astra_camilla_dsp.Common.{List, [], ◌∷◌, if◌then◌else◌, get_elem?, All, >>=-eq-some, some-eq}
use astra_camilla_dsp.Common.{accepted}
use astra_camilla_dsp.Pipeline.Build as Build
use astra_camilla_dsp.Config.Mixer.{unwrap_or}
use Prim.Native.String.{String}
use astra_camilla_dsp.Arith.{Arith}
use astra_camilla_dsp.Config.Pipeline.{Sections, FilterConfig, ProcessorConfig}
use astra_camilla_dsp.Config.Validate.{check_pipeline}
use astra_camilla_dsp.Filters.Volume.{Casts}
use astra_camilla_dsp.Params.{Params}
use astra_camilla_dsp.Pipeline.{Step, mixer_step, filter_step, parallel_step, processor_step}
use astra_camilla_dsp.Pipeline.{flush, append_at, pending, merge_from, parallelize_filters}
use astra_camilla_dsp.Pipeline.Build.{Constructors, steps_from_config, from_config}
use astra_camilla_dsp.Pipeline.Process.{Pipeline}
use astra_camilla_dsp.Pipeline.Ranges.{Named}
use astra_camilla_dsp.Pipeline.Safe.{Builds}
use astra_camilla_dsp.Pipeline.Start.{Devices, new_pipeline}
use astra_camilla_dsp.Pipeline.Update.{Updates, update_filters, update_parallel, update_processor}
use astra_camilla_dsp.Pipeline.Update.{update_step, update_steps, update_parameters}
use astra_camilla_dsp.Pipeline.Validated.{steps_from_config-Fit}
use astra_camilla_dsp.Pipeline.Widths.{Fit, width}

module _ {S F P : Type 0} where
  -- Steps that lead from `n` channels to `m`.
  abbrev pub Leads : ℕ → ℕ → List (Step S F P) → Type 0
  Leads n m steps = Fit n steps × (width n steps ≡ m)

  flush-Leads :
      (p : Option (List (List F))) (n m : ℕ) (steps : List (Step S F P))
      → Leads n m steps
      → Leads n m (flush p steps)
  unfolding flush
  flush-Leads none n m steps h = h
  flush-Leads (some p) n m steps h = h

  merge_from-Leads :
      (steps : List (Step S F P)) (p : Option (List (List F))) (n m : ℕ) {out : List (Step S F P)}
      → merge_from steps p n ≡ some out
      → Leads n m steps
      → Leads n m out
  unfolding merge_from
  merge_from-Leads [] p n m e h = subst (Leads n m) (some-eq e) (flush-Leads p n m [] h)
  merge_from-Leads (mixer_step mix ∷ steps) p n m e (h, w) =
      let (rest, e₁, e₂) = >>=-eq-some (merge_from steps none mix.channels_out) _ e in
      let (f, w') = merge_from-Leads steps none mix.channels_out m e₁ (h.2, w) in
      subst (Leads n m) (some-eq e₂) (flush-Leads p n m (mixer_step mix ∷ rest) ((h.0, h.1, f), w'))
  merge_from-Leads (processor_step q ∷ steps) p n m e h =
      let (rest, e₁, e₂) = >>=-eq-some (merge_from steps none n) _ e in
      subst (Leads n m) (some-eq e₂)
        (flush-Leads p n m (processor_step q ∷ rest) (merge_from-Leads steps none n m e₁ h))
  merge_from-Leads (parallel_step q ∷ steps) p n m e h =
      let (rest, e₁, e₂) = >>=-eq-some (merge_from steps none n) _ e in
      subst (Leads n m) (some-eq e₂)
        (flush-Leads p n m (parallel_step q ∷ rest) (merge_from-Leads steps none n m e₁ h))
  merge_from-Leads (filter_step flt ∷ steps) p n m e (h, w) =
      let (q, _, e₂) = >>=-eq-some (append_at (pending p n) flt.channel flt.filters) _ e in
      merge_from-Leads steps (some q) n m e₂ (h.1, w)

module _ {S F P FC PC : Type 0} ⦃a : Arith S⦄ (u : Updates F P FC PC) (conf : Sections S FC PC)
    (fs ps : List String) where
  -- An update without mixers leads to the same channels.
  update_steps-Leads :
      (steps : List (Step S F P)) (n m : ℕ) {out : List (Step S F P)}
      → update_steps u conf fs [] ps steps ≡ some out
      → Leads n m steps
      → Leads n m out
  unfolding update_steps update_step
  update_steps-Leads [] n m e h = subst (Leads n m) (some-eq e) h
  update_steps-Leads (mixer_step mix ∷ steps) n m e (h, w) =
      let (rest, e₁, e₂) = >>=-eq-some (update_steps u conf fs [] ps steps) _ e in
      let (f, w') = update_steps-Leads steps mix.channels_out m e₁ (h.2, w) in
      subst (Leads n m) (some-eq e₂) ((h.0, h.1, f), w')
  update_steps-Leads (filter_step flt ∷ steps) n m e (h, w) =
      let (first, e₁, e₂) = >>=-eq-some (update_step u conf fs [] ps (filter_step flt)) _ e in
      let (configs, _, k) = >>=-eq-some conf.filters _ e₁ in
      let (fs', _, k') = >>=-eq-some (update_filters u configs fs flt.filters) _ k in
      let (rest, e₃, e₄) = >>=-eq-some (update_steps u conf fs [] ps steps) _ e₂ in
      let (f, w') = update_steps-Leads steps n m e₃ (h.1, w) in
      subst (Leads n m) (some-eq e₄) (subst (λ x. Leads n m (x ∷ rest)) (some-eq k') ((h.0, f), w'))
  update_steps-Leads (parallel_step q ∷ steps) n m e h =
      let (first, e₁, e₂) = >>=-eq-some (update_step u conf fs [] ps (parallel_step q)) _ e in
      let (configs, _, k) = >>=-eq-some conf.filters _ e₁ in
      let (q', _, k') = >>=-eq-some (update_parallel u configs fs q) _ k in
      let (rest, e₃, e₄) = >>=-eq-some (update_steps u conf fs [] ps steps) _ e₂ in
      subst (Leads n m) (some-eq e₄)
        (subst (λ x. Leads n m (x ∷ rest)) (some-eq k') (update_steps-Leads steps n m e₃ h))
  update_steps-Leads (processor_step q ∷ steps) n m e h =
      let (first, e₁, e₂) = >>=-eq-some (update_step u conf fs [] ps (processor_step q)) _ e in
      let (q', _, k) = >>=-eq-some (update_processor u conf.processors ps q) _ e₁ in
      let (rest, e₃, e₄) = >>=-eq-some (update_steps u conf fs [] ps steps) _ e₂ in
      subst (Leads n m) (some-eq e₄)
        (subst (λ x. Leads n m (x ∷ rest)) (some-eq k) (update_steps-Leads steps n m e₃ h))

  pub update_parameters-Leads :
      {R : Type 0} (self : Pipeline R S F P) (n m : ℕ) {out : Pipeline R S F P}
      → update_parameters u self conf fs [] ps ≡ some out
      → Leads n m self.steps
      → Leads n m out.steps
  unfolding update_parameters
  update_parameters-Leads self n m e h =
      let (steps, e₁, e₂) = >>=-eq-some (update_steps u conf fs [] ps self.steps) _ e in
      subst (λ p. Leads n m p.steps) (some-eq e₂) (update_steps-Leads self.steps n m e₁ h)

-- A configuration that is accepted for devices with `n` and `m` channels, in which every filter step
-- names a filter.
abbrev pub IsAccepted :
    {R S FC PC : Type 0} (E : Type 0) ⦃fc : FilterConfig FC E⦄ ⦃pc : ProcessorConfig PC E⦄
    → ℕ
    → ℕ
    → ℕ
    → Devices R
    → Sections S FC PC
    → Type 0
IsAccepted E fs n m devices conf =
    (devices.capture_channels ≡ n)
    × (check_pipeline {E = E} fs conf n m ≡ accepted)
    × All Named (unwrap_or conf.pipeline [])

module _ {R S F P FC PC E : Type 0} ⦃r : Arith R⦄ ⦃a : Arith S⦄ ⦃cast : Casts R S⦄
    ⦃fc : FilterConfig FC E⦄ ⦃pc : ProcessorConfig PC E⦄ {make : Constructors F P FC PC} {fs : ℕ}
    (b : Builds make fc pc fs) where
  pub new_pipeline-Leads :
      (devices : Devices R) (conf : Sections S FC PC) (params : Params R) (n m : ℕ)
      {out : Pipeline R S F P}
      → IsAccepted E fs n m devices conf
      → new_pipeline make devices conf params ≡ some out
      → Leads n m out.steps
  unfolding new_pipeline from_config parallelize_filters
  new_pipeline-Leads devices conf params n m {out = out} (same, v, named) e =
      let (steps, e₁, e₂) =
        >>=-eq-some
          (Build.from_config make conf devices.capture_channels
            (unwrap_or devices.multithreaded false))
          _ e in
      let (vol, _, e₃) = >>=-eq-some (get_elem? params.current_volume 0) _ e₂ in
      let (mute, _, e₄) = >>=-eq-some (get_elem? params.mute 0) _ e₃ in
      let (plain, k, k') =
        >>=-eq-some
          (steps_from_config make conf devices.capture_channels (unwrap_or conf.pipeline [])) _
          e₁ in
      let (ss, is, leads) = steps_from_config-Fit b conf n m v named in
      let is' : steps_from_config make conf devices.capture_channels (unwrap_or conf.pipeline [])
          ≡ some ss =
        rw same is in
      let plain_leads = subst (Leads n m) (some-eq (sym is' ∙ k)) leads in
      subst (λ (p : Pipeline R S F P). Leads n m p.steps) (some-eq e₄)
        (merged plain (unwrap_or devices.multithreaded false) plain_leads k')
    where
      merged :
          (plain : List (Step S F P)) {steps : List (Step S F P)} (threads : Bool)
          → Leads n m plain
          → (if threads then parallelize_filters plain devices.capture_channels else some plain)
            ≡ some steps
          → Leads n m steps
      merged plain true h e = merge_from-Leads plain none n m (rw same at e) h
      merged plain false h e = subst (Leads n m) (some-eq e) h
