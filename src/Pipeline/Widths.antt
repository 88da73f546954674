-- ===== src/Pipeline/Widths.antt =====
-- pipeline.rs: how wide a pipeline is at each of its steps.
use astra_camilla_dsp.Common.{ℕ, ◌<◌, ◌≡◌, refl, sym, ap, ◌∙◌, subst, some, List, [], ◌∷◌, length}
use astra_camilla_dsp.Common.{get_elem?, length-set, length-map, >>=-eq-some, bind_assoc, some-eq}
use astra_camilla_dsp.Mixer as Mix
use astra_camilla_dsp.Arith.{Arith}
use astra_camilla_dsp.AudioChunk.{AudioChunk}
use astra_camilla_dsp.Stash.Clean.{IsClean}
use astra_camilla_dsp.Mixer.{Mixer}
use astra_camilla_dsp.Mixer.Build.{IsSafe}
use astra_camilla_dsp.Mixer.Mix.{process_chunk_lem, mix_channel, silence}
use astra_camilla_dsp.Pipeline.{ThreadPool, Work, FilterTrait, ProcessorTrait, Step, mixer_step}
use astra_camilla_dsp.Pipeline.{filter_step, parallel_step, processor_step, run_channel}
use astra_camilla_dsp.Pipeline.{run_group, run_parallel, Flow, run_step, run_steps}
use astra_camilla_dsp.Pipeline.Merge.{KeepsLength, run_parallel-length}

-- What every implementation of `Processor::process_chunk` keeps: the number of waveforms.
pub record KeepsChannels {S P : Type 0} (pt : ProcessorTrait S P) : Type 0 where
  pub keeps_channels :
      (p : P) (c : AudioChunk S) {r : AudioChunk S × P}
      → pt.process_chunk p c ≡ some r
      → length r.0.waveforms ≡ length c.waveforms

module _ {S F P : Type 0} where
  -- Steps that fit a pipeline which is `n` channels wide: filters on existing channels, and safe
  -- mixers of the right width.
  abbrev pub Fit : ℕ → List (Step S F P) → Type 0
  Fit n [] = Unit {0}
  Fit n (mixer_step m ∷ steps) = IsSafe m × (m.channels_in ≡ n) × Fit m.channels_out steps
  Fit n (filter_step g ∷ steps) = (g.channel < n) × Fit n steps
  Fit n (parallel_step p ∷ steps) = Fit n steps
  Fit n (processor_step p ∷ steps) = Fit n steps

  -- The width behind the steps.
  abbrev pub width : ℕ → List (Step S F P) → ℕ
  width n [] = n
  width n (mixer_step m ∷ steps) = width m.channels_out steps
  width n (filter_step g ∷ steps) = width n steps
  width n (parallel_step p ∷ steps) = width n steps
  width n (processor_step p ∷ steps) = width n steps

module _ {S : Type 0} ⦃a : Arith S⦄ where
  -- A chunk `n` waveforms wide, and a clean stash.
  abbrev pub IsFlow : ℕ → Flow S → Type 0
  IsFlow n flow = (length flow.0.waveforms ≡ n) × IsClean flow.1

  -- What a safe mixer leaves.
  pub mixer-IsFlow :
      (m : Mixer S) (n : ℕ) (flow : Flow S) {out : Flow S}
      → IsSafe m
      → m.channels_in ≡ n
      → IsFlow n flow
      → Mix.process_chunk m flow.0 flow.1 ≡ some out
      → IsFlow m.channels_out out
  mixer-IsFlow m n (chunk, stash) {out = out} safe w i e =
      let (r, e', (p, k)) = process_chunk_lem chunk m stash safe (i.0 ∙ sym w) i.1 in
      let wide : length r.0.waveforms ≡ m.channels_out =
        ap (λ (c : AudioChunk S). length c.waveforms) p
        ∙ length-map m.mapping (mix_channel chunk (silence chunk))
        ∙ safe.outputs in
      subst (IsFlow m.channels_out) (some-eq (sym e' ∙ e)) (wide, k)

module _ {S F P W : Type 0} ⦃a : Arith S⦄ ⦃ft : FilterTrait S F W⦄ ⦃pool : ThreadPool S F W⦄
    ⦃pt : ProcessorTrait S P⦄ (kf : KeepsLength ft) (kp : KeepsChannels pt) where
  run_group-length :
      (c : ℕ) (fs : List F) (ws : List (List S)) (shared : W) {r : List F × (List (List S) × W)}
      → run_group c fs (ws, shared) ≡ some r
      → length r.1.0 ≡ length ws
  unfolding run_group
  run_group-length c fs ws shared {r = r} e =
      let (w, e₁, e₂) = >>=-eq-some (get_elem? ws c) _ e in
      let (out, e₃, e₄) = >>=-eq-some (run_channel fs (w, shared)) _ e₂ in
      subst (λ (r : List F × (List (List S) × W)). length r.1.0 ≡ length ws) (some-eq e₄)
        (length-set ws c out.1.0)

  -- What running `steps` leaves: steps that still fit, and a flow of the width behind them.
  abbrev pub Leaves : ℕ → List (Step S F P) → List (Step S F P) × Work S W → Type 0
  Leaves n steps s = Fit n s.0 × IsFlow (width n steps) s.1.0 × (width n s.0 ≡ width n steps)

  pub run_steps-Fit :
      (steps : List (Step S F P)) (n : ℕ) (flow : Flow S) (shared : W)
      {s : List (Step S F P) × Work S W}
      → Fit n steps
      → IsFlow n flow
      → run_steps steps (flow, shared) ≡ some s
      → Leaves n steps s
  unfolding run_steps run_step
  run_steps-Fit [] n flow shared h i e = subst (Leaves n []) (some-eq e) (tt, i, refl)
  run_steps-Fit (mixer_step m ∷ steps) n flow shared {s = s} h i e =
      let (out, e₁, e₂) =
        >>=-eq-some (Mix.process_chunk m flow.0 flow.1) _ (simp bind_assoc at e) in
      let (rest, e₃, e₄) = >>=-eq-some (run_steps steps (out, shared)) _ e₂ in
      let (fit, flow', w) =
        run_steps-Fit steps m.channels_out out shared h.2 (mixer-IsFlow m n flow h.0 h.1 i e₁) e₃ in
      subst (Leaves n (mixer_step m ∷ steps)) (some-eq e₄) ((h.0, h.1, fit), flow', w)
  run_steps-Fit (filter_step g ∷ steps) n flow shared {s = s} h i e =
      let (out, e₁, e₂) =
        >>=-eq-some (run_group g.channel g.filters (flow.0.waveforms, shared)) _
          (simp bind_assoc at e) in
      let flow₁ : Flow S = (record (flow.0) { waveforms = out.1.0 }, flow.1) in
      let (rest, e₃, e₄) = >>=-eq-some (run_steps steps (flow₁, out.1.1)) _ e₂ in
      let l = run_group-length g.channel g.filters flow.0.waveforms shared e₁ in
      let (fit, flow', w) = run_steps-Fit steps n flow₁ out.1.1 h.1 (l ∙ i.0, i.1) e₃ in
      subst (Leaves n (filter_step g ∷ steps)) (some-eq e₄) ((h.0, fit), flow', w)
  run_steps-Fit (parallel_step p ∷ steps) n flow shared {s = s} h i e =
      let (out, e₁, e₂) =
        >>=-eq-some (run_parallel p (flow.0.waveforms, shared)) _ (simp bind_assoc at e) in
      let flow₁ : Flow S = (record (flow.0) { waveforms = out.1.0 }, flow.1) in
      let (rest, e₃, e₄) = >>=-eq-some (run_steps steps (flow₁, out.1.1)) _ e₂ in
      let (l₀, l) = run_parallel-length p flow.0.waveforms shared e₁ in
      let (fit, flow', w) = run_steps-Fit steps n flow₁ out.1.1 h (l ∙ i.0, i.1) e₃ in
      subst (Leaves n (parallel_step p ∷ steps)) (some-eq e₄) (fit, flow', w)
  run_steps-Fit (processor_step p ∷ steps) n flow shared {s = s} h i e =
      let (out, e₁, e₂) = >>=-eq-some (pt.process_chunk p flow.0) _ (simp bind_assoc at e) in
      let (rest, e₃, e₄) = >>=-eq-some (run_steps steps ((out.0, flow.1), shared)) _ e₂ in
      let l = kp.keeps_channels p flow.0 e₁ in
      let (fit, flow', w) = run_steps-Fit steps n (out.0, flow.1) shared h (l ∙ i.0, i.1) e₃ in
      subst (Leaves n (processor_step p ∷ steps)) (some-eq e₄) (fit, flow', w)
