-- ===== src/Pipeline/Process.antt =====
-- pipeline.rs, `Pipeline::process_chunk`: the volume control, the steps, and the measured load. The
-- time that the processing took is an argument; the warning about the load is left out.
use astra_camilla_dsp.Common.{ℕ, ◌+◌, ◌≡◌, refl, ◌∙◌, subst, inl, inr, Option, some, List, leb}
use astra_camilla_dsp.Common.{◌==◌, if◌then◌else◌, Bool-cases, length, get_elem?, length-map}
use astra_camilla_dsp.Common.{◌>>=◌, >>=-eq-some, some-eq, IfSome, IfSome-intro}
use astra_camilla_dsp.Filters.Volume as V
use astra_camilla_dsp.Arith.{Arith, ◌⊗◌, ◌⊘◌}
use astra_camilla_dsp.AudioChunk.{AudioChunk}
use astra_camilla_dsp.Params.{Params, set_current_volume}
use astra_camilla_dsp.Filters.Volume.{Casts, Volume, prepare_processing, scale, apply_gain}
use astra_camilla_dsp.Filters.Volume.{apply_ramp, make_ramp, last}
use astra_camilla_dsp.Pipeline.{ThreadPool, FilterTrait, ProcessorTrait, Step, Flow, run_steps}
use astra_camilla_dsp.Pipeline.Merge.{KeepsLength}
use astra_camilla_dsp.Pipeline.Widths.{KeepsChannels, Fit, width, IsFlow, run_steps-Fit}

pub record Pipeline (R S F P : Type 0) : Type 0 where
  pub steps : List (Step S F P)
  pub volume : Volume R S
  pub secs_per_chunk : R
  pub overloaded_chunks : ℕ

-- The pipeline, the parameters, and the flow behind it.
abbrev pub Processed : Type 0 → Type 0 → Type 0 → Type 0 → Type 0
Processed R S F P = Pipeline R S F P × Params R × Flow S

module _ {R S : Type 0} ⦃r : Arith R⦄ ⦃a : Arith S⦄ ⦃cast : Casts R S⦄ where
  scale-length :
      (v : Volume R S) (ws : List (List S)) {out : List (List S) × Volume R S}
      → scale v ws ≡ some out
      → length out.0 ≡ length ws
  unfolding scale
  scale-length v ws {out = out} e = elim (Bool-cases (v.ramp_step == 0)) [
    | inl off ↦
        let k = rw off at e in
        subst (λ (o : List (List S) × Volume R S). length o.0 ≡ length ws) (some-eq k)
          (length-map ws (apply_gain v.target_linear_gain))
    | inr on ↦
        let k = rw on at e in
        elim (Bool-cases (leb v.ramp_step v.ramptime_in_chunks)) [
          | inl in_time ↦
              let (top, e₁, e₂) = >>=-eq-some (last (make_ramp v)) _ (rw in_time at k) in
              subst (λ (o : List (List S) × Volume R S). length o.0 ≡ length ws) (some-eq e₂)
                (length-map ws (apply_ramp (make_ramp v)))
          | inr late ↦
              subst (λ (o : List (List S) × Volume R S). length o.0 ≡ length ws)
                (some-eq (rw late at k)) refl
        ]
  ]

  volume-length :
      (v : Volume R S) (p : Params R) (chunk : AudioChunk S)
      {out : AudioChunk S × Params R × Volume R S}
      → V.process_chunk v p chunk ≡ some out
      → length (out.0).waveforms ≡ length chunk.waveforms
  unfolding V.process_chunk
  volume-length v p chunk e =
      let (vol, _, e₁) = >>=-eq-some (get_elem? p.target_volume v.fader) _ e in
      let (m, _, e₂) = >>=-eq-some (get_elem? p.mute v.fader) _ e₁ in
      let (s, k, e₃) = >>=-eq-some (scale (prepare_processing v vol m) chunk.waveforms) _ e₂ in
      let (q, _, e₄) = >>=-eq-some (set_current_volume p v.fader _) _ e₃ in
      subst
        (λ (o : AudioChunk S × Params R × Volume R S).
          length (o.0).waveforms ≡ length chunk.waveforms)
        (some-eq e₄) (scale-length (prepare_processing v vol m) chunk.waveforms k)

module _ {R S F P : Type 0} ⦃r : Arith R⦄ ⦃a : Arith S⦄ ⦃cast : Casts R S⦄
    ⦃ft : FilterTrait S F (Params R)⦄ ⦃pool : ThreadPool S F (Params R)⦄
    ⦃pt : ProcessorTrait S P⦄ where
  -- The load in percent of a chunk's duration.
  abbrev pub load_of : Pipeline R S F P → R → R
  load_of p secs_elapsed = r.lit 100 1 ⊗ secs_elapsed ⊘ p.secs_per_chunk

  pub process_chunk : Pipeline R S F P → Params R → Flow S → R → Option (Processed R S F P)
  process_chunk p params (chunk, stash) secs_elapsed = do
    scaled ← V.process_chunk p.volume params chunk
    done ← run_steps p.steps ((scaled.0, stash), scaled.1)
    let load = load_of p secs_elapsed
    some (
      record p {
        steps = done.0;
        volume = scaled.2;
        overloaded_chunks = if r.lt (r.lit 100 1) load then p.overloaded_chunks + 1 else 0;
      },
      record (done.1.1) { processing_load = load },
      done.1.0,
    )

  -- Without a panic, the width and the cleanness of a flow that fits the steps are kept, the steps fit
  -- again, and the load is what the parameters show.
  abbrev pub Continues : ℕ → Pipeline R S F P → R → Processed R S F P → Type 0
  Continues n p secs_elapsed out =
      Fit n (out.0).steps
      × (width n (out.0).steps ≡ width n p.steps)
      × IsFlow (width n p.steps) out.2
      × ((out.1).processing_load ≡ load_of p secs_elapsed)

  -- A pipeline with steps that fit `n` channels, on a chunk of `n` waveforms with a clean stash: if
  -- processing does not panic, the chunk that it gives has as many waveforms as there are channels
  -- behind the steps, the stash is clean, the steps fit again and lead to the same number of channels,
  -- and the parameters show the load. Filters are assumed to keep the length of a waveform, and
  -- processors the number of waveforms.
  pub process_chunk-Continues :
      (kf : KeepsLength ft) (kp : KeepsChannels pt) (p : Pipeline R S F P) (params : Params R)
      (n : ℕ) (flow : Flow S) (secs_elapsed : R)
      → Fit n p.steps
      → IsFlow n flow
      → IfSome (Continues n p secs_elapsed) (process_chunk p params flow secs_elapsed)
  unfolding process_chunk
  process_chunk-Continues kf kp p params n flow secs_elapsed fit i =
      IfSome-intro (Continues n p secs_elapsed) (process_chunk p params flow secs_elapsed) λ out e.
        let (scaled, e₁, e₂) = >>=-eq-some (V.process_chunk p.volume params flow.0) _ e in
        let (done, e₃, e₄) = >>=-eq-some (run_steps p.steps ((scaled.0, flow.1), scaled.1)) _ e₂ in
        let wide = volume-length p.volume params flow.0 e₁ in
        let (fit', left, w) =
          run_steps-Fit kf kp p.steps n (scaled.0, flow.1) scaled.1 fit (wide ∙ i.0, i.1) e₃ in
        subst (Continues n p secs_elapsed) (some-eq e₄) (fit', w, left, refl)
