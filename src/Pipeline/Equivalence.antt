-- ===== src/Pipeline/Equivalence.antt =====
-- pipeline.rs, `parallelize_filters`: a merged pipeline does what the given one does.
use astra_camilla_dsp.Common.{ℕ, ◌≡◌, refl, sym, ◌∙◌, subst, Option, none, some, List, [], ◌∷◌}
use astra_camilla_dsp.Common.{arith, length, replicate, length-replicate, ◌>>=◌, >>=-eq-some}
use astra_camilla_dsp.Common.{bind_assoc, some-eq, bind_some, bind_ext, Yields}
use astra_camilla_dsp.Mixer as Mix
use astra_camilla_dsp.Arith.{Arith}
use astra_camilla_dsp.Pipeline.{ThreadPool, Work, FilterTrait, ProcessorTrait, Step, mixer_step}
use astra_camilla_dsp.Pipeline.{filter_step, parallel_step, processor_step, run_parallel, flush}
use astra_camilla_dsp.Pipeline.{pending, merge_from, parallelize_filters, Flow, run_step}
use astra_camilla_dsp.Pipeline.{run_steps}
use astra_camilla_dsp.Pipeline.Merge.{KeepsLength, appended, append_at-appended, length-appended}
use astra_camilla_dsp.Pipeline.Merge.{run_parallel-length}
use astra_camilla_dsp.Pipeline.Lanes.{IsLocal, run_parallel-replicate, run_parallel-appended}
use astra_camilla_dsp.Pipeline.Widths.{KeepsChannels, Fit, IsFlow, mixer-IsFlow, run_steps-Fit}

-- A pending parallel step is as wide as the pipeline.
abbrev IsWide : {F : Type 0} → ℕ → Option (List (List F)) → Type 0
IsWide n pend = length (pending pend n) ≡ n

module _ {S F P : Type 0} where
  -- `merge_from` where no channel is out of bounds.
  abbrev merge : List (Step S F P) → Option (List (List F)) → ℕ → List (Step S F P)
  merge [] pend n = flush pend []
  merge (mixer_step m ∷ steps) pend n = flush pend (mixer_step m ∷ merge steps none m.channels_out)
  merge (processor_step p ∷ steps) pend n = flush pend (processor_step p ∷ merge steps none n)
  merge (parallel_step f ∷ steps) pend n = flush pend (parallel_step f ∷ merge steps none n)
  merge (filter_step g ∷ steps) pend n =
      merge steps (some (appended (pending pend n) g.channel g.filters)) n

  merge_from-merge :
      (steps : List (Step S F P)) (pend : Option (List (List F))) (n : ℕ)
      → IsWide n pend
      → Fit n steps
      → merge_from steps pend n ≡ some (merge steps pend n)
  unfolding merge_from pending
  merge_from-merge [] pend n l h = refl
  merge_from-merge (mixer_step m ∷ steps) pend n l h = rw (
      merge_from-merge steps none m.channels_out (length-replicate {A = List F} m.channels_out [])
        h.2)
  merge_from-merge (processor_step p ∷ steps) pend n l h =
      rw (merge_from-merge steps none n (length-replicate {A = List F} n []) h)
  merge_from-merge (parallel_step p ∷ steps) pend n l h =
      rw (merge_from-merge steps none n (length-replicate {A = List F} n []) h)
  merge_from-merge (filter_step g ∷ steps) pend n l h =
      let p = pending pend n in
      rw (append_at-appended p g.channel g.filters (omega arith)) (
        merge_from-merge steps (some (appended p g.channel g.filters)) n
          (length-appended p g.channel g.filters ∙ l) h.1)

module _ {S F P W : Type 0} ⦃a : Arith S⦄ ⦃ft : FilterTrait S F W⦄ ⦃pool : ThreadPool S F W⦄
    ⦃pt : ProcessorTrait S P⦄ (l : IsLocal ft) (kf : KeepsLength ft) (kp : KeepsChannels pt) where
  run_pending : Option (List (List F)) → Work S W → Option (Option (List (List F)) × Work S W)
  run_pending none flow = some (none, flow)
  run_pending (some p) ((chunk, stash), shared) = do
    out ← run_parallel p (chunk.waveforms, shared)
    some (some out.0, ((record chunk { waveforms = out.1.0 }, stash), out.1.1))

  -- The steps after a pending one.
  run_steps-flush :
      (pend : Option (List (List F))) (steps : List (Step S F P)) (flow : Work S W)
      → run_steps (flush pend steps) flow
        ≡ (run_pending pend flow >>= λ r. run_steps steps r.1 >>= λ s. some (flush r.0 s.0, s.1))
  unfolding flush run_steps run_step run_pending
  run_steps-flush none steps flow = sym (bind_some (run_steps steps flow))
  run_steps-flush (some p) steps ((chunk, stash), shared) = simp bind_assoc

  run_pending-IsFlow :
      (pend : Option (List (List F))) (n : ℕ) (flow : Work S W)
      {r : Option (List (List F)) × Work S W}
      → IsFlow n flow.0
      → run_pending pend flow ≡ some r
      → IsFlow n r.1.0
  unfolding run_pending
  run_pending-IsFlow none n flow i e = subst (λ r. IsFlow n r.1.0) (some-eq e) i
  run_pending-IsFlow (some p) n ((chunk, stash), shared) {r = r} i e =
      let (out, e₁, e₂) = >>=-eq-some (run_parallel p (chunk.waveforms, shared)) _ e in
      let (_, same) = run_parallel-length p chunk.waveforms shared e₁ in
      subst (λ r. IsFlow n r.1.0) (some-eq e₂) (same ∙ i.0, i.1)

  -- Merging commutes with running: a merged pipeline gives the flow of the given one, and its steps
  -- afterwards are the merged steps of the given one.
  run_steps-merge :
      (steps : List (Step S F P)) (pend : Option (List (List F))) (n : ℕ) (flow : Work S W)
      → Fit n steps
      → IsWide n pend
      → IsFlow n flow.0
      → run_steps (merge steps pend n) flow
        ≡ (run_pending pend flow >>= λ r. run_steps steps r.1 >>= λ s. some (merge s.0 r.0 n, s.1))
  unfolding run_steps run_step pending run_pending flush
  run_steps-merge [] pend n flow h w i = run_steps-flush pend [] flow
  run_steps-merge (mixer_step m ∷ steps) pend n flow h w i =
      run_steps-flush pend _ flow
      ∙ bind_ext (run_pending pend flow) _ _ λ r e. simp bind_assoc (
          bind_ext (Mix.process_chunk m r.1.0.0 r.1.0.1) _ _ λ out e'.
            let next = mixer-IsFlow m n r.1.0 h.0 h.1 (run_pending-IsFlow pend n flow i e) e' in
            rw
              (run_steps-merge steps none m.channels_out (out, r.1.1) h.2
                (length-replicate {A = List F} m.channels_out []) next)
              (simp bind_assoc))
  run_steps-merge (processor_step p ∷ steps) pend n flow h w i =
      run_steps-flush pend _ flow
      ∙ bind_ext (run_pending pend flow) _ _ λ r e. simp bind_assoc (
          bind_ext (pt.process_chunk p r.1.0.0) _ _ λ out e'.
            let before = run_pending-IsFlow pend n flow i e in
            rw
              (run_steps-merge steps none n ((out.0, r.1.0.1), r.1.1) h
                (length-replicate {A = List F} n [])
                (kp.keeps_channels p r.1.0.0 e' ∙ before.0, before.1))
              (simp bind_assoc))
  run_steps-merge (parallel_step p ∷ steps) pend n flow h w i =
      run_steps-flush pend _ flow
      ∙ bind_ext (run_pending pend flow) _ _ λ r e. simp bind_assoc (
          bind_ext (run_parallel p (r.1.0.0.waveforms, r.1.1)) _ _ λ out e'.
            let before = run_pending-IsFlow pend n flow i e in
            let (_, same) = run_parallel-length p r.1.0.0.waveforms r.1.1 e' in
            rw
              (run_steps-merge steps none n
                ((record (r.1.0.0) { waveforms = out.1.0 }, r.1.0.1), out.1.1) h
                (length-replicate {A = List F} n []) (same ∙ before.0, before.1))
              (simp bind_assoc))
  run_steps-merge (filter_step g ∷ steps) none n ((chunk, stash), shared) h w i =
      let p = replicate n [] in
      run_steps-merge steps (some (appended p g.channel g.filters)) n ((chunk, stash), shared) h.1
        (length-appended p g.channel g.filters ∙ w) i
      ∙ rw
          (
            run_parallel-appended l kf p g.channel g.filters chunk.waveforms shared (rw w h.0)
                (w ∙ sym i.0),
            run_parallel-replicate l kf n chunk.waveforms shared,
          )
          (simp bind_assoc)
  run_steps-merge (filter_step g ∷ steps) (some p) n ((chunk, stash), shared) h w i =
      run_steps-merge steps (some (appended p g.channel g.filters)) n ((chunk, stash), shared) h.1
        (length-appended p g.channel g.filters ∙ w) i
      ∙ rw
          (run_parallel-appended l kf p g.channel g.filters chunk.waveforms shared (rw w h.0)
            (w ∙ sym i.0))
          (simp bind_assoc)

  -- For steps that fit a pipeline `n` channels wide, `parallelize_filters` does not panic. Let the
  -- filters be local, which the volume and the loudness filter are not, and keep the length of a
  -- waveform, and let the processors keep the number of waveforms. In whatever order the threads make
  -- the calls of the filters, the merged steps, run on a chunk of that width with a clean stash, panic
  -- exactly when the given ones do, give the same chunk and stash, and have become the merged steps of
  -- what the given ones became.
  pub parallelize_filters-run_steps :
      (steps : List (Step S F P)) (n : ℕ) (flow : Flow S) (shared : W)
      → Fit n steps
      → IsFlow n flow
      → Yields
          (λ merged. run_steps merged (flow, shared) ≡ (
            run_steps steps (flow, shared) >>= λ s.
            parallelize_filters s.0 n >>= λ merged'. some (merged', s.1)))
          (parallelize_filters steps n)
  unfolding parallelize_filters pending run_pending
  parallelize_filters-run_steps steps n flow shared h i =
      let wide = length-replicate {A = List F} n [] in
      (
        merge steps none n,
        merge_from-merge steps none n wide h,
        run_steps-merge steps none n (flow, shared) h wide i
            ∙ bind_ext (run_steps steps (flow, shared)) _ _ λ s e.
              let (fit, after, w) = run_steps-Fit kf kp steps n flow shared h i e in
              rw (merge_from-merge s.0 none n wide fit),
      )
