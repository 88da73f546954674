-- ===== src/Processors/Race/Recursion.antt =====
-- processors/race.rs: what the two channels put out, each with the other's output.
use astra_camilla_dsp.Common.{ℕ, ◌≡◌, refl, sym, ap, ◌∙◌, false, List, [], ◌∷◌, ◌++◌, map}
use astra_camilla_dsp.Common.{append_assoc, arith, length, replicate, map-append, Yields}
use astra_camilla_dsp.Filters.Gain as G
use astra_camilla_dsp.Arith.{Arith, ◌⊕◌, nought}
use astra_camilla_dsp.Config.Mixer.{unwrap_or}
use astra_camilla_dsp.Filters.Delay.{RingBuffer, delay_samples}
use astra_camilla_dsp.Filters.Delay.Fifo.{IsFifo}
use astra_camilla_dsp.Filters.Delay.Single.{Holds, process_single-Holds, from_config-Holds}
use astra_camilla_dsp.Processors.Race.{Race, RaceParameters, from_config, delay_config}
use astra_camilla_dsp.Processors.Race.{process_single, process_samples, process_channels}

module _ {S : Type 0} ⦃a : Arith S⦄ where
  -- The samples with others added to them, as far as there are others.
  abbrev pub add : List S → List S → List S
  add [] xs = []
  add (v ∷ vs) [] = v ∷ vs
  add (v ∷ vs) (x ∷ xs) = (v ⊕ x) ∷ add vs xs

  -- `out` is the input `vs` with the gained output of the other channel added to it, behind what was
  -- on its way before.
  abbrev pub IsCrossed : (S → S) → List S → List S → List S → List S → Type 0
  IsCrossed g before vs other out = out ≡ add vs (before ++ map g other)

module _ {S Q : Type 0} ⦃a : Arith S⦄ ⦃rb : RingBuffer S Q⦄ (fifo : IsFifo rb) where
  -- The feedback of the samples `xs` that a delay holds, and the one before them.
  abbrev on_its_way : (S → S) → S → List S → List S
  on_its_way g feedback xs = feedback ∷ map g xs

  shifted :
      (g : S → S) (xs ys : List S) (x y : S) (later : List S)
      → xs ++ (x ∷ []) ≡ y ∷ ys
      → on_its_way g (g y) ys ++ map g later ≡ map g xs ++ map g (x ∷ later)
  shifted g xs ys x y later e =
      ap (λ t. map g t ++ map g later) (sym e)
      ∙ ap (λ t. t ++ map g later) (map-append g xs (x ∷ []))
      ∙ append_assoc (map g xs) (g x ∷ []) (map g later)

  -- Each channel with the other's output, where the delays hold `xs` and `ys`.
  abbrev pub Crosses :
      Race S Q → List S → List S → List S → List S → (List S × List S) × Race S Q → Type 0
  Crosses race xs ys vs ws out =
      let g = G.process_single race.gain in
      IsCrossed g (on_its_way g race.feedback_b ys) vs out.0.1 out.0.0
      × IsCrossed g (on_its_way g race.feedback_a xs) ws out.0.0 out.0.1

  process_samples-Crosses :
      (race : Race S Q) (xs ys vs ws : List S)
      → Holds fifo race.delay_a xs
      → Holds fifo race.delay_b ys
      → length vs ≡ length ws
      → Yields (Crosses race xs ys vs ws) (process_samples race vs ws)
  unfolding process_samples process_single
  process_samples-Crosses race xs ys [] [] h k e = (_, refl, (refl, refl))
  process_samples-Crosses race xs ys [] (w ∷ ws) h k e = absurd (omega arith)
  process_samples-Crosses race xs ys (v ∷ vs) [] h k e = absurd (omega arith)
  process_samples-Crosses race xs ys (v ∷ vs) (w ∷ ws) h k e =
      let g = G.process_single race.gain in
      let (p, e₁, (xs', s, h')) =
        process_single-Holds fifo race.delay_a xs (v ⊕ race.feedback_b) h in
      let (q, e₂, (ys', t, k')) =
        process_single-Holds fifo race.delay_b ys (w ⊕ race.feedback_a) k in
      let race' = record race {
        feedback_a = g p.0;
        feedback_b = g q.0;
        delay_a = p.1;
        delay_b = q.1;
      } in
      let (r, e₃, (l, m)) = process_samples-Crosses race' xs' ys' vs ws h' k' (omega arith) in
      rw (e₁, e₂, e₃)
        (
          _,
          refl,
          (
            ap (λ out. (v ⊕ race.feedback_b) ∷ out)
                (l ∙ ap (add vs) (shifted g ys ys' (w ⊕ race.feedback_a) q.0 r.0.1 t)),
            ap (λ out. (w ⊕ race.feedback_a) ∷ out)
                (m ∙ ap (add ws) (shifted g xs xs' (v ⊕ race.feedback_b) p.0 r.0.0 s)),
          ),
        )

  -- Let a crosstalk eliminator be built with a delay of `n` samples and no fraction, and let the ring
  -- buffers be queues. For two channels of the same length it does not panic, and each channel's
  -- output is its input plus a zero, `n` times what the gain makes of zero, and what the gain makes of
  -- the other channel's output, in this order.
  pub race-Crosses :
      (config : RaceParameters S) (samplerate n : ℕ) (vs ws : List S)
      → unwrap_or config.subsample_delay false ≡ false
      → a.to_ℕ (a.round (delay_samples samplerate (delay_config config samplerate))) ≡ n
      → length vs ≡ length ws
      → Yields
          (Crosses (from_config config samplerate) (replicate n nought) (replicate n nought) vs ws)
          (process_channels (from_config config samplerate) vs ws)
  unfolding from_config delay_config process_channels
  race-Crosses config samplerate n [] [] whole_samples e same = (_, refl, (refl, refl))
  race-Crosses config samplerate n [] (w ∷ ws) whole_samples e same = absurd (omega arith)
  race-Crosses config samplerate n (v ∷ vs) [] whole_samples e same = absurd (omega arith)
  race-Crosses config samplerate n (v ∷ vs) (w ∷ ws) whole_samples e same =
      let held =
        from_config-Holds fifo samplerate n (delay_config config samplerate) whole_samples e in
      process_samples-Crosses (from_config config samplerate) (replicate n nought)
        (replicate n nought) (v ∷ vs) (w ∷ ws) held held same
