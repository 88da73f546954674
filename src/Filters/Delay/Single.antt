-- ===== src/Filters/Delay/Single.antt =====
-- filters/basicfilters.rs: a `Delay` without a fraction of a sample, one sample at a time.
use astra_camilla_dsp.Common.{ℕ, zero, suc, ◌+◌, ◌≤◌, ◌<◌, ◌≡◌, refl, sym, ap, ◌∙◌, false, Option}
use astra_camilla_dsp.Common.{none, some, List, [], ◌∷◌, ◌++◌, arith, lt→ltb, length, replicate}
use astra_camilla_dsp.Common.{length-append, length-replicate, Yields}
use astra_camilla_dsp.Arith.{Arith, nought}
use astra_camilla_dsp.Config.Mixer.{unwrap_or}
use astra_camilla_dsp.Filters.Delay.{RingBuffer, Delay, DelayParameters, new, process_single}
use astra_camilla_dsp.Filters.Delay.{queue_single, biquad_single, delay_samples, from_config}
use astra_camilla_dsp.Filters.Delay.Fifo.{IsFifo, fill-contents}

module _ {S Q : Type 0} ⦃a : Arith S⦄ ⦃rb : RingBuffer S Q⦄ (fifo : IsFifo rb) where
  -- What the queue of a delay holds; no samples without a queue.
  abbrev Queued : Option Q → List S → Type 0
  Queued none xs = xs ≡ []
  Queued (some q) xs = (0 < length xs) × (fifo.contents q ≡ xs) × (fifo.capacity q ≡ length xs)

  -- The samples that a delay holds, oldest first.
  abbrev pub Holds : Delay S Q → List S → Type 0
  Holds d xs = (d.biquad ≡ none) × Queued d.queue xs

  queue_single-Queued :
      (o : Option Q) (xs : List S) (v : S)
      → Queued o xs
      → Yields (λ r. (ys : List S) × (xs ++ (v ∷ []) ≡ r.0 ∷ ys) × Queued r.1 ys) (queue_single o v)
  unfolding queue_single
  queue_single-Queued none xs v e = (_, refl, ([], ap (λ t. t ++ (v ∷ [])) e, refl))
  queue_single-Queued (some q) [] v (h, c, k) = absurd (omega arith)
  queue_single-Queued (some q) (x ∷ xs) v (h, c, k) =
      let full : length (fifo.contents q) ≡ fifo.capacity q = ap length c ∙ sym k in
      let held = fifo.contents-push_overwrite q v x xs c full in
      let size : length (xs ++ (v ∷ [])) ≡ suc (length xs) =
        omega (arith, length-append xs (v ∷ [])) in
      rw (fifo.popped q v x xs c full) (
        (x, some (rb.push_overwrite q v).1),
        refl,
        (
          xs ++ (v ∷ []),
          refl,
          (omega (arith, size), held, fifo.capacity-push_overwrite q v ∙ k ∙ sym size),
        ),
      )

  -- A sample goes in behind those that are held, and the first of them all comes out.
  pub process_single-Holds :
      (d : Delay S Q) (xs : List S) (v : S)
      → Holds d xs
      → Yields
          (λ r. (ys : List S) × (xs ++ (v ∷ []) ≡ r.0 ∷ ys) × Holds r.1 ys)
          (process_single d v)
  unfolding process_single biquad_single
  process_single-Holds d xs v (plain, queued) =
      let (r, e, (ys, s, q)) = queue_single-Queued d.queue xs v queued in
      rw (e, plain) (_, refl, (ys, s, (refl, q)))

  pub new-Holds :
      (samplerate n : ℕ) (delay : S)
      → a.to_ℕ (a.round delay) ≡ n
      → Holds (new samplerate delay false) (replicate n nought)
  unfolding new
  new-Holds samplerate zero delay e = rw e (refl, refl)
  new-Holds samplerate (suc n) delay e =
      let room : 0 + suc n ≤ fifo.capacity (rb.new (suc n)) =
        omega (arith, fifo.capacity-new (suc n)) in
      let (c, cap) =
        fill-contents fifo nought (suc n) (rb.new (suc n)) [] (fifo.contents-new (suc n)) room in
      let size = length-replicate {A = S} n nought in
      rw (e, lt→ltb 0 (suc n) (omega arith))
        (refl, (omega arith, c, cap ∙ fifo.capacity-new (suc n) ∙ ap suc (sym size)))

  -- A delay of `n` whole samples that is built from a configuration holds `n` zeros.
  pub from_config-Holds :
      (samplerate n : ℕ) (conf : DelayParameters S)
      → unwrap_or conf.subsample false ≡ false
      → a.to_ℕ (a.round (delay_samples samplerate conf)) ≡ n
      → Holds (from_config samplerate conf) (replicate n nought)
  unfolding from_config
  from_config-Holds samplerate n conf whole_samples e =
      rw whole_samples (new-Holds samplerate n (delay_samples samplerate conf) e)
