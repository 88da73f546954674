-- ===== src/Filters/Delay/Fifo.antt =====
-- filters/basicfilters.rs: the samples that a `Delay` puts out are those it took in, late.
use astra_camilla_dsp.Common.{ℕ, zero, suc, ◌+◌, ◌≤◌, ◌<◌, ◌≡◌, refl, sym, ap, ap₂, ◌∙◌, false}
use astra_camilla_dsp.Common.{Option, none, some, List, [], ◌∷◌, ◌++◌, map, append-nil}
use astra_camilla_dsp.Common.{append_assoc, arith, lt→ltb, length, take, replicate, concat}
use astra_camilla_dsp.Common.{length-append, length-replicate, take-length, take-append}
use astra_camilla_dsp.Common.{length-concat, ◌>>=◌, Yields}
use astra_camilla_dsp.Arith.{Arith, nought}
use astra_camilla_dsp.Filters.Delay.{RingBuffer, Delay, fill, new, push_all, run_queue}
use astra_camilla_dsp.Filters.Delay.{run_biquad, process_waveform}

-- What the filter relies on of the crate ringbuf, as its documentation says: a queue holds up to
-- its capacity of samples, oldest first; pushing onto a full one gives back the oldest.
pub record IsFifo {S Q : Type 0} (rb : RingBuffer S Q) : Type 0 where
  pub contents : Q → List S
  pub capacity : Q → ℕ
  pub contents-new : (n : ℕ) → contents (rb.new n) ≡ []
  pub capacity-new : (n : ℕ) → capacity (rb.new n) ≡ n
  pub capacity-try_push : (q : Q) (v : S) → capacity (rb.try_push q v) ≡ capacity q
  pub contents-try_push :
      (q : Q) (v : S)
      → length (contents q) < capacity q
      → contents (rb.try_push q v) ≡ contents q ++ (v ∷ [])
  pub capacity-push_overwrite : (q : Q) (v : S) → capacity (rb.push_overwrite q v).1 ≡ capacity q
  pub popped :
      (q : Q) (v x : S) (xs : List S)
      → contents q ≡ x ∷ xs
      → length (contents q) ≡ capacity q
      → (rb.push_overwrite q v).0 ≡ some x
  pub contents-push_overwrite :
      (q : Q) (v x : S) (xs : List S)
      → contents q ≡ x ∷ xs
      → length (contents q) ≡ capacity q
      → contents (rb.push_overwrite q v).1 ≡ xs ++ (v ∷ [])

module _ {S Q : Type 0} ⦃a : Arith S⦄ ⦃rb : RingBuffer S Q⦄ (fifo : IsFifo rb) where
  -- A full queue of `n` samples.
  abbrev pub IsFull : ℕ → Q → Type 0
  IsFull n q = (length (fifo.contents q) ≡ n) × (fifo.capacity q ≡ n)

  -- What goes in behind the contents comes out behind them.
  abbrev pub Shifts : ℕ → List S → List S → List S × Q → Type 0
  Shifts n before w r =
      (r.0 ++ fifo.contents r.1 ≡ before ++ w) × (length r.0 ≡ length w) × IsFull n r.1

  push_all-Shifts :
      (n : ℕ) (q : Q) (w before : List S)
      → 0 < n
      → IsFull n q
      → fifo.contents q ≡ before
      → Yields (Shifts n before w) (push_all q w)
  unfolding push_all
  push_all-Shifts n q [] before h full e =
      (([], q), refl, (e ∙ sym (append-nil before), refl, full))
  push_all-Shifts n q (v ∷ w) [] h full e = absurd (omega (arith, full.0, ap length e))
  push_all-Shifts n q (v ∷ w) (x ∷ xs) h full e =
      let at_capacity = full.0 ∙ sym full.1 in
      let q' = (rb.push_overwrite q v).1 in
      let held : fifo.contents q' ≡ xs ++ (v ∷ []) =
        fifo.contents-push_overwrite q v x xs e at_capacity in
      let same : length (xs ++ (v ∷ [])) ≡ suc (length xs) =
        omega (arith, length-append xs (v ∷ [])) in
      let full' : IsFull n q' = (
        ap length held ∙ same ∙ sym (ap length e) ∙ full.0,
        fifo.capacity-push_overwrite q v ∙ full.1,
      ) in
      let (r, e', (s, l, f)) = push_all-Shifts n q' w (xs ++ (v ∷ [])) h full' held in
      rw (fifo.popped q v x xs e at_capacity, e')
        ((x ∷ r.0, r.1), refl, (ap (λ t. x ∷ t) (s ∙ append_assoc xs (v ∷ []) w), ap suc l, f))

  pub fill-contents :
      (v : S) (k : ℕ) (q : Q) (before : List S)
      → fifo.contents q ≡ before
      → length before + k ≤ fifo.capacity q
      → (fifo.contents (fill v k q) ≡ before ++ replicate k v)
        × (fifo.capacity (fill v k q) ≡ fifo.capacity q)
  unfolding fill
  fill-contents v zero q before e h = (e ∙ sym (append-nil before), refl)
  fill-contents v (suc k) q before e h =
      let cap = fifo.capacity-try_push q v in
      let held : fifo.contents (rb.try_push q v) ≡ before ++ (v ∷ []) =
        fifo.contents-try_push q v (omega (arith, ap length e)) ∙ ap (λ t. t ++ (v ∷ [])) e in
      let (c, d) =
        fill-contents v k (rb.try_push q v) (before ++ (v ∷ [])) held
          (omega (arith, cap, length-append before (v ∷ []))) in
      (c ∙ append_assoc before (v ∷ []) (replicate k v), d ∙ cap)

  -- The waveforms in turn.
  pub feed : Delay S Q → List (List S) → Option (List (List S) × Delay S Q)
  feed d [] = some ([], d)
  feed d (w ∷ ws) = do
    first ← process_waveform d w
    rest ← feed first.1 ws
    some (first.0 ∷ rest.0, rest.1)

  feed-none :
      (d : Delay S Q) (ws : List (List S))
      → d.queue ≡ none
      → d.biquad ≡ none
      → Yields (λ r. r.0 ≡ ws) (feed d ws)
  unfolding feed process_waveform run_queue run_biquad
  feed-none d [] e e' = (([], d), refl, refl)
  feed-none d (w ∷ ws) e e' =
      let (r, k, l) = feed-none (record d { queue = none; biquad = none }) ws refl refl in
      rw (e, e', k) (_, refl, ap (λ t. w ∷ t) l)

  feed-some :
      (n : ℕ) (d : Delay S Q) (q : Q) (ws : List (List S)) (before : List S)
      → 0 < n
      → d.queue ≡ some q
      → d.biquad ≡ none
      → IsFull n q
      → fifo.contents q ≡ before
      → Yields
          (λ r.
            (after : List S) × (concat r.0 ++ after ≡ before ++ concat ws)
            × (map length r.0 ≡ map length ws))
          (feed d ws)
  unfolding feed process_waveform run_queue run_biquad
  feed-some n d q [] before h e e' full c = (([], d), refl, (before, sym (append-nil before), refl))
  feed-some n d q (w ∷ ws) before h e e' full c =
      let (r, k, (s, l, f)) = push_all-Shifts n q w before h full c in
      let d' = record d { queue = some r.1; biquad = none } in
      let (r', k', (after, s', l')) =
        feed-some n d' r.1 ws (fifo.contents r.1) h refl refl f refl in
      rw (e, k, e', k')
        (
          (r.0 ∷ r'.0, r'.1),
          refl,
          (
            after,
            append_assoc r.0 (concat r'.0) after
                ∙ ap (λ t. r.0 ++ t) s'
                ∙ sym (append_assoc r.0 (fifo.contents r.1) (concat ws))
                ∙ ap (λ t. t ++ concat ws) s
                ∙ append_assoc before w (concat ws),
            ap₂ ◌∷◌ l l',
          ),
        )

  -- A new delay of `n` whole samples never panics, whatever waveforms it is given in turn: each comes
  -- out as long as it went in, and together they are the samples that went in, behind `n` zeros. The
  -- queue is assumed to be a queue, as its crate says.
  pub new-feed :
      (samplerate n : ℕ) (delay : S) (ws : List (List S))
      → a.to_ℕ (a.round delay) ≡ n
      → Yields
          (λ r.
            (concat r.0 ≡ take (length (concat ws)) (replicate n nought ++ concat ws))
            × (map length r.0 ≡ map length ws))
          (feed (new samplerate delay false) ws)
  unfolding new
  new-feed samplerate zero delay ws e =
      let (r, k, l) = feed-none (new {Q = Q} samplerate delay false) ws (rw e refl) refl in
      (r, k, (rw l (sym (take-length (concat ws))), ap (map length) l))
  new-feed samplerate (suc n) delay ws e =
      let room : 0 + suc n ≤ fifo.capacity (rb.new (suc n)) =
        omega (arith, fifo.capacity-new (suc n)) in
      let q : Q = fill nought (suc n) (rb.new (suc n)) in
      let (c, cap) =
        fill-contents nought (suc n) (rb.new (suc n)) [] (fifo.contents-new (suc n)) room in
      let full : IsFull (suc n) q =
        (ap length c ∙ length-replicate (suc n) nought, cap ∙ fifo.capacity-new (suc n)) in
      let (r, k, (after, s, l)) =
        feed-some (suc n) (new samplerate delay false) q ws (replicate (suc n) nought) (omega arith)
          (rw (e, lt→ltb 0 (suc n) (omega arith)) refl) refl full c in
      let same : length (concat r.0) ≡ length (concat ws) = length-concat r.0 ws l in
      (r, k, (sym (ap₂ take (sym same) (sym s) ∙ take-append (concat r.0) after), l))
