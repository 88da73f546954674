-- ===== src/Filters/DiffEq/Stream.antt =====
-- filters/diffeq.rs: waveforms through the difference equation.
use astra_camilla_dsp.Common.{ℕ, zero, suc, ◌+◌, ◌-◌, ◌%◌, ◌<◌, ◌≡◌, refl, ap, ap₂, ◌∙◌, subst}
use astra_camilla_dsp.Common.{some, List, [], ◌∷◌, map, arith, length, get_elem?, replicate}
use astra_camilla_dsp.Common.{length-replicate, length-map, some-eq, Yields}
use native.Mathlib.Nat.{mod-lt}
use astra_camilla_dsp.Arith.{Arith, nought}
use astra_camilla_dsp.Filters.DiffEq.{DiffEq, new, or_one, flush, flush_subnormals}
use astra_camilla_dsp.Filters.DiffEq.{process_samples, process_waveform}
use astra_camilla_dsp.Filters.DiffEq.History.{Holds, push, equation, Remembers}
use astra_camilla_dsp.Filters.DiffEq.History.{process_single-Remembers}

get_elem?-replicate : {A : Type 0} (n i : ℕ) (v : A) → i < n → get_elem? (replicate n v) i ≡ some v
get_elem?-replicate zero i v h = absurd (omega arith)
get_elem?-replicate (suc n) zero v h = refl
get_elem?-replicate (suc n) (suc i) v h = get_elem?-replicate n i v (omega arith)

get_elem?-map :
    {A B : Type 0} (f : A → B) (xs : List A) (i : ℕ) {v : A}
    → get_elem? xs i ≡ some v
    → get_elem? (map f xs) i ≡ some (f v)
get_elem?-map f [] i h = cc
get_elem?-map f (x ∷ xs) zero h = ap (λ o. some (f o)) (some-eq h)
get_elem?-map f (x ∷ xs) (suc i) h = get_elem?-map f xs i h

module _ {S : Type 0} ⦃r : Arith S⦄ where
  -- The values of the difference equation for the inputs of a waveform, from the histories on.
  abbrev pub equation_outputs : List S → List S → (ℕ → S) → (ℕ → S) → List S → List S
  equation_outputs a b hx hy [] = []
  equation_outputs a b hx hy (x ∷ xs) =
      equation a b hx hy x ∷ equation_outputs a b (push x hx) (push (equation a b hx hy x) hy) xs

  -- The history behind a waveform.
  abbrev pub behind : List S → (ℕ → S) → ℕ → S
  behind [] h = h
  behind (x ∷ xs) h = behind xs (push x h)

  process_samples-Remembers :
      (f : DiffEq S) (hx hy : ℕ → S) (w : List S)
      → Remembers f hx hy
      → Yields
          (λ out.
            (out.0 ≡ equation_outputs f.a f.b hx hy w)
            × Remembers out.1 (behind w hx) (behind (equation_outputs f.a f.b hx hy w) hy)
            × ((out.1).a ≡ f.a)
            × ((out.1).b ≡ f.b))
          (process_samples f w)
  unfolding process_samples
  process_samples-Remembers f hx hy [] m = (([], f), refl, (refl, m, refl, refl))
  process_samples-Remembers f hx hy (x ∷ w) m =
      let (one, e, (v, m', ea, eb)) = process_single-Remembers f hx hy x m in
      let y = equation f.a f.b hx hy x in
      let (out, e', (vs, m'', ea', eb')) =
        process_samples-Remembers one.1 (push x hx) (push y hy) w m' in
      let same = ap₂ (λ a b. equation_outputs a b (push x hx) (push y hy) w) ea eb in
      rw (e, e')
        (
          (one.0 ∷ out.0, out.1),
          refl,
          (
            ap₂ ◌∷◌ v (vs ∙ same),
            subst (λ ys. Remembers out.1 (behind w (push x hx)) (behind ys (push y hy))) same m'',
            ea' ∙ ea,
            eb' ∙ eb,
          ),
        )

  flush-Holds :
      (buffer : List S) (len idx : ℕ) (h : ℕ → S)
      → Holds buffer len idx h
      → Holds (map flush buffer) len idx (λ k. flush (h k))
  flush-Holds buffer len idx h b = record {
    size = length-map buffer flush ∙ b.size;
    here = b.here;
    held = λ k lt. get_elem?-map flush buffer ((idx + len - k) % len) (b.held k lt);
  }

  -- A filter that remembers its history does not panic on a waveform: it puts out the values of the
  -- difference equation, keeps its coefficients, and remembers the history behind the waveform, in
  -- which subnormal values are flushed to 0.0.
  pub process_waveform-Remembers :
      (f : DiffEq S) (hx hy : ℕ → S) (w : List S)
      → Remembers f hx hy
      → Yields
          (λ out.
            (out.0 ≡ equation_outputs f.a f.b hx hy w)
            × Remembers out.1
                (λ k. flush (behind w hx k))
                (λ k. flush (behind (equation_outputs f.a f.b hx hy w) hy k))
            × ((out.1).a ≡ f.a)
            × ((out.1).b ≡ f.b))
          (process_waveform f w)
  unfolding process_waveform flush_subnormals
  process_waveform-Remembers f hx hy w m =
      let (out, e, (v, m', ea, eb)) = process_samples-Remembers f hx hy w m in
      let g = out.1 in
      rw e (
        (out.0, flush_subnormals g),
        refl,
        (
          v,
          record {
            inputs = flush-Holds g.x g.b_len g.idx_x (behind w hx) m'.inputs;
            outputs = flush-Holds g.y g.a_len g.idx_y _ m'.outputs;
            b_size = m'.b_size;
            a_size = m'.a_size;
          },
          ea,
          eb,
        ),
      )

  or_one-pos : (cs : List S) → 0 < length (or_one cs)
  unfolding or_one
  or_one-pos [] = omega arith
  or_one-pos (c ∷ cs) = omega arith

  silent-Holds : (n : ℕ) → 0 < n → Holds {S = S} (replicate n nought) n 0 (λ _. nought)
  silent-Holds n h = record {
    size = length-replicate n nought;
    here = h;
    held = λ k lt. get_elem?-replicate n ((0 + n - k) % n) nought (mod-lt (0 + n - k) h);
  }

  -- A new filter, whatever its coefficients, remembers histories of nothing but 0.0; where a list of
  -- coefficients is empty, it has the one coefficient 1.0.
  pub new-Remembers :
      (a b : List S)
      → Remembers (new a b) (λ _. nought) (λ _. nought)
        × ((new a b).a ≡ or_one a)
        × ((new a b).b ≡ or_one b)
  unfolding new
  new-Remembers a b = (
    record {
      inputs = silent-Holds (length (or_one b)) (or_one-pos b);
      outputs = silent-Holds (length (or_one a)) (or_one-pos a);
      b_size = refl;
      a_size = refl;
    },
    refl,
    refl,
  )
