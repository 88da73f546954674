-- ===== src/Filters/Biquad.antt =====
-- filters/biquad.rs: the biquad filter in direct form 2 transposed, and what flushing keeps.
use astra_camilla_dsp.Common.{ℕ, suc, ◌≡◌, refl, ap, ap₂, subst, Bool, ◌&&◌, some, List, [], ◌∷◌}
use astra_camilla_dsp.Common.{if◌then◌else◌, length, some-eq}
use astra_camilla_dsp.Arith.{Arith, ◌⊕◌, ◌⊖◌, ◌⊗◌, nought}
use astra_camilla_dsp.Pipeline.{FilterTrait, local_filter}
use astra_camilla_dsp.Pipeline.Merge.{KeepsLength, local_filter-KeepsLength}

pub record BiquadCoefficients (S : Type 0) : Type 0 where
  pub a1 : S
  pub a2 : S
  pub b0 : S
  pub b1 : S
  pub b2 : S

pub record Biquad (S : Type 0) : Type 0 where
  pub samplerate : ℕ
  pub s1 : S
  pub s2 : S
  pub coeffs : BiquadCoefficients S

module _ {S : Type 0} ⦃a : Arith S⦄ where
  pub coefficients : S → S → S → S → S → BiquadCoefficients S
  coefficients a1 a2 b0 b1 b2 = record { a1 = a1; a2 = a2; b0 = b0; b1 = b1; b2 = b2 }

  pub is_stable : BiquadCoefficients S → Bool
  is_stable c = a.lt (a.abs c.a2) (a.lit 1 1) && a.lt (a.abs c.a1) (c.a2 ⊕ a.lit 1 1)

  pub new : ℕ → BiquadCoefficients S → Biquad S
  new samplerate coefficients = record {
    samplerate = samplerate;
    s1 = nought;
    s2 = nought;
    coeffs = coefficients;
  }

  pub process_single : Biquad S → S → S × Biquad S
  process_single f input =
      let c = f.coeffs in
      let out = f.s1 ⊕ c.b0 ⊗ input in
      (out, record f { s1 = f.s2 ⊕ c.b1 ⊗ input ⊖ c.a1 ⊗ out; s2 = c.b2 ⊗ input ⊖ c.a2 ⊗ out })

  pub flush : S → S
  flush s = if a.is_subnormal s then nought else s

  pub flush_subnormals : Biquad S → Biquad S
  flush_subnormals f = record f { s1 = flush f.s1; s2 = flush f.s2 }

  -- The samples one by one, then the flush.
  pub process_samples : Biquad S → List S → List S × Biquad S
  process_samples f [] = ([], f)
  process_samples f (x ∷ w) =
      let (y, g) = process_single f x in let (ys, h) = process_samples g w in (y ∷ ys, h)

  pub process_waveform : Biquad S → List S → List S × Biquad S
  process_waveform f w = let (out, g) = process_samples f w in (out, flush_subnormals g)

  length-process_samples : (f : Biquad S) (w : List S) → length (process_samples f w).0 ≡ length w
  unfolding process_samples
  length-process_samples f [] = refl
  length-process_samples f (x ∷ w) = ap suc (length-process_samples (process_single f x).1 w)

  pub process_waveform-length :
      (f : Biquad S) (w : List S) → length (process_waveform f w).0 ≡ length w
  unfolding process_waveform
  process_waveform-length f w = length-process_samples f w

  instance abbrev pub biquad_filter : {W : Type 0} → FilterTrait S (Biquad S) W
  biquad_filter = local_filter (λ f w. some (process_waveform f w))

  pub biquad-KeepsLength : {W : Type 0} → KeepsLength (biquad_filter {W = W})
  biquad-KeepsLength =
      local_filter-KeepsLength _
        λ f w r e. subst (λ r. length r.0 ≡ length w) (some-eq e) (process_waveform-length f w)

  -- The difference equation with two samples of history: the outputs for the inputs `xs`, where
  -- `x1`, `x2` and `y1`, `y2` are the inputs and outputs before them.
  pub direct_form : BiquadCoefficients S → S → S → S → S → List S → List S
  direct_form c x1 x2 y1 y2 [] = []
  direct_form c x1 x2 y1 y2 (x ∷ xs) =
      let y = c.b2 ⊗ x2 ⊖ c.a2 ⊗ y2 ⊕ c.b1 ⊗ x1 ⊖ c.a1 ⊗ y1 ⊕ c.b0 ⊗ x in
      y ∷ direct_form c x x1 y y1 xs

  -- The state after the inputs `x2`, `x1` and the outputs `y2`, `y1`.
  abbrev pub Remembers : Biquad S → S → S → S → S → Type 0
  Remembers f x1 x2 y1 y2 =
      let c = f.coeffs in
      (f.s1 ≡ c.b2 ⊗ x2 ⊖ c.a2 ⊗ y2 ⊕ c.b1 ⊗ x1 ⊖ c.a1 ⊗ y1) × (f.s2 ≡ c.b2 ⊗ x1 ⊖ c.a2 ⊗ y1)

  -- The samples that a biquad puts out are those of the difference equation, rounded at the same
  -- places, for any state that remembers the two inputs and outputs before them.
  pub process_samples-direct_form :
      (f : Biquad S) (x1 x2 y1 y2 : S) (w : List S)
      → Remembers f x1 x2 y1 y2
      → (process_samples f w).0 ≡ direct_form f.coeffs x1 x2 y1 y2 w
  unfolding process_samples process_single direct_form
  process_samples-direct_form f x1 x2 y1 y2 [] r = refl
  process_samples-direct_form f x1 x2 y1 y2 (x ∷ w) r =
      let c = f.coeffs in
      let out = f.s1 ⊕ c.b0 ⊗ x in
      let y = c.b2 ⊗ x2 ⊖ c.a2 ⊗ y2 ⊕ c.b1 ⊗ x1 ⊖ c.a1 ⊗ y1 ⊕ c.b0 ⊗ x in
      let e : out ≡ y = ap (λ s. s ⊕ c.b0 ⊗ x) r.0 in
      let next = (process_single f x).1 in
      let keeps : Remembers next x x1 y y1 =
        (ap₂ (λ s o. s ⊕ c.b1 ⊗ x ⊖ c.a1 ⊗ o) r.1 e, ap (λ o. c.b2 ⊗ x ⊖ c.a2 ⊗ o) e) in
      ap₂ ◌∷◌ e (process_samples-direct_form next x x1 y y1 w keeps)
