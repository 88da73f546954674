-- ===== src/Processors/NoiseGate/Lengths.antt =====
-- processors/noisegate.rs: the lengths of what the noise gate sums, estimates and copies.
use astra_camilla_dsp.Common.{ℕ, zero, suc, ◌≤◌, ◌<◌, ◌≡◌, refl, sym, ap, ◌∙◌, ◌≢◌, inl, inr}
use astra_camilla_dsp.Common.{Bool, true, false, ◌||◌, not, some, List, [], ◌∷◌, map, arith, ◌==◌}
use astra_camilla_dsp.Common.{if◌then◌else◌, ==_iff, Bool-cases, contains, length, is_empty}
use astra_camilla_dsp.Common.{get_elem?, set, All, length-map, get_elem?-lt, All-get_elem?}
use astra_camilla_dsp.Common.{some-eq, Yields}
use astra_camilla_dsp.Arith.{Arith}
use astra_camilla_dsp.Processors.NoiseGate.{copy_into, add_waveform, sum_channels}
use astra_camilla_dsp.Processors.NoiseGate.{estimate_loudness, apply_gain}

pub contains-false :
    (c : ℕ) (cs : List ℕ) (j : ℕ) → contains (c ∷ cs) j ≡ false → (c ≢ j) × (contains cs j ≡ false)
contains-false c cs j h = elim (Bool-cases (c == j)) [
  | inl e ↦ let t : true ≡ false = rw e at h in cc
  | inr e ↦
      let later : contains cs j ≡ false = rw e at h in
      ((λ p. let t : true ≡ false = sym ((==_iff c j).1 p) ∙ e in cc), later)
]

module _ {S : Type 0} where
  copy_into-some :
      (scratch w : List S)
      → length w ≤ length scratch
      → Yields (λ r. length r ≡ length scratch) (copy_into scratch w)
  unfolding copy_into
  copy_into-some scratch [] h = (scratch, refl, refl)
  copy_into-some [] (x ∷ w) h = absurd (omega arith)
  copy_into-some (s ∷ scratch) (x ∷ w) h =
      let (r, e, l) = copy_into-some scratch w (omega arith) in rw e (x ∷ r, refl, ap suc l)

  pub map-length-set :
      (ws : List (List S)) (i : ℕ) (w v : List S)
      → get_elem? ws i ≡ some w
      → length v ≡ length w
      → map length (set ws i v) ≡ map length ws
  map-length-set [] i w v e l = refl
  map-length-set (x ∷ ws) zero w v e l =
      ap (λ n. n ∷ map length ws) (l ∙ ap length (sym (some-eq e)))
  map-length-set (x ∷ ws) (suc i) w v e l = ap (λ t. length x ∷ t) (map-length-set ws i w v e l)

  length-of-lengths :
      (xs ys : List (List S)) → map length xs ≡ map length ys → length xs ≡ length ys
  length-of-lengths xs ys e = sym (length-map xs length) ∙ ap length e ∙ length-map ys length

module _ {S : Type 0} ⦃a : Arith S⦄ where
  length-add_waveform : (s w : List S) → length (add_waveform s w) ≡ length s
  unfolding add_waveform
  length-add_waveform [] w = refl
  length-add_waveform (x ∷ s) [] = refl
  length-add_waveform (x ∷ s) (y ∷ w) = ap suc (length-add_waveform s w)

  pub length-apply_gain : (w gains : List S) → length (apply_gain w gains) ≡ length w
  unfolding apply_gain
  length-apply_gain [] gains = refl
  length-apply_gain (x ∷ w) [] = refl
  length-apply_gain (x ∷ w) (g ∷ gains) = ap suc (length-apply_gain w gains)

  pub length-estimate_loudness :
      (attack release : S) (s : List S) (prev : S)
      → length (estimate_loudness attack release prev s).0 ≡ length s
  unfolding estimate_loudness
  length-estimate_loudness attack release [] prev = refl
  length-estimate_loudness attack release (x ∷ s) prev =
      ap suc (length-estimate_loudness attack release s _)

  pub sum_channels-some :
      (ws : List (List S)) (chs : List ℕ) (summed : Bool) (scratch : List S)
      → All (λ ch. ch < length ws) chs
      → All (λ w. length w ≤ length scratch) ws
      → Yields (λ r. length r.1 ≡ length scratch) (sum_channels ws chs summed scratch)
  unfolding sum_channels
  sum_channels-some ws [] summed scratch h k = ((summed, scratch), refl, refl)
  sum_channels-some ws (ch ∷ chs) summed scratch h k =
      let (w, e) = get_elem?-lt ws ch h.0 in
      let (s, e', l) = step w summed (All-get_elem? (λ w. length w ≤ length scratch) ws ch k e) in
      let k' : All (λ w. length w ≤ length s) ws = rw l k in
      let (r, e'', l') = sum_channels-some ws chs (summed || not (is_empty w)) s h.1 k' in
      rw (e, e') (r, e'', l' ∙ l)
    where
      step :
          (w : List S) (summed : Bool)
          → length w ≤ length scratch
          → Yields
              (λ s. length s ≡ length scratch)
              (if is_empty w
                then some scratch
                else if summed
                then some (add_waveform scratch w)
                else copy_into scratch w)
      step [] summed h = (scratch, refl, refl)
      step (x ∷ w) true h = (_, refl, length-add_waveform scratch (x ∷ w))
      step (x ∷ w) false h = copy_into-some scratch (x ∷ w) h
