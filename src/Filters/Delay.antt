-- ===== src/Filters/Delay.antt =====
-- filters/basicfilters.rs: `Delay`. The ring buffer of the crate ringbuf is a parameter: its
-- operations, and what they do to its contents as far as the filter relies on it.
pub mod Fifo
pub mod Single
use astra_camilla_dsp.Common.{ℕ, zero, suc, ◌≡◌, refl, ap, ◌∙◌, subst, Bool, false, not, Option}
use astra_camilla_dsp.Common.{none, some, List, [], ◌∷◌, ltb, if◌then◌else◌, length, ◌>>=◌}
use astra_camilla_dsp.Common.{>>=-eq-some, some-eq}
use astra_camilla_dsp.Filters.Biquad as Bq
use astra_camilla_dsp.Arith.{Arith, ◌⊕◌, ◌⊖◌, ◌⊗◌, ◌⊘◌, nought}
use astra_camilla_dsp.Config.Mixer.{unwrap_or}
use astra_camilla_dsp.Filters.Biquad.{Biquad, coefficients}
use astra_camilla_dsp.Pipeline.{FilterTrait, local_filter}
use astra_camilla_dsp.Pipeline.Merge.{KeepsLength, local_filter-KeepsLength}

pub record RingBuffer (S Q : Type 0) : Type 0 where
  pub new : ℕ → Q
  pub try_push : Q → S → Q
  pub push_overwrite : Q → S → Option S × Q

pub data TimeUnit : Type 0 where
  microseconds milliseconds millimetres samples : TimeUnit

pub record DelayParameters (S : Type 0) : Type 0 where
  pub delay : S
  pub unit : Option TimeUnit
  pub subsample : Option Bool

pub record Delay (S Q : Type 0) : Type 0 where
  pub samplerate : ℕ
  pub queue : Option Q
  pub biquad : Option (Biquad S)

module _ {S : Type 0} ⦃a : Arith S⦄ where
  -- The second order allpass, for the samples and the fraction that are left of the delay.
  second_order : ℕ → S → S → ℕ × Option (Biquad S)
  second_order samplerate whole_samples fraction =
      let (one, two) : S × S = (a.lit 1 1, a.lit 2 1) in
      let coeff1 = two ⊗ (two ⊖ fraction) ⊘ (one ⊕ fraction) in
      let coeff2 = (two ⊖ fraction) ⊘ (two ⊕ fraction) ⊗ (one ⊖ fraction) ⊘ (one ⊕ fraction) in
      (
        a.to_ℕ whole_samples,
        some (Bq.new samplerate (coefficients coeff1 coeff2 coeff2 coeff1 one)),
      )

  pub build_subsample_biquad : S → ℕ → ℕ × Option (Biquad S)
  unfolding second_order
  build_subsample_biquad delay samplerate =
      let one : S = a.lit 1 1 in
      let coeff = (one ⊖ delay) ⊘ (one ⊕ delay) in
      let whole_samples = a.floor delay ⊖ one in
      let fraction = delay ⊖ a.floor delay ⊕ one in
      if a.lt delay (a.lit 1 10)
      then (0, none)
      else if a.lt delay (a.lit 11 10)
      then (0, some (Bq.new samplerate (coefficients coeff nought coeff one nought)))
      else if a.lt fraction (a.lit 11 10)
      then second_order samplerate (whole_samples ⊖ one) (fraction ⊕ one)
      else second_order samplerate whole_samples fraction

  -- The delay of a configuration in samples.
  unfoldable pub delay_samples : ℕ → DelayParameters S → S
  delay_samples samplerate conf = in_samples (unwrap_or conf.unit milliseconds)
    where
      in_samples : TimeUnit → S
      in_samples microseconds = conf.delay ⊘ a.lit 1000000 1 ⊗ a.of_ℕ samplerate
      in_samples milliseconds = conf.delay ⊘ a.lit 1000 1 ⊗ a.of_ℕ samplerate
      in_samples millimetres = conf.delay ⊘ a.lit 1000 1 ⊗ a.of_ℕ samplerate ⊘ a.lit 343 1
      in_samples samples = conf.delay

  unfoldable pub validate_delay_config : DelayParameters S → Bool
  validate_delay_config conf = not (a.lt conf.delay nought)

  biquad_single : Option (Biquad S) → S → S × Option (Biquad S)
  biquad_single none value = (value, none)
  biquad_single (some bq) value = let (out, bq') = Bq.process_single bq value in (out, some bq')

  pub run_biquad : Option (Biquad S) → List S → List S × Option (Biquad S)
  run_biquad none waveform = (waveform, none)
  run_biquad (some bq) waveform =
      let (out, bq') = Bq.process_waveform bq waveform in (out, some bq')

  run_biquad-length : (b : Option (Biquad S)) (w : List S) → length (run_biquad b w).0 ≡ length w
  unfolding run_biquad
  run_biquad-length none w = refl
  run_biquad-length (some bq) w = Bq.process_waveform-length bq w

module _ {S Q : Type 0} ⦃a : Arith S⦄ ⦃rb : RingBuffer S Q⦄ where
  -- `for _ in 0..integerdelay { let _ = q.try_push(0.0); }`
  pub fill : S → ℕ → Q → Q
  fill v zero q = q
  fill v (suc n) q = fill v n (rb.try_push q v)

  unfoldable pub new : ℕ → S → Bool → Delay S Q
  new samplerate delay subsample =
      let (integerdelay, biquad) =
        if subsample
        then build_subsample_biquad delay samplerate
        else (a.to_ℕ (a.round delay), none) in
      record {
        samplerate = samplerate;
        queue =
            if ltb 0 integerdelay
            then some (fill nought integerdelay (rb.new integerdelay))
            else none;
        biquad = biquad;
      }

  pub from_config : ℕ → DelayParameters S → Delay S Q
  from_config samplerate conf =
      new samplerate (delay_samples samplerate conf) (unwrap_or conf.subsample false)

  abbrev pub update_parameters : Delay S Q → DelayParameters S → Delay S Q
  update_parameters d conf = from_config d.samplerate conf

  queue_single : Option Q → S → Option (S × Option Q)
  queue_single none input = some (input, none)
  queue_single (some q) input =
      let (popped, q') = rb.push_overwrite q input in do value ← popped; some (value, some q')

  pub process_single : Delay S Q → S → Option (S × Delay S Q)
  process_single d input = do
    queued ← queue_single d.queue input
    let filtered = biquad_single d.biquad queued.0
    some (filtered.0, record d { queue = queued.1; biquad = filtered.1 })

  -- The loop over the samples; unwrapping what an unfilled queue returns panics.
  pub push_all : Q → List S → Option (List S × Q)
  push_all q [] = some ([], q)
  push_all q (item ∷ waveform) =
      let (popped, q') = rb.push_overwrite q item in
      do first ← popped; rest ← push_all q' waveform; some (first ∷ rest.0, rest.1)

  push_all-length :
      (q : Q) (w : List S) {r : List S × Q} → push_all q w ≡ some r → length r.0 ≡ length w
  unfolding push_all
  push_all-length q [] e = subst (λ r. length r.0 ≡ 0) (some-eq e) refl
  push_all-length q (x ∷ w) {r = r} e =
      let (first, e₁, e₂) = >>=-eq-some (rb.push_overwrite q x).0 _ e in
      let (rest, e₃, e₄) = >>=-eq-some (push_all (rb.push_overwrite q x).1 w) _ e₂ in
      subst (λ r. length r.0 ≡ suc (length w)) (some-eq e₄)
        (ap suc (push_all-length (rb.push_overwrite q x).1 w e₃))

  pub run_queue : Option Q → List S → Option (List S × Option Q)
  run_queue none waveform = some (waveform, none)
  run_queue (some q) waveform = do out ← push_all q waveform; some (out.0, some out.1)

  unfoldable pub process_waveform : Delay S Q → List S → Option (List S × Delay S Q)
  process_waveform d waveform = do
    queued ← run_queue d.queue waveform
    let filtered = run_biquad d.biquad queued.0
    some (filtered.0, record d { queue = queued.1; biquad = filtered.1 })

  instance abbrev pub delay_filter : {W : Type 0} → FilterTrait S (Delay S Q) W
  delay_filter = local_filter process_waveform

  run_queue-length :
      (q : Option Q) (w : List S) {r : List S × Option Q}
      → run_queue q w ≡ some r
      → length r.0 ≡ length w
  unfolding run_queue
  run_queue-length none w e = subst (λ r. length r.0 ≡ length w) (some-eq e) refl
  run_queue-length (some q) w {r = r} e =
      let (out, e₁, e₂) = >>=-eq-some (push_all q w) _ e in
      subst (λ r. length r.0 ≡ length w) (some-eq e₂) (push_all-length q w e₁)

  pub delay-KeepsLength : {W : Type 0} → KeepsLength (delay_filter {W = W})
  unfolding process_waveform
  delay-KeepsLength = local_filter-KeepsLength _ λ d w r e.
      let (queued, e₁, e₂) = >>=-eq-some (run_queue d.queue w) _ e in
      subst (λ r. length r.0 ≡ length w) (some-eq e₂)
        (run_biquad-length d.biquad queued.0 ∙ run_queue-length d.queue w e₁)
