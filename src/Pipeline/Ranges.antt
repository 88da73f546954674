-- ===== src/Pipeline/Ranges.antt =====
-- pipeline.rs and config/utils.rs: the channels of steps that pass validation are in range.
use astra_camilla_dsp.Common.{ℕ, zero, suc, ◌+◌, ◌≤◌, ◌<◌, ◌≡◌, refl, false, Option, none, some}
use astra_camilla_dsp.Common.{List, [], ◌∷◌, ◌++◌, arith, is_empty, All, range_from, Check}
use astra_camilla_dsp.Common.{then_check-accepted, accepted, rejected}
use astra_camilla_dsp.Config.Validate.{check_channels, check_step_channels, map_err}
use astra_camilla_dsp.Config.Pipeline.{PipelineStep, mixer, filter, processor, is_bypassed}
use astra_camilla_dsp.Pipeline.{Step, mixer_step, filter_step, processor_step}
use astra_camilla_dsp.Pipeline.Build.{step_channels}
use astra_camilla_dsp.Pipeline.Widths.{Fit, width}

module _ {S F P : Type 0} where
  pub Fit-append :
      (n : ℕ) (xs ys : List (Step S F P))
      → Fit n xs
      → Fit (width n xs) ys
      → Fit n (xs ++ ys) × (width n (xs ++ ys) ≡ width (width n xs) ys)
  Fit-append n [] ys h k = (k, refl)
  Fit-append n (mixer_step m ∷ xs) ys h k =
      let (f, w) = Fit-append m.channels_out xs ys h.2 k in ((h.0, h.1, f), w)
  Fit-append n (filter_step g ∷ xs) ys h k = let (f, w) = Fit-append n xs ys h.1 k in ((h.0, f), w)
  Fit-append n (Step.parallel_step p ∷ xs) ys h k = Fit-append n xs ys h k
  Fit-append n (processor_step p ∷ xs) ys h k = Fit-append n xs ys h k

pub map_err-accepted {ℓ κ} :
    {A : Type ℓ} {B : Type κ} (f : A → B) (c : Check A) → map_err f c ≡ accepted → c ≡ accepted
map_err-accepted f accepted h = refl
map_err-accepted f (rejected e) h = cc

check_channels-lt :
    {E : Type 0} (n : ℕ) (cs : List ℕ)
    → check_channels {E = E} n cs ≡ accepted
    → All (λ c. c < n) cs
unfolding check_channels
check_channels-lt n [] h = tt
check_channels-lt {E} n (c ∷ cs) h = ground (arith, check_channels-lt {E = E} n cs)

range_from-lt : (n start k : ℕ) → start + k ≤ n → All (λ c. c < n) (range_from start k)
range_from-lt n start zero h = tt
range_from-lt n start (suc k) h = (omega arith, range_from-lt n (start + 1) k (omega arith))

pub step_channels-lt :
    {E : Type 0} (n : ℕ) (channels : Option (List ℕ))
    → check_step_channels {E = E} n channels ≡ accepted
    → All (λ c. c < n) (step_channels channels n)
unfolding check_step_channels
step_channels-lt n none h = range_from-lt n 0 n (omega arith)
step_channels-lt {E} n (some cs) h =
    check_channels-lt {E = E} n cs (then_check-accepted (check_channels n cs) _ h).0

-- A filter step that is not bypassed names a filter.
abbrev pub Named : PipelineStep → Type 0
Named (mixer s) = Unit {0}
Named (filter s) = is_bypassed s.bypassed ≡ false → is_empty s.names ≡ false
Named (processor s) = Unit {0}
