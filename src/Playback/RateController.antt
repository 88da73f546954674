-- ===== src/Playback/RateController.antt =====
-- utils/rate_controller.rs: the controller that adjusts the rate of a playback device.
use astra_camilla_dsp.Common.{ℕ, ◌+◌, ◌≤◌, ◌≡◌, refl, inl, inr, Bool, true, false, ◌&&◌, Option}
use astra_camilla_dsp.Common.{some, arith, ltb, leb, ◌==◌, if◌then◌else◌, ltb→lt, Bool-cases}
use astra_camilla_dsp.Common.{◌>>=◌, Yields}
use astra_camilla_dsp.Arith.{Arith, ◌⊕◌, ◌⊖◌, ◌⊗◌, ◌⊘◌, nought}
use astra_camilla_dsp.Filters.Limiter.{clamp, IsOrder, Within, clamp-Within}

pub record PiRateController (S : Type 0) : Type 0 where
  pub target_level : S
  pub interval : S
  pub k_p : S
  pub k_i : S
  pub frames_per_interval : S
  pub accumulated : S
  pub ramp_steps : ℕ
  pub ramp_trigger_limit : S
  pub ramp_start : S
  pub ramp_step : ℕ

if-gives : {A : Type 0} (P : A → Type 0) (b : Bool) {x y : A} → P x → P y → P (if b then x else y)
if-gives P true h k = h
if-gives P false h k = k

module _ {S : Type 0} ⦃a : Arith S⦄ where
  unfoldable pub new : ℕ → S → ℕ → S → S → ℕ → S → PiRateController S
  new fs interval target_level k_p k_i ramp_steps ramp_trigger_limit = record {
    target_level = a.of_ℕ target_level;
    interval = interval;
    k_p = k_p;
    k_i = k_i;
    frames_per_interval = interval ⊗ a.of_ℕ fs;
    accumulated = nought;
    ramp_steps = ramp_steps;
    ramp_trigger_limit = ramp_trigger_limit;
    ramp_start = a.of_ℕ target_level;
    ramp_step = 0;
  }

  unfoldable pub new_with_default_gains : ℕ → S → ℕ → PiRateController S
  unfolding new
  new_with_default_gains fs interval target_level =
      new fs interval target_level (a.lit 2 10) (a.lit 4 1000) 20 (a.lit 33 100)

  -- A new ramp where the level is far off behind a ramp.
  unfoldable pub restart_ramp : PiRateController S → S → PiRateController S
  restart_ramp c level =
      if leb c.ramp_steps c.ramp_step
        && a.lt c.ramp_trigger_limit (a.abs ((c.target_level ⊖ level) ⊘ c.target_level))
      then record c { ramp_start = level; ramp_step = 0 }
      else c

  -- A ramp begins at the measured level.
  unfoldable pub begin_ramp : PiRateController S → S → PiRateController S
  begin_ramp c level = if c.ramp_step == 0 then record c { ramp_start = level } else c

  unfoldable pub ramp_target : PiRateController S → ℕ → S
  ramp_target c step =
      let left = a.powi ((a.of_ℕ c.ramp_steps ⊖ a.of_ℕ step) ⊘ a.of_ℕ c.ramp_steps) 4 in
      c.ramp_start ⊕ (c.target_level ⊖ c.ramp_start) ⊗ (a.lit 1 1 ⊖ left)

  unfoldable pub current_target : PiRateController S → S × PiRateController S
  unfolding ramp_target
  current_target c =
      if ltb c.ramp_step c.ramp_steps
      then (ramp_target c (c.ramp_step + 1), record c { ramp_step = c.ramp_step + 1 })
      else (c.target_level, c)

  -- The sum of the proportional and the integral part, and the controller behind it.
  unfoldable pub control : PiRateController S → S → S × PiRateController S
  control c level =
      let (target, ramped) = current_target (begin_ramp (restart_ramp c level) level) in
      let err = level ⊖ target in
      let rel_err = err ⊘ ramped.frames_per_interval in
      let accumulated = ramped.accumulated ⊕ rel_err ⊗ ramped.interval in
      (ramped.k_p ⊗ rel_err ⊕ ramped.k_i ⊗ accumulated, record ramped { accumulated = accumulated })

  -- The control output is clamped; a clamp between limits out of order panics.
  unfoldable pub next : PiRateController S → S → Option (S × PiRateController S)
  next c level = do
    clamped ← clamp (a.neg (a.lit 5 1000)) (a.lit 5 1000) (control c level).0
    some (a.lit 1 1 ⊖ clamped, (control c level).1)

  -- The ramp is within its steps.
  abbrev pub IsRamping : PiRateController S → Type 0
  IsRamping c = c.ramp_step ≤ c.ramp_steps

  -- The steps of a ramp stay, and the ramp is within them.
  abbrev Ramps : ℕ → PiRateController S → Type 0
  Ramps n c = (c.ramp_step ≤ n) × (c.ramp_steps ≡ n)

  restart_ramp-Ramps :
      (n : ℕ) (c : PiRateController S) (level : S) → Ramps n c → Ramps n (restart_ramp c level)
  unfolding restart_ramp
  restart_ramp-Ramps n c level (h, e) = if-gives (Ramps n) _ (omega arith, e) (h, e)

  begin_ramp-Ramps :
      (n : ℕ) (c : PiRateController S) (level : S) → Ramps n c → Ramps n (begin_ramp c level)
  unfolding begin_ramp
  begin_ramp-Ramps n c level (h, e) = if-gives (Ramps n) _ (h, e) (h, e)

  current_target-Ramps : (n : ℕ) (c : PiRateController S) → Ramps n c → Ramps n (current_target c).1
  unfolding current_target
  current_target-Ramps n c (h, e) = elim (Bool-cases (ltb c.ramp_step c.ramp_steps)) [
    | inl on ↦ rw on (omega (arith, ltb→lt c.ramp_step c.ramp_steps on, e), e)
    | inr off ↦ rw off (h, e)
  ]

  -- Whatever level is measured, the controller does not panic: it gives one minus a control output
  -- that is at most 0.005 in size, and its ramp stays within its steps, whose number it keeps. The
  -- numbers are assumed to be ordered (no NaN), with -0.005 not above 0.005.
  pub next-Within :
      (ord : IsOrder a) (c : PiRateController S) (level : S)
      → a.le (a.neg (a.lit 5 1000)) (a.lit 5 1000) ≡ true
      → IsRamping c
      → Yields
          (λ out.
            ((output : S) × (out.0 ≡ a.lit 1 1 ⊖ output) × Within (a.lit 5 1000) output)
            × IsRamping out.1
            × (out.1.ramp_steps ≡ c.ramp_steps))
          (next c level)
  unfolding next control
  next-Within ord c level pos h =
      let n = c.ramp_steps in
      let started = begin_ramp (restart_ramp c level) level in
      let (r, e) = current_target-Ramps n started (
        begin_ramp-Ramps n (restart_ramp c level) level (restart_ramp-Ramps n c level (h, refl))) in
      let (clamped, k, within) = clamp-Within ord (a.lit 5 1000) pos (control c level).0 in
      rw k (_, refl, ((clamped, refl, within), rw e r, e))
