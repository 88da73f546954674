-- ===== src/Filters/Volume/Settle.antt =====
-- filters/basicfilters.rs: how `Volume` gets to the volume that is asked for.
use astra_camilla_dsp.Common.{ℕ, ◌-◌, ◌≤◌, ◌≡◌, refl, ap, ◌∙◌, inl, inr, Bool, true, false, ◌||◌}
use astra_camilla_dsp.Common.{Option, some, List, [], ◌∷◌, arith, ltb, ◌==◌, if◌then◌else◌}
use astra_camilla_dsp.Common.{Bool-cases, length, ◌>>=◌, Yields}
use astra_camilla_dsp.Arith.{◌⊖◌, Arith}
use astra_camilla_dsp.Filters.Volume.{differ, Casts, Volume, min_f32, linear_gain, is_changed}
use astra_camilla_dsp.Filters.Volume.{take_over, prepare_processing, scale, process_chunk}
use astra_camilla_dsp.AudioChunk.{AudioChunk}
use astra_camilla_dsp.Params.{Params, set_current_volume_lem}
use astra_camilla_dsp.Filters.Volume.Ramp.{IsRamping, remaining, IsTuned, Asks, IsSteady, Next}
use astra_camilla_dsp.Filters.Volume.Ramp.{with_gain, process_chunk-IsSteady}

differ-eq : (x y : Bool) → differ x y ≡ false → x ≡ y
differ-eq true true e = refl
differ-eq true false e = cc
differ-eq false true e = cc
differ-eq false false e = refl

or-false : (x y : Bool) → (x || y) ≡ false → (x ≡ false) × (y ≡ false)
or-false true y e = cc
or-false false y e = (refl, e)

differ_self : (x : Bool) → differ x x ≡ false
differ_self true = refl
differ_self false = refl

first-le : (n : ℕ) → (if ltb 0 n then 1 else 0) ≤ n
first-le n = ground arith

module _ {R S : Type 0} ⦃r : Arith R⦄ ⦃a : Arith S⦄ ⦃cast : Casts R S⦄ where
  -- Chunks in turn, while the settings stay; the volumes that are reported in between do not matter.
  pub run : Volume R S → Params R → List (AudioChunk S) → Option (Params R × Volume R S)
  run v p [] = some (p, v)
  run v p (chunk ∷ chunks) = do out ← process_chunk v p chunk; run out.2 out.1 chunks

  run-IsSteady :
      (v : Volume R S) (p : Params R) (vol : R) (m : Bool) (chunks : List (AudioChunk S))
      → IsSteady v p vol m
      → Yields
          (λ s. IsSteady s.1 s.0 vol m × (remaining s.1 ≡ remaining v - length chunks))
          (run v p chunks)
  unfolding run
  run-IsSteady v p vol m [] st = ((p, v), refl, (st, omega arith))
  run-IsSteady v p vol m (chunk ∷ chunks) st =
      let (out, e, (st', l)) = process_chunk-IsSteady v p vol m chunk st in
      let (s, e', (st'', l')) = run-IsSteady out.2 out.1 vol m chunks st' in
      rw e (s, e', (st'', omega (arith, l, l')))

  remaining-le : (v : Volume R S) → IsRamping v → remaining v ≤ v.ramptime_in_chunks
  remaining-le v h = ground (arith, h.in_time)

  remaining-zero : (v : Volume R S) → IsRamping v → remaining v ≡ 0 → (v.ramp_step == 0) ≡ true
  remaining-zero v h e = ground (arith, h.in_time, e)

  mute-eq : (v : Volume R S) (vol : R) (m : Bool) → is_changed v vol m ≡ false → v.mute ≡ m
  unfolding is_changed
  mute-eq v vol m e = differ-eq v.mute m (or-false _ (differ v.mute m) e).1

  process_chunk-full :
      (v : Volume R S) (p : Params R) (vol : R) (m : Bool) (chunk : AudioChunk S)
      → IsSteady v p vol m
      → remaining v ≡ 0
      → Yields
          (λ (out : Next R S).
            (out.0 ≡ with_gain (linear_gain (out.2).target_volume m) chunk)
            × (is_changed out.2 (min_f32 vol (out.2).volume_limit) m ≡ false))
          (process_chunk v p chunk)
  unfolding process_chunk prepare_processing scale
  process_chunk-full v p vol m chunk st none_left =
      let (complete, e, e') = st.asks in
      let (p', k, _) =
        set_current_volume_lem p v.fader (cast.narrow v.current_volume) complete
          st.ramping.has_fader in
      let off = remaining-zero v st.ramping none_left in
      let at_m : v.mute ≡ m = mute-eq v (min_f32 vol v.volume_limit) m st.taken in
      let full = st.tuned ∙ ap (linear_gain v.target_volume) at_m in
      rw (e, e', st.taken, off, k)
        (
          (with_gain v.target_linear_gain chunk, p', v),
          refl,
          (ap (λ g. with_gain g chunk) full, st.taken),
        )

  prepare-ramptime :
      (v : Volume R S) (vol : R) (m : Bool)
      → (prepare_processing v vol m).ramptime_in_chunks ≡ v.ramptime_in_chunks
  unfolding prepare_processing take_over
  prepare-ramptime v vol m = ground arith

  prepare-IsSteady :
      (v : Volume R S) (p : Params R) (vol : R) (m : Bool)
      → IsRamping v
      → IsTuned v
      → Asks p v.fader vol m
      → r.lt (r.lit 1 100) (r.abs (min_f32 vol v.volume_limit ⊖ min_f32 vol v.volume_limit)) ≡ false
      → IsSteady (prepare_processing v vol m) p vol m
  unfolding prepare_processing take_over is_changed
  prepare-IsSteady v p vol m h tuned asks same =
      elim (Bool-cases (is_changed v (min_f32 vol v.volume_limit) m)) [
        | inl changed ↦ rw changed (record {
          ramping = record {
            in_time = first-le v.ramptime_in_chunks;
            has_samples = h.has_samples;
            has_fader = h.has_fader;
          };
          tuned = refl;
          asks = asks;
          taken = rw same (differ_self m);
        })
        | inr taken ↦ rw taken (record { ramping = h; tuned = tuned; asks = asks; taken = taken })
      ]

  process_chunk-prepare :
      (v : Volume R S) (p : Params R) (vol : R) (m : Bool) (chunk : AudioChunk S)
      → Asks p v.fader vol m
      → IsSteady (prepare_processing v vol m) p vol m
      → process_chunk v p chunk ≡ process_chunk (prepare_processing v vol m) p chunk
  unfolding process_chunk prepare_processing take_over
  process_chunk-prepare v p vol m chunk asks st =
      elim (Bool-cases (is_changed v (min_f32 vol v.volume_limit) m)) [
        | inl changed ↦
            let st' : IsSteady (take_over v (min_f32 vol v.volume_limit) m) p vol m =
              rw changed at st in
            rw (asks.1, asks.2, changed, asks.1, asks.2, st'.taken) refl
        | inr taken ↦ rw (asks.1, asks.2, taken, asks.1, asks.2, taken) refl
      ]

  -- A volume control in its ramp time, tuned to its last settings, and asked all the while for the
  -- volume `vol` and the mute `m` by complete parameters: after as many chunks as its ramp time has,
  -- none of which panics, a chunk comes out with all its samples multiplied by the gain of the target
  -- volume, which is 0.0 where `m` asks for silence, and the target is what is asked for, limited, up
  -- to the tolerance of the code. The limited volume is assumed not to differ from itself (no NaN).
  pub run-settles :
      (v : Volume R S) (p : Params R) (vol : R) (m : Bool) (chunks : List (AudioChunk S))
      (chunk : AudioChunk S)
      → IsRamping v
      → IsTuned v
      → Asks p v.fader vol m
      → r.lt (r.lit 1 100) (r.abs (min_f32 vol v.volume_limit ⊖ min_f32 vol v.volume_limit)) ≡ false
      → length chunks ≡ v.ramptime_in_chunks
      → Yields
          (λ (out : Next R S).
            (out.0 ≡ with_gain (linear_gain (out.2).target_volume m) chunk)
            × (is_changed out.2 (min_f32 vol (out.2).volume_limit) m ≡ false))
          (run v p chunks >>= λ s. process_chunk s.1 s.0 chunk)
  unfolding run
  run-settles v p vol m chunks chunk h tuned asks same long =
      let v' = prepare_processing v vol m in
      let st = prepare-IsSteady v p vol m h tuned asks same in
      let (s, e, (st', l)) = run-IsSteady v' p vol m chunks st in
      let ready : remaining s.1 ≡ 0 =
        omega (arith, l, long, remaining-le v' st.ramping, prepare-ramptime v vol m) in
      let (out, e', q) = process_chunk-full s.1 s.0 vol m chunk st' ready in
      (out, go chunks long ∙ rw e e', q)
    where
      go :
          (cs : List (AudioChunk S))
          → length cs ≡ v.ramptime_in_chunks
          → (run v p cs >>= λ s. process_chunk s.1 s.0 chunk)
            ≡ (run (prepare_processing v vol m) p cs >>= λ s. process_chunk s.1 s.0 chunk)
      go [] e =
          process_chunk-prepare v p vol m chunk asks (prepare-IsSteady v p vol m h tuned asks same)
      go (c ∷ cs) e =
          rw (process_chunk-prepare v p vol m c asks (prepare-IsSteady v p vol m h tuned asks same))
            refl
