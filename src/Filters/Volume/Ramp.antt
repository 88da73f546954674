-- ===== src/Filters/Volume/Ramp.antt =====
-- filters/basicfilters.rs: one chunk of a ramp of `Volume`.
use astra_camilla_dsp.Common.{ℕ, zero, suc, ◌+◌, ◌-◌, ◌≤◌, ◌<◌, ◌≡◌, refl, ap, ◌∙◌, inl, inr}
use astra_camilla_dsp.Common.{Bool, false, some, List, [], ◌∷◌, map, arith, ltb, ◌==◌}
use astra_camilla_dsp.Common.{if◌then◌else◌, le→leb, Bool-cases, get_elem?, range_from, Yields}
use astra_camilla_dsp.Arith.{◌⊗◌, Arith}
use astra_camilla_dsp.Filters.Volume.{ramp_gain, Casts, Volume, last, min_f32, linear_gain}
use astra_camilla_dsp.Filters.Volume.{make_ramp, is_changed, prepare_processing, next_step}
use astra_camilla_dsp.Filters.Volume.{apply_gain, apply_ramp, scale, process_chunk}
use astra_camilla_dsp.AudioChunk.{AudioChunk}
use astra_camilla_dsp.Params.{Params, IsComplete, num_faders, set_current_volume_lem}

last-some {ℓ} : {A : Type ℓ} (x : A) (xs : List A) → Yields (λ _. Unit {0}) (last (x ∷ xs))
unfolding last
last-some x [] = (x, refl, tt)
last-some x (y ∷ xs) = last-some y xs

-- The arithmetic of one step of a ramp of `n` chunks.
step-le : (k n : ℕ) → k ≤ n → (if ltb n (k + 1) then 0 else k + 1) ≤ n
step-le k n h = ground arith

step-remaining :
    (k n t : ℕ)
    → (if ltb n (k + 1) then 0 else k + 1) ≡ t
    → k ≤ n
    → (if t == 0 then 0 else n + 1 - t) ≡ n + 1 - k - 1
step-remaining k n t e h = ground arith

module _ {R : Type 0} where
  -- The settings of the control side: the volume `vol` and the mute `m`.
  abbrev pub Asks : Params R → ℕ → R → Bool → Type 0
  Asks p fader vol m =
      IsComplete p
      × (get_elem? p.target_volume fader ≡ some vol)
      × (get_elem? p.mute fader ≡ some m)

-- What processing a chunk gives.
abbrev pub Next : Type 0 → Type 0 → Type 0
Next R S = AudioChunk S × Params R × Volume R S

module _ {S : Type 0} ⦃a : Arith S⦄ where
  -- The chunk with its samples multiplied by `gain`.
  abbrev pub with_gain : S → AudioChunk S → AudioChunk S
  with_gain gain chunk = record chunk { waveforms = map (apply_gain gain) chunk.waveforms }

module _ {R S : Type 0} ⦃r : Arith R⦄ ⦃a : Arith S⦄ ⦃cast : Casts R S⦄ where
  -- A volume control in a ramp that has not run over its time, for one of the five faders.
  pub record IsRamping (v : Volume R S) : Type 0 where
    pub in_time : v.ramp_step ≤ v.ramptime_in_chunks
    pub has_samples : 0 < v.chunksize
    pub has_fader : v.fader < num_faders

  -- The chunks that a ramp still takes.
  abbrev pub remaining : Volume R S → ℕ
  remaining v = if v.ramp_step == 0 then 0 else v.ramptime_in_chunks + 1 - v.ramp_step

  -- The settings that `v` has taken over: the volume `vol` and the mute `m` are no change.
  pub record HasSettings (v : Volume R S) (vol : R) (m : Bool) : Type 0 where
    pub unchanged : is_changed v (min_f32 vol v.volume_limit) m ≡ false
    pub gain : v.target_linear_gain ≡ linear_gain v.target_volume m

  make_ramp-last : (v : Volume R S) → 0 < v.chunksize → Yields (λ _. Unit {0}) (last (make_ramp v))
  unfolding make_ramp
  make_ramp-last v h = go v.chunksize h
    where
      go : (n : ℕ) → 0 < n → Yields (λ _. Unit {0}) (last (map (ramp_gain v) (range_from 0 n)))
      go zero h = absurd (omega arith)
      go (suc n) h = last-some (ramp_gain v 0) (map (ramp_gain v) (range_from 1 n))

  abbrev at_step : Volume R S → ℕ → S → Volume R S
  at_step v step volume = record v { ramp_step = step; current_volume = volume }

  -- One chunk: only the step and the current volume change, and the ramp takes one chunk less.
  abbrev Scaled : Volume R S → List (List S) × Volume R S → Type 0
  Scaled v out =
      (step : ℕ) × (volume : S) × (out.1 ≡ at_step v step volume)
      × (step ≤ v.ramptime_in_chunks)
      × (remaining (at_step v step volume) ≡ remaining v - 1)

  scale-Scaled :
      (v : Volume R S) (ws : List (List S)) → IsRamping v → Yields (Scaled v) (scale v ws)
  unfolding scale next_step
  scale-Scaled v ws h = elim (Bool-cases (v.ramp_step == 0)) [
    | inl off ↦ rw off (
      (map (apply_gain v.target_linear_gain) ws, v),
      refl,
      (v.ramp_step, v.current_volume, refl, h.in_time, rw off refl),
    )
    | inr on ↦
        let (top, e, _) = make_ramp-last v h.has_samples in
        let (step, volume) : ℕ × S = (next_step v, a.lit 20 1 ⊗ a.log10 top) in
        rw (on, le→leb v.ramp_step v.ramptime_in_chunks h.in_time, e)
          (
            (map (apply_ramp (make_ramp v)) ws, at_step v step volume),
            refl,
            (
              step,
              volume,
              refl,
              step-le v.ramp_step v.ramptime_in_chunks h.in_time,
              step-remaining v.ramp_step v.ramptime_in_chunks step refl h.in_time,
            ),
          )
  ]

  -- The gain is that of the volume and mute that were taken over last.
  abbrev pub IsTuned : Volume R S → Type 0
  IsTuned v = v.target_linear_gain ≡ linear_gain v.target_volume v.mute

  -- A volume control that has taken over what it is asked for.
  pub record IsSteady (v : Volume R S) (p : Params R) (vol : R) (m : Bool) : Type 0 where
    pub ramping : IsRamping v
    pub tuned : IsTuned v
    pub asks : Asks p v.fader vol m
    pub taken : is_changed v (min_f32 vol v.volume_limit) m ≡ false

  pub process_chunk-IsSteady :
      (v : Volume R S) (p : Params R) (vol : R) (m : Bool) (chunk : AudioChunk S)
      → IsSteady v p vol m
      → Yields
          (λ (out : Next R S). IsSteady out.2 out.1 vol m × (remaining out.2 ≡ remaining v - 1))
          (process_chunk v p chunk)
  unfolding process_chunk prepare_processing is_changed
  process_chunk-IsSteady v p vol m chunk st =
      let (complete, e, e') = st.asks in
      let (out, e'', (step, volume, same, le, less)) = scale-Scaled v chunk.waveforms st.ramping in
      let (p', k, (complete', t, mu)) =
        set_current_volume_lem p v.fader (cast.narrow volume) complete st.ramping.has_fader in
      let v' : Volume R S = at_step v step volume in
      rw (e, e', st.taken, e'', same, k)
        (
          (record chunk { waveforms = out.0 }, p', v'),
          refl,
          (
            record {
              ramping = record {
                in_time = le;
                has_samples = st.ramping.has_samples;
                has_fader = st.ramping.has_fader;
              };
              tuned = st.tuned;
              asks = (
                complete',
                ap (λ c. get_elem? c v.fader) t ∙ e,
                ap (λ c. get_elem? c v.fader) mu ∙ e',
              );
              taken = st.taken;
            },
            less,
          ),
        )
