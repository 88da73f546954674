-- ===== src/Filters/Volume/Stuck.antt =====
-- filters/basicfilters.rs: what `Volume` starts from, its two ways of processing, and what becomes
-- of a ramp whose time is changed.
use astra_camilla_dsp.Common.{ℕ, ◌<◌, ◌≡◌, refl, sym, ap, ◌∙◌, inl, inr, Bool, false, some, List}
use astra_camilla_dsp.Common.{[], ◌∷◌, arith, leb, ◌==◌, lt→leb, Bool-cases, get_elem?}
use astra_camilla_dsp.Common.{get_elem?-lt, ◌>>=◌, bind_assoc, bind_ext, Yields}
use astra_camilla_dsp.Filters.Volume.{update_parameters, Casts, Volume, VolumeParameters, last}
use astra_camilla_dsp.Filters.Volume.{min_f32, make_ramp, is_changed, prepare_processing, new}
use astra_camilla_dsp.Filters.Volume.{from_config, scale, scale_waveform, process_chunk}
use astra_camilla_dsp.Filters.Volume.{process_waveform}
use astra_camilla_dsp.AudioChunk.{AudioChunk}
use astra_camilla_dsp.Arith.{Arith}
use astra_camilla_dsp.Params.{Params, IsComplete, num_faders, set_current_volume_lem}
use astra_camilla_dsp.Filters.Volume.Ramp.{IsRamping, IsTuned, Asks, Next}

-- The results side by side.
abbrev pub Result : Type 0 → Type 0 → Type 0
Result R S = List (List S) × Params R × Volume R S

abbrev pub waveforms_of : {R S : Type 0} → Next R S → Result R S
waveforms_of out = ((out.0).waveforms, out.1, out.2)

abbrev pub in_one : {R S : Type 0} → List S × Params R × Volume R S → Result R S
in_one out = (out.0 ∷ [], out.1, out.2)

module _ {R S : Type 0} ⦃r : Arith R⦄ ⦃a : Arith S⦄ ⦃cast : Casts R S⦄ where
  -- For one of the five faders and chunks that are not empty, the filter is built without a panic,
  -- and starts in its ramp time and tuned to its settings.
  pub from_config-IsTuned :
      (conf : VolumeParameters R) (chunksize samplerate : ℕ) (p : Params R)
      → IsComplete p
      → conf.fader < num_faders
      → 0 < chunksize
      → Yields
          (λ (v : Volume R S). IsRamping v × IsTuned v)
          (from_config conf chunksize samplerate p)
  unfolding from_config new
  from_config-IsTuned conf chunksize samplerate p c h pos =
      let (vol, e) = get_elem?-lt p.current_volume conf.fader (omega (arith, c.currents)) in
      let (m, e') = get_elem?-lt p.mute conf.fader (omega (arith, c.mutes)) in
      rw (e, e')
        (_, refl, (record { in_time = omega arith; has_samples = pos; has_fader = h }, refl))

  scale-one :
      (v : Volume R S) (w : List S)
      → scale v (w ∷ []) ≡ (scale_waveform v w >>= λ r. some (r.0 ∷ [], r.1))
  unfolding scale scale_waveform
  scale-one v w = elim (Bool-cases (v.ramp_step == 0)) [
    | inl off ↦ rw off refl
    | inr on ↦ rw on (elim (Bool-cases (leb v.ramp_step v.ramptime_in_chunks)) [
      | inl in_time ↦ rw in_time (sym (bind_assoc (last (make_ramp v)) _ _))
      | inr late ↦ rw late refl
    ])
  ]

  -- The volume filter of a pipeline does to a waveform what the volume control does to a chunk of
  -- that one waveform: it panics or reports the same, and goes into the same state.
  pub process_waveform-process_chunk :
      (v : Volume R S) (p : Params R) (chunk : AudioChunk S) (w : List S)
      → chunk.waveforms ≡ w ∷ []
      → (process_chunk v p chunk >>= λ out. some (waveforms_of out))
        ≡ (process_waveform v p w >>= λ out. some (in_one out))
  unfolding process_chunk process_waveform
  process_waveform-process_chunk v p chunk w one = simp bind_assoc (
      bind_ext (get_elem? p.target_volume v.fader) _ _ λ vol _.
        bind_ext (get_elem? p.mute v.fader) _ _
          λ m _. rw (one, scale-one (prepare_processing v vol m) w) (simp bind_assoc))

  -- When a new configuration shortens the ramp time of a volume filter of the pipeline below the step
  -- that a ramp is at, and the settings stay as they are, the filter is stuck: every waveform passes as
  -- it is, without any gain, and the state stays.
  pub update_parameters-stuck :
      (v : Volume R S) (conf : VolumeParameters R) (p : Params R) (vol : R) (m : Bool)
      (waveform : List S)
      → (update_parameters v conf).ramptime_in_chunks < v.ramp_step
      → conf.fader < num_faders
      → Asks p conf.fader vol m
      → is_changed
          (update_parameters v conf)
          (min_f32 vol (update_parameters v conf).volume_limit)
          m
        ≡ false
      → Yields
          (λ (out : List S × Params R × Volume R S).
            (out.0 ≡ waveform) × (out.2 ≡ update_parameters v conf) × Asks out.1 conf.fader vol m)
          (process_waveform (update_parameters v conf) p waveform)
  unfolding process_waveform prepare_processing scale_waveform update_parameters
  update_parameters-stuck v conf p vol m waveform short h (c, e, e') same =
      let v' = update_parameters v conf in
      let (p', k, (c', t, mu)) =
        set_current_volume_lem p conf.fader (cast.narrow v'.current_volume) c h in
      let on : (v.ramp_step == 0) ≡ false = ground (arith, short) in
      let late : leb v.ramp_step v'.ramptime_in_chunks ≡ false = lt→leb _ _ short in
      rw (e, e', same, on, late, k)
        (
          (waveform, p', v'),
          refl,
          (
            refl,
            refl,
            (c', ap (λ l. get_elem? l conf.fader) t ∙ e, ap (λ l. get_elem? l conf.fader) mu ∙ e'),
          ),
        )
