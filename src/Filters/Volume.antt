-- ===== src/Filters/Volume.antt =====
-- filters/basicfilters.rs: `Volume`, with its ramp between volumes. `R` is `f32`, the type of the
-- volumes that are shared with the control side.
pub mod Ramp
pub mod Settle
pub mod Stuck
use astra_camilla_dsp.Common.{ℕ, ◌+◌, Bool, ◌||◌, not, Option, none, some, List, [], ◌∷◌, map}
use astra_camilla_dsp.Common.{ltb, leb, ◌==◌, if◌then◌else◌, get_elem?, range_from, ◌>>=◌}
use astra_camilla_dsp.Pipeline.{FilterTrait}
use astra_camilla_dsp.Arith.{Arith, ◌⊕◌, ◌⊖◌, ◌⊗◌, ◌⊘◌, nought}
use astra_camilla_dsp.AudioChunk.{AudioChunk}
use astra_camilla_dsp.Config.Mixer.{unwrap_or}
use astra_camilla_dsp.Params.{Params, set_current_volume}

-- The casts between `f32` and `PrcFmt`.
pub record Casts (R S : Type 0) : Type 0 where
  pub widen : R → S
  pub narrow : S → R

pub record VolumeParameters (R : Type 0) : Type 0 where
  pub ramp_time : Option R
  pub fader : ℕ
  pub limit : Option R

pub record Volume (R S : Type 0) : Type 0 where
  pub ramptime_in_chunks : ℕ
  pub current_volume : S
  pub target_volume : R
  pub target_linear_gain : S
  pub mute : Bool
  pub ramp_start : S
  pub ramp_step : ℕ
  pub samplerate : ℕ
  pub chunksize : ℕ
  pub fader : ℕ
  pub volume_limit : R

abbrev pub differ : Bool → Bool → Bool
differ a b = if a then not b else b

-- `last` of a slice.
pub last {ℓ} : {A : Type ℓ} → List A → Option A
last [] = none
last (x ∷ []) = some x
last (x ∷ y ∷ xs) = last (y ∷ xs)

module _ {R : Type 0} ⦃r : Arith R⦄ where
  -- `f32::min`, which passes over NaN.
  unfoldable pub min_f32 : R → R → R
  min_f32 v w = if r.lt w v then w else if r.same v v then v else w

  -- The volume that stands for muted while ramping.
  pub muted_volume : R → Bool → R
  muted_volume volume mute = if mute then r.neg (r.lit 100 1) else volume

  -- The ramp time in chunks, rounded.
  unfoldable pub in_chunks : R → ℕ → ℕ → ℕ
  in_chunks ramp_time_ms chunksize samplerate =
      r.to_ℕ (r.round (ramp_time_ms ⊘ (r.lit 1000 1 ⊗ r.of_ℕ chunksize ⊘ r.of_ℕ samplerate)))

  unfoldable pub validate_volume_config : VolumeParameters R → Bool
  validate_volume_config conf = not (r.lt (unwrap_or conf.ramp_time (r.lit 400 1)) nought)

module _ {S : Type 0} ⦃a : Arith S⦄ where
  -- The samples with the gains of a ramp, as far as both go.
  pub apply_ramp : List S → List S → List S
  apply_ramp [] waveform = waveform
  apply_ramp (g ∷ ramp) [] = []
  apply_ramp (g ∷ ramp) (item ∷ waveform) = item ⊗ g ∷ apply_ramp ramp waveform

  pub apply_gain : S → List S → List S
  apply_gain gain waveform = map (λ item. item ⊗ gain) waveform

module _ {R S : Type 0} ⦃r : Arith R⦄ ⦃a : Arith S⦄ ⦃cast : Casts R S⦄ where
  unfoldable pub linear_gain : R → Bool → S
  linear_gain volume mute =
      if mute then nought else a.powf (a.lit 10 1) (cast.widen volume ⊘ a.lit 20 1)

  unfoldable pub new : R → R → R → Bool → ℕ → ℕ → ℕ → Volume R S
  new ramp_time_ms limit current_volume mute chunksize samplerate fader = record {
    ramptime_in_chunks = in_chunks ramp_time_ms chunksize samplerate;
    current_volume = cast.widen (muted_volume current_volume mute);
    target_volume = current_volume;
    target_linear_gain = linear_gain current_volume mute;
    mute = mute;
    ramp_start = cast.widen current_volume;
    ramp_step = 0;
    samplerate = samplerate;
    chunksize = chunksize;
    fader = fader;
    volume_limit = limit;
  }

  unfoldable pub from_config : VolumeParameters R → ℕ → ℕ → Params R → Option (Volume R S)
  from_config conf chunksize samplerate p = do
    current_volume ← get_elem? p.current_volume conf.fader
    mute ← get_elem? p.mute conf.fader
    some (
        new (unwrap_or conf.ramp_time (r.lit 400 1)) (unwrap_or conf.limit (r.lit 50 1))
          current_volume mute chunksize samplerate conf.fader)

  -- The gain at one sample of a ramp.
  pub ramp_gain : Volume R S → ℕ → S
  ramp_gain v val =
      let ramprange =
        (cast.widen (muted_volume v.target_volume v.mute) ⊖ v.ramp_start)
        ⊘ a.of_ℕ v.ramptime_in_chunks in
      let stepsize = ramprange ⊘ a.of_ℕ v.chunksize in
      a.powf (a.lit 10 1) (
        (v.ramp_start ⊕ ramprange ⊗ (a.of_ℕ v.ramp_step ⊖ a.lit 1 1) ⊕ a.of_ℕ val ⊗ stepsize)
        ⊘ a.lit 20 1)

  pub make_ramp : Volume R S → List S
  make_ramp v = map (ramp_gain v) (range_from 0 v.chunksize)

  -- The test for a changed setting.
  unfoldable pub is_changed : Volume R S → R → Bool → Bool
  is_changed v target_volume shared_mute =
      r.lt (r.lit 1 100) (r.abs (target_volume ⊖ v.target_volume)) || differ v.mute shared_mute

  -- The branch for a changed setting.
  pub take_over : Volume R S → R → Bool → Volume R S
  take_over v target_volume shared_mute =
      let ramping = ltb 0 v.ramptime_in_chunks in
      record v {
        ramp_start = if ramping then v.current_volume else v.ramp_start;
        ramp_step = if ramping then 1 else 0;
        current_volume =
            if ramping
            then v.current_volume
            else if shared_mute
            then nought
            else cast.widen target_volume;
        target_volume = target_volume;
        target_linear_gain = linear_gain target_volume shared_mute;
        mute = shared_mute;
      }

  unfoldable pub prepare_processing : Volume R S → R → Bool → Volume R S
  prepare_processing v shared_vol shared_mute =
      let target_volume = min_f32 shared_vol v.volume_limit in
      if is_changed v target_volume shared_mute then take_over v target_volume shared_mute else v

  pub next_step : Volume R S → ℕ
  next_step v = if ltb v.ramptime_in_chunks (v.ramp_step + 1) then 0 else v.ramp_step + 1

  -- `process_chunk` between reading the settings and reporting the volume.
  unfoldable pub scale : Volume R S → List (List S) → Option (List (List S) × Volume R S)
  scale v waveforms =
      if v.ramp_step == 0
      then some (map (apply_gain v.target_linear_gain) waveforms, v)
      else if leb v.ramp_step v.ramptime_in_chunks
      then (let ramp = make_ramp v in
          do
            top ← last ramp
            some (
              map (apply_ramp ramp) waveforms,
              record v { ramp_step = next_step v; current_volume = a.lit 20 1 ⊗ a.log10 top },
            ))
      else some (waveforms, v)

  unfoldable pub process_chunk :
      Volume R S → Params R → AudioChunk S → Option (AudioChunk S × Params R × Volume R S)
  process_chunk v p chunk = do
    shared_vol ← get_elem? p.target_volume v.fader
    shared_mute ← get_elem? p.mute v.fader
    out ← scale (prepare_processing v shared_vol shared_mute) chunk.waveforms
    p' ← set_current_volume p v.fader (cast.narrow (out.1).current_volume)
    some (record chunk { waveforms = out.0 }, p', out.1)

  -- `scale` for the one waveform of the trait's `process_waveform`.
  scale_waveform : Volume R S → List S → Option (List S × Volume R S)
  scale_waveform v waveform =
      if v.ramp_step == 0
      then some (apply_gain v.target_linear_gain waveform, v)
      else if leb v.ramp_step v.ramptime_in_chunks
      then (let ramp = make_ramp v in
          do
            top ← last ramp
            some (
              apply_ramp ramp waveform,
              record v { ramp_step = next_step v; current_volume = a.lit 20 1 ⊗ a.log10 top },
            ))
      else some (waveform, v)

  unfoldable pub process_waveform :
      Volume R S → Params R → List S → Option (List S × Params R × Volume R S)
  unfolding scale_waveform
  process_waveform v p waveform = do
    shared_vol ← get_elem? p.target_volume v.fader
    shared_mute ← get_elem? p.mute v.fader
    out ← scale_waveform (prepare_processing v shared_vol shared_mute) waveform
    p' ← set_current_volume p v.fader (cast.narrow (out.1).current_volume)
    some (out.0, p', out.1)

  -- The filter shares the faders.
  instance abbrev pub volume_filter : FilterTrait S (Volume R S) (Params R)
  volume_filter = record {
    process_waveform = λ v x. do
      out ← process_waveform v x.1 x.0
      some ((out.0, out.1), out.2);
  }

  unfoldable pub update_parameters : Volume R S → VolumeParameters R → Volume R S
  update_parameters v conf =
      let limit = cast.widen (unwrap_or conf.limit (r.lit 50 1)) in
      record v {
        ramptime_in_chunks =
            in_chunks (unwrap_or conf.ramp_time (r.lit 400 1)) v.chunksize v.samplerate;
        fader = conf.fader;
        volume_limit = unwrap_or conf.limit (r.lit 50 1);
        current_volume = if a.lt limit v.current_volume then limit else v.current_volume;
      }
