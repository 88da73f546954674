-- ===== src/Processors/Race.antt =====
-- processors/race.rs: the recursive ambiophonic crosstalk eliminator, on two channels with a delay and
-- a gain between them. `none` is a panic.
pub mod Recursion
use astra_camilla_dsp.Common.{ℕ, min, max, Bool, true, false, ◌||◌, Option, some, List, [], ◌∷◌}
use astra_camilla_dsp.Common.{leb, ◌==◌, if◌then◌else◌, is_empty, get_elem?, set, take, ◌>>=◌}
use astra_camilla_dsp.Common.{Check, accepted, rejected}
use astra_camilla_dsp.Filters.Delay as D
use astra_camilla_dsp.Filters.Gain as G
use astra_camilla_dsp.Arith.{Arith, ◌⊕◌, ◌⊖◌, ◌⊗◌, ◌⊘◌, nought}
use astra_camilla_dsp.AudioChunk.{AudioChunk}
use astra_camilla_dsp.Config.Mixer.{decibel, unwrap_or}
use astra_camilla_dsp.Filters.Delay.{RingBuffer, Delay, DelayParameters, TimeUnit, microseconds}
use astra_camilla_dsp.Filters.Delay.{milliseconds, millimetres, samples}
use astra_camilla_dsp.Filters.Gain.{Gain, GainParameters}
use astra_camilla_dsp.Pipeline.{ProcessorTrait}

pub record RaceParameters (S : Type 0) : Type 0 where
  pub channels : ℕ
  pub channel_a : ℕ
  pub channel_b : ℕ
  pub delay : S
  pub subsample_delay : Option Bool
  pub delay_unit : Option TimeUnit
  pub attenuation : S

pub record Race (S Q : Type 0) : Type 0 where
  pub channels : ℕ
  pub channel_a : ℕ
  pub channel_b : ℕ
  pub feedback_a : S
  pub feedback_b : S
  pub delay_a : Delay S Q
  pub delay_b : Delay S Q
  pub gain : Gain S
  pub samplerate : ℕ

pub data RaceError : Type 0 where
  attenuation_not_positive delay_not_positive channels_equal : RaceError
  invalid_channel_a invalid_channel_b : ℕ → RaceError

module _ {S : Type 0} ⦃a : Arith S⦄ where
  unfoldable pub sample_period : TimeUnit → ℕ → S
  sample_period microseconds samplerate = a.lit 1000000 1 ⊘ a.of_ℕ samplerate
  sample_period milliseconds samplerate = a.lit 1000 1 ⊘ a.of_ℕ samplerate
  sample_period millimetres samplerate = a.lit 343 1 ⊗ a.lit 1000 1 ⊘ a.of_ℕ samplerate
  sample_period samples samplerate = a.lit 1 1

  -- `f64::max` with 0.0, which passes over NaN.
  unfoldable pub max_nought : S → S
  max_nought v = if a.lt nought v then v else nought

  -- One sample less of delay, but none below zero.
  unfoldable pub delay_config : RaceParameters S → ℕ → DelayParameters S
  unfolding sample_period max_nought
  delay_config config samplerate = record {
    delay =
        max_nought
          (config.delay ⊖ sample_period (unwrap_or config.delay_unit milliseconds) samplerate);
    unit = config.delay_unit;
    subsample = config.subsample_delay;
  }

  unfoldable pub gain_config : RaceParameters S → GainParameters S
  gain_config config = record {
    gain = a.neg config.attenuation;
    scale = some decibel;
    inverted = some true;
    mute = some false;
  }

  unfoldable pub validate_race : RaceParameters S → Check RaceError
  validate_race config =
      if a.le config.attenuation nought
      then rejected attenuation_not_positive
      else if a.le config.delay nought
      then rejected delay_not_positive
      else if config.channel_a == config.channel_b
      then rejected channels_equal
      else if leb config.channels config.channel_a
      then rejected (invalid_channel_a config.channel_a)
      else if leb config.channels config.channel_b
      then rejected (invalid_channel_b config.channel_b)
      else accepted

module _ {S Q : Type 0} ⦃a : Arith S⦄ ⦃rb : RingBuffer S Q⦄ where
  unfoldable pub from_config : RaceParameters S → ℕ → Race S Q
  unfolding delay_config gain_config
  from_config config samplerate = record {
    channels = config.channels;
    samplerate = samplerate;
    channel_a = min config.channel_a config.channel_b;
    channel_b = max config.channel_a config.channel_b;
    delay_a = D.from_config samplerate (delay_config config samplerate);
    delay_b = D.from_config samplerate (delay_config config samplerate);
    gain = G.from_config (gain_config config);
    feedback_a = nought;
    feedback_b = nought;
  }

  -- The feedback stays as it was.
  unfoldable pub update_parameters : Race S Q → RaceParameters S → Race S Q
  unfolding delay_config gain_config
  update_parameters race config = record race {
    channels = config.channels;
    delay_a = D.update_parameters race.delay_a (delay_config config race.samplerate);
    delay_b = D.update_parameters race.delay_b (delay_config config race.samplerate);
    gain = G.update_parameters race.gain (gain_config config);
    channel_a = min config.channel_a config.channel_b;
    channel_b = max config.channel_a config.channel_b;
  }

  -- The body of the loop, for a sample of each channel.
  unfoldable pub process_single : Race S Q → S → S → Option ((S × S) × Race S Q)
  process_single race value_a value_b =
      let added_a = value_a ⊕ race.feedback_b in
      let added_b = value_b ⊕ race.feedback_a in
      do
        delayed_a ← D.process_single race.delay_a added_a
        delayed_b ← D.process_single race.delay_b added_b
        some (
          (added_a, added_b),
          record race {
            feedback_a = G.process_single race.gain delayed_a.0;
            feedback_b = G.process_single race.gain delayed_b.0;
            delay_a = delayed_a.1;
            delay_b = delayed_b.1;
          },
        )

  -- The loop over the pairs of samples, which stops at the end of the shorter channel.
  unfoldable pub process_samples :
      Race S Q → List S → List S → Option ((List S × List S) × Race S Q)
  process_samples race [] ws = some (([], ws), race)
  process_samples race (v ∷ vs) [] = some ((v ∷ vs, []), race)
  process_samples race (v ∷ vs) (w ∷ ws) = do
    first ← process_single race v w
    rest ← process_samples first.1 vs ws
    some ((first.0.0 ∷ rest.0.0, first.0.1 ∷ rest.0.1), rest.1)

  -- Channels that are both in use.
  unfoldable pub process_channels :
      Race S Q → List S → List S → Option ((List S × List S) × Race S Q)
  process_channels race vs ws =
      if is_empty vs || is_empty ws then some ((vs, ws), race) else process_samples race vs ws

  -- `split_at_mut(channel_b)`: the channel `a` is in the part before the channel `b`.
  unfoldable pub process_chunk : Race S Q → AudioChunk S → Option (AudioChunk S × Race S Q)
  process_chunk race input = do
    vs ← get_elem? (take race.channel_b input.waveforms) race.channel_a
    ws ← get_elem? input.waveforms race.channel_b
    out ← process_channels race vs ws
    some (
      record input {
        waveforms = set (set input.waveforms race.channel_a out.0.0) race.channel_b out.0.1;
      },
      out.1,
    )

  instance abbrev pub race_processor : ProcessorTrait S (Race S Q)
  race_processor = record { process_chunk = process_chunk }
