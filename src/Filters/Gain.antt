-- ===== src/Filters/Gain.antt =====
-- filters/basicfilters.rs: `Gain`, and the validation of its configuration.
use astra_camilla_dsp.Common.{◌≡◌, subst, Bool, false, Option, some, List, map, if◌then◌else◌}
use astra_camilla_dsp.Common.{length, length-map, some-eq, Check, accepted, rejected}
use astra_camilla_dsp.Arith.{Arith, ◌⊗◌}
use astra_camilla_dsp.Config.Mixer.{GainScale, decibel, unwrap_or, is_linear}
use astra_camilla_dsp.Decibels.{gain_from_value}
use astra_camilla_dsp.Pipeline.{FilterTrait, local_filter}
use astra_camilla_dsp.Pipeline.Merge.{KeepsLength, local_filter-KeepsLength}

pub record GainParameters (S : Type 0) : Type 0 where
  pub gain : S
  pub inverted : Option Bool
  pub mute : Option Bool
  pub scale : Option GainScale

pub record Gain (S : Type 0) : Type 0 where
  pub gain : S

pub data GainError : Type 0 where
  below_decibels above_decibels below_linear above_linear : GainError

module _ {S : Type 0} ⦃a : Arith S⦄ where
  pub from_config : GainParameters S → Gain S
  from_config conf = record {
    gain =
        gain_from_value conf.gain (is_linear (unwrap_or conf.scale decibel))
          (unwrap_or conf.inverted false) (unwrap_or conf.mute false);
  }

  abbrev pub update_parameters : Gain S → GainParameters S → Gain S
  update_parameters g conf = from_config conf

  pub process_single : Gain S → S → S
  process_single g value = value ⊗ g.gain

  pub process_waveform : Gain S → List S → List S
  process_waveform g w = map (λ item. item ⊗ g.gain) w

  unfoldable pub validate_gain_config : GainParameters S → Check GainError
  validate_gain_config conf =
      if is_linear (unwrap_or conf.scale decibel)
      then (if a.lt conf.gain (a.neg (a.lit 10 1))
          then rejected below_linear
          else if a.lt (a.lit 10 1) conf.gain
          then rejected above_linear
          else accepted)
      else (if a.lt conf.gain (a.neg (a.lit 150 1))
          then rejected below_decibels
          else if a.lt (a.lit 150 1) conf.gain
          then rejected above_decibels
          else accepted)

  instance abbrev pub gain_filter : {W : Type 0} → FilterTrait S (Gain S) W
  gain_filter = local_filter (λ g w. some (process_waveform g w, g))

  pub gain-KeepsLength : {W : Type 0} → KeepsLength (gain_filter {W = W})
  unfolding process_waveform
  gain-KeepsLength =
      local_filter-KeepsLength (λ g w. some (process_waveform g w, g))
        λ g w r e. subst (λ r. length r.0 ≡ length w) (some-eq e) (length-map w (λ x. x ⊗ g.gain))
