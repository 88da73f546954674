-- ===== src/Config/Mixer.antt =====
-- config/mod.rs: the configuration of a mixer. An absent `Option` takes the getter's default.
use astra_camilla_dsp.Common.{ℕ, Bool, true, false, Option, none, some, List}
use astra_camilla_dsp.Arith.{Arith, nought}

abbrev pub unwrap_or {ℓ} : {A : Type ℓ} → Option A → A → A
unwrap_or none d = d
unwrap_or (some x) d = x

pub data GainScale : Type 0 where
  linear decibel : GainScale

pub record MixerChannels : Type 0 where
  pub inputs : ℕ
  pub out : ℕ

pub record MixerSource (S : Type 0) : Type 0 where
  pub channel : ℕ
  pub gain : Option S
  pub inverted : Option Bool
  pub mute : Option Bool
  pub scale : Option GainScale

pub record MixerMapping (S : Type 0) : Type 0 where
  pub dest : ℕ
  pub sources : List (MixerSource S)
  pub mute : Option Bool

pub record Mixer (S : Type 0) : Type 0 where
  pub channels : MixerChannels
  pub mapping : List (MixerMapping S)

module _ {S : Type 0} where
  abbrev pub is_inverted : MixerSource S → Bool
  is_inverted s = unwrap_or s.inverted false

  abbrev pub is_mute : MixerSource S → Bool
  is_mute s = unwrap_or s.mute false

  abbrev pub scale : MixerSource S → GainScale
  scale s = unwrap_or s.scale decibel

  abbrev pub is_mapping_mute : MixerMapping S → Bool
  is_mapping_mute m = unwrap_or m.mute false

abbrev pub is_linear : GainScale → Bool
is_linear linear = true
is_linear decibel = false

module _ {S : Type 0} ⦃a : Arith S⦄ where
  abbrev pub gain : MixerSource S → S
  gain s = unwrap_or s.gain nought
