-- ===== src/Mixer/Tests.antt =====
-- Runs of the mixer, after the tests of mixer.rs, and its theorems at concrete configurations.
use astra_camilla_dsp.Common.{ℕ, ◌+◌, ◌≡◌, refl, ◌≢◌, ◌↔◌, Bool, true, false, none, some, [], ◌∷◌}
use astra_camilla_dsp.Common.{map, arith, length, Yields, accepted, rejected}
use astra_camilla_dsp.Config.Mixer as Config
use astra_camilla_dsp.AudioChunk.{from, AudioChunk}
use astra_camilla_dsp.Mixer.Sum.{sum_of, process_chunk-sum_of}
use astra_camilla_dsp.Arith.Whole.{whole, ℤ, pos, negsuc}
use astra_camilla_dsp.Stash.Clean.{IsClean}
use astra_camilla_dsp.Decibels.{gain_from_value}
use astra_camilla_dsp.Stash.{Stash}
use astra_camilla_dsp.Config.Mixer.{linear}
use astra_camilla_dsp.Mixer.{MixerSource, Mixer, source_from_config, validate_mixer, from_config}
use astra_camilla_dsp.Mixer.{update_parameters, process_chunk, used_input_channels}
use astra_camilla_dsp.Mixer.{validate_sources, validate_mappings, push_at, add_unmuted}
use astra_camilla_dsp.Mixer.{map_unmuted, add_all, map_all, mark, mark_sources, mark_mappings}
use astra_camilla_dsp.Mixer.{duplicate_source}
use astra_camilla_dsp.Mixer.Build.{IsSafe, Fits, MappingsIn, from_config-IsSafe}
use astra_camilla_dsp.Mixer.Muted.{total, muted_sources, update_parameters-total}
use astra_camilla_dsp.Mixer.Muted.{update_parameters-eq-from_config}
use astra_camilla_dsp.Mixer.Duplicates.{Distinct, validate_mixer-ne-duplicate_source}
use astra_camilla_dsp.Mixer.Duplicates.{validate_mixer_iff}
use astra_camilla_dsp.Mixer.Used.{Reads, used_input_channels-Reads, process_chunk-unused}
use astra_camilla_dsp.Mixer.Used.{with_waveform}

abbrev source : ℕ → Bool → Config.MixerSource ℤ
source channel mute = record {
  channel = channel;
  gain = some (pos 2);
  inverted = none;
  mute = some mute;
  scale = some linear;
}

-- Two outputs from three inputs; channel 1 is muted and channel 2 not mapped.
abbrev pub config : Config.Mixer ℤ
config = record {
  channels = record { inputs = 3; out = 2 };
  mapping =
      record { dest = 0; sources = source 0 false ∷ source 1 true ∷ []; mute = none }
      ∷ record { dest = 1; sources = source 0 false ∷ []; mute = some false }
      ∷ [];
}

abbrev heard : MixerSource ℤ
heard = record { channel = 0; gain = pos 2 }

abbrev pub built : Mixer ℤ
built = record {
  name = "mix";
  channels_in = 3;
  channels_out = 2;
  mapping = (heard ∷ []) ∷ (heard ∷ []) ∷ [];
}

abbrev updated : Mixer ℤ
updated = record {
  name = "mix";
  channels_in = 3;
  channels_out = 2;
  mapping = (heard ∷ record { channel = 1; gain = pos 2 } ∷ []) ∷ (heard ∷ []) ∷ [];
}

config_accepted : validate_mixer config ≡ accepted
unfolding validate_mixer validate_mappings validate_sources
config_accepted = refl

config_builds : from_config "mix" config ≡ some built
unfolding from_config map_unmuted add_unmuted push_at source_from_config gain_from_value
config_builds = refl

config_updates : update_parameters built config ≡ some updated
unfolding update_parameters map_all add_all push_at source_from_config gain_from_value
config_updates = refl

used_test : used_input_channels config ≡ some (true ∷ false ∷ false ∷ [])
unfolding used_input_channels mark_mappings mark_sources mark
used_test = refl

abbrev pub chunk : AudioChunk ℤ
chunk = record {
  frames = 2;
  channels = 3;
  maxval = pos 5;
  minval = pos 0;
  timestamp = 7;
  valid_frames = 2;
  waveforms = (pos 4 ∷ negsuc 0 ∷ []) ∷ (pos 1 ∷ pos 1 ∷ []) ∷ [] ∷ [];
}

abbrev pub stash : Stash ℤ
stash = record { buffers = (pos 0 ∷ []) ∷ []; containers = [] ∷ [] }

pub stash-IsClean : IsClean stash
stash-IsClean = record {
  silent = ((refl, tt), tt);
  drained = (refl, tt);
  buffers_bounded = omega arith;
  containers_bounded = omega arith;
}

pub built-IsSafe : IsSafe built
built-IsSafe = record { outputs = refl; sources = ((omega arith, tt), ((omega arith, tt), tt)) }

from_config-IsSafe_example : Yields (Fits config) (from_config "mix" config)
from_config-IsSafe_example = from_config-IsSafe "mix" config config_accepted

process_chunk-sum_of_example :
    Yields
      (λ r. (r.0 ≡ from chunk (map (sum_of chunk) built.mapping)) × IsClean r.1)
      (process_chunk built chunk stash)
process_chunk-sum_of_example =
    process_chunk-sum_of chunk built stash built-IsSafe refl stash-IsClean

update_parameters-total_example :
    total updated.mapping ≡ total built.mapping + muted_sources config.mapping
update_parameters-total_example =
    update_parameters-total "mix" built config config_builds config_updates

abbrev plain : Config.Mixer ℤ
plain = record {
  channels = record { inputs = 1; out = 1 };
  mapping = record { dest = 0; sources = source 0 false ∷ []; mute = none } ∷ [];
}

update_parameters-eq-from_config_example : update_parameters built plain ≡ from_config "mix" plain
update_parameters-eq-from_config_example =
    update_parameters-eq-from_config built plain ((refl, (refl, tt)), tt)

-- One input channel listed twice for one destination.
abbrev twice : Config.Mixer ℤ
twice = record {
  channels = record { inputs = 1; out = 1 };
  mapping = record { dest = 0; sources = source 0 false ∷ source 0 false ∷ []; mute = none } ∷ [];
}

twice_accepted : validate_mixer twice ≡ accepted
unfolding validate_mixer validate_mappings validate_sources
twice_accepted = refl

validate_mixer-ne-duplicate_source_example : validate_mixer twice ≢ rejected (duplicate_source 0 0)
validate_mixer-ne-duplicate_source_example = validate_mixer-ne-duplicate_source twice 0 0

validate_mixer_iff_example :
    (validate_mixer config ≡ accepted)
    ↔ (MappingsIn config.channels config.mapping × Distinct [] config.mapping)
validate_mixer_iff_example = validate_mixer_iff config

used_input_channels-Reads_example :
    Yields (λ used. (length used ≡ 3) × Reads built used) (used_input_channels config)
used_input_channels-Reads_example =
    used_input_channels-Reads "mix" config config_accepted config_builds

process_chunk-unused_example :
    Yields
      (λ r.
        Yields (λ r'. r'.0 ≡ r.0) (process_chunk built (with_waveform chunk 1 (pos 9 ∷ [])) stash))
      (process_chunk built chunk stash)
process_chunk-unused_example =
    process_chunk-unused built (true ∷ false ∷ false ∷ []) chunk stash 1 (pos 9 ∷ []) built-IsSafe
      ((refl, tt), ((refl, tt), tt)) refl refl stash-IsClean
