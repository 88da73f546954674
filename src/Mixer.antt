-- ===== src/Mixer.antt =====
-- mixer.rs: mixes the channels of a chunk into new channels.
pub mod Marks
pub mod Build
pub mod Mix
pub mod Sum
pub mod Muted
pub mod Used
pub mod Duplicates
pub mod Tests
use astra_camilla_dsp.Common.{ℕ, zero, suc, ◌+◌, Bool, true, false, Option, none, some, List, []}
use astra_camilla_dsp.Common.{◌∷◌, ◌++◌, leb, if◌then◌else◌, contains, is_empty, get_elem?, set}
use astra_camilla_dsp.Common.{replicate, ◌>>=◌, Check, ◌then_check◌, accepted, rejected}
use astra_camilla_dsp.Config.Mixer as Config
use Prim.Native.String.{String}
use astra_camilla_dsp.Arith.{Arith, ◌⊕◌, ◌⊗◌}
use astra_camilla_dsp.Decibels.{gain_from_value}
use astra_camilla_dsp.Stash.{Stash, vec_from_stash, container_from_stash, recycle_container}
use astra_camilla_dsp.AudioChunk.{AudioChunk, from}

pub record MixerSource (S : Type 0) : Type 0 where
  pub channel : ℕ
  pub gain : S

pub record Mixer (S : Type 0) : Type 0 where
  pub name : String
  pub channels_in : ℕ
  pub channels_out : ℕ
  pub mapping : List (List (MixerSource S))

-- The errors of `validate_mixer`, with the numbers that the message shows.
pub data MixerError : Type 0 where
  invalid_destination : ℕ → MixerError
  duplicate_mapping : ℕ → MixerError
  invalid_source : ℕ → MixerError
  duplicate_source : ℕ → ℕ → MixerError

-- `mapping[dest].push(src)`; an index out of bounds panics.
pub push_at {ℓ} : {A : Type ℓ} → List (List A) → ℕ → A → Option (List (List A))
push_at [] dest src = none
push_at (l ∷ ls) zero src = some ((l ++ (src ∷ [])) ∷ ls)
push_at (l ∷ ls) (suc dest) src = do rest ← push_at ls dest src; some (l ∷ rest)

module _ {S : Type 0} ⦃a : Arith S⦄ where
  -- The source of a mixer, from its configuration.
  pub source_from_config : Config.MixerSource S → MixerSource S
  source_from_config src = record {
    channel = src.channel;
    gain =
        gain_from_value (Config.gain src) (Config.is_linear (Config.scale src))
          (Config.is_inverted src) false;
  }

  -- The inner loop of `from_config`: muted sources are left out.
  pub add_unmuted :
      ℕ
      → List (Config.MixerSource S)
      → List (List (MixerSource S))
      → Option (List (List (MixerSource S)))
  add_unmuted dest [] mapping = some mapping
  add_unmuted dest (src ∷ srcs) mapping =
      if Config.is_mute src
      then add_unmuted dest srcs mapping
      else push_at mapping dest (source_from_config src) >>= add_unmuted dest srcs

  pub map_unmuted :
      List (Config.MixerMapping S)
      → List (List (MixerSource S))
      → Option (List (List (MixerSource S)))
  map_unmuted [] mapping = some mapping
  map_unmuted (m ∷ ms) mapping =
      if Config.is_mapping_mute m
      then map_unmuted ms mapping
      else add_unmuted m.dest m.sources mapping >>= map_unmuted ms

  pub from_config : String → Config.Mixer S → Option (Mixer S)
  from_config name config = do
    mapping ← map_unmuted config.mapping (replicate config.channels.out [])
    some (record {
      name = name;
      channels_in = config.channels.inputs;
      channels_out = config.channels.out;
      mapping = mapping;
    })

  -- The inner loop of `update_parameters`: no source is left out.
  pub add_all :
      ℕ
      → List (Config.MixerSource S)
      → List (List (MixerSource S))
      → Option (List (List (MixerSource S)))
  add_all dest [] mapping = some mapping
  add_all dest (src ∷ srcs) mapping =
      push_at mapping dest (source_from_config src) >>= add_all dest srcs

  pub map_all :
      List (Config.MixerMapping S)
      → List (List (MixerSource S))
      → Option (List (List (MixerSource S)))
  map_all [] mapping = some mapping
  map_all (m ∷ ms) mapping = add_all m.dest m.sources mapping >>= map_all ms

  pub update_parameters : Mixer S → Config.Mixer S → Option (Mixer S)
  update_parameters self config = do
    mapping ← map_all config.mapping (replicate config.channels.out [])
    some (record {
      name = self.name;
      channels_in = config.channels.inputs;
      channels_out = config.channels.out;
      mapping = mapping;
    })

  -- `iter_mut().zip(iter()).take(frames)`, with `*out_val += gain * in_val`.
  pub mix_into : ℕ → S → List S → List S → List S
  mix_into zero gain outs ins = outs
  mix_into (suc frames) gain [] ins = []
  mix_into (suc frames) gain (o ∷ outs) [] = o ∷ outs
  mix_into (suc frames) gain (o ∷ outs) (i ∷ ins) = (o ⊕ gain ⊗ i) ∷ mix_into frames gain outs ins

  add_to : ℕ → S → ℕ → List S → List (List S) → Option (List (List S))
  add_to out_chan gain frames in_wave waveforms = do
    out_wave ← get_elem? waveforms out_chan
    some (set waveforms out_chan (mix_into frames gain out_wave in_wave))

  -- Adding one source to the output channel `out_chan`; an unused input channel is empty.
  pub mix_source : AudioChunk S → ℕ → MixerSource S → List (List S) → Option (List (List S))
  mix_source input out_chan source waveforms = do
    in_wave ← get_elem? input.waveforms source.channel
    if is_empty in_wave
        then some waveforms
        else add_to out_chan source.gain input.frames in_wave waveforms

  pub mix_sources : AudioChunk S → ℕ → List (MixerSource S) → List (List S) → Option (List (List S))
  mix_sources input out_chan [] waveforms = some waveforms
  mix_sources input out_chan (source ∷ sources) waveforms =
      mix_source input out_chan source waveforms >>= mix_sources input out_chan sources

  -- The loop over the output channels: `left` of them are left to do, from `out_chan` on.
  pub mix_channels :
      Mixer S → AudioChunk S → ℕ → ℕ → List (List S) → Stash S → Option (List (List S) × Stash S)
  mix_channels self input zero out_chan waveforms stash = some (waveforms, stash)
  mix_channels self input (suc left) out_chan waveforms stash =
      let (v, stash') = vec_from_stash input.frames stash in
      do
        sources ← get_elem? self.mapping out_chan
        waveforms' ← mix_sources input out_chan sources (waveforms ++ (v ∷ []))
        mix_channels self input left (out_chan + 1) waveforms' stash'

  pub process_chunk : Mixer S → AudioChunk S → Stash S → Option (AudioChunk S × Stash S)
  process_chunk self input stash =
      let (container, stash') = container_from_stash stash in
      do
        mixed ← mix_channels self input self.channels_out 0 container stash'
        some (from input mixed.0, recycle_container input.waveforms mixed.1)

-- `input_channels` is cleared for each mapping, and looked up but never added to.
unfoldable pub validate_sources :
    {S : Type 0} → ℕ → ℕ → List ℕ → List (Config.MixerSource S) → Check MixerError
validate_sources chan_in dest input_channels [] = accepted
validate_sources chan_in dest input_channels (source ∷ sources) =
    if leb chan_in source.channel
    then rejected (invalid_source source.channel)
    else if contains input_channels source.channel
    then rejected (duplicate_source source.channel dest)
    else validate_sources chan_in dest input_channels sources

unfoldable pub validate_mappings :
    {S : Type 0} → Config.MixerChannels → List ℕ → List (Config.MixerMapping S) → Check MixerError
validate_mappings channels output_channels [] = accepted
validate_mappings channels output_channels (mapping ∷ mappings) =
    if leb channels.out mapping.dest
    then rejected (invalid_destination mapping.dest)
    else if contains output_channels mapping.dest
    then rejected (duplicate_mapping mapping.dest)
    else (validate_sources channels.inputs mapping.dest [] mapping.sources
        then_check validate_mappings channels (output_channels ++ (mapping.dest ∷ [])) mappings)

unfoldable pub validate_mixer : {S : Type 0} → Config.Mixer S → Check MixerError
validate_mixer config = validate_mappings config.channels [] config.mapping

-- `used_channels[channel] = true`, which panics out of bounds.
mark : List Bool → ℕ → Option (List Bool)
mark [] channel = none
mark (u ∷ us) zero = some (true ∷ us)
mark (u ∷ us) (suc channel) = do rest ← mark us channel; some (u ∷ rest)

module _ {S : Type 0} where
  pub mark_sources : List (Config.MixerSource S) → List Bool → Option (List Bool)
  mark_sources [] used = some used
  mark_sources (s ∷ sources) used =
      if Config.is_mute s
      then mark_sources sources used
      else mark used s.channel >>= mark_sources sources

  pub mark_mappings : List (Config.MixerMapping S) → List Bool → Option (List Bool)
  mark_mappings [] used = some used
  mark_mappings (m ∷ mappings) used =
      if Config.is_mapping_mute m
      then mark_mappings mappings used
      else mark_sources m.sources used >>= mark_mappings mappings

  pub used_input_channels : Config.Mixer S → Option (List Bool)
  used_input_channels config = mark_mappings config.mapping (replicate config.channels.inputs false)
