-- ===== src/Mixer/Used.antt =====
-- mixer.rs, `used_input_channels`: the channels that a mixer reads.
use astra_camilla_dsp.Common.{ℕ, zero, suc, ◌≡◌, refl, sym, ap, ap₂, ◌∙◌, subst, ◌≢◌, inl, inr}
use astra_camilla_dsp.Common.{Bool, true, false, some, List, [], ◌∷◌, ◌++◌, map, Bool-cases}
use astra_camilla_dsp.Common.{length, get_elem?, set, replicate, All, length-set}
use astra_camilla_dsp.Common.{length-replicate, get_or-set_ne, All-append, ◌>>=◌, >>=-eq-some}
use astra_camilla_dsp.Common.{Yields, accepted}
use astra_camilla_dsp.Config.Mixer as Config
use Prim.Native.String.{String}
use astra_camilla_dsp.Arith.{Arith}
use astra_camilla_dsp.AudioChunk.{AudioChunk}
use astra_camilla_dsp.Stash.{Stash}
use astra_camilla_dsp.Stash.Clean.{IsClean}
use astra_camilla_dsp.Mixer.{MixerSource, Mixer, push_at, source_from_config, add_unmuted}
use astra_camilla_dsp.Mixer.{map_unmuted, from_config, validate_mixer, used_input_channels}
use astra_camilla_dsp.Mixer.{process_chunk}
use astra_camilla_dsp.Mixer.Build.{validate_mixer-MappingsIn, IsSafe}
use astra_camilla_dsp.Mixer.Mix.{add_source, mix_channel, silence, mix, process_chunk_lem}
use astra_camilla_dsp.Mixer.Marks.{mark_mappings-AllMarked}

-- What the pushes of a loop keep.
push_at-All {ℓ κ} :
    {A : Type ℓ} (P : A → Type κ) (ls : List (List A)) (dest : ℕ) (x : A) {ls' : List (List A)}
    → push_at ls dest x ≡ some ls'
    → All (All P) ls
    → P x
    → All (All P) ls'
unfolding push_at
push_at-All P [] dest x e h p = cc
push_at-All P (l ∷ ls) zero x {ls' = ls'} e h p =
    let q : (l ++ (x ∷ [])) ∷ ls ≡ ls' = cc in
    subst (All (All P)) q (All-append P l (x ∷ []) h.0 (p, tt), h.1)
push_at-All P (l ∷ ls) (suc dest) x {ls' = ls'} e h p =
    let (rest, e₁, e₂) = >>=-eq-some (push_at ls dest x) _ e in
    let q : l ∷ rest ≡ ls' = cc in subst (All (All P)) q (h.0, push_at-All P ls dest x e₁ h.1 p)

module _ {S : Type 0} ⦃a : Arith S⦄ (P : MixerSource S → Type 0) where
  abbrev Heard : List (Config.MixerSource S) → Type 0
  Heard = All (λ s. Config.is_mute s ≡ false → P (source_from_config s))

  add_unmuted-All :
      (dest : ℕ) (ss : List (Config.MixerSource S)) (ls : List (List (MixerSource S)))
      {ls' : List (List (MixerSource S))}
      → add_unmuted dest ss ls ≡ some ls'
      → Heard ss
      → All (All P) ls
      → All (All P) ls'
  unfolding add_unmuted
  add_unmuted-All dest [] ls {ls' = ls'} e h k = let q : ls ≡ ls' = cc in subst (All (All P)) q k
  add_unmuted-All dest (s ∷ ss) ls {ls' = ls'} e h k = elim (Bool-cases (Config.is_mute s)) [
    | inl muted ↦
        let f : add_unmuted dest ss ls ≡ some ls' = rw muted at e in
        add_unmuted-All dest ss ls f h.1 k
    | inr heard ↦
        let f : (push_at ls dest (source_from_config s) >>= add_unmuted dest ss) ≡ some ls' =
          rw heard at e in
        let (ls₁, e₁, e₂) = >>=-eq-some (push_at ls dest (source_from_config s)) _ f in
        add_unmuted-All dest ss ls₁ e₂ h.1
          (push_at-All P ls dest (source_from_config s) e₁ k (h.0 heard))
  ]

  map_unmuted-All :
      (ms : List (Config.MixerMapping S)) (ls : List (List (MixerSource S)))
      {ls' : List (List (MixerSource S))}
      → map_unmuted ms ls ≡ some ls'
      → All (λ m. Config.is_mapping_mute m ≡ false → Heard m.sources) ms
      → All (All P) ls
      → All (All P) ls'
  unfolding map_unmuted
  map_unmuted-All [] ls {ls' = ls'} e h k = let q : ls ≡ ls' = cc in subst (All (All P)) q k
  map_unmuted-All (m ∷ ms) ls {ls' = ls'} e h k = elim (Bool-cases (Config.is_mapping_mute m)) [
    | inl muted ↦
        let f : map_unmuted ms ls ≡ some ls' = rw muted at e in map_unmuted-All ms ls f h.1 k
    | inr heard ↦
        let f : (add_unmuted m.dest m.sources ls >>= map_unmuted ms) ≡ some ls' = rw heard at e in
        let (ls₁, e₁, e₂) = >>=-eq-some (add_unmuted m.dest m.sources ls) _ f in
        map_unmuted-All ms ls₁ e₂ h.1 (add_unmuted-All m.dest m.sources ls e₁ (h.0 heard) k)
  ]

replicate-All {ℓ κ} : {A : Type ℓ} (P : A → Type κ) (n : ℕ) → All (All P) (replicate n [])
replicate-All P zero = tt
replicate-All P (suc n) = (tt, replicate-All P n)

module _ {S : Type 0} ⦃a : Arith S⦄ where
  -- Every channel that a mixer reads is marked.
  abbrev pub Reads : Mixer S → List Bool → Type 0
  Reads m used = All (All (λ s. get_elem? used s.channel ≡ some true)) m.mapping

  -- For a validated configuration `used_input_channels` does not panic, has an entry for each input
  -- channel, and marks every channel that the mixer built from it reads.
  pub used_input_channels-Reads :
      (name : String) (config : Config.Mixer S) {m : Mixer S}
      → validate_mixer config ≡ accepted
      → from_config name config ≡ some m
      → Yields
          (λ used. (length used ≡ config.channels.inputs) × Reads m used)
          (used_input_channels config)
  unfolding used_input_channels from_config source_from_config
  used_input_channels-Reads name config {m = m} v e =
      let n = config.channels.inputs in
      let (used, e₁, ((l, k), marked)) =
        mark_mappings-AllMarked config.channels config.mapping (replicate n false)
          (sym (length-replicate n false)) (validate_mixer-MappingsIn config v) in
      let (ls, e₂, e₃) =
        >>=-eq-some (map_unmuted config.mapping (replicate config.channels.out [])) _ e in
      let q : ls ≡ m.mapping = cc in
      let P = λ (s : MixerSource S). get_elem? used s.channel ≡ some true in
      (
        used,
        e₁,
        (
          l ∙ length-replicate n false,
          subst (All (All P)) q
              (map_unmuted-All P config.mapping _ e₂ marked (replicate-All P config.channels.out)),
        ),
      )

  -- The chunk with the waveform of channel `c` replaced.
  abbrev pub with_waveform : AudioChunk S → ℕ → List S → AudioChunk S
  with_waveform input c w = record input { waveforms = set input.waveforms c w }

  module _ (input : AudioChunk S) (c : ℕ) (w : List S) (used : List Bool)
      (unused : get_elem? used c ≡ some false) where
    mix_channel-unused :
        (out : List S) (row : List (MixerSource S))
        → All (λ s. get_elem? used s.channel ≡ some true) row
        → mix_channel (with_waveform input c w) out row ≡ mix_channel input out row
    mix_channel-unused out [] h = refl
    mix_channel-unused out (s ∷ row) h =
        let apart : c ≢ s.channel = λ e. cc (ap (get_elem? used) e) in
        rw (get_or-set_ne input.waveforms {i = c} {j = s.channel} w [] apart)
          (mix_channel-unused (add_source input out s) row h.1)

    mix_rows-unused :
        (rows : List (List (MixerSource S)))
        → All (All (λ s. get_elem? used s.channel ≡ some true)) rows
        → map (mix_channel (with_waveform input c w) (silence input)) rows
          ≡ map (mix_channel input (silence input)) rows
    mix_rows-unused [] h = refl
    mix_rows-unused (row ∷ rows) h =
        ap₂ ◌∷◌ (mix_channel-unused (silence input) row h.0) (mix_rows-unused rows h.1)

  -- A mixer in range, which reads only channels that `used` marks, on a chunk with its input channels
  -- and with a clean stash: when another waveform is put into a channel that is not marked, the mixer
  -- gives the same chunk, and does not panic.
  pub process_chunk-unused :
      (m : Mixer S) (used : List Bool) (input : AudioChunk S) (stash : Stash S) (c : ℕ) (w : List S)
      → IsSafe m
      → Reads m used
      → get_elem? used c ≡ some false
      → length input.waveforms ≡ m.channels_in
      → IsClean stash
      → Yields
          (λ r. Yields (λ r'. r'.0 ≡ r.0) (process_chunk m (with_waveform input c w) stash))
          (process_chunk m input stash)
  process_chunk-unused m used input stash c w safe reads unused wide clean =
      let (r, e, (p, k)) = process_chunk_lem input m stash safe wide clean in
      let (r', e', (p', k')) =
        process_chunk_lem (with_waveform input c w) m stash safe
          (length-set input.waveforms c w ∙ wide) clean in
      let same : mix (with_waveform input c w) m ≡ mix input m =
        ap (λ ws. record input { channels = length ws; waveforms = ws })
          (mix_rows-unused input c w used unused m.mapping reads) in
      (r, e, (r', e', p' ∙ same ∙ sym p))
