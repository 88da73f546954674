-- ===== src/Mixer/Build.antt =====
-- mixer.rs: a validated configuration builds a mixer whose indices are in range.
use astra_camilla_dsp.Common.{ℕ, zero, suc, ◌<◌, ◌≡◌, refl, ap, inl, inr, List, [], ◌∷◌, ◌++◌}
use astra_camilla_dsp.Common.{arith, Bool-cases, length, replicate, All, All-append}
use astra_camilla_dsp.Common.{then_check-accepted, Yields, Yields-bind, accepted}
use astra_camilla_dsp.Config.Mixer as Config
use Prim.Native.String.{String}
use astra_camilla_dsp.Arith.{Arith}
use astra_camilla_dsp.Mixer.{MixerSource, Mixer, push_at, source_from_config, add_unmuted}
use astra_camilla_dsp.Mixer.{map_unmuted, from_config, add_all, map_all, update_parameters}
use astra_camilla_dsp.Mixer.{validate_sources, validate_mappings, validate_mixer}

module _ {S : Type 0} where
  abbrev pub SourcesIn : ℕ → List (Config.MixerSource S) → Type 0
  SourcesIn chan_in = All (λ s. s.channel < chan_in)

  -- What validation promises of each mapping.
  abbrev pub MappingsIn : Config.MixerChannels → List (Config.MixerMapping S) → Type 0
  MappingsIn channels = All (λ m. (m.dest < channels.out) × SourcesIn channels.inputs m.sources)

  -- All indices of a mixer are in range.
  pub record IsSafe (m : Mixer S) : Type 0 where
    pub outputs : length m.mapping ≡ m.channels_out
    pub sources : All (All (λ s. s.channel < m.channels_in)) m.mapping

  validate_sources-SourcesIn :
      (chan_in dest : ℕ) (seen : List ℕ) (sources : List (Config.MixerSource S))
      → validate_sources chan_in dest seen sources ≡ accepted
      → SourcesIn chan_in sources
  unfolding validate_sources
  validate_sources-SourcesIn n dest seen [] h = tt
  validate_sources-SourcesIn n dest seen (s ∷ ss) h =
      ground (arith, validate_sources-SourcesIn n dest seen ss)

  pub validate_mappings-MappingsIn :
      (channels : Config.MixerChannels) (seen : List ℕ) (mappings : List (Config.MixerMapping S))
      → validate_mappings channels seen mappings ≡ accepted
      → MappingsIn channels mappings
  unfolding validate_mappings
  validate_mappings-MappingsIn c seen [] h = tt
  validate_mappings-MappingsIn c seen (m ∷ ms) h = ground (
    arith,
    then_check-accepted (validate_sources c.inputs m.dest [] m.sources)
        (validate_mappings c (seen ++ (m.dest ∷ [])) ms),
    validate_sources-SourcesIn c.inputs m.dest [] m.sources,
    validate_mappings-MappingsIn c (seen ++ (m.dest ∷ [])) ms,
  )

-- `ls` has `n` lists, all of whose elements are as `P` says.
abbrev Rows {ℓ κ} : {A : Type ℓ} → (A → Type κ) → ℕ → List (List A) → Type κ
Rows P n ls = (length ls ≡ n) × All (All P) ls

push_at-Rows {ℓ κ} :
    {A : Type ℓ} (P : A → Type κ) (n : ℕ) (ls : List (List A)) (dest : ℕ) (x : A)
    → Rows P n ls
    → dest < n
    → P x
    → Yields (Rows P n) (push_at ls dest x)
unfolding push_at
push_at-Rows P n [] dest x r lt p = absurd (omega arith)
push_at-Rows P n (l ∷ ls) zero x r lt p =
    ((l ++ (x ∷ [])) ∷ ls, refl, (r.0, (All-append P l (x ∷ []) r.1.0 (p, tt), r.1.1)))
push_at-Rows P zero (l ∷ ls) (suc dest) x r lt p = absurd (omega arith)
push_at-Rows P (suc n) (l ∷ ls) (suc dest) x r lt p =
    Yields-bind (Rows P (suc n)) (push_at ls dest x) _
      (push_at-Rows P n ls dest x (omega arith, r.1.1) (omega arith) p)
      λ ls' r'. (l ∷ ls', refl, (ap suc r'.0, (r.1.0, r'.1)))

replicate-Rows {ℓ κ} : {A : Type ℓ} (P : A → Type κ) (n : ℕ) → Rows P n (replicate n [])
replicate-Rows P zero = (refl, tt)
replicate-Rows P (suc n) = let (l, a) = replicate-Rows P n in (ap suc l, (tt, a))

module _ {S : Type 0} ⦃a : Arith S⦄ (chan_in chan_out : ℕ) where
  abbrev SourceIn : MixerSource S → Type 0
  SourceIn s = s.channel < chan_in

  add_all-Rows :
      (dest : ℕ) (sources : List (Config.MixerSource S)) (ls : List (List (MixerSource S)))
      → dest < chan_out
      → SourcesIn chan_in sources
      → Rows SourceIn chan_out ls
      → Yields (Rows SourceIn chan_out) (add_all dest sources ls)
  unfolding add_all source_from_config
  add_all-Rows dest [] ls lt h r = (ls, refl, r)
  add_all-Rows dest (s ∷ ss) ls lt h r =
      Yields-bind (Rows SourceIn chan_out) (push_at ls dest (source_from_config s)) _
        (push_at-Rows SourceIn chan_out ls dest (source_from_config s) r lt h.0)
        λ ls' r'. add_all-Rows dest ss ls' lt h.1 r'

  add_unmuted-Rows :
      (dest : ℕ) (sources : List (Config.MixerSource S)) (ls : List (List (MixerSource S)))
      → dest < chan_out
      → SourcesIn chan_in sources
      → Rows SourceIn chan_out ls
      → Yields (Rows SourceIn chan_out) (add_unmuted dest sources ls)
  unfolding add_unmuted source_from_config
  add_unmuted-Rows dest [] ls lt h r = (ls, refl, r)
  add_unmuted-Rows dest (s ∷ ss) ls lt h r = elim (Bool-cases (Config.is_mute s)) [
    | inl muted ↦ rw muted (add_unmuted-Rows dest ss ls lt h.1 r)
    | inr heard ↦ rw heard (
        Yields-bind (Rows SourceIn chan_out) (push_at ls dest (source_from_config s))
          (add_unmuted dest ss)
          (push_at-Rows SourceIn chan_out ls dest (source_from_config s) r lt h.0)
          λ ls' r'. add_unmuted-Rows dest ss ls' lt h.1 r')
  ]

module _ {S : Type 0} ⦃a : Arith S⦄ (channels : Config.MixerChannels) where
  abbrev IsBuilt : List (List (MixerSource S)) → Type 0
  IsBuilt = Rows (λ s. s.channel < channels.inputs) channels.out

  map_all-IsBuilt :
      (mappings : List (Config.MixerMapping S)) (ls : List (List (MixerSource S)))
      → MappingsIn channels mappings
      → IsBuilt ls
      → Yields IsBuilt (map_all mappings ls)
  unfolding map_all
  map_all-IsBuilt [] ls h r = (ls, refl, r)
  map_all-IsBuilt (m ∷ ms) ls h r =
      Yields-bind IsBuilt (add_all m.dest m.sources ls) (map_all ms)
        (add_all-Rows channels.inputs channels.out m.dest m.sources ls h.0.0 h.0.1 r)
        λ ls' r'. map_all-IsBuilt ms ls' h.1 r'

  map_unmuted-IsBuilt :
      (mappings : List (Config.MixerMapping S)) (ls : List (List (MixerSource S)))
      → MappingsIn channels mappings
      → IsBuilt ls
      → Yields IsBuilt (map_unmuted mappings ls)
  unfolding map_unmuted
  map_unmuted-IsBuilt [] ls h r = (ls, refl, r)
  map_unmuted-IsBuilt (m ∷ ms) ls h r = elim (Bool-cases (Config.is_mapping_mute m)) [
    | inl muted ↦ rw muted (map_unmuted-IsBuilt ms ls h.1 r)
    | inr heard ↦ rw heard (
        Yields-bind IsBuilt (add_unmuted m.dest m.sources ls) (map_unmuted ms)
          (add_unmuted-Rows channels.inputs channels.out m.dest m.sources ls h.0.0 h.0.1 r)
          λ ls' r'. map_unmuted-IsBuilt ms ls' h.1 r')
  ]

module _ {S : Type 0} ⦃a : Arith S⦄ where
  pub validate_mixer-MappingsIn :
      (config : Config.Mixer S)
      → validate_mixer config ≡ accepted
      → MappingsIn config.channels config.mapping
  unfolding validate_mixer
  validate_mixer-MappingsIn config = validate_mappings-MappingsIn config.channels [] config.mapping

  -- A mixer of the configured size, with all indices in range.
  abbrev pub Fits : Config.Mixer S → Mixer S → Type 0
  Fits config m =
      IsSafe m × (m.channels_in ≡ config.channels.inputs) × (m.channels_out ≡ config.channels.out)

  -- A validated mixer configuration is built without a panic; the mixer has the configured numbers of
  -- channels, and all its indices are in range.
  pub from_config-IsSafe :
      (name : String) (config : Config.Mixer S)
      → validate_mixer config ≡ accepted
      → Yields (Fits config) (from_config name config)
  unfolding from_config
  from_config-IsSafe name config v =
      Yields-bind (Fits config) (map_unmuted config.mapping (replicate config.channels.out [])) _
        (map_unmuted-IsBuilt config.channels config.mapping _ (validate_mixer-MappingsIn config v)
          (replicate-Rows (λ s. s.channel < config.channels.inputs) config.channels.out))
        λ ls r. (_, refl, (record { outputs = r.0; sources = r.1 }, refl, refl))

  -- A validated mixer configuration updates any mixer without a panic, to one with the configured
  -- numbers of channels and all its indices in range.
  pub update_parameters-IsSafe :
      (self : Mixer S) (config : Config.Mixer S)
      → validate_mixer config ≡ accepted
      → Yields (Fits config) (update_parameters self config)
  unfolding update_parameters
  update_parameters-IsSafe self config v =
      Yields-bind (Fits config) (map_all config.mapping (replicate config.channels.out [])) _
        (map_all-IsBuilt config.channels config.mapping _ (validate_mixer-MappingsIn config v)
          (replicate-Rows (λ s. s.channel < config.channels.inputs) config.channels.out))
        λ ls r. (_, refl, (record { outputs = r.0; sources = r.1 }, refl, refl))
