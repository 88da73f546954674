-- ===== src/Mixer/Duplicates.antt =====
-- mixer.rs, `validate_mixer`: which configurations are accepted.
use astra_camilla_dsp.Common.{ℕ, ◌≤◌, ◌≡◌, refl, ◌≢◌, ◌↔◌, ◌⊎◌, inl, inr, false, List, [], ◌∷◌}
use astra_camilla_dsp.Common.{◌++◌, arith, leb, leb→le, lt→leb, Bool-cases, contains}
use astra_camilla_dsp.Common.{then_check-accepted, accepted, rejected}
use astra_camilla_dsp.Config.Mixer as Config
use astra_camilla_dsp.Mixer.{invalid_source, duplicate_source, validate_sources}
use astra_camilla_dsp.Mixer.{validate_mappings, validate_mixer}
use astra_camilla_dsp.Mixer.Build.{validate_mappings-MappingsIn, SourcesIn, MappingsIn}

module _ {S : Type 0} where
  -- What `validate_mixer` accepts: indices in range, and one mapping for a destination at most.
  abbrev pub Distinct : List ℕ → List (Config.MixerMapping S) → Type 0
  Distinct seen [] = Unit {0}
  Distinct seen (m ∷ ms) = (contains seen m.dest ≡ false) × Distinct (seen ++ (m.dest ∷ [])) ms

  validate_sources_lem :
      (chan_in dest : ℕ) (sources : List (Config.MixerSource S))
      → (SourcesIn chan_in sources × (validate_sources chan_in dest [] sources ≡ accepted))
        ⊎ ((c : ℕ) × (chan_in ≤ c)
            × (validate_sources chan_in dest [] sources ≡ rejected (invalid_source c)))
  unfolding validate_sources
  validate_sources_lem n dest [] = inl (tt, refl)
  validate_sources_lem n dest (s ∷ ss) = elim (Bool-cases (leb n s.channel)) [
    | inl out ↦ inr (s.channel, leb→le n s.channel out, rw out)
    | inr inside ↦ rw inside (elim (validate_sources_lem n dest ss) [
      | inl (h, e) ↦ inl ((ground arith, h), e)
      | inr bad ↦ inr bad
    ])
  ]

  validate_mappings-ne :
      (channels : Config.MixerChannels) (seen : List ℕ) (ms : List (Config.MixerMapping S))
      (c d : ℕ)
      → validate_mappings channels seen ms ≢ rejected (duplicate_source c d)
  unfolding validate_mappings
  validate_mappings-ne channels seen [] c d e = cc
  validate_mappings-ne channels seen (m ∷ ms) c d e = ground (
    arith,
    validate_sources_lem channels.inputs m.dest m.sources,
    validate_mappings-ne channels (seen ++ (m.dest ∷ [])) ms c d,
  )

  -- The check for an input channel that is listed twice for one destination never fires: no
  -- configuration is rejected with that error.
  pub validate_mixer-ne-duplicate_source :
      (config : Config.Mixer S) (c d : ℕ) → validate_mixer config ≢ rejected (duplicate_source c d)
  unfolding validate_mixer
  validate_mixer-ne-duplicate_source config c d =
      validate_mappings-ne config.channels [] config.mapping c d

  validate_sources-accepted :
      (chan_in dest : ℕ) (sources : List (Config.MixerSource S))
      → SourcesIn chan_in sources
      → validate_sources chan_in dest [] sources ≡ accepted
  unfolding validate_sources
  validate_sources-accepted n dest [] h = refl
  validate_sources-accepted n dest (s ∷ ss) h =
      ground (arith, validate_sources-accepted n dest ss h.1)

  validate_mappings-accepted :
      (channels : Config.MixerChannels) (seen : List ℕ) (ms : List (Config.MixerMapping S))
      → MappingsIn channels ms
      → Distinct seen ms
      → validate_mappings channels seen ms ≡ accepted
  unfolding validate_mappings
  validate_mappings-accepted channels seen [] h d = refl
  validate_mappings-accepted channels seen (m ∷ ms) h d =
      let sources = validate_sources-accepted channels.inputs m.dest m.sources h.0.1 in
      rw (lt→leb m.dest channels.out h.0.0, d.0, sources)
        (validate_mappings-accepted channels (seen ++ (m.dest ∷ [])) ms h.1 d.1)

  validate_mappings-Distinct :
      (channels : Config.MixerChannels) (seen : List ℕ) (ms : List (Config.MixerMapping S))
      → validate_mappings channels seen ms ≡ accepted
      → Distinct seen ms
  unfolding validate_mappings
  validate_mappings-Distinct channels seen [] h = tt
  validate_mappings-Distinct channels seen (m ∷ ms) h = ground (
    arith,
    then_check-accepted (validate_sources channels.inputs m.dest [] m.sources)
        (validate_mappings channels (seen ++ (m.dest ∷ [])) ms),
    validate_mappings-Distinct channels (seen ++ (m.dest ∷ [])) ms,
  )

  -- A mixer configuration is accepted exactly when all its channel numbers are in range and no two
  -- mappings have the same destination.
  pub validate_mixer_iff :
      (config : Config.Mixer S)
      → (validate_mixer config ≡ accepted)
        ↔ (MappingsIn config.channels config.mapping × Distinct [] config.mapping)
  unfolding validate_mixer
  validate_mixer_iff config = (
    λ v. (
      validate_mappings-MappingsIn config.channels [] config.mapping v,
      validate_mappings-Distinct config.channels [] config.mapping v,
    ),
    λ h. validate_mappings-accepted config.channels [] config.mapping h.0 h.1,
  )
