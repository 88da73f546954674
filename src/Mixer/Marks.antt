-- ===== src/Mixer/Marks.antt =====
-- mixer.rs, `used_input_channels`: the marks that its loops set.
use astra_camilla_dsp.Common.{ℕ, zero, suc, ◌<◌, ◌≡◌, refl, sym, ap, ◌∙◌, inl, inr, Bool, true}
use astra_camilla_dsp.Common.{false, some, List, [], ◌∷◌, arith, Bool-cases, length, get_elem?}
use astra_camilla_dsp.Common.{All, All-map, Yields}
use astra_camilla_dsp.Config.Mixer as Config
use astra_camilla_dsp.Mixer.{mark, mark_sources, mark_mappings}
use astra_camilla_dsp.Mixer.Build.{SourcesIn, MappingsIn}

-- `vs` marks all channels that `us` marks, and has as many.
abbrev Extends : List Bool → List Bool → Type 0
Extends us vs =
    (length vs ≡ length us) × ((c : ℕ) → get_elem? us c ≡ some true → get_elem? vs c ≡ some true)

mark-Extends :
    (us : List Bool) (c : ℕ)
    → c < length us
    → Yields (λ vs. Extends us vs × (get_elem? vs c ≡ some true)) (mark us c)
unfolding mark
mark-Extends [] c lt = absurd (omega arith)
mark-Extends (u ∷ us) zero lt = (true ∷ us, refl, ((refl, kept), refl))
  where
    kept : (c : ℕ) → get_elem? (u ∷ us) c ≡ some true → get_elem? (true ∷ us) c ≡ some true
    kept zero h = refl
    kept (suc c) h = h
mark-Extends (u ∷ us) (suc c) lt =
    let (vs, e, ((l, k), m)) = mark-Extends us c (omega arith) in
    (u ∷ vs, rw e, ((ap suc l, kept vs k), m))
  where
    kept :
        (vs : List Bool)
        → ((d : ℕ) → get_elem? us d ≡ some true → get_elem? vs d ≡ some true)
        → (d : ℕ) → get_elem? (u ∷ us) d ≡ some true
        → get_elem? (u ∷ vs) d ≡ some true
    kept vs k zero h = h
    kept vs k (suc d) h = k d h

module _ {S : Type 0} where
  -- All unmuted sources are marked.
  abbrev Marked : List Bool → List (Config.MixerSource S) → Type 0
  Marked us = All (λ s. Config.is_mute s ≡ false → get_elem? us s.channel ≡ some true)

  mark_sources-Marked :
      (sources : List (Config.MixerSource S)) (us : List Bool)
      → SourcesIn (length us) sources
      → Yields (λ vs. Extends us vs × Marked vs sources) (mark_sources sources us)
  unfolding mark_sources
  mark_sources-Marked [] us h = (us, refl, ((refl, λ c e. e), tt))
  mark_sources-Marked (s ∷ ss) us h = elim (Bool-cases (Config.is_mute s)) [
    | inl muted ↦
        let (vs, e, (x, m)) = mark_sources-Marked ss us h.1 in rw muted (vs, e, (x, ((λ f. cc), m)))
    | inr heard ↦
        let (us₁, e₁, ((l₁, k₁), at)) = mark-Extends us s.channel h.0 in
        let (vs, e, ((l, k), m)) = mark_sources-Marked ss us₁ (rw l₁ h.1) in
        rw (heard, e₁) (vs, e, ((l ∙ l₁, λ c p. k c (k₁ c p)), ((λ f. k s.channel at), m)))
  ]

  abbrev AllMarked : List Bool → List (Config.MixerMapping S) → Type 0
  AllMarked us = All (λ m. Config.is_mapping_mute m ≡ false → Marked us m.sources)

  pub mark_mappings-AllMarked :
      (channels : Config.MixerChannels) (ms : List (Config.MixerMapping S)) (us : List Bool)
      → channels.inputs ≡ length us
      → MappingsIn channels ms
      → Yields (λ vs. Extends us vs × AllMarked vs ms) (mark_mappings ms us)
  unfolding mark_mappings
  mark_mappings-AllMarked channels [] us l h = (us, refl, ((refl, λ c e. e), tt))
  mark_mappings-AllMarked channels (m ∷ ms) us l h = elim (Bool-cases (Config.is_mapping_mute m)) [
    | inl muted ↦
        let (vs, e, (x, a)) = mark_mappings-AllMarked channels ms us l h.1 in
        rw muted (vs, e, (x, ((λ f. cc), a)))
    | inr heard ↦
        let (us₁, e₁, ((l₁, k₁), a₁)) = mark_sources-Marked m.sources us (rw (← l) h.0.1) in
        let (vs, e, ((l₂, k), a)) = mark_mappings-AllMarked channels ms us₁ (l ∙ sym l₁) h.1 in
        rw (heard, e₁)
          (
            vs,
            e,
            (
              (l₂ ∙ l₁, λ c p. k c (k₁ c p)),
              ((λ f. All-map m.sources (λ s q u. k s.channel (q u)) a₁), a),
            ),
          )
  ]
