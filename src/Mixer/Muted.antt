-- ===== src/Mixer/Muted.antt =====
-- mixer.rs: building a mixer (`from_config`) against updating one (`update_parameters`).
use astra_camilla_dsp.Common.{ℕ, zero, suc, ◌+◌, ◌≡◌, refl, ap, fun_ext, inl, inr, false, some}
use astra_camilla_dsp.Common.{List, [], ◌∷◌, arith, if◌then◌else◌, Bool-cases, length, replicate}
use astra_camilla_dsp.Common.{All, length-append, ◌>>=◌, >>=-eq-some}
use astra_camilla_dsp.Config.Mixer as Config
use Prim.Native.String.{String}
use astra_camilla_dsp.Arith.{Arith}
use astra_camilla_dsp.Mixer.{MixerSource, Mixer, push_at, source_from_config, add_unmuted}
use astra_camilla_dsp.Mixer.{map_unmuted, from_config, add_all, map_all, update_parameters}

abbrev pub total {ℓ} : {A : Type ℓ} → List (List A) → ℕ
total [] = 0
total (l ∷ ls) = length l + total ls

push_at-total {ℓ} :
    {A : Type ℓ} (ls : List (List A)) (dest : ℕ) (x : A) {ls' : List (List A)}
    → push_at ls dest x ≡ some ls'
    → total ls' ≡ total ls + 1
unfolding push_at
push_at-total [] dest x e = cc
push_at-total (l ∷ ls) zero x e = ground (arith, length-append l (x ∷ []))
push_at-total (l ∷ ls) (suc dest) x e =
    let (rest, p, q) = >>=-eq-some (push_at ls dest x) _ e in
    ground (arith, push_at-total ls dest x p)

module _ {S : Type 0} where
  -- How many sources of one mapping, and of all mappings, are muted.
  abbrev pub muted : List (Config.MixerSource S) → ℕ
  muted [] = 0
  muted (s ∷ ss) = (if Config.is_mute s then 1 else 0) + muted ss

  abbrev pub muted_sources : List (Config.MixerMapping S) → ℕ
  muted_sources [] = 0
  muted_sources (m ∷ ms) =
      (if Config.is_mapping_mute m then length m.sources else muted m.sources) + muted_sources ms

module _ {S : Type 0} ⦃a : Arith S⦄ where
  add_all-total :
      (dest : ℕ) (ss : List (Config.MixerSource S)) (ls : List (List (MixerSource S)))
      {ls' : List (List (MixerSource S))}
      → add_all dest ss ls ≡ some ls'
      → total ls' ≡ total ls + length ss
  unfolding add_all
  add_all-total dest [] ls e = ground arith
  add_all-total dest (s ∷ ss) ls e =
      let (rest, p, q) = >>=-eq-some (push_at ls dest (source_from_config s)) (add_all dest ss) e in
      omega (arith, push_at-total ls dest (source_from_config s) p, add_all-total dest ss rest q)

  add_unmuted-total :
      (dest : ℕ) (ss : List (Config.MixerSource S)) (ls : List (List (MixerSource S)))
      {ls' : List (List (MixerSource S))}
      → add_unmuted dest ss ls ≡ some ls'
      → total ls' + muted ss ≡ total ls + length ss
  unfolding add_unmuted
  add_unmuted-total dest [] ls e = ground arith
  add_unmuted-total dest (s ∷ ss) ls {ls' = ls'} e = elim (Bool-cases (Config.is_mute s)) [
    | inl silent ↦
        let e' : add_unmuted dest ss ls ≡ some ls' = rw silent at e in
        rw silent (omega (arith, add_unmuted-total dest ss ls e'))
    | inr heard ↦
        let e' : (push_at ls dest (source_from_config s) >>= add_unmuted dest ss) ≡ some ls' =
          rw heard at e in
        let (rest, p, q) = >>=-eq-some (push_at ls dest (source_from_config s)) _ e' in
        rw heard (
          omega (
            arith,
            push_at-total ls dest (source_from_config s) p,
            add_unmuted-total dest ss rest q,
          ))
  ]

  map_all-total :
      (ms : List (Config.MixerMapping S)) (ls ls' : List (List (MixerSource S)))
      → map_all ms ls ≡ some ls'
      → (ks ks' : List (List (MixerSource S))) → map_unmuted ms ks ≡ some ks'
      → total ls' + total ks ≡ total ks' + muted_sources ms + total ls
  unfolding map_all map_unmuted
  map_all-total [] ls ls' e ks ks' e' = ground arith
  map_all-total (m ∷ ms) ls ls' e ks ks' e' =
      let (ls₁, p, q) = >>=-eq-some (add_all m.dest m.sources ls) _ e in
      elim (Bool-cases (Config.is_mapping_mute m)) [
        | inl silent ↦
            let f : map_unmuted ms ks ≡ some ks' = rw silent at e' in
            rw silent (
              omega
                (arith, add_all-total m.dest m.sources ls p, map_all-total ms ls₁ ls' q ks ks' f))
        | inr heard ↦
            let f : (add_unmuted m.dest m.sources ks >>= map_unmuted ms) ≡ some ks' =
              rw heard at e' in
            let (ks₁, p', q') = >>=-eq-some (add_unmuted m.dest m.sources ks) _ f in
            rw heard (
              omega (
                arith,
                add_all-total m.dest m.sources ls p,
                add_unmuted-total m.dest m.sources ks p',
                map_all-total ms ls₁ ls' q ks₁ ks' q',
              ))
      ]

  -- Where a mixer is built from a configuration and another is updated by it, the updated one has as
  -- many sources as the built one and the sources that the configuration mutes together.
  pub update_parameters-total :
      (name : String) (self : Mixer S) (config : Config.Mixer S) {built updated : Mixer S}
      → from_config name config ≡ some built
      → update_parameters self config ≡ some updated
      → total updated.mapping ≡ total built.mapping + muted_sources config.mapping
  unfolding from_config update_parameters
  update_parameters-total name self config {built = built} {updated = updated} e e' =
      let (ks, p, q) =
        >>=-eq-some (map_unmuted config.mapping (replicate config.channels.out [])) _ e in
      let (ls, p', q') =
        >>=-eq-some (map_all config.mapping (replicate config.channels.out [])) _ e' in
      let b : built.mapping ≡ ks = cc in
      let u : updated.mapping ≡ ls = cc in
      rw (b, u)
        (omega (
          arith,
          map_all-total config.mapping (replicate config.channels.out []) ls p'
              (replicate config.channels.out []) ks p,
        ))

  -- Nothing in a list of mappings is muted.
  abbrev pub NoneMuted : List (Config.MixerMapping S) → Type 0
  NoneMuted =
      All (λ m. (Config.is_mapping_mute m ≡ false) × All (λ s. Config.is_mute s ≡ false) m.sources)

  add_unmuted-eq-add_all :
      (dest : ℕ) (ss : List (Config.MixerSource S)) (ls : List (List (MixerSource S)))
      → All (λ s. Config.is_mute s ≡ false) ss
      → add_unmuted dest ss ls ≡ add_all dest ss ls
  unfolding add_unmuted add_all
  add_unmuted-eq-add_all dest [] ls h = refl
  add_unmuted-eq-add_all dest (s ∷ ss) ls h = rw h.0 (
      ap (λ f. push_at ls dest (source_from_config s) >>= f)
        (fun_ext λ rest. add_unmuted-eq-add_all dest ss rest h.1))

  map_unmuted-eq-map_all :
      (ms : List (Config.MixerMapping S)) (ls : List (List (MixerSource S)))
      → NoneMuted ms
      → map_unmuted ms ls ≡ map_all ms ls
  unfolding map_unmuted map_all
  map_unmuted-eq-map_all [] ls h = refl
  map_unmuted-eq-map_all (m ∷ ms) ls h =
      rw (h.0.0, add_unmuted-eq-add_all m.dest m.sources ls h.0.1)
        (ap (λ f. add_all m.dest m.sources ls >>= f)
          (fun_ext λ rest. map_unmuted-eq-map_all ms rest h.1))

  -- Where nothing is muted, an update gives the mixer that would be built anew.
  pub update_parameters-eq-from_config :
      (self : Mixer S) (config : Config.Mixer S)
      → NoneMuted config.mapping
      → update_parameters self config ≡ from_config self.name config
  unfolding from_config update_parameters
  update_parameters-eq-from_config self config h =
      rw (map_unmuted-eq-map_all config.mapping (replicate config.channels.out []) h)
