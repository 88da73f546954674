-- ===== src/Params.antt =====
-- lib.rs: `ProcessingParameters`, the faders that the control side shares with the processing. Each
-- atomic cell is a value; every operation takes the parameters and gives them back. The arrays are
-- lists, and `none` is the panic of an index out of bounds.
use astra_camilla_dsp.Common.{ℕ, ◌<◌, ◌≡◌, refl, ◌∙◌, ◌≢◌, Bool, not, Option, some, List, arith}
use astra_camilla_dsp.Common.{length, get_elem?, set, length-set, get_elem?-lt}
use astra_camilla_dsp.Common.{get_elem?-set_self, get_elem?-set_ne, ◌>>=◌, Yields}

pub record Params (R : Type 0) : Type 0 where
  pub target_volume : List R
  pub current_volume : List R
  pub mute : List Bool
  pub processing_load : R
  pub resampler_load : R

abbrev pub num_faders : ℕ
num_faders = 5

-- `cells[i].store(v)`.
pub store {ℓ} : {A : Type ℓ} → List A → ℕ → A → Option (List A)
store cells i v = do _ ← get_elem? cells i; some (set cells i v)

pub store-total {ℓ} :
    {A : Type ℓ} (cells : List A) (i : ℕ) (v : A)
    → i < length cells
    → store cells i v ≡ some (set cells i v)
unfolding store
store-total cells i v h = let (x, e) = get_elem?-lt cells i h in rw e refl

module _ {R : Type 0} where
  pub set_target_volume : Params R → ℕ → R → Option (Params R)
  set_target_volume p fader target = do
    cells ← store p.target_volume fader target
    some (record p { target_volume = cells })

  unfoldable pub set_current_volume : Params R → ℕ → R → Option (Params R)
  set_current_volume p fader current = do
    cells ← store p.current_volume fader current
    some (record p { current_volume = cells })

  pub set_mute : Params R → ℕ → Bool → Option (Params R)
  set_mute p fader mute = do cells ← store p.mute fader mute; some (record p { mute = cells })

  -- The value before the change is returned.
  pub toggle_mute : Params R → ℕ → Option (Bool × Params R)
  toggle_mute p fader = do
    before ← get_elem? p.mute fader
    some (before, record p { mute = set p.mute fader (not before) })

  -- The five faders are all there.
  pub record IsComplete (p : Params R) : Type 0 where
    pub targets : length p.target_volume ≡ num_faders
    pub currents : length p.current_volume ≡ num_faders
    pub mutes : length p.mute ≡ num_faders

  pub set_current_volume_lem :
      (p : Params R) (fader : ℕ) (current : R)
      → IsComplete p
      → fader < num_faders
      → Yields
          (λ p'. IsComplete p' × (p'.target_volume ≡ p.target_volume) × (p'.mute ≡ p.mute))
          (set_current_volume p fader current)
  unfolding set_current_volume
  set_current_volume_lem p fader current c h =
      let there : fader < length p.current_volume = omega (arith, c.currents) in
      rw (store-total p.current_volume fader current there) (
        record p { current_volume = set p.current_volume fader current },
        refl,
        (
          record {
            targets = c.targets;
            currents = length-set p.current_volume fader current ∙ c.currents;
            mutes = c.mutes;
          },
          refl,
          refl,
        ),
      )

  -- Writing the current volume of one of the five faders does not panic: it can be read back, and the
  -- current volume of another fader `j`, the target volumes and the mutes stay.
  pub set_current_volume-get :
      (p : Params R) (fader j : ℕ) (current : R)
      → IsComplete p
      → fader < num_faders
      → fader ≢ j
      → Yields
          (λ p'.
            (get_elem? p'.current_volume fader ≡ some current)
            × (get_elem? p'.current_volume j ≡ get_elem? p.current_volume j)
            × (p'.target_volume ≡ p.target_volume)
            × (p'.mute ≡ p.mute))
          (set_current_volume p fader current)
  unfolding set_current_volume
  set_current_volume-get p fader j current c h ne =
      let there : fader < length p.current_volume = omega (arith, c.currents) in
      rw (store-total p.current_volume fader current there) (
        record p { current_volume = set p.current_volume fader current },
        refl,
        (
          get_elem?-set_self p.current_volume fader current there,
          get_elem?-set_ne p.current_volume current ne,
          refl,
          refl,
        ),
      )
