-- ===== src/Decibels.antt =====
-- utils/decibels.rs: gains in decibels and as factors.
use astra_camilla_dsp.Common.{Bool, List, map, if◌then◌else◌}
use astra_camilla_dsp.Arith.{Arith, nought, ◌⊗◌, ◌⊘◌}

module _ {S : Type 0} ⦃a : Arith S⦄ where
  pub linear_to_db : S → S
  linear_to_db value =
      if a.same value nought then a.neg (a.lit 1000 1) else a.lit 20 1 ⊗ a.log10 value

  unfoldable pub db_to_linear : S → S
  db_to_linear value = a.powf (a.lit 10 1) (value ⊘ a.lit 20 1)

  unfoldable pub gain_from_value : S → Bool → Bool → Bool → S
  gain_from_value gain_value linear inverted mute =
      let gain = if linear then gain_value else db_to_linear gain_value in
      let signed = if inverted then a.neg gain else gain in if mute then nought else signed

  abbrev pub linear_to_db_inplace : List S → List S
  linear_to_db_inplace values = map linear_to_db values
