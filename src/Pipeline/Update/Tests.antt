-- ===== src/Pipeline/Update/Tests.antt =====
-- pipeline.rs and config/utils.rs: a change of the tests' configuration, and the witnesses of the
-- theorems on updates.
use astra_camilla_dsp.Common.{ℕ, ◌≡◌, refl, sym, subst, true, none, some, [], ◌∷◌, arith, ◌==◌}
use astra_camilla_dsp.Common.{some-eq}
use astra_camilla_dsp.Config.Pipeline.{lookup}
use astra_camilla_dsp.Arith.Whole.{whole, ℤ, pos}
use astra_camilla_dsp.Config.Diff.{Comparisons, Configuration, FilterKind, ConfigChange}
use astra_camilla_dsp.Config.Diff.{same_kind, same_map, same_section, changed, changed_section}
use astra_camilla_dsp.Config.Diff.{note_filter, changed_filters, changed_filters_section}
use astra_camilla_dsp.Config.Diff.{parameter_changes, same_configuration, config_diff}
use astra_camilla_dsp.Config.Mixer.{linear}
use astra_camilla_dsp.Filters.Gain.{GainParameters}
use astra_camilla_dsp.Pipeline.Tests.{sections, pipeline, updates, triple, through}
use astra_camilla_dsp.Pipeline.Update.{update_parameters}
use astra_camilla_dsp.Pipeline.Update.Total.{Succeeds, TakesOwnKind, BuiltFrom, TakesFound}
use astra_camilla_dsp.Pipeline.Update.Total.{config_diff-update_parameters}

abbrev comparisons : Comparisons ℕ ℕ ℤ (GainParameters ℤ) ℕ
comparisons = record {
  same_described = λ j k. j == k;
  same_devices = λ j k. j == k;
  same_pipeline = λ _ _. true;
  same_mixer = λ v w. v.channels.out == w.channels.out;
  same_filter = λ p q. whole.same p.gain q.gain;
  same_processor = λ j k. j == k;
  filter_kind = λ _. FilterKind.gain;
}

abbrev tripled : GainParameters ℤ
tripled = record { gain = pos 3; inverted = none; mute = none; scale = some linear }

abbrev current : Configuration ℕ ℕ ℤ (GainParameters ℤ) ℕ
current = record { described = 0; devices = 0; sections = sections }

-- Another gain.
abbrev louder : Configuration ℕ ℕ ℤ (GainParameters ℤ) ℕ
louder = record current {
  sections = record sections { filters = some (("triple", record tripled { gain = pos 4 }) ∷ []) };
}

louder_diff :
    config_diff comparisons current louder ≡ ConfigChange.filter_parameters ("triple" ∷ []) [] []
unfolding config_diff same_configuration same_section same_map parameter_changes
    changed_filters_section changed_filters note_filter same_kind changed_section changed
louder_diff = refl

takes : TakesOwnKind comparisons updates (λ _. FilterKind.gain)
takes = record { takes = λ f cfg own. (_, refl) }

config_diff-update_parameters_example :
    Succeeds (update_parameters updates pipeline louder.sections ("triple" ∷ []) [] [])
config_diff-update_parameters_example =
    config_diff-update_parameters comparisons updates (λ _. FilterKind.gain) takes
      (λ v w e. ground arith) current louder _ _ pipeline louder_diff (refl, tt) refl refl
      (
        (triple_is, (triple_is, tt)),
        ((triple_is, (triple_is, tt)), (tt, (found, ((triple_is, tt), ((triple_is, tt), tt))))),
      )
  where
    triple_is :
        BuiltFrom comparisons updates (λ _. FilterKind.gain) (("triple", tripled) ∷ []) triple
    triple_is = (tripled, refl, refl)

    found :
        TakesFound comparisons updates (λ _. FilterKind.gain) (some (("through", 2) ∷ [])) through
    found configs cfg e k =
        let k' = subst (λ l. lookup "through" l ≡ some cfg) (sym (some-eq e)) k in
        subst (λ n. Succeeds (updates.update_processor through n)) (some-eq k') (through, refl)
