-- ===== src/Counters/Tests.antt =====
-- The counters at whole numbers, and the theorems about them at concrete values.
use astra_camilla_dsp.Common.{◌≡◌, refl, true, [], ◌∷◌, arith, Yields}
use astra_camilla_dsp.Arith.{◌⊗◌}
use astra_camilla_dsp.Arith.Whole.{ℤ, pos, whole}
use astra_camilla_dsp.Counters.Silence.{SilenceCounter, ValueWatcher, paused, update, after}
use astra_camilla_dsp.Counters.Silence.{update-after, check_value, watched, check_value-watched}
use astra_camilla_dsp.Counters.History.{ValueHistory, IsStored, Adds, add_record}
use astra_camilla_dsp.Counters.History.{add_record_squared, add_record-Adds}

abbrev counter : SilenceCounter ℤ
counter = record { silence_threshold = pos 3; silence_limit_nbr = 2; silent_nbr = 0 }

update-after_example : (update (after counter (pos 2 ∷ pos 3 ∷ pos 9 ∷ [])) (pos 1)).0 ≡ paused
update-after_example = update-after counter (pos 1) (pos 2 ∷ pos 3 ∷ pos 9 ∷ []) refl

abbrev watcher : ValueWatcher ℤ
watcher = record { min_value = pos 3; max_value = pos 5; count_limit = 1; count = 0 }

check_value-watched_example : (check_value (watched watcher (pos 9 ∷ [])) (pos 1)).0 ≡ true
check_value-watched_example = check_value-watched watcher (pos 1) (pos 9 ∷ []) refl

abbrev history : ValueHistory ℤ
history = record {
  buffer =
      record { time = 4; values = pos 1 ∷ pos 2 ∷ [] }
      ∷ record { time = 0; values = pos 0 ∷ pos 0 ∷ [] }
      ∷ [];
  peak = pos 1 ∷ pos 2 ∷ [];
  nbr_values = 2;
  history_length = 2;
  valid_records = 1;
}

history-IsStored : IsStored history
history-IsStored = record {
  full = refl;
  sizes = (refl, (refl, tt));
  peaks = refl;
  valid = omega arith;
}

add_record-Adds_example :
    Yields
      (Adds (λ v. v) history (pos 3 ∷ pos 1 ∷ []) 6)
      (add_record history (pos 3 ∷ pos 1 ∷ []) 6)
    × Yields
        (Adds (λ v. v ⊗ v) history (pos 3 ∷ pos 1 ∷ []) 6)
        (add_record_squared history (pos 3 ∷ pos 1 ∷ []) 6)
add_record-Adds_example = add_record-Adds history (pos 3 ∷ pos 1 ∷ []) 6 history-IsStored
