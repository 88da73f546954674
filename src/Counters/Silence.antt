-- ===== src/Counters/Silence.antt =====
-- utils/countertimer.rs: `SilenceCounter` and `ValueWatcher`, which count values in a row.
use astra_camilla_dsp.Common.{ℕ, ◌+◌, ◌≡◌, refl, sym, ap, inl, inr, Bool, true, false, ◌&&◌, ◌||◌}
use astra_camilla_dsp.Common.{not, List, [], ◌∷◌, arith, ltb, leb, if◌then◌else◌, Bool-cases}
use astra_camilla_dsp.Arith.{Arith, ◌⊕◌, ◌⊗◌, ◌⊘◌}

-- The two values of `ProcessingState` that the counter gives.
pub data ProcessingState : Type 0 where
  running paused : ProcessingState

pub record SilenceCounter (S : Type 0) : Type 0 where
  pub silence_threshold : S
  pub silence_limit_nbr : ℕ
  pub silent_nbr : ℕ

pub record ValueWatcher (R : Type 0) : Type 0 where
  pub min_value : R
  pub max_value : R
  pub count_limit : ℕ
  pub count : ℕ

abbrev state : Bool → ProcessingState
state b = if b then paused else running

ltb-zero : (n : ℕ) → ltb n 0 ≡ false
ltb-zero n = ground arith

leb-ltb : (n k : ℕ) → leb n k ≡ ltb n (k + 1)
leb-ltb n k = ground arith

module _ {S : Type 0} where
  -- How many of the first values pass a test before one does not.
  abbrev pub leading : (S → Bool) → List S → ℕ
  leading test [] = 0
  leading test (v ∷ vs) = if test v then leading test vs + 1 else 0

module _ {S : Type 0} ⦃a : Arith S⦄ where
  unfoldable pub new_counter : S → S → ℕ → ℕ → SilenceCounter S
  new_counter silence_threshold_db silence_timeout samplerate chunksize = record {
    silence_threshold = a.powf (a.lit 10 1) (silence_threshold_db ⊘ a.lit 20 1);
    silence_limit_nbr = a.to_ℕ (a.round (silence_timeout ⊗ a.of_ℕ samplerate ⊘ a.of_ℕ chunksize));
    silent_nbr = 0;
  }

  unfoldable pub update : SilenceCounter S → S → ProcessingState × SilenceCounter S
  update c value_range =
      if ltb 0 c.silence_limit_nbr
      then (if a.lt c.silence_threshold value_range
          then (running, record c { silent_nbr = 0 })
          else (
            (if leb c.silence_limit_nbr c.silent_nbr then paused else running),
            record c { silent_nbr = c.silent_nbr + 1 },
          ))
      else (running, c)

  unfoldable pub new_watcher : S → S → ℕ → ValueWatcher S
  new_watcher target_value max_rel_diff count_limit = record {
    min_value = target_value ⊘ (a.lit 1 1 ⊕ max_rel_diff);
    max_value = target_value ⊗ (a.lit 1 1 ⊕ max_rel_diff);
    count_limit = count_limit;
    count = 0;
  }

  unfoldable pub reset : ValueWatcher S → ValueWatcher S
  reset w = record w { count = 0 }

  unfoldable pub check_value : ValueWatcher S → S → Bool × ValueWatcher S
  check_value w value =
      let count = if a.lt value w.min_value || a.lt w.max_value value then w.count + 1 else 0 in
      (ltb w.count_limit count, record w { count = count })

  -- The counter after a series of values, the last one first.
  pub after : SilenceCounter S → List S → SilenceCounter S
  after c [] = c
  after c (v ∷ older) = (update (after c older) v).1

  abbrev pub is_silent : SilenceCounter S → S → Bool
  is_silent c v = not (a.lt c.silence_threshold v)

  abbrev Counts : SilenceCounter S → List S → SilenceCounter S → Type 0
  Counts c vs d =
      (d.silence_threshold ≡ c.silence_threshold)
      × (d.silence_limit_nbr ≡ c.silence_limit_nbr)
      × (d.silent_nbr ≡ (if ltb 0 c.silence_limit_nbr then leading (is_silent c) vs else 0))

  update-Counts :
      (c d : SilenceCounter S) (v : S) (vs : List S)
      → Counts c vs d
      → Counts c (v ∷ vs) (update d v).1
  unfolding update
  update-Counts c d v vs (t, l, n) = elim (Bool-cases (ltb 0 d.silence_limit_nbr)) [
    | inl on ↦
        let on' : ltb 0 c.silence_limit_nbr ≡ true = rw (← l) on in
        rw on (elim (Bool-cases (a.lt d.silence_threshold v)) [
          | inl loud ↦
              let loud' : a.lt c.silence_threshold v ≡ true = rw (← t) loud in
              rw (loud, on', loud') (t, l, refl)
          | inr quiet ↦
              let quiet' : a.lt c.silence_threshold v ≡ false = rw (← t) quiet in
              rw (quiet, on', quiet') (t, l, ap (λ k. k + 1) (rw on' at n))
        ])
    | inr off ↦
        let off' : ltb 0 c.silence_limit_nbr ≡ false = rw (← l) off in
        rw (off, off') (t, l, rw off' at n)
  ]

  after-Counts : (c : SilenceCounter S) (vs : List S) → c.silent_nbr ≡ 0 → Counts c vs (after c vs)
  unfolding after
  after-Counts c [] h = (refl, refl, ground (arith, h))
  after-Counts c (v ∷ older) h = update-Counts c (after c older) v older (after-Counts c older h)

  -- For a counter that has not counted yet: after a series of values, the last one pauses the
  -- processing exactly where the limit is not 0 and more than the limit of values in a row, up to
  -- that one, were silent; otherwise the processing runs.
  pub update-after :
      (c : SilenceCounter S) (v : S) (older : List S)
      → c.silent_nbr ≡ 0
      → (update (after c older) v).0 ≡ (
          if ltb 0 c.silence_limit_nbr
            && ltb c.silence_limit_nbr (leading (is_silent c) (v ∷ older))
          then paused
          else running)
  unfolding update
  update-after c v older h =
      let (t, l, n) = after-Counts c older h in
      elim (Bool-cases (ltb 0 c.silence_limit_nbr)) [
        | inl on ↦
            rw (t, l, on)
              (elim (Bool-cases (a.lt c.silence_threshold v)) [
                | inl loud ↦ rw loud (ap state (sym (ltb-zero c.silence_limit_nbr)))
                | inr quiet ↦
                    rw (quiet, n, on)
                      (ap state (leb-ltb c.silence_limit_nbr (leading (is_silent c) older)))
              ])
        | inr off ↦ rw (l, off) refl
      ]

  -- The watcher after a series of values, the last one first.
  pub watched : ValueWatcher S → List S → ValueWatcher S
  watched w [] = w
  watched w (v ∷ older) = (check_value (watched w older) v).1

  abbrev pub is_outside : ValueWatcher S → S → Bool
  is_outside w v = a.lt v w.min_value || a.lt w.max_value v

  abbrev Watches : ValueWatcher S → List S → ValueWatcher S → Type 0
  Watches w vs u =
      (u.min_value ≡ w.min_value)
      × (u.max_value ≡ w.max_value)
      × (u.count_limit ≡ w.count_limit)
      × (u.count ≡ leading (is_outside w) vs)

  watched-Watches : (w : ValueWatcher S) (vs : List S) → w.count ≡ 0 → Watches w vs (watched w vs)
  unfolding watched check_value
  watched-Watches w [] h = (refl, refl, refl, h)
  watched-Watches w (v ∷ older) h =
      let (lo, hi, l, n) = watched-Watches w older h in rw (lo, hi, n) (refl, refl, l, refl)

  -- For a watcher that has not counted yet: after a series of values, the last one is reported
  -- exactly where more than the limit of values in a row, up to that one, were outside the range.
  pub check_value-watched :
      (w : ValueWatcher S) (v : S) (older : List S)
      → w.count ≡ 0
      → (check_value (watched w older) v).0 ≡ ltb w.count_limit (leading (is_outside w) (v ∷ older))
  unfolding check_value
  check_value-watched w v older h =
      let (lo, hi, l, n) = watched-Watches w older h in rw (lo, hi, l, n) refl
