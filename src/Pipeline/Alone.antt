-- ===== src/Pipeline/Alone.antt =====
-- pipeline.rs: filters that use their own state only, and filters that are appended to a channel of
-- theirs.
use astra_camilla_dsp.Common.{ℕ, zero, suc, ◌<◌, ◌≡◌, refl, sym, ap, ◌∙◌, Option, some, List, []}
use astra_camilla_dsp.Common.{◌∷◌, ◌++◌, arith, length, get_elem?, set, replicate, ◌>>=◌}
use astra_camilla_dsp.Common.{>>=-eq-some, bind_assoc, bind_swap, bind_some, bind_ext}
use astra_camilla_dsp.Pipeline.Merge.{appended}

module _ {S F : Type 0} (own : F → List S → Option (List S × F)) where
  -- The filters of a channel, of a group and of all channels, on waveforms without anything shared.
  unfoldable pub own_filters : List F → List S → Option (List F × List S)
  own_filters [] w = some ([], w)
  own_filters (f ∷ fs) w = do
    first ← own f w
    rest ← own_filters fs first.0
    some (first.1 ∷ rest.0, rest.1)

  unfoldable pub own_channel : List F → List S → Option (List F × List S)
  own_channel fs [] = some (fs, [])
  own_channel fs (x ∷ w) = own_filters fs (x ∷ w)

  unfoldable pub own_group : ℕ → List F → List (List S) → Option (List F × List (List S))
  own_group channel fs waveforms = do
    w ← get_elem? waveforms channel
    out ← own_channel fs w
    some (out.0, set waveforms channel out.1)

  unfoldable pub own_parallel :
      List (List F) → List (List S) → Option (List (List F) × List (List S))
  own_parallel [] ws = some ([], ws)
  own_parallel (fs ∷ ps) [] = some (fs ∷ ps, [])
  own_parallel (fs ∷ ps) (w ∷ ws) = do
    first ← own_channel fs w
    rest ← own_parallel ps ws
    some (first.0 ∷ rest.0, first.1 ∷ rest.1)

  abbrev pub OwnLength : Type 0
  OwnLength = (f : F) (w : List S) (r : List S × F) → own f w ≡ some r → length r.0 ≡ length w

module _ {S F : Type 0} (own : F → List S → Option (List S × F)) (k : OwnLength own) where
  own_filters-append :
      (fs gs : List F) (w : List S)
      → own_filters own (fs ++ gs) w
        ≡ (own_filters own fs w >>= λ r. own_filters own gs r.1 >>= λ s. some (r.0 ++ s.0, s.1))
  unfolding own_filters
  own_filters-append [] gs w = sym (bind_some (own_filters own gs w))
  own_filters-append (f ∷ fs) gs w = simp (bind_assoc, own_filters-append fs gs)

  own_filters-length :
      (fs : List F) (w : List S) {r : List F × List S}
      → own_filters own fs w ≡ some r
      → length r.1 ≡ length w
  unfolding own_filters
  own_filters-length [] w e = ground arith
  own_filters-length (f ∷ fs) w {r = r} e =
      let (first, p, q) = >>=-eq-some (own f w) _ e in
      let (rest, p', q') = >>=-eq-some (own_filters own fs first.0) _ q in
      let z : rest.1 ≡ r.1 = cc in
      ap length (sym z) ∙ own_filters-length fs first.0 p' ∙ k f w first p

  own_channel-length :
      (fs : List F) (w : List S) {r : List F × List S}
      → own_channel own fs w ≡ some r
      → length r.1 ≡ length w
  unfolding own_channel
  own_channel-length fs [] e = ground arith
  own_channel-length fs (x ∷ w) e = own_filters-length fs (x ∷ w) e

  own_channel_of_ne_nil :
      (fs : List F) (w : List S) (n : ℕ)
      → length w ≡ suc n
      → own_channel own fs w ≡ own_filters own fs w
  unfolding own_channel
  own_channel_of_ne_nil fs [] n e = absurd (omega arith)
  own_channel_of_ne_nil fs (x ∷ w) n e = refl

  own_channel-append :
      (fs gs : List F) (w : List S)
      → own_channel own (fs ++ gs) w
        ≡ (own_channel own fs w >>= λ r. own_channel own gs r.1 >>= λ s. some (r.0 ++ s.0, s.1))
  unfolding own_channel
  own_channel-append fs gs [] = refl
  own_channel-append fs gs (x ∷ w) =
      own_filters-append fs gs (x ∷ w)
      ∙ bind_ext (own_filters own fs (x ∷ w)) _ _
          λ r e. rw (own_channel_of_ne_nil gs r.1 (length w) (own_filters-length fs (x ∷ w) e))

  pub own_parallel-replicate :
      (n : ℕ) (ws : List (List S))
      → own_parallel own (replicate n []) ws ≡ some (replicate n [], ws)
  unfolding own_parallel own_channel own_filters
  own_parallel-replicate zero ws = refl
  own_parallel-replicate (suc n) [] = refl
  own_parallel-replicate (suc n) ([] ∷ ws) = rw (own_parallel-replicate n ws)
  own_parallel-replicate (suc n) ((x ∷ w) ∷ ws) = rw (own_parallel-replicate n ws)

  -- Filters appended to a channel of a parallel step run after the step, on that channel.
  pub own_parallel-appended :
      (p : List (List F)) (c : ℕ) (fs : List F) (ws : List (List S))
      → c < length p
      → length p ≡ length ws
      → own_parallel own (appended p c fs) ws ≡ (
          own_parallel own p ws >>= λ r.
          own_group own c fs r.1 >>= λ s. some (appended r.0 c s.0, s.1))
  unfolding own_parallel own_group
  own_parallel-appended [] c fs ws lt l = absurd (omega arith)
  own_parallel-appended (q ∷ p) c fs [] lt l = absurd (omega arith)
  own_parallel-appended (q ∷ p) zero fs (w ∷ ws) lt l =
      simp (own_channel-append q fs w, bind_assoc)
        (bind_ext (own_channel own q w) _ _
          λ r e. bind_swap (own_channel own fs r.1) (own_parallel own p ws) _)
  own_parallel-appended (q ∷ p) (suc c) fs (w ∷ ws) lt l =
      simp (bind_assoc, own_parallel-appended p c fs ws (omega arith) (omega arith))
