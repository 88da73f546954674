-- ===== src/Pipeline/Merge.antt =====
-- pipeline.rs, `ParallelFilters`: the lengths that it keeps, and filters that are appended to it.
use astra_camilla_dsp.Common.{ℕ, zero, suc, ◌≤◌, ◌<◌, ◌≡◌, refl, sym, ap, ◌∙◌, subst, Option}
use astra_camilla_dsp.Common.{some, List, [], ◌∷◌, ◌++◌, map, arith, length, drop, length-append}
use astra_camilla_dsp.Common.{length-map, length-drop, >>=-eq-some, some-eq}
use astra_camilla_dsp.Pipeline.{local_filter, FilterTrait, ThreadPool, Lane, run_filters}
use astra_camilla_dsp.Pipeline.{run_parallel, pick, call_first, finish, take_turns, lanes_of}
use astra_camilla_dsp.Pipeline.{append_at}

-- What every implementation of `process_waveform` keeps.
pub record KeepsLength {S F W : Type 0} (ft : FilterTrait S F W) : Type 0 where
  pub keeps_length :
      (f : F) (w : List S) (shared : W) {r : (List S × W) × F}
      → ft.process_waveform f (w, shared) ≡ some r
      → length r.0.0 ≡ length w

pub local_filter-KeepsLength :
    {S F W : Type 0} (process : F → List S → Option (List S × F))
    → ((f : F) (w : List S) (r : List S × F) → process f w ≡ some r → length r.0 ≡ length w)
    → KeepsLength (local_filter {W = W} process)
local_filter-KeepsLength process k = record {
  keeps_length = λ f w shared e.
      let (out, e₁, e₂) = >>=-eq-some (process f w) _ e in
      ap (λ r. length r.0.0) (sym (some-eq e₂)) ∙ k f w out e₁;
}

abbrev pub appended {ℓ} : {A : Type ℓ} → List (List A) → ℕ → List A → List (List A)
appended [] channel fs = []
appended (l ∷ ls) zero fs = (l ++ fs) ∷ ls
appended (l ∷ ls) (suc channel) fs = l ∷ appended ls channel fs

pub append_at-appended {ℓ} :
    {A : Type ℓ} (ls : List (List A)) (c : ℕ) (fs : List A)
    → c < length ls
    → append_at ls c fs ≡ some (appended ls c fs)
unfolding append_at
append_at-appended [] c fs h = absurd (omega arith)
append_at-appended (l ∷ ls) zero fs h = refl
append_at-appended (l ∷ ls) (suc c) fs h = rw (append_at-appended ls c fs (omega arith))

pub length-appended {ℓ} :
    {A : Type ℓ} (ls : List (List A)) (c : ℕ) (fs : List A) → length (appended ls c fs) ≡ length ls
length-appended [] c fs = refl
length-appended (l ∷ ls) zero fs = refl
length-appended (l ∷ ls) (suc c) fs = ap suc (length-appended ls c fs)

module _ {S F W : Type 0} ⦃ft : FilterTrait S F W⦄ where
  pick-length :
      (i : ℕ) (lanes : List (Lane S F)) (shared : W) {r : List (Lane S F) × W}
      → pick i lanes shared ≡ some r
      → length r.0 ≡ length lanes
  unfolding pick
  pick-length i [] shared e = ap (λ r. length r.0) (sym (some-eq e))
  pick-length zero (lane ∷ lanes) shared e =
      let (out, _, e') = >>=-eq-some (call_first lane.left lane shared) _ e in
      ap (λ r. length r.0) (sym (some-eq e'))
  pick-length (suc i) (lane ∷ lanes) shared e =
      let (out, e₁, e₂) = >>=-eq-some (pick i lanes shared) _ e in
      ap (λ r. length r.0) (sym (some-eq e₂)) ∙ ap suc (pick-length i lanes shared e₁)

  finish-length :
      (lanes : List (Lane S F)) (shared : W) {r : List (Lane S F) × W}
      → finish lanes shared ≡ some r
      → length r.0 ≡ length lanes
  unfolding finish
  finish-length [] shared e = ap (λ r. length r.0) (sym (some-eq e))
  finish-length (lane ∷ lanes) shared e =
      let (out, _, e₂) = >>=-eq-some (run_filters lane.left (lane.waveform, shared)) _ e in
      let (rest, e₃, e₄) = >>=-eq-some (finish lanes out.1.1) _ e₂ in
      ap (λ r. length r.0) (sym (some-eq e₄)) ∙ ap suc (finish-length lanes out.1.1 e₃)

  take_turns-length :
      (order : List ℕ) (lanes : List (Lane S F)) (shared : W) {r : List (Lane S F) × W}
      → take_turns order lanes shared ≡ some r
      → length r.0 ≡ length lanes
  unfolding take_turns
  take_turns-length [] lanes shared e = finish-length lanes shared e
  take_turns-length (i ∷ order) lanes shared e =
      let (out, e₁, e₂) = >>=-eq-some (pick i lanes shared) _ e in
      take_turns-length order out.0 out.1 e₂ ∙ pick-length i lanes shared e₁

length-lanes_of :
    {S F : Type 0} (ps : List (List F)) (ws : List (List S))
    → (length (lanes_of ps ws) ≤ length ps) × (length (lanes_of ps ws) ≤ length ws)
unfolding lanes_of
length-lanes_of [] ws = ground arith
length-lanes_of (fs ∷ ps) [] = ground arith
length-lanes_of (fs ∷ ps) (w ∷ ws) = ground (arith, length-lanes_of ps ws)

-- What stands in place of a first part, and the rest.
length-replaced {ℓ κ} :
    {A : Type ℓ} {B : Type κ} (f : B → A) (ys : List B) (n : ℕ) (xs : List A)
    → length ys ≡ n
    → n ≤ length xs
    → length (map f ys ++ drop n xs) ≡ length xs
length-replaced f ys n xs e h =
    omega (arith, e, h, length-append (map f ys) (drop n xs), length-map ys f, length-drop n xs)

module _ {S F W : Type 0} ⦃ft : FilterTrait S F W⦄ ⦃pool : ThreadPool S F W⦄ where
  pub run_parallel-length :
      (ps : List (List F)) (ws : List (List S)) (shared : W)
      {r : List (List F) × (List (List S) × W)}
      → run_parallel ps (ws, shared) ≡ some r
      → (length r.0 ≡ length ps) × (length r.1.0 ≡ length ws)
  unfolding run_parallel
  run_parallel-length ps ws shared {r = r} e =
      let lanes = lanes_of ps ws in
      let (out, e₁, e₂) = >>=-eq-some (take_turns (pool.order lanes shared) lanes shared) _ e in
      let same = take_turns-length (pool.order lanes shared) lanes shared e₁ in
      let (short, short') = length-lanes_of ps ws in
      subst
        (λ (r : List (List F) × (List (List S) × W)).
          (length r.0 ≡ length ps) × (length r.1.0 ≡ length ws))
        (some-eq e₂)
        (
          length-replaced (λ (lane : Lane S F). lane.done) out.0 (length lanes) ps same short,
          length-replaced (λ (lane : Lane S F). lane.waveform) out.0 (length lanes) ws same short',
        )
