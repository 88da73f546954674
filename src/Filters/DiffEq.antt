-- ===== src/Filters/DiffEq.antt =====
-- filters/diffeq.rs: the difference equation filter with its two circular buffers.
pub mod Indices
pub mod History
pub mod Stream
use astra_camilla_dsp.Common.{ℕ, zero, suc, ◌+◌, ◌-◌, ◌%◌, ◌≡◌, refl, ap, subst, Option, some}
use astra_camilla_dsp.Common.{List, [], ◌∷◌, map, if◌then◌else◌, length, get_elem?, set}
use astra_camilla_dsp.Common.{replicate, ◌>>=◌, >>=-eq-some, some-eq}
use astra_camilla_dsp.Arith.{Arith, ◌⊗◌, nought}
use astra_camilla_dsp.Config.Mixer.{unwrap_or}
use astra_camilla_dsp.Pipeline.{FilterTrait, local_filter}
use astra_camilla_dsp.Pipeline.Merge.{KeepsLength, local_filter-KeepsLength}

pub record DiffEqParameters (S : Type 0) : Type 0 where
  pub a : Option (List S)
  pub b : Option (List S)

pub record DiffEq (S : Type 0) : Type 0 where
  pub x : List S
  pub y : List S
  pub a : List S
  pub a_len : ℕ
  pub b : List S
  pub b_len : ℕ
  pub idx_x : ℕ
  pub idx_y : ℕ

module _ {S : Type 0} ⦃r : Arith S⦄ where
  -- `vec![1.0]` for an empty vector.
  pub or_one : List S → List S
  or_one [] = r.lit 1 1 ∷ []
  or_one (c ∷ cs) = c ∷ cs

  unfoldable pub new : List S → List S → DiffEq S
  new a_in b_in =
      let a = or_one a_in in
      let b = or_one b_in in
      record {
        x = replicate (length b) nought;
        y = replicate (length a) nought;
        a = a;
        a_len = length a;
        b = b;
        b_len = length b;
        idx_x = 0;
        idx_y = 0;
      }

  unfoldable pub from_config : DiffEqParameters S → DiffEq S
  from_config conf = new (unwrap_or conf.a []) (unwrap_or conf.b [])

  abbrev pub update_parameters : DiffEq S → DiffEqParameters S → DiffEq S
  update_parameters f conf = from_config conf

  -- `for n in ..`: `left` coefficients are left, from `n` on, and `◌op◌` is `+=` or `-=`.
  pub taps : (S → S → S) → List S → List S → ℕ → ℕ → ℕ → ℕ → S → Option S
  taps op coeffs buffer len idx zero n out = some out
  taps op coeffs buffer len idx (suc left) n out = do
    c ← get_elem? coeffs n
    v ← get_elem? buffer ((idx + len - n) % len)
    taps op coeffs buffer len idx left (n + 1) (op out (c ⊗ v))

  -- `cells[i] = v`.
  pub put : List S → ℕ → S → Option (List S)
  put cells i v = do _ ← get_elem? cells i; some (set cells i v)

  unfoldable pub process_single : DiffEq S → S → Option (S × DiffEq S)
  process_single f input =
      let idx_x = (f.idx_x + 1) % f.b_len in
      let idx_y = (f.idx_y + 1) % f.a_len in
      do
        x ← put f.x idx_x input
        fed ← taps r.add f.b x f.b_len idx_x f.b_len 0 nought
        out ← taps r.sub f.a f.y f.a_len idx_y (f.a_len - 1) 1 fed
        y ← put f.y idx_y out
        some (out, record f { x = x; y = y; idx_x = idx_x; idx_y = idx_y })

  abbrev pub flush : S → S
  flush v = if r.is_subnormal v then nought else v

  pub flush_subnormals : DiffEq S → DiffEq S
  flush_subnormals f = record f { x = map flush f.x; y = map flush f.y }

  pub process_samples : DiffEq S → List S → Option (List S × DiffEq S)
  process_samples f [] = some ([], f)
  process_samples f (item ∷ waveform) = do
    first ← process_single f item
    rest ← process_samples first.1 waveform
    some (first.0 ∷ rest.0, rest.1)

  unfoldable pub process_waveform : DiffEq S → List S → Option (List S × DiffEq S)
  process_waveform f waveform = do
    out ← process_samples f waveform
    some (out.0, flush_subnormals out.1)

  process_samples-length :
      (f : DiffEq S) (w : List S) {out : List S × DiffEq S}
      → process_samples f w ≡ some out
      → length out.0 ≡ length w
  unfolding process_samples
  process_samples-length f [] e = subst (λ out. length out.0 ≡ 0) (some-eq e) refl
  process_samples-length f (x ∷ w) {out = out} e =
      let (first, e₁, e₂) = >>=-eq-some (process_single f x) _ e in
      let (rest, e₃, e₄) = >>=-eq-some (process_samples first.1 w) _ e₂ in
      subst (λ out. length out.0 ≡ suc (length w)) (some-eq e₄)
        (ap suc (process_samples-length first.1 w e₃))

  instance abbrev pub diffeq_filter : {W : Type 0} → FilterTrait S (DiffEq S) W
  diffeq_filter = local_filter process_waveform

  pub diffeq-KeepsLength : {W : Type 0} → KeepsLength (diffeq_filter {W = W})
  unfolding process_waveform
  diffeq-KeepsLength = local_filter-KeepsLength _ λ f w r e.
      let (out, e₁, e₂) = >>=-eq-some (process_samples f w) _ e in
      subst (λ out. length out.0 ≡ length w) (some-eq e₂) (process_samples-length f w e₁)
