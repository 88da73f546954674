-- ===== src/Arith.antt =====
-- The floating point type `PrcFmt` (lib.rs: `f64`, or `f32` with the feature 32bit) and the
-- operations of Rust's `core` on it. The development is generic in them: it assumes none of their
-- laws unless a theorem names one as a hypothesis.
pub mod Whole
use astra_camilla_dsp.Common.{ℕ, Bool}

-- `lit n d` is the literal n / d; `to_ℕ` is the saturating `as usize`.
pub record Arith (S : Type 0) : Type 0 where
  pub lit : ℕ → ℕ → S
  pub of_ℕ : ℕ → S
  pub to_ℕ : S → ℕ
  pub add : S → S → S
  pub sub : S → S → S
  pub mul : S → S → S
  pub div : S → S → S
  pub neg : S → S
  pub abs : S → S
  pub lt : S → S → Bool
  pub le : S → S → Bool
  pub same : S → S → Bool
  pub powf : S → S → S
  pub powi : S → ℕ → S
  pub log10 : S → S
  pub exp : S → S
  pub sqrt : S → S
  pub round : S → S
  pub floor : S → S
  pub is_subnormal : S → Bool

module _ {S : Type 0} ⦃a : Arith S⦄ where
  infixl 65 ◌⊕◌ ◌⊖◌
  infixl 70 ◌⊗◌ ◌⊘◌
  abbrev pub ◌⊕◌ : S → S → S
  ◌⊕◌ = a.add

  abbrev pub ◌⊖◌ : S → S → S
  ◌⊖◌ = a.sub

  abbrev pub ◌⊗◌ : S → S → S
  ◌⊗◌ = a.mul

  abbrev pub ◌⊘◌ : S → S → S
  ◌⊘◌ = a.div

  -- The literal 0.0.
  abbrev pub nought : S
  nought = a.lit 0 1
