-- ===== src/Filters/DiffEq/Indices.antt =====
-- filters/diffeq.rs: the indices into the circular buffers.
use astra_camilla_dsp.Common.{ℕ, suc, ◌+◌, ◌-◌, ◌%◌, ◌<◌, ◌≡◌, sym, ap, ◌∙◌, ◌≢◌, inl, inr, arith}
use astra_camilla_dsp.Common.{ltb, if◌then◌else◌, ltb→lt, Bool-cases}
use native.Mathlib.Nat.{mod-eq_of_lt, add-mod_right}

-- An index that has run over the end of a buffer at most once.
pub wrapped : ℕ → ℕ → ℕ
wrapped a len = if ltb a len then a else a - len

mod-wrapped : (a len : ℕ) → a < len + len → a % len ≡ wrapped a len
unfolding wrapped
mod-wrapped a len h = elim (Bool-cases (ltb a len)) [
  | inl lt ↦ rw lt (mod-eq_of_lt (ltb→lt a len lt))
  | inr ge ↦
      let split : a ≡ (a - len) + len = ground (arith, ge) in
      let small : a - len < len = ground (arith, ge) in
      rw ge (ap (λ t. t % len) split ∙ add-mod_right (a - len) len ∙ mod-eq_of_lt small)
]

wrapped-lt : (idx len : ℕ) → idx < len → wrapped (idx + 1) len < len
unfolding wrapped
wrapped-lt idx len h = ground arith

pub next-lt : (idx len : ℕ) → idx < len → (idx + 1) % len < len
next-lt idx len h = rw (mod-wrapped (idx + 1) len (omega arith)) (wrapped-lt idx len h)

-- The cell of the newest value, and those of the older ones, after a step.
pub newest :
    (idx len : ℕ)
    → idx < len
    → wrapped (wrapped (idx + 1) len + len - 0) len ≡ wrapped (idx + 1) len
unfolding wrapped
newest idx len h = ground arith

pub older :
    (idx len k : ℕ)
    → idx < len
    → suc k < len
    → wrapped (wrapped (idx + 1) len + len - suc k) len ≡ wrapped (idx + len - k) len
unfolding wrapped
older idx len k h l = ground arith

older_ne :
    (idx len k : ℕ) → idx < len → suc k < len → wrapped (idx + 1) len ≢ wrapped (idx + len - k) len
unfolding wrapped
older_ne idx len k h l e = ground arith

pub newest-mod : (idx len : ℕ) → idx < len → ((idx + 1) % len + len - 0) % len ≡ (idx + 1) % len
newest-mod idx len h =
    let lt = wrapped-lt idx len h in
    rw (mod-wrapped (idx + 1) len (omega arith))
      (mod-wrapped (wrapped (idx + 1) len + len - 0) len (omega (arith, lt)) ∙ newest idx len h)

pub older-mod :
    (idx len k : ℕ)
    → idx < len
    → suc k < len
    → ((idx + 1) % len + len - suc k) % len ≡ (idx + len - k) % len
older-mod idx len k h l =
    let lt = wrapped-lt idx len h in
    rw (mod-wrapped (idx + 1) len (omega arith)) (
      mod-wrapped (wrapped (idx + 1) len + len - suc k) len (omega (arith, lt))
      ∙ older idx len k h l
      ∙ sym (mod-wrapped (idx + len - k) len (omega arith)))

pub older-mod_ne :
    (idx len k : ℕ) → idx < len → suc k < len → (idx + 1) % len ≢ (idx + len - k) % len
older-mod_ne idx len k h l e = older_ne idx len k h l (
    sym (mod-wrapped (idx + 1) len (omega arith))
    ∙ e
    ∙ mod-wrapped (idx + len - k) len (omega arith))
