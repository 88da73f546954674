-- ===== src/Arith/Whole.antt =====
-- Whole numbers as samples: an `Arith` at which the definitions run, for tests and instances.
use astra_camilla_dsp.Common.{ℕ, suc, ◌+◌, ◌-◌, ◌*◌, ◌/◌, ◌^◌, false, ltb, leb, ◌==◌}
use astra_camilla_dsp.Common.{if◌then◌else◌}
use astra_camilla_dsp.Arith.{Arith}

-- `negsuc n` is -(n + 1).
pub data ℤ : Type 0 where
  pos : ℕ → ℤ
  negsuc : ℕ → ℤ

abbrev pub pos_part : ℤ → ℕ
pos_part (pos n) = n
pos_part (negsuc n) = 0

abbrev pub neg_part : ℤ → ℕ
neg_part (pos n) = 0
neg_part (negsuc n) = suc n

abbrev pub sub_ℕ : ℕ → ℕ → ℤ
sub_ℕ a b = if leb b a then pos (a - b) else negsuc (b - a - 1)

abbrev pub negate : ℤ → ℤ
negate a = sub_ℕ (neg_part a) (pos_part a)

abbrev pub magnitude : ℤ → ℕ
magnitude a = pos_part a + neg_part a

-- Division goes towards zero; the functions that leave the whole numbers are the identity.
instance abbrev pub whole : Arith ℤ
whole = record {
  lit = λ n d. pos (n / d);
  of_ℕ = pos;
  to_ℕ = pos_part;
  add = λ a b. sub_ℕ (pos_part a + pos_part b) (neg_part a + neg_part b);
  sub = λ a b. sub_ℕ (pos_part a + neg_part b) (neg_part a + pos_part b);
  mul = λ a b.
      sub_ℕ (pos_part a * pos_part b + neg_part a * neg_part b)
        (pos_part a * neg_part b + neg_part a * pos_part b);
  div = λ a b. sub_ℕ (pos_part a / magnitude b) (neg_part a / magnitude b);
  neg = negate;
  abs = λ a. pos (magnitude a);
  lt = λ a b. ltb (pos_part a + neg_part b) (pos_part b + neg_part a);
  le = λ a b. leb (pos_part a + neg_part b) (pos_part b + neg_part a);
  same = λ a b. pos_part a + neg_part b == pos_part b + neg_part a;
  powf = λ a b. pos (magnitude a ^ pos_part b);
  powi = λ a n. pos (magnitude a ^ n);
  log10 = λ a. a;
  exp = λ a. a;
  sqrt = λ a. a;
  round = λ a. a;
  floor = λ a. a;
  is_subnormal = λ _. false;
}
