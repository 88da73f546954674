-- ===== src/Filters/Limiter.antt =====
-- filters/limiter.rs: the limiter with its hard and soft clipping.
use astra_camilla_dsp.Common.{suc, ◌≡◌, refl, ap, inl, inr, Bool, true, false, Option, none, some}
use astra_camilla_dsp.Common.{List, [], ◌∷◌, if◌then◌else◌, Bool-cases, length, All, ◌>>=◌}
use astra_camilla_dsp.Common.{Yields}
use astra_camilla_dsp.Arith.{Arith, ◌⊗◌, ◌⊖◌, ◌⊘◌}
use astra_camilla_dsp.Config.Mixer.{unwrap_or}
use astra_camilla_dsp.Decibels.{db_to_linear}
use astra_camilla_dsp.Pipeline.{FilterTrait, local_filter}

pub record LimiterParameters (S : Type 0) : Type 0 where
  pub soft_clip : Option Bool
  pub clip_limit : S

pub record Limiter (S : Type 0) : Type 0 where
  pub soft_clip : Bool
  pub clip_limit : S

-- The order of floats that are not NaN.
pub record IsOrder {S : Type 0} (a : Arith S) : Type 0 where
  pub le_refl : (v : S) → a.le v v ≡ true
  pub le_of_not_lt : (v w : S) → a.lt v w ≡ false → a.le w v ≡ true
  pub not_lt_of_le : (v w : S) → a.le v w ≡ true → a.lt w v ≡ false

module _ {S : Type 0} ⦃a : Arith S⦄ where
  -- `clamp` of a float, which panics unless `lo <= hi`.
  unfoldable pub clamp : S → S → S → Option S
  clamp lo hi v =
      if a.le lo hi then some (if a.lt v lo then lo else if a.lt hi v then hi else v) else none

  unfoldable pub from_config : LimiterParameters S → Limiter S
  from_config config = record {
    soft_clip = unwrap_or config.soft_clip false;
    clip_limit = db_to_linear config.clip_limit;
  }

  abbrev pub update_parameters : Limiter S → LimiterParameters S → Limiter S
  update_parameters l config = record l {
    soft_clip = unwrap_or config.soft_clip false;
    clip_limit = db_to_linear config.clip_limit;
  }

  -- 1.0 / 6.75
  abbrev pub cubefactor : S
  cubefactor = a.lit 1 1 ⊘ a.lit 675 100

  pub apply_soft_clip : S → List S → Option (List S)
  apply_soft_clip limit [] = some []
  apply_soft_clip limit (val ∷ input) = do
    scaled ← clamp (a.neg (a.lit 3 2)) (a.lit 3 2) (val ⊘ limit)
    rest ← apply_soft_clip limit input
    some ((scaled ⊖ cubefactor ⊗ a.powi scaled 3) ⊗ limit ∷ rest)

  pub apply_hard_clip : S → List S → Option (List S)
  apply_hard_clip limit [] = some []
  apply_hard_clip limit (val ∷ input) = do
    clipped ← clamp (a.neg limit) limit val
    rest ← apply_hard_clip limit input
    some (clipped ∷ rest)

  unfoldable pub apply_clip : Limiter S → List S → Option (List S)
  apply_clip l input =
      if l.soft_clip then apply_soft_clip l.clip_limit input else apply_hard_clip l.clip_limit input

  instance abbrev pub limiter_filter : {W : Type 0} → FilterTrait S (Limiter S) W
  limiter_filter = local_filter (λ l w. apply_clip l w >>= λ out. some (out, l))

  abbrev pub Within : S → S → Type 0
  Within limit v = (a.le (a.neg limit) v ≡ true) × (a.le v limit ≡ true)

  module _ (ord : IsOrder a) (limit : S) (pos : a.le (a.neg limit) limit ≡ true) where
    pub clamp-Within : (v : S) → Yields (Within limit) (clamp (a.neg limit) limit v)
    unfolding clamp
    clamp-Within v = rw pos (elim (Bool-cases (a.lt v (a.neg limit))) [
      | inl below ↦ rw below (_, refl, (ord.le_refl (a.neg limit), pos))
      | inr low ↦ rw low (elim (Bool-cases (a.lt limit v)) [
        | inl above ↦ rw above (_, refl, (pos, ord.le_refl limit))
        | inr high ↦
            rw high (v, refl, (ord.le_of_not_lt v (a.neg limit) low, ord.le_of_not_lt limit v high))
      ])
    ])

    clamp-unchanged : (v : S) → Within limit v → clamp (a.neg limit) limit v ≡ some v
    unfolding clamp
    clamp-unchanged v (l, h) =
        rw (pos, ord.not_lt_of_le (a.neg limit) v l, ord.not_lt_of_le v limit h) refl

    apply_hard_clip-Within :
        (w : List S)
        → Yields (λ out. (length out ≡ length w) × All (Within limit) out) (apply_hard_clip limit w)
    unfolding apply_hard_clip
    apply_hard_clip-Within [] = ([], refl, (refl, tt))
    apply_hard_clip-Within (v ∷ w) =
        let (c, e, i) = clamp-Within v in
        let (out, e', (l, is)) = apply_hard_clip-Within w in
        rw (e, e') (c ∷ out, refl, (ap suc l, (i, is)))

    apply_hard_clip-unchanged :
        (w : List S) → All (Within limit) w → apply_hard_clip limit w ≡ some w
    unfolding apply_hard_clip
    apply_hard_clip-unchanged [] h = refl
    apply_hard_clip-unchanged (v ∷ w) h =
        rw (clamp-unchanged v h.0, apply_hard_clip-unchanged w h.1) refl

  -- A limiter without soft clipping, with a limit that is not below its negative, does not panic;
  -- it puts out as many samples as it takes, all between minus the limit and the limit, and a
  -- second run changes nothing. The samples are assumed to be ordered (no NaN).
  pub apply_clip-Within :
      IsOrder a
      → (l : Limiter S) (w : List S) → l.soft_clip ≡ false
      → a.le (a.neg l.clip_limit) l.clip_limit ≡ true
      → Yields
          (λ out.
            (length out ≡ length w) × All (Within l.clip_limit) out × (apply_clip l out ≡ some out))
          (apply_clip l w)
  unfolding apply_clip
  apply_clip-Within ord l w hard pos =
      let (out, e, (n, i)) = apply_hard_clip-Within ord l.clip_limit pos w in
      rw hard (out, e, (n, i, apply_hard_clip-unchanged ord l.clip_limit pos out i))

  clamp-some : (lo hi v : S) → a.le lo hi ≡ true → (c : S) × (clamp lo hi v ≡ some c)
  unfolding clamp
  clamp-some lo hi v h = rw h (_, refl)

  apply_soft_clip-length :
      (limit : S) (w : List S)
      → a.le (a.neg (a.lit 3 2)) (a.lit 3 2) ≡ true
      → Yields (λ out. length out ≡ length w) (apply_soft_clip limit w)
  unfolding apply_soft_clip
  apply_soft_clip-length limit [] h = ([], refl, refl)
  apply_soft_clip-length limit (v ∷ w) h =
      let (c, e) = clamp-some (a.neg (a.lit 3 2)) (a.lit 3 2) (v ⊘ limit) h in
      let (out, e', l) = apply_soft_clip-length limit w h in rw (e, e') (_, refl, ap suc l)

  apply_hard_clip-length :
      (limit : S) (w : List S)
      → a.le (a.neg limit) limit ≡ true
      → Yields (λ out. length out ≡ length w) (apply_hard_clip limit w)
  unfolding apply_hard_clip
  apply_hard_clip-length limit [] h = ([], refl, refl)
  apply_hard_clip-length limit (v ∷ w) h =
      let (c, e) = clamp-some (a.neg limit) limit v h in
      let (out, e', l) = apply_hard_clip-length limit w h in rw (e, e') (_, refl, ap suc l)

  -- The limits of the clamps are in order.
  abbrev pub CanClip : Limiter S → Type 0
  CanClip l =
      (a.le (a.neg (a.lit 3 2)) (a.lit 3 2) ≡ true)
      × (a.le (a.neg l.clip_limit) l.clip_limit ≡ true)

  -- Then clipping does not panic, and keeps the length.
  pub apply_clip-length :
      (l : Limiter S) (w : List S)
      → CanClip l
      → Yields (λ out. length out ≡ length w) (apply_clip l w)
  unfolding apply_clip
  apply_clip-length l w h = elim (Bool-cases l.soft_clip) [
    | inl soft ↦ rw soft (apply_soft_clip-length l.clip_limit w h.0)
    | inr hard ↦ rw hard (apply_hard_clip-length l.clip_limit w h.1)
  ]

  -- Comparisons find the sample neither below minus the limit nor above the limit; those with NaN find
  -- nothing.
  abbrev pub NotBeyond : S → S → Type 0
  NotBeyond limit v = (a.lt v (a.neg limit) ≡ false) × (a.lt limit v ≡ false)

  -- A limit, and minus the limit below it, as comparisons of these two values tell.
  pub record IsLimit (limit : S) : Type 0 where
    pub in_order : a.le (a.neg limit) limit ≡ true
    pub low : a.lt (a.neg limit) (a.neg limit) ≡ false
    pub high : a.lt limit limit ≡ false
    pub apart : a.lt limit (a.neg limit) ≡ false

  module _ (limit : S) (is : IsLimit limit) where
    clamp-NotBeyond : (v : S) → Yields (NotBeyond limit) (clamp (a.neg limit) limit v)
    unfolding clamp
    clamp-NotBeyond v = rw is.in_order (elim (Bool-cases (a.lt v (a.neg limit))) [
      | inl below ↦ rw below (_, refl, (is.low, is.apart))
      | inr low ↦ rw low (elim (Bool-cases (a.lt limit v)) [
        | inl above ↦ rw above (_, refl, (is.apart, is.high))
        | inr high ↦ rw high (v, refl, (low, high))
      ])
    ])

    apply_hard_clip-NotBeyond :
        (w : List S) → Yields (All (NotBeyond limit)) (apply_hard_clip limit w)
    unfolding apply_hard_clip
    apply_hard_clip-NotBeyond [] = ([], refl, tt)
    apply_hard_clip-NotBeyond (v ∷ w) =
        let (c, e, i) = clamp-NotBeyond v in
        let (out, e', is') = apply_hard_clip-NotBeyond w in rw (e, e') (c ∷ out, refl, (i, is'))

  pub apply_clip-NotBeyond :
      (l : Limiter S) (w : List S)
      → l.soft_clip ≡ false
      → IsLimit l.clip_limit
      → Yields (All (NotBeyond l.clip_limit)) (apply_clip l w)
  unfolding apply_clip
  apply_clip-NotBeyond l w hard is = rw hard (apply_hard_clip-NotBeyond l.clip_limit is w)
