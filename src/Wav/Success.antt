-- ===== src/Wav/Success.antt =====
-- What is known where a chain of steps of the wav functions succeeds.
use astra_camilla_dsp.Common.{◌≡◌, refl, Bool, true, false, ◌&&◌, Option, none, some}
use astra_camilla_dsp.Common.{if◌then◌else◌}
use astra_camilla_dsp.Wav.{Outcome, ok, err, panic, out_of_fuel, ◌>>=?◌, or_panic, or_err}
use astra_camilla_dsp.Wav.{WavError}

module _ {ℓ κ} {A : Type ℓ} {B : Type κ} where
  pub >>=?-eq-ok :
      (m : Outcome A) (f : A → Outcome B) {b : B}
      → (m >>=? f) ≡ ok b
      → (a : A) × (m ≡ ok a) × (f a ≡ ok b)
  >>=?-eq-ok (ok a) f h = (a, refl, h)
  >>=?-eq-ok (err e) f h = cc
  >>=?-eq-ok panic f h = cc
  >>=?-eq-ok out_of_fuel f h = cc

  pub or_panic-bind-eq-ok :
      (o : Option A) (f : A → Outcome B) {b : B}
      → (or_panic o >>=? f) ≡ ok b
      → (a : A) × (o ≡ some a) × (f a ≡ ok b)
  or_panic-bind-eq-ok none f h = cc
  or_panic-bind-eq-ok (some a) f h = (a, refl, h)

  pub or_err-bind-eq-ok :
      (e : WavError) (o : Option A) (f : A → Outcome B) {b : B}
      → (or_err e o >>=? f) ≡ ok b
      → (a : A) × (o ≡ some a) × (f a ≡ ok b)
  or_err-bind-eq-ok e none f h = cc
  or_err-bind-eq-ok e (some a) f h = (a, refl, h)

pub >>=?_assoc {ℓ κ ι} :
    {A : Type ℓ} {B : Type κ} {C : Type ι} (m : Outcome A) (f : A → Outcome B) (g : B → Outcome C)
    → (m >>=? f >>=? g) ≡ (m >>=? λ a. f a >>=? g)
>>=?_assoc (ok a) f g = refl
>>=?_assoc (err e) f g = refl
>>=?_assoc panic f g = refl
>>=?_assoc out_of_fuel f g = refl

module _ {ℓ} {A : Type ℓ} where
  pub ok-eq : {a b : A} → ok a ≡ ok b → a ≡ b
  ok-eq e = cc

  pub if_panic-eq-ok :
      (b : Bool) (m : Outcome A) {a : A}
      → (if b then panic else m) ≡ ok a
      → (b ≡ false) × (m ≡ ok a)
  if_panic-eq-ok true m h = cc
  if_panic-eq-ok false m h = (refl, h)

  pub if_err-eq-ok :
      (b : Bool) (e : WavError) (m : Outcome A) {a : A}
      → (if b then err e else m) ≡ ok a
      → (b ≡ false) × (m ≡ ok a)
  if_err-eq-ok true e m h = cc
  if_err-eq-ok false e m h = (refl, h)

  pub if_ok-eq-ok :
      (b : Bool) (x : A) (e : WavError) {a : A}
      → (if b then ok x else err e) ≡ ok a
      → (b ≡ true) × (x ≡ a)
  if_ok-eq-ok true x e h = (refl, ok-eq h)
  if_ok-eq-ok false x e h = cc

pub and_left : (a b : Bool) → (a && b) ≡ true → a ≡ true
and_left true b h = refl
and_left false b h = cc

pub and_right : (a b : Bool) → (a && b) ≡ true → b ≡ true
and_right true b h = h
and_right false b h = cc
