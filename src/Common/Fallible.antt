-- ===== src/Common/Fallible.antt =====
-- Chains of steps that may fail. `none` stands for a panic; a rejected configuration is an `err`
-- of `Res`, with the error that the code reports.
use mathlib.Core.Path.{◌≡◌, refl}
use mathlib.Core.Bool.{Bool, true, false}
use astra_camilla_dsp.Common.Tests.{if◌then◌else◌}
use mathlib.Core.Option.{Option, none, some}

infixl 5 ◌>>=◌
abbrev pub ◌>>=◌ {ℓ κ} : {A : Type ℓ} {B : Type κ} → Option A → (A → Option B) → Option B
some a >>= f = f a
none >>= f = none

pub >>=-eq-some {ℓ κ} :
    {A : Type ℓ} {B : Type κ} (m : Option A) (f : A → Option B) {b : B}
    → (m >>= f) ≡ some b
    → (a : A) × (m ≡ some a) × (f a ≡ some b)
>>=-eq-some (some a) f h = (a, refl, h)
>>=-eq-some none f h = cc

pub bind_assoc {ℓ κ ι} :
    {A : Type ℓ} {B : Type κ} {C : Type ι} (m : Option A) (f : A → Option B) (g : B → Option C)
    → (m >>= f >>= g) ≡ (m >>= λ a. f a >>= g)
bind_assoc (some a) f g = refl
bind_assoc none f g = refl

pub some-eq {ℓ} : {A : Type ℓ} {a b : A} → some a ≡ some b → a ≡ b
some-eq e = cc

-- Steps that do not use one another's results can change places.
pub bind_swap {ℓ κ ι} :
    {A : Type ℓ} {B : Type κ} {C : Type ι} (m : Option A) (n : Option B) (f : A → B → Option C)
    → (m >>= λ a. n >>= λ b. f a b) ≡ (n >>= λ b. m >>= λ a. f a b)
bind_swap (some a) n f = refl
bind_swap none (some b) f = refl
bind_swap none none f = refl

pub bind_some {ℓ} : {A : Type ℓ} (m : Option A) → (m >>= some) ≡ m
bind_some (some a) = refl
bind_some none = refl

pub bind_none {ℓ κ} :
    {A : Type ℓ} {B : Type κ} (m : Option A) (f : A → Option B)
    → ((a : A) → f a ≡ none)
    → (m >>= f) ≡ none
bind_none (some a) f h = h a
bind_none none f h = refl

pub bind_ext {ℓ κ} :
    {A : Type ℓ} {B : Type κ} (m : Option A) (f g : A → Option B)
    → ((a : A) → m ≡ some a → f a ≡ g a)
    → (m >>= f) ≡ (m >>= g)
bind_ext (some a) f g h = h a refl
bind_ext none f g h = refl

-- `Result<(), ConfigError>`.
pub data Check {ℓ} (E : Type ℓ) : Type ℓ where
  accepted : Check E
  rejected : E → Check E

infixr 6 ◌then_check◌
-- `m?; k`: the first error is returned.
abbrev pub ◌then_check◌ {ℓ} : {E : Type ℓ} → Check E → Check E → Check E
accepted then_check k = k
rejected e then_check k = rejected e

pub then_check-accepted {ℓ} :
    {E : Type ℓ} (m k : Check E) → (m then_check k) ≡ accepted → (m ≡ accepted) × (k ≡ accepted)
then_check-accepted accepted k h = (refl, h)
then_check-accepted (rejected e) k h = cc

-- `if b { return Err(e) }; k`
pub reject_if-accepted {ℓ} :
    {E : Type ℓ} (b : Bool) (e : E) (k : Check E)
    → (if b then rejected e else k) ≡ accepted
    → (b ≡ false) × (k ≡ accepted)
reject_if-accepted true e k h = cc
reject_if-accepted false e k h = (refl, h)

-- An optional result that is there and has a property.
abbrev pub Yields {ℓ κ} : {A : Type ℓ} → (A → Type κ) → Option A → Type (ℓ ⊔ κ)
Yields {A} P o = (a : A) × (o ≡ some a) × P a

pub Yields-bind {ℓ κ ι ν} :
    {A : Type ℓ} {B : Type κ} {P : A → Type ι} (Q : B → Type ν) (m : Option A) (f : A → Option B)
    → Yields P m
    → ((a : A) → P a → Yields Q (f a))
    → Yields Q (m >>= f)
Yields-bind Q m f (a, e, p) k = let (b, e', q) = k a p in (b, rw e e', q)

-- An optional result has a property if it is there.
abbrev pub IfSome {ℓ κ} : {A : Type ℓ} → (A → Type κ) → Option A → Type κ
IfSome P none = Unit
IfSome P (some a) = P a

pub IfSome-intro {ℓ κ} :
    {A : Type ℓ} (P : A → Type κ) (o : Option A) → ((a : A) → o ≡ some a → P a) → IfSome P o
IfSome-intro P none h = tt
IfSome-intro P (some a) h = h a refl
