-- ===== src/Common/Maybe.antt =====
-- Chains of steps that may fault.
use mathlib.Core.Path.{◌≡◌, refl}
use mathlib.Core.Option.{Option, none, some}

infixl 5 ◌>>=◌
abbrev pub ◌>>=◌ {ℓ κ} : {A : Type ℓ} {B : Type κ} → Option A → (A → Option B) → Option B
none >>= f = none
some a >>= f = f a

pub >>=-eq-some {ℓ κ} :
    {A : Type ℓ} {B : Type κ} (m : Option A) (f : A → Option B) {b : B}
    → (m >>= f) ≡ some b
    → (a : A) × (m ≡ some a) × (f a ≡ some b)
>>=-eq-some none f h = cc
>>=-eq-some (some a) f h = (a, refl, h)

pub >>=_assoc {ℓ κ μ} :
    {A : Type ℓ} {B : Type κ} {C : Type μ} (m : Option A) (f : A → Option B) (g : B → Option C)
    → ((m >>= f) >>= g) ≡ (m >>= λ a. f a >>= g)
>>=_assoc none f g = refl
>>=_assoc (some a) f g = refl

-- A chain of steps does not fault, and what it yields has a property.
pub record Ensures {ℓ κ} {A : Type ℓ} (P : A → Type κ) (o : Option A) : Type (ℓ ⊔ κ) where
  pub value : A
  pub same : o ≡ some value
  pub holds : P value

pub ensures {ℓ κ} : {A : Type ℓ} {P : A → Type κ} (a : A) → P a → Ensures P (some a)
ensures a h = record { value = a; same = refl; holds = h }

pub Ensures-bind {ℓ κ μ ν} :
    {A : Type ℓ} {B : Type κ} {P : A → Type μ} {Q : B → Type ν} {o : Option A} {f : A → Option B}
    → Ensures P o
    → ((a : A) → P a → Ensures Q (f a))
    → Ensures Q (o >>= f)
Ensures-bind h k = rw h.same (k h.value h.holds)

pub Ensures-weaken {ℓ κ μ} :
    {A : Type ℓ} {P : A → Type κ} {Q : A → Type μ} {o : Option A}
    → ((a : A) → P a → Q a)
    → Ensures P o
    → Ensures Q o
Ensures-weaken k h = record { value = h.value; same = h.same; holds = k h.value h.holds }

pub some_inj {ℓ} : {A : Type ℓ} {a b : A} → some a ≡ some b → a ≡ b
some_inj e = cc

pub some_none {ℓ κ} : {A : Type ℓ} {a : A} {B : Type κ} → none ≡ some a → B
some_none e = cc
