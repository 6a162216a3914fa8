-- ===== src/Prelude/Fuel.antt =====
-- Computations on fuel: `none` is a computation that has not come to an end.
use mathlib.Core.Path.{◌≡◌, refl}
use mathlib.Core.Bool.{Bool, true, false}
use mathlib.Core.Option.{Option, none, some}
use go_registrar.Prelude.Tests.{if◌then◌else◌}

infixl 5 ◌>>=◌
abbrev pub ◌>>=◌ {ℓ κ} : {A : Type ℓ} {B : Type κ} → Option A → (A → Option B) → Option B
none >>= f = none
some a >>= f = f a

-- What a computation that ends has done first.
pub >>=-eq-some {ℓ κ} :
    {A : Type ℓ} {B : Type κ} (m : Option A) (f : A → Option B) {b : B}
    → (m >>= f) ≡ some b
    → (a : A) × (m ≡ some a) × (f a ≡ some b)
>>=-eq-some none f h = cc
>>=-eq-some (some a) f h = (a, refl, h)

-- It comes to an end.
abbrev pub Ends {ℓ} : {A : Type ℓ} → Option A → Type ℓ
Ends {A} m = (a : A) × (m ≡ some a)

pub >>=-Ends {ℓ κ} :
    {A : Type ℓ} {B : Type κ} (m : Option A) (f : A → Option B)
    → Ends m
    → ((a : A) → Ends (f a))
    → Ends (m >>= f)
>>=-Ends none f (a, e) k = cc
>>=-Ends (some a) f e k = k a

-- The rules for a test and for a case of an Option; each branch has the equation of its case.
pub if-Ends {ℓ} :
    {A : Type ℓ} (b : Bool) (p q : Option A)
    → (b ≡ true → Ends p)
    → (b ≡ false → Ends q)
    → Ends (if b then p else q)
if-Ends true p q k l = k refl
if-Ends false p q k l = l refl

pub elim-Ends {ℓ κ} :
    {A : Type ℓ} {B : Type κ} (o : Option A) (p : Option B) (f : A → Option B)
    → (o ≡ none → Ends p)
    → ((a : A) → o ≡ some a → Ends (f a))
    → Ends (elim o [ none ↦ p | some a ↦ f a ])
elim-Ends none p f k l = k refl
elim-Ends (some a) p f k l = l a refl

pub some-Ends {ℓ} : {A : Type ℓ} (a : A) → Ends (some a)
some-Ends a = (a, refl)

pub test-Ends {ℓ} :
    {A : Type ℓ} (b : Bool) (p q : Option A)
    → (b ≡ true → Ends p)
    → (b ≡ false → Ends q)
    → Ends (elim b [ true ↦ p | false ↦ q ])
test-Ends true p q k l = k refl
test-Ends false p q k l = l refl
