-- ===== src/Prelude/Try.antt =====
-- Computations on a state that may stop with an error; what they did before stays done.
use mathlib.Core.Path.{◌≡◌, refl}
use mathlib.Core.Logic.{◌⊎◌, inl, inr}

pub data Result (E A : Type 0) : Type 0 where
  failed : E → Result E A
  done : A → Result E A

abbrev pub Try : Type 0 → Type 0 → Type 0 → Type 0
Try S E A = S → Result E A × S

abbrev pub try_next : {S E A B : Type 0} → (A → Try S E B) → Result E A × S → Result E B × S
try_next f (failed e, s) = (failed e, s)
try_next f (done a, s) = f a s

infixl 5 ◌>>=◌
abbrev pub ◌>>=◌ : {S E A B : Type 0} → Try S E A → (A → Try S E B) → Try S E B
◌>>=◌ m f s = try_next f (m s)

abbrev pub pure : {S E A : Type 0} → A → Try S E A
pure a s = (done a, s)

abbrev pub throw : {S E A : Type 0} → E → Try S E A
throw e s = (failed e, s)

pub Result-cases :
    {S E A : Type 0} (r : Result E A × S)
    → ((e : E) × (s : S) × (r ≡ (failed e, s))) ⊎ ((a : A) × (s : S) × (r ≡ (done a, s)))
Result-cases (failed e, s) = inl (e, s, refl)
Result-cases (done a, s) = inr (a, s, refl)

-- What holds of the state behind a chain: it holds where the first part fails, and behind the second
-- part where the first is done.
pub bind-ends :
    {S E A B : Type 0} (P : S → Type 0) (m : Try S E A) (f : A → Try S E B) (s : S)
    → ((e : E) (t : S) → m s ≡ (failed e, t) → P t)
    → ((a : A) (t : S) → m s ≡ (done a, t) → P (f a t).1)
    → P ((m >>= f) s).1
bind-ends {A = A} P m f s h k = split (m s) refl
  where
    split : (r : Result _ A × _) → m s ≡ r → P (try_next f r).1
    split (failed e, t) q = h e t q
    split (done a, t) q = k a t q
