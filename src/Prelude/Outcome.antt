-- ===== src/Prelude/Outcome.antt =====
-- How a call ends: with a value, by the abort of a LOG_FATAL statement, by an exception of the
-- standard library, or in a fault (a failed assertion or an access out of range).
use mathlib.Core.Path.{◌≡◌, refl}

pub data Outcome {ℓ} (A : Type ℓ) : Type ℓ where
  ok : A → Outcome A
  fatal thrown fault : Outcome A

infixl 5 ◌>>=◌
abbrev pub ◌>>=◌ {ℓ κ} : {A : Type ℓ} {B : Type κ} → Outcome A → (A → Outcome B) → Outcome B
ok a >>= f = f a
fatal >>= f = fatal
thrown >>= f = thrown
fault >>= f = fault

-- The call returns, and its value satisfies `P`.
abbrev pub Returns {ℓ} : {A : Type ℓ} → Outcome A → (A → Type 0) → Type 0
Returns (ok a) P = P a
Returns fatal P = ⊥
Returns thrown P = ⊥
Returns fault P = ⊥

pub Returns->>= {ℓ κ} :
    {A : Type ℓ} {B : Type κ} (m : Outcome A) (f : A → Outcome B) (P : A → Type 0) (Q : B → Type 0)
    → Returns m P
    → ((a : A) → P a → Returns (f a) Q)
    → Returns (m >>= f) Q
Returns->>= (ok a) f P Q h k = k a h
Returns->>= fatal f P Q h k = absurd h
Returns->>= thrown f P Q h k = absurd h
Returns->>= fault f P Q h k = absurd h

pub Returns-mono {ℓ} :
    {A : Type ℓ} (m : Outcome A) (P Q : A → Type 0)
    → Returns m P
    → ((a : A) → P a → Q a)
    → Returns m Q
Returns-mono (ok a) P Q h k = k a h
Returns-mono fatal P Q h k = absurd h
Returns-mono thrown P Q h k = absurd h
Returns-mono fault P Q h k = absurd h

pub Returns-both :
    {A : Type 0} (m : Outcome A) (P Q : A → Type 0)
    → Returns m P
    → Returns m Q
    → Returns m (λ a. P a × Q a)
Returns-both (ok a) P Q h k = (h, k)
Returns-both fatal P Q h k = h
Returns-both thrown P Q h k = h
Returns-both fault P Q h k = h

-- A chain that ends well had a first call that did.
pub >>=-eq-ok {ℓ κ} :
    {X : Type ℓ} {Y : Type κ} (first : Outcome X) (next : X → Outcome Y) {y : Y}
    → (first >>= next) ≡ ok y
    → (x : X) × (first ≡ ok x) × (next x ≡ ok y)
>>=-eq-ok fatal next e = cc
>>=-eq-ok fault next e = cc
>>=-eq-ok thrown next e = cc
>>=-eq-ok (ok x) next e = (x, refl, e)
