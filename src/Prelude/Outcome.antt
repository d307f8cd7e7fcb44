-- ===== src/Prelude/Outcome.antt =====
-- What a call of C++ code comes to, where it need not return.

use mathlib.Core.Path.{◌≡◌, refl}

-- `violated` is the end of the program by `_contract_assert`; `undefined` is undefined behaviour, or an
-- object whose lifetime is never ended.
pub data Outcome {ℓ} (A : Type ℓ) : Type ℓ where
  done : A → Outcome A
  violated : Outcome A
  undefined : Outcome A

infixl 10 ◌>>=◌
abbrev pub ◌>>=◌ {ℓ κ} : {A : Type ℓ} {B : Type κ} → Outcome A → (A → Outcome B) → Outcome B
done a >>= f = f a
violated >>= f = violated
undefined >>= f = undefined

-- What holds of an outcome, if the contracts are kept.
abbrev pub Keeps {ℓ} : {A : Type ℓ} → (A → Type 0) → Outcome A → Type 0
Keeps Q (done x) = Q x
Keeps Q violated = Unit
Keeps Q undefined = ⊥

pub Keeps-bind :
    {A B : Type 0} (Q : A → Type 0) (R : B → Type 0) (o : Outcome A) (f : A → Outcome B)
    → Keeps Q o
    → ((x : A) → Q x → Keeps R (f x))
    → Keeps R (o >>= f)
Keeps-bind Q R (done x) f q h = h x q
Keeps-bind Q R violated f q h = tt
Keeps-bind Q R undefined f q h = absurd q

-- What holds of an outcome, which is a result.
abbrev pub Returns {ℓ} : {A : Type ℓ} → (A → Type 0) → Outcome A → Type 0
Returns Q (done x) = Q x
Returns Q _ = ⊥

pub Returns-bind :
    {A B : Type 0} (Q : A → Type 0) (R : B → Type 0) (o : Outcome A) (f : A → Outcome B)
    → Returns Q o
    → ((x : A) → Q x → Returns R (f x))
    → Returns R (o >>= f)
Returns-bind Q R (done x) f q h = h x q
Returns-bind Q R violated f q h = absurd q
Returns-bind Q R undefined f q h = absurd q

-- What returns, and keeps something if it returns, returns with that.
pub Returns-Keeps :
    {A : Type 0} (Q R : A → Type 0) (o : Outcome A)
    → Returns Q o
    → Keeps R o
    → (x : A) × (o ≡ done x) × R x
Returns-Keeps Q R (done x) q r = (x, refl, r)
Returns-Keeps Q R violated q r = absurd q
Returns-Keeps Q R undefined q r = absurd q
