-- ===== src/Base/Partial.antt =====
-- Partial results. `none` stands for an execution that has no defined result: a failed `assert`, an
-- access out of range, an exception, or arithmetic on which the source's behaviour is undefined.
use mathlib.Core.Path.{◌≡◌, refl, ap}
use mathlib.Core.Bool.{Bool, true, false}
use mathlib.Core.Option.{Option, none, some}

infixl 5 ◌>>=◌ ◌>>◌
abbrev pub ◌>>=◌ {ℓ κ} : {A : Type ℓ} {B : Type κ} → Option A → (A → Option B) → Option B
none >>= f = none
some a >>= f = f a

abbrev pub ◌>>◌ {ℓ} : {B : Type ℓ} → Option (Unit {0}) → Option B → Option B
m >> k = m >>= λ _. k

-- `assert(b)`.
abbrev pub assert : Bool → Option (Unit {0})
assert true = some tt
assert false = none

pub assert->> {ℓ} : {A : Type ℓ} (b : Bool) (m : Option A) → b ≡ true → (assert b >> m) ≡ m
assert->> b m h = rw h

pub assert-false->> {ℓ} :
    {A : Type ℓ} (b : Bool) (m : Option A) → b ≡ false → (assert b >> m) ≡ none
assert-false->> b m h = rw h

-- `ap` with the two sides written, for an equation that is found by a tactic.
pub ap_at {ℓ κ} : {A : Type ℓ} {B : Type κ} (f : A → B) (x y : A) → x ≡ y → f x ≡ f y
ap_at f x y p = ap f p

-- What a chain of steps that succeeds has done.
pub >>=-eq-some {ℓ κ} :
    {A : Type ℓ} {B : Type κ} (m : Option A) (f : A → Option B) {b : B}
    → (m >>= f) ≡ some b
    → (a : A) × (m ≡ some a) × (f a ≡ some b)
>>=-eq-some none f h = cc
>>=-eq-some (some a) f h = (a, refl, h)
