-- ===== src/Base/Lists.antt =====
-- Vectors as lists, measured and indexed by native numbers, under the library's names.
use Prim.Native.Nat.{ℕ, zero, suc, ◌+◌, ◌-◌, ◌≤◌, ◌<◌}
use mathlib.Core.Path.{◌≡◌, refl, sym, ap, ap₂, ◌∙◌}
use mathlib.Core.List.{List, [], ◌∷◌, ◌++◌, map}
use mathlib.Core.Option.{Option, none, some, some-injective, none-ne-some, some-ne-none}
use mathlib.Core.Logic.{◌≢◌}
use native.Mathlib.Omega.{arith}

module _ {ℓ} {A : Type ℓ} where
  abbrev pub length : List A → ℕ
  length [] = 0
  length (x ∷ xs) = suc (length xs)

  abbrev pub get_elem? : List A → ℕ → Option A
  get_elem? [] i = none
  get_elem? (x ∷ xs) zero = some x
  get_elem? (x ∷ xs) (suc i) = get_elem? xs i

  abbrev pub take : ℕ → List A → List A
  take zero xs = []
  take (suc n) [] = []
  take (suc n) (x ∷ xs) = x ∷ take n xs

  abbrev pub drop : ℕ → List A → List A
  drop zero xs = xs
  drop (suc n) [] = []
  drop (suc n) (x ∷ xs) = drop n xs

  abbrev pub replicate : ℕ → A → List A
  replicate zero a = []
  replicate (suc n) a = a ∷ replicate n a

  abbrev pub All {κ} : (A → Type κ) → List A → Type κ
  All P [] = Unit {κ}
  All P (x ∷ xs) = P x × All P xs

module _ {ℓ} {A : Type ℓ} where
  pub length-append : (xs ys : List A) → length (xs ++ ys) ≡ length xs + length ys
  length-append [] ys = omega arith
  length-append (x ∷ xs) ys = omega (arith, length-append xs ys)

  pub take-append-drop : (n : ℕ) (xs : List A) → take n xs ++ drop n xs ≡ xs
  take-append-drop zero xs = refl
  take-append-drop (suc n) [] = refl
  take-append-drop (suc n) (x ∷ xs) = ap (λ l. x ∷ l) (take-append-drop n xs)

  pub length-take : (n : ℕ) (xs : List A) → n ≤ length xs → length (take n xs) ≡ n
  length-take zero xs h = refl
  length-take (suc n) [] h = absurd (omega arith)
  length-take (suc n) (x ∷ xs) h = ap suc (length-take n xs (omega arith))

  pub length-drop : (n : ℕ) (xs : List A) → length (drop n xs) ≡ length xs - n
  length-drop zero xs = omega arith
  length-drop (suc n) [] = omega arith
  length-drop (suc n) (x ∷ xs) = omega (arith, length-drop n xs)

  pub take-append : (xs ys : List A) → take (length xs) (xs ++ ys) ≡ xs
  take-append [] ys = refl
  take-append (x ∷ xs) ys = ap (λ l. x ∷ l) (take-append xs ys)

  pub drop-append : (xs ys : List A) → drop (length xs) (xs ++ ys) ≡ ys
  drop-append [] ys = refl
  drop-append (x ∷ xs) ys = drop-append xs ys

  pub length-replicate : (n : ℕ) (a : A) → length (replicate n a) ≡ n
  length-replicate zero a = refl
  length-replicate (suc n) a = ap suc (length-replicate n a)

  pub replicate-append : (m n : ℕ) (a : A) → replicate m a ++ replicate n a ≡ replicate (m + n) a
  replicate-append zero n a = ap (λ (k : ℕ). replicate k a) (omega arith)
  replicate-append (suc m) n a =
      let e : suc (m + n) ≡ suc m + n = omega arith in
      ap (λ l. a ∷ l) (replicate-append m n a) ∙ ap (λ (k : ℕ). replicate k a) e

  pub All-append {κ} : (P : A → Type κ) (xs ys : List A) → All P xs → All P ys → All P (xs ++ ys)
  All-append P [] ys hx hy = hy
  All-append P (x ∷ xs) ys hx hy = (hx.0, All-append P xs ys hx.1 hy)

pub length-map {ℓ κ} :
    {A : Type ℓ} {B : Type κ} (f : A → B) (xs : List A) → length (map f xs) ≡ length xs
length-map f [] = refl
length-map f (x ∷ xs) = ap suc (length-map f xs)

-- A write out of range changes nothing.
module _ {ℓ} {A : Type ℓ} where
  abbrev pub set : List A → ℕ → A → List A
  set [] i a = []
  set (x ∷ xs) zero a = a ∷ xs
  set (x ∷ xs) (suc i) a = x ∷ set xs i a

  pub length-set : (xs : List A) (i : ℕ) (a : A) → length (set xs i a) ≡ length xs
  length-set [] i a = refl
  length-set (x ∷ xs) zero a = refl
  length-set (x ∷ xs) (suc i) a = ap suc (length-set xs i a)

  pub get_elem?-set_self :
      (xs : List A) (i : ℕ) (a : A) → i < length xs → get_elem? (set xs i a) i ≡ some a
  get_elem?-set_self [] i a h = absurd (omega arith)
  get_elem?-set_self (x ∷ xs) zero a h = refl
  get_elem?-set_self (x ∷ xs) (suc i) a h = get_elem?-set_self xs i a (omega arith)

  pub get_elem?-set_lt :
      (xs : List A) (i j : ℕ) (a : A) → j < i → get_elem? (set xs i a) j ≡ get_elem? xs j
  get_elem?-set_lt [] i j a h = refl
  get_elem?-set_lt (x ∷ xs) zero j a h = absurd (omega arith)
  get_elem?-set_lt (x ∷ xs) (suc i) zero a h = refl
  get_elem?-set_lt (x ∷ xs) (suc i) (suc j) a h = get_elem?-set_lt xs i j a (omega arith)

  pub get_elem?-set_other :
      (xs : List A) (i j : ℕ) (a : A) → j ≢ i → get_elem? (set xs i a) j ≡ get_elem? xs j
  get_elem?-set_other [] i j a h = refl
  get_elem?-set_other (x ∷ xs) zero zero a h = absurd (h refl)
  get_elem?-set_other (x ∷ xs) zero (suc j) a h = refl
  get_elem?-set_other (x ∷ xs) (suc i) zero a h = refl
  get_elem?-set_other (x ∷ xs) (suc i) (suc j) a h =
      get_elem?-set_other xs i j a (λ e. h (ap suc e))

  pub get_elem?-below : (xs : List A) (i : ℕ) (a : A) → get_elem? xs i ≡ some a → i < length xs
  get_elem?-below [] i a h = absurd (none-ne-some _ h)
  get_elem?-below (x ∷ xs) zero a h = omega arith
  get_elem?-below (x ∷ xs) (suc i) a h = omega (arith, get_elem?-below xs i a h)

  pub get_elem?-map {κ} :
      {B : Type κ} (f : A → B) (xs : List A) (i : ℕ) (a : A)
      → get_elem? xs i ≡ some a
      → get_elem? (map f xs) i ≡ some (f a)
  get_elem?-map f [] i a h = absurd (none-ne-some _ h)
  get_elem?-map f (x ∷ xs) zero a h = ap (λ (y : A). some (f y)) (some-injective _ _ h)
  get_elem?-map f (x ∷ xs) (suc i) a h = get_elem?-map f xs i a h

  pub get_elem?-map-none {κ} :
      {B : Type κ} (f : A → B) (xs : List A) (i : ℕ)
      → get_elem? xs i ≡ none
      → get_elem? (map f xs) i ≡ none
  get_elem?-map-none f [] i h = refl
  get_elem?-map-none f (x ∷ xs) zero h = absurd (some-ne-none _ h)
  get_elem?-map-none f (x ∷ xs) (suc i) h = get_elem?-map-none f xs i h

  -- An element of the image comes from one at the same place.
  pub get_elem?-map-some {κ} :
      {B : Type κ} (f : A → B) (xs : List A) (i : ℕ) (b : B)
      → get_elem? (map f xs) i ≡ some b
      → (a : A) × ((get_elem? xs i ≡ some a) × (f a ≡ b))
  get_elem?-map-some f [] i b h = absurd (none-ne-some _ h)
  get_elem?-map-some f (x ∷ xs) zero b h = (x, (refl, some-injective _ _ h))
  get_elem?-map-some f (x ∷ xs) (suc i) b h = get_elem?-map-some f xs i b h

  pub set-set : (xs : List A) (i : ℕ) (a b : A) → set (set xs i a) i b ≡ set xs i b
  set-set [] i a b = refl
  set-set (x ∷ xs) zero a b = refl
  set-set (x ∷ xs) (suc i) a b = ap (λ l. x ∷ l) (set-set xs i a b)

  pub get_elem?-some : (xs : List A) (i : ℕ) → i < length xs → (a : A) × (get_elem? xs i ≡ some a)
  get_elem?-some [] i h = absurd (omega arith)
  get_elem?-some (x ∷ xs) zero h = (x, refl)
  get_elem?-some (x ∷ xs) (suc i) h = get_elem?-some xs i (omega arith)

  pub set-append :
      (xs ys : List A) (i : ℕ) (a : A) → i < length xs → set (xs ++ ys) i a ≡ set xs i a ++ ys
  set-append [] ys i a h = absurd (omega arith)
  set-append (x ∷ xs) ys zero a h = refl
  set-append (x ∷ xs) ys (suc i) a h = ap (λ l. x ∷ l) (set-append xs ys i a (omega arith))

  pub get_elem?-append :
      (xs ys : List A) (i : ℕ) → i < length xs → get_elem? (xs ++ ys) i ≡ get_elem? xs i
  get_elem?-append [] ys i h = absurd (omega arith)
  get_elem?-append (x ∷ xs) ys zero h = refl
  get_elem?-append (x ∷ xs) ys (suc i) h = get_elem?-append xs ys i (omega arith)

  -- A view of the elements that the write keeps is kept.
  pub map-set {κ} :
      {B : Type κ} (f : A → B) (xs : List A) (i : ℕ) (a b : A)
      → get_elem? xs i ≡ some a
      → f b ≡ f a
      → map f (set xs i b) ≡ map f xs
  map-set f [] i a b h e = refl
  map-set f (x ∷ xs) zero a b h e = ap₂ ◌∷◌ (e ∙ ap f (sym (some-injective _ _ h))) refl
  map-set f (x ∷ xs) (suc i) a b h e = ap (λ l. f x ∷ l) (map-set f xs i a b h e)
