-- ===== src/Base/Perms.antt =====
-- Permuted lists have the same native length and the same bounds.
use Prim.Native.Nat.{ℕ, zero, suc, ◌<◌}
use mathlib.Core.HLevel.{×_prop}
use native.Mathlib.Omega.{arith}
use native.Mathlib.Bridge.{le_prop}
use mathlib.Core.Path.{◌≡◌, refl, sym, ap, ◌∙◌, subst}
use mathlib.Core.Option.{some, some-injective, none-ne-some}
use mathlib.Core.Logic.{∥∥₁_elim, ◌≢◌}
use mathlib.Core.List.{List, [], ◌∷◌, Perm, Permᴰ}
use native.Mathlib.Nat.{ℕ_set}
use bitcoin_messaging.Base.Lists.{length, All, get_elem?}

module _ {ℓ} {A : Type ℓ} where
  length-permᴰ : {xs ys : List A} → Permᴰ xs ys → length xs ≡ length ys
  length-permᴰ Permᴰ.nil = refl
  length-permᴰ (Permᴰ.cons e p) = ap suc (length-permᴰ p)
  length-permᴰ (Permᴰ.swap e f) = refl
  length-permᴰ (Permᴰ.trans p q) = length-permᴰ p ∙ length-permᴰ q

  pub length-perm : {xs ys : List A} → Perm xs ys → length xs ≡ length ys
  length-perm p = ∥∥₁_elim p (ℕ_set _ _) length-permᴰ

lt-IsProp : (bound x : ℕ) → IsProp (x < bound)
lt-IsProp bound x = le_prop

All-IsProp : (bound : ℕ) (xs : List ℕ) → IsProp (All (λ x. x < bound) xs)
All-IsProp bound [] = hlevel
All-IsProp bound (x ∷ xs) = ×_prop (lt-IsProp bound x) (All-IsProp bound xs)

All-permᴰ :
    (bound : ℕ) {xs ys : List ℕ} → Permᴰ xs ys → All (λ x. x < bound) xs → All (λ x. x < bound) ys
All-permᴰ bound Permᴰ.nil h = h
All-permᴰ bound (Permᴰ.cons e p) (hx, h) = (omega (arith, e), All-permᴰ bound p h)
All-permᴰ bound (Permᴰ.swap e f) (hx, (hy, h)) = (omega (arith, e), (omega (arith, e), h))
All-permᴰ bound (Permᴰ.trans p q) h = All-permᴰ bound q (All-permᴰ bound p h)

-- A bound of all elements holds in any order.
pub All-perm :
    (bound : ℕ) {xs ys : List ℕ} → Perm xs ys → All (λ x. x < bound) xs → All (λ x. x < bound) ys
All-perm bound {ys = ys} p h = ∥∥₁_elim p (All-IsProp bound ys) (λ d. All-permᴰ bound d h)

-- No element comes twice.
abbrev pub IsDistinct : List ℕ → Type 0
IsDistinct [] = Unit
IsDistinct (x ∷ xs) = All (λ (y : ℕ). x ≢ y) xs × IsDistinct xs

other-IsProp : (x y : ℕ) → IsProp (x ≢ y)
other-IsProp x y = hlevel

All-other-IsProp : (x : ℕ) (xs : List ℕ) → IsProp (All (λ (y : ℕ). x ≢ y) xs)
All-other-IsProp x [] = hlevel
All-other-IsProp x (y ∷ ys) = ×_prop (other-IsProp x y) (All-other-IsProp x ys)

IsDistinct-IsProp : (xs : List ℕ) → IsProp (IsDistinct xs)
IsDistinct-IsProp [] = hlevel
IsDistinct-IsProp (x ∷ xs) = ×_prop (All-other-IsProp x xs) (IsDistinct-IsProp xs)

other-same :
    (x x' : ℕ) (xs : List ℕ) → x ≡ x' → All (λ (y : ℕ). x ≢ y) xs → All (λ (y : ℕ). x' ≢ y) xs
other-same x x' xs e h = subst (λ (z : ℕ). All (λ (y : ℕ). z ≢ y) xs) e h

other-permᴰ :
    (x x' : ℕ) {xs ys : List ℕ}
    → Permᴰ xs ys
    → x ≡ x'
    → All (λ (y : ℕ). x ≢ y) xs
    → All (λ (y : ℕ). x' ≢ y) ys
other-permᴰ x x' Permᴰ.nil e h = h
other-permᴰ x x' (Permᴰ.cons f p) e (hx, h) = ((λ g. hx (e ∙ g ∙ sym f)), other-permᴰ x x' p e h)
other-permᴰ x x' (Permᴰ.swap f g) e (ha, (hb, h)) =
    ((λ k. hb (e ∙ k ∙ sym g)), ((λ k. ha (e ∙ k ∙ sym f)), other-same x x' _ e h))
other-permᴰ x x' (Permᴰ.trans p q) e h = other-permᴰ x' x' q refl (other-permᴰ x x' p e h)

IsDistinct-permᴰ : {xs ys : List ℕ} → Permᴰ xs ys → IsDistinct xs → IsDistinct ys
IsDistinct-permᴰ Permᴰ.nil h = h
IsDistinct-permᴰ (Permᴰ.cons e p) (hx, h) = (other-permᴰ _ _ p e hx, IsDistinct-permᴰ p h)
IsDistinct-permᴰ (Permᴰ.swap e f) ((hab, ha), (hb, h)) =
    (((λ k. hab (e ∙ sym k ∙ sym f)), other-same _ _ _ f hb), (other-same _ _ _ e ha, h))
IsDistinct-permᴰ (Permᴰ.trans p q) h = IsDistinct-permᴰ q (IsDistinct-permᴰ p h)

pub IsDistinct-perm : {xs ys : List ℕ} → Perm xs ys → IsDistinct xs → IsDistinct ys
IsDistinct-perm {ys = ys} p h = ∥∥₁_elim p (IsDistinct-IsProp ys) (λ d. IsDistinct-permᴰ d h)

other_at : (x p j : ℕ) (xs : List ℕ) → All (λ (y : ℕ). x ≢ y) xs → get_elem? xs j ≡ some p → x ≢ p
other_at x p j [] h e = λ _. none-ne-some _ e
other_at x p zero (y ∷ ys) (hy, h) e = λ f. hy (f ∙ sym (some-injective _ _ e))
other_at x p (suc j) (y ∷ ys) (hy, h) e = other_at x p j ys h e

-- What comes at two places is at the same place.
pub IsDistinct-same :
    (xs : List ℕ) (i j p : ℕ)
    → IsDistinct xs
    → get_elem? xs i ≡ some p
    → get_elem? xs j ≡ some p
    → i ≡ j
IsDistinct-same [] i j p h e f = absurd (none-ne-some _ e)
IsDistinct-same (x ∷ xs) zero zero p h e f = refl
IsDistinct-same (x ∷ xs) zero (suc j) p (hx, h) e f =
    absurd (other_at x p j xs hx f (some-injective _ _ e))
IsDistinct-same (x ∷ xs) (suc i) zero p (hx, h) e f =
    absurd (other_at x p i xs hx e (some-injective _ _ f))
IsDistinct-same (x ∷ xs) (suc i) (suc j) p (hx, h) e f = ap suc (IsDistinct-same xs i j p h e f)
