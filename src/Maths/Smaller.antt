-- ===== src/Maths/Smaller.antt =====
-- The inner loop of `PermutationToInteger`, and picking an element out of an ascending vector.
use mathlib.Core.Logic.{∥∥₁_elim}
use mathlib.Core.List.{Perm, Permᴰ}
use mathlib.Core.List.Perm
use native.Mathlib.Nat.{ℕ_set}
use bitcoin_messaging.Base.{
  ℕ, zero, suc, ◌+◌, ◌≤◌, ◌<◌, ◌≡◌, refl, ap, ap₂, ◌∙◌, List, [], ◌∷◌, some, arith, length,
  get_elem?, ltb, if◌then◌else◌,
}
use bitcoin_messaging.Maths.{count_smaller, remove, iota}

-- 1 if `y` is below `x`, else 0.
abbrev pub below : ℕ → ℕ → ℕ
below x y = if ltb y x then 1 else 0

-- How many elements are below `x`.
abbrev pub smaller : ℕ → List ℕ → ℕ
smaller x [] = 0
smaller x (y ∷ ys) = below x y + smaller x ys

pub count_smaller-smaller : (a x : ℕ) (ys : List ℕ) → count_smaller a x ys ≡ a + smaller x ys
unfolding count_smaller
count_smaller-smaller a x [] = omega arith
count_smaller-smaller a x (y ∷ ys) =
    ground (arith, count_smaller-smaller (a + 1) x ys, count_smaller-smaller a x ys)

pub smaller-le : (x : ℕ) (ys : List ℕ) → smaller x ys ≤ length ys
smaller-le x [] = omega arith
smaller-le x (y ∷ ys) = ground (arith, smaller-le x ys)

-- Strictly ascending from `lo` on.
abbrev pub Ascends : ℕ → List ℕ → Type 0
Ascends lo [] = Unit {0}
Ascends lo (x ∷ xs) = (lo ≤ x) × Ascends (x + 1) xs

pub Ascends-mono : (lo lo' : ℕ) (xs : List ℕ) → lo' ≤ lo → Ascends lo xs → Ascends lo' xs
Ascends-mono lo lo' [] h a = tt
Ascends-mono lo lo' (x ∷ xs) h a = (omega arith, a.1)

pub iota-Ascends : (n first : ℕ) → Ascends first (iota n first)
unfolding iota
iota-Ascends zero first = tt
iota-Ascends (suc n) first = (omega arith, iota-Ascends n (first + 1))

pub length-iota : (n first : ℕ) → length (iota n first) ≡ n
unfolding iota
length-iota zero first = refl
length-iota (suc n) first = ap suc (length-iota n (first + 1))

remove_below : (v lo : ℕ) (xs : List ℕ) → v < lo → Ascends lo xs → remove v xs ≡ xs
unfolding remove
remove_below v lo [] h a = refl
remove_below v lo (x ∷ xs) h a = ground (arith, remove_below v (x + 1) xs (omega arith) a.1)

smaller_below : (v lo : ℕ) (xs : List ℕ) → v ≤ lo → Ascends lo xs → smaller v xs ≡ 0
smaller_below v lo [] h a = refl
smaller_below v lo (x ∷ xs) h a = ground (arith, smaller_below v (x + 1) xs (omega arith) a.1)

-- The element at index `x`, and the vector without it.
pub record IsPicked (lo x : ℕ) (buf : List ℕ) : Type 0 where
  pub v : ℕ
  pub found : get_elem? buf x ≡ some v
  pub from_lo : lo ≤ v
  pub size : length (remove v buf) + 1 ≡ length buf
  pub ascends : Ascends lo (remove v buf)
  pub place : smaller v (remove v buf) ≡ x
  pub same : Perm (v ∷ remove v buf) buf

pick_later :
    (lo x y : ℕ) (ys : List ℕ) → lo ≤ y → IsPicked (y + 1) x ys → IsPicked lo (suc x) (y ∷ ys)
unfolding remove
pick_later lo x y ys h p =
    let kept : remove p.v (y ∷ ys) ≡ y ∷ remove p.v ys = let f = p.from_lo in ground arith in
    record {
      v = p.v;
      found = p.found;
      from_lo = let f = p.from_lo in omega arith;
      size = rw kept (let s = p.size in omega arith);
      ascends = rw kept (h, p.ascends);
      place = rw kept (let f = p.from_lo in let q = p.place in ground arith);
      same = rw kept (Perm.trans (Perm.swap y p.v (remove p.v ys)) (Perm.cons y p.same));
    }

pub pick : (lo x : ℕ) (buf : List ℕ) → Ascends lo buf → x < length buf → IsPicked lo x buf
pick lo x [] a h = absurd (omega arith)
pick lo zero (y ∷ ys) a h =
    let alone : remove y (y ∷ ys) ≡ ys =
      unfold remove in ground (arith, remove_below y (y + 1) ys (omega arith) a.1) in
    record {
      v = y;
      found = refl;
      from_lo = a.0;
      size = rw alone (omega arith);
      ascends = rw alone (Ascends-mono (y + 1) lo ys (omega arith) a.1);
      place = rw alone (smaller_below y (y + 1) ys (omega arith) a.1);
      same = rw alone (Perm.refl (y ∷ ys));
    }
pick lo (suc x) (y ∷ ys) a h = pick_later lo x y ys a.0 (pick (y + 1) x ys a.1 (omega arith))

smaller-permᴰ : (x : ℕ) {xs ys : List ℕ} → Permᴰ xs ys → smaller x xs ≡ smaller x ys
smaller-permᴰ x Permᴰ.nil = refl
smaller-permᴰ x (Permᴰ.cons e p) = ap₂ (λ (a s : ℕ). below x a + s) e (smaller-permᴰ x p)
smaller-permᴰ x (Permᴰ.swap {l} e f) = omega (arith, ap (below x) e, ap (below x) f)
smaller-permᴰ x (Permᴰ.trans p q) = smaller-permᴰ x p ∙ smaller-permᴰ x q

pub smaller-perm : (x : ℕ) {xs ys : List ℕ} → Perm xs ys → smaller x xs ≡ smaller x ys
smaller-perm x p = ∥∥₁_elim p (ℕ_set _ _) (smaller-permᴰ x)
