-- ===== src/DataCompression/Distinct.antt =====
-- The characters of a tree, and a test that none of them stands at two leaves.
use bitcoin_messaging.Base.{
  ℕ, ◌≡◌, ◌⊎◌, inl, inr, refl, Bool, true, false, List, [], ◌∷◌, ◌++◌, none, arith, ◌==◌, ◌&&◌,
  ◌||◌, not, Bool-cases,
}
use bitcoin_messaging.DataCompression.{Node, leaf, internal}
use bitcoin_messaging.DataCompression.Ways.{code_of, HasDistinct}

unfoldable pub chars : Node → List ℕ
chars (leaf d freq) = d ∷ []
chars (internal freq l r) = chars l ++ chars r

unfoldable pub member : ℕ → List ℕ → Bool
member c [] = false
member c (x ∷ xs) = x == c || member c xs

unfoldable pub no_repeat : List ℕ → Bool
unfolding member
no_repeat [] = true
no_repeat (x ∷ xs) = not (member x xs) && no_repeat xs

pub member-append : (c : ℕ) (xs ys : List ℕ) → member c (xs ++ ys) ≡ (member c xs || member c ys)
unfolding member
member-append c [] ys = refl
member-append c (x ∷ xs) ys = ground (arith, member-append c xs ys)

pub code_of-none : (t : Node) (c : ℕ) → member c (chars t) ≡ false → code_of t c ≡ none
unfolding member chars code_of
code_of-none (leaf d freq) c h = ground arith
code_of-none (internal freq l r) c h =
    ground (arith, member-append c (chars l) (chars r), code_of-none l c, code_of-none r c)

apart_append :
    (c : ℕ) (xs ys : List ℕ)
    → no_repeat (xs ++ ys) ≡ true
    → (member c xs ≡ false) ⊎ (member c ys ≡ false)
unfolding member no_repeat
apart_append c [] ys h = inl refl
apart_append c (x ∷ xs) ys h = elim (Bool-cases (x == c)) [
  | inl e ↦ inr (ground (arith, member-append c xs ys))
  | inr e ↦ elim (apart_append c xs ys (ground arith)) [
    | inl f ↦ inl (ground arith)
    | inr f ↦ inr f
  ]
]

no_repeat_left : (xs ys : List ℕ) → no_repeat (xs ++ ys) ≡ true → no_repeat xs ≡ true
unfolding no_repeat
no_repeat_left [] ys h = refl
no_repeat_left (x ∷ xs) ys h = ground (arith, member-append x xs ys, no_repeat_left xs ys)

no_repeat_right : (xs ys : List ℕ) → no_repeat (xs ++ ys) ≡ true → no_repeat ys ≡ true
unfolding no_repeat
no_repeat_right [] ys h = h
no_repeat_right (x ∷ xs) ys h = ground (arith, no_repeat_right xs ys)

pub HasDistinct-of_no_repeat : (t : Node) → no_repeat (chars t) ≡ true → HasDistinct t
HasDistinct-of_no_repeat (leaf d freq) h = tt
HasDistinct-of_no_repeat (internal freq l r) h =
    let h' : no_repeat (chars l ++ chars r) ≡ true = unfold chars in h in
    (
      HasDistinct-of_no_repeat l (no_repeat_left (chars l) (chars r) h'),
      HasDistinct-of_no_repeat r (no_repeat_right (chars l) (chars r) h'),
      λ c. elim (apart_append c (chars l) (chars r) h') [
        | inl e ↦ inl (code_of-none l c e)
        | inr e ↦ inr (code_of-none r c e)
      ],
    )
