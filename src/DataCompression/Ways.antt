-- ===== src/DataCompression/Ways.antt =====
-- The ways from the root of a tree to its leaves, as bit vectors, and the lookups in a table.
use bitcoin_messaging.Base.{
  ℕ, ◌≡◌, ◌⊎◌, refl, sym, ap, Bool, true, false, [], ◌∷◌, ◌++◌, Option, none, some, arith, ◌==◌,
  ◌>>=◌, append_assoc, if◌then◌else◌,
}
use bitcoin_messaging.Types.{DataBits}
use bitcoin_messaging.DataCompression.{
  Node, leaf, internal, HuffCodeMap, bits_eq, left_at, right_find,
}

-- The way from the root to the first leaf with the character.
unfoldable pub code_of : Node → ℕ → Option DataBits
code_of (leaf d freq) c = if d == c then some [] else none
code_of (internal freq l r) c = elim (code_of l c) [
  | some y ↦ some (false ∷ y)
  | none ↦ code_of r c >>= λ y. some (true ∷ y)
]

-- The leaf at the end of a way.
unfoldable pub walk : Node → DataBits → Option ℕ
walk (leaf d freq) [] = some d
walk (leaf d freq) (b ∷ y) = none
walk (internal freq l r) [] = none
walk (internal freq l r) (false ∷ y) = walk l y
walk (internal freq l r) (true ∷ y) = walk r y

-- No character stands at two leaves.
abbrev pub HasDistinct : Node → Type 0
HasDistinct (leaf d freq) = Unit {0}
HasDistinct (internal freq l r) =
    HasDistinct l × HasDistinct r × ((c : ℕ) → (code_of l c ≡ none) ⊎ (code_of r c ≡ none))

-- The rest of `x` behind `p`.
unfoldable pub strip : DataBits → DataBits → Option DataBits
strip [] x = some x
strip (b ∷ p) [] = none
strip (true ∷ p) (true ∷ x) = strip p x
strip (true ∷ p) (false ∷ x) = none
strip (false ∷ p) (true ∷ x) = none
strip (false ∷ p) (false ∷ x) = strip p x

abbrev pub or_else {ℓ} : {A : Type ℓ} → Option A → Option A → Option A
or_else none o = o
or_else (some a) o = some a

pub walk-code_of : (t : Node) (c : ℕ) (x : DataBits) → code_of t c ≡ some x → walk t x ≡ some c
unfolding code_of walk
walk-code_of (leaf d freq) c [] h = ground arith
walk-code_of (leaf d freq) c (b ∷ x) h = ground arith
walk-code_of (internal freq l r) c [] h = ground arith
walk-code_of (internal freq l r) c (false ∷ x) h = ground (arith, walk-code_of l c x)
walk-code_of (internal freq l r) c (true ∷ x) h = ground (arith, walk-code_of r c x)

-- On the way to a leaf there is no other leaf.
pub walk-prefix :
    (t : Node) (x : DataBits) (b : Bool) (y : DataBits) (c : ℕ)
    → walk t (x ++ (b ∷ y)) ≡ some c
    → walk t x ≡ none
unfolding walk
walk-prefix (leaf d freq) [] b y c h = cc
walk-prefix (leaf d freq) (a ∷ x) b y c h = refl
walk-prefix (internal freq l r) [] b y c h = refl
walk-prefix (internal freq l r) (false ∷ x) b y c h = walk-prefix l x b y c h
walk-prefix (internal freq l r) (true ∷ x) b y c h = walk-prefix r x b y c h

pub left_at-append :
    (c d : ℕ) (x : DataBits) (codes : HuffCodeMap)
    → left_at c (codes ++ ((d, x) ∷ []))
      ≡ or_else (left_at c codes) (if d == c then some x else none)
unfolding left_at
left_at-append c d x [] = refl
left_at-append c d x ((e, y) ∷ codes) = ground (arith, left_at-append c d x codes)

pub right_find-append :
    (c : ℕ) (x z : DataBits) (codes : HuffCodeMap)
    → right_find z (codes ++ ((c, x) ∷ []))
      ≡ or_else (right_find z codes) (if bits_eq x z then some c else none)
unfolding right_find
right_find-append c x z [] = refl
right_find-append c x z ((e, y) ∷ codes) = ground (arith, right_find-append c x z codes)

pub strip_leaf :
    (d freq : ℕ) (x z : DataBits)
    → (strip x z >>= walk (leaf d freq)) ≡ (if bits_eq x z then some d else none)
unfolding strip walk bits_eq
strip_leaf d freq [] [] = refl
strip_leaf d freq [] (b ∷ z) = refl
strip_leaf d freq (a ∷ x) [] = refl
strip_leaf d freq (true ∷ x) (true ∷ z) = strip_leaf d freq x z
strip_leaf d freq (true ∷ x) (false ∷ z) = refl
strip_leaf d freq (false ∷ x) (true ∷ z) = refl
strip_leaf d freq (false ∷ x) (false ∷ z) = strip_leaf d freq x z

-- Behind a word the tree splits by the next bit.
pub strip_internal :
    (freq : ℕ) (l r : Node) (p z : DataBits)
    → (strip p z >>= walk (internal freq l r))
      ≡ or_else (strip (p ++ (false ∷ [])) z >>= walk l) (strip (p ++ (true ∷ [])) z >>= walk r)
unfolding strip walk
strip_internal freq l r [] [] = refl
strip_internal freq l r [] (true ∷ z) = refl
strip_internal freq l r [] (false ∷ z) = ground arith
strip_internal freq l r (a ∷ p) [] = refl
strip_internal freq l r (true ∷ p) (true ∷ z) = strip_internal freq l r p z
strip_internal freq l r (true ∷ p) (false ∷ z) = refl
strip_internal freq l r (false ∷ p) (true ∷ z) = refl
strip_internal freq l r (false ∷ p) (false ∷ z) = strip_internal freq l r p z

pub strip_other : (p y : DataBits) → strip (p ++ (false ∷ [])) ((p ++ (true ∷ [])) ++ y) ≡ none
unfolding strip
strip_other [] y = refl
strip_other (true ∷ p) y = strip_other p y
strip_other (false ∷ p) y = strip_other p y

abbrev pub behind : DataBits → Option DataBits → Option DataBits
behind p o = o >>= λ y. some (p ++ y)

pub join_ways :
    (p : DataBits) (l r : Option DataBits)
    → behind p (or_else (l >>= λ y. some (false ∷ y)) (r >>= λ y. some (true ∷ y)))
      ≡ or_else (behind (p ++ (false ∷ [])) l) (behind (p ++ (true ∷ [])) r)
join_ways p (some y) r = ap some (sym (append_assoc p (false ∷ []) y))
join_ways p none (some y) = ap some (sym (append_assoc p (true ∷ []) y))
join_ways p none none = refl

pub code_of-internal :
    (freq : ℕ) (l r : Node) (c : ℕ)
    → code_of (internal freq l r) c
      ≡ or_else (code_of l c >>= λ y. some (false ∷ y)) (code_of r c >>= λ y. some (true ∷ y))
unfolding code_of
code_of-internal freq l r c = ground arith

pub or_else_assoc {ℓ} :
    {A : Type ℓ} (a b c : Option A) → or_else (or_else a b) c ≡ or_else a (or_else b c)
or_else_assoc none b c = refl
or_else_assoc (some x) b c = refl
