-- ===== src/DataCompression/Frequencies.antt =====
-- `ComputeFrequencies`, and the characters of a map of frequencies and of a tree.
use mathlib.Core.Logic.{∥∥₁_elim}
use mathlib.Core.List.{Perm, Permᴰ}
use bitcoin_messaging.Base.{
  ℕ, ◌+◌, ◌%◌, ◌^◌, ◌≤◌, ◌<◌, ◌≡◌, refl, sym, ap, ap₂, ◌∙◌, Bool, true, false, List, [], ◌∷◌, ◌++◌,
  some, length, ltb, lt→ltb, arith, ◌==◌, ◌&&◌, ◌||◌, not, Bool-cases, inl, inr, All, if◌then◌else◌,
}
use bitcoin_messaging.Types.{Data, IsByte}
use bitcoin_messaging.DataCompression.{
  FreqMap, char_ltb, count_char, frequencies_loop, compute_frequencies, Node, leaf, internal,
}
use bitcoin_messaging.DataCompression.Distinct.{chars, member, no_repeat}
use bitcoin_messaging.DataCompression.Building.{leaves, total}

-- What the map is after a character, and after a text, if no count overflows.
unfoldable pub counted : ℕ → FreqMap → FreqMap
counted c [] = (c, 1) ∷ []
counted c ((d, n) ∷ fs) =
    if d == c
    then (d, n + 1) ∷ fs
    else (if char_ltb c d then (c, 1) ∷ (d, n) ∷ fs else (d, n) ∷ counted c fs)

pub counted_all : Data → FreqMap → FreqMap
counted_all [] fs = fs
counted_all (c ∷ text) fs = counted_all text (counted c fs)

total-counted : (c : ℕ) (fs : FreqMap) → total (counted c fs) ≡ total fs + 1
unfolding counted
total-counted c [] = refl
total-counted c ((d, n) ∷ fs) = ground (arith, total-counted c fs)

count_char-counted :
    (c : ℕ) (fs : FreqMap) → total fs + 1 < 2 ^ 31 → count_char c fs ≡ some (counted c fs)
unfolding count_char counted
count_char-counted c [] h = refl
count_char-counted c ((d, n) ∷ fs) h =
    let room : ltb (n + 1) (2 ^ 31) ≡ true = lt→ltb _ _ (omega arith) in
    rw (room, count_char-counted c fs (omega arith)) (ground arith)

frequencies_loop-counted_all :
    (text : Data) (fs : FreqMap)
    → total fs + length text < 2 ^ 31
    → (frequencies_loop text fs ≡ some (counted_all text fs))
      × (total (counted_all text fs) ≡ total fs + length text)
unfolding frequencies_loop counted_all
frequencies_loop-counted_all [] fs h = (refl, omega arith)
frequencies_loop-counted_all (c ∷ text) fs h =
    let grown = total-counted c fs in
    let (e, size) = frequencies_loop-counted_all text (counted c fs) (omega arith) in
    (rw (count_char-counted c fs (omega arith)) e, omega (arith, size))

pub compute_frequencies-counted_all :
    (text : Data)
    → length text < 2 ^ 31
    → (compute_frequencies text ≡ some (counted_all text []))
      × (total (counted_all text []) ≡ length text)
unfolding compute_frequencies
compute_frequencies-counted_all text h =
    let (e, size) = frequencies_loop-counted_all text [] (omega arith) in (e, omega (arith, size))

-- The count of a character in the map; a missing key counts 0.
unfoldable pub count_of : ℕ → FreqMap → ℕ
count_of c [] = 0
count_of c ((d, n) ∷ fs) = if d == c then n else count_of c fs

-- How often a character stands in a text.
unfoldable pub occurrences : ℕ → Data → ℕ
occurrences c [] = 0
occurrences c (d ∷ text) = (if d == c then 1 else 0) + occurrences c text

-- The place of a character in the order of a signed `char`.
abbrev pub signed_key : ℕ → ℕ
signed_key c = (c + 128) % 256

-- The keys are bytes and ascend.
abbrev pub IsOrdered : ℕ → FreqMap → Type 0
IsOrdered lo [] = Unit {0}
IsOrdered lo ((c, n) ∷ fs) = IsByte c × (lo ≤ signed_key c) × IsOrdered (signed_key c + 1) fs

unfoldable pub keys : FreqMap → List ℕ
keys [] = []
keys ((c, n) ∷ fs) = c ∷ keys fs

counted-IsOrdered :
    (lo c : ℕ) (fs : FreqMap)
    → IsByte c
    → lo ≤ signed_key c
    → IsOrdered lo fs
    → IsOrdered lo (counted c fs)
unfolding counted
counted-IsOrdered lo c [] b h o = (b, h, tt)
counted-IsOrdered lo c ((d, n) ∷ fs) b h (db, dh, o) =
    ground (arith, counted-IsOrdered (signed_key d + 1) c fs b)

count_of-below : (lo c : ℕ) (fs : FreqMap) → signed_key c < lo → IsOrdered lo fs → count_of c fs ≡ 0
unfolding count_of
count_of-below lo c [] h o = refl
count_of-below lo c ((d, n) ∷ fs) h (db, dh, o) =
    ground (arith, count_of-below (signed_key d + 1) c fs)

-- Counting one character adds 1 to its count, and changes no other.
count_of-counted :
    (lo c e : ℕ) (fs : FreqMap)
    → IsByte c
    → IsOrdered lo fs
    → count_of e (counted c fs) ≡ count_of e fs + (if c == e then 1 else 0)
unfolding count_of counted
count_of-counted lo c e [] b o = ground arith
count_of-counted lo c e ((d, n) ∷ fs) b (db, dh, o) =
    ground (
      arith,
      count_of-counted (signed_key d + 1) c e fs b o,
      count_of-below (signed_key d + 1) e fs,
    )

counted_all-IsOrdered :
    (text : Data) (fs : FreqMap)
    → All IsByte text
    → IsOrdered 0 fs
    → IsOrdered 0 (counted_all text fs)
unfolding counted_all
counted_all-IsOrdered [] fs b o = o
counted_all-IsOrdered (c ∷ text) fs (cb, b) o =
    counted_all-IsOrdered text (counted c fs) b (counted-IsOrdered 0 c fs cb (omega arith) o)

count_of-counted_all :
    (e : ℕ) (text : Data) (fs : FreqMap)
    → All IsByte text
    → IsOrdered 0 fs
    → count_of e (counted_all text fs) ≡ count_of e fs + occurrences e text
unfolding counted_all occurrences
count_of-counted_all e [] fs b o = omega arith
count_of-counted_all e (c ∷ text) fs (cb, b) o =
    count_of-counted_all e text (counted c fs) b (counted-IsOrdered 0 c fs cb (omega arith) o)
    ∙ rw (count_of-counted 0 c e fs cb o) (omega arith)

-- For a text of bytes the map holds for every character how often it stands in the text, its keys
-- bytes in the order of a signed `char`.
pub counted_all-occurrences :
    (text : Data)
    → All IsByte text
    → IsOrdered 0 (counted_all text [])
      × ((c : ℕ) → count_of c (counted_all text []) ≡ occurrences c text)
unfolding counted_all count_of
counted_all-occurrences text b =
    (counted_all-IsOrdered text [] b tt, λ c. count_of-counted_all c text [] b tt ∙ omega arith)

member-below :
    (lo c : ℕ) (fs : FreqMap) → signed_key c < lo → IsOrdered lo fs → member c (keys fs) ≡ false
unfolding member keys
member-below lo c [] h o = refl
member-below lo c ((d, n) ∷ fs) h (db, dh, o) = ground (arith, member-below (signed_key d + 1) c fs)

pub keys-no_repeat : (lo : ℕ) (fs : FreqMap) → IsOrdered lo fs → no_repeat (keys fs) ≡ true
unfolding no_repeat keys
keys-no_repeat lo [] o = refl
keys-no_repeat lo ((d, n) ∷ fs) (db, dh, o) = ground (
  arith,
  keys-no_repeat (signed_key d + 1) fs o,
  member-below (signed_key d + 1) d fs (omega arith) o,
)

count_of-none : (c : ℕ) (fs : FreqMap) → member c (keys fs) ≡ false → count_of c fs ≡ 0
unfolding member keys count_of
count_of-none c [] h = refl
count_of-none c ((d, n) ∷ fs) h = ground (arith, count_of-none c fs)

-- A character of the text is a key.
pub member-keys :
    (text : Data) (c : ℕ)
    → All IsByte text
    → 0 < occurrences c text
    → member c (keys (counted_all text [])) ≡ true
member-keys text c b h = elim (Bool-cases (member c (keys (counted_all text [])))) [
  | inl e ↦ e
  | inr e ↦
      absurd (
        omega
          (arith, count_of-none c (counted_all text []) e, (counted_all-occurrences text b).1 c))
]

keys-append : (xs ys : FreqMap) → keys (xs ++ ys) ≡ keys xs ++ keys ys
unfolding keys
keys-append [] ys = refl
keys-append ((c, n) ∷ xs) ys = ap (λ l. c ∷ l) (keys-append xs ys)

pub chars-keys : (t : Node) → chars t ≡ keys (leaves t)
unfolding chars keys
chars-keys (leaf c n) = refl
chars-keys (internal freq l r) =
    ap₂ ◌++◌ (chars-keys l) (chars-keys r) ∙ sym (keys-append (leaves l) (leaves r))

member-permᴰ : (c : ℕ) {xs ys : FreqMap} → Permᴰ xs ys → member c (keys xs) ≡ member c (keys ys)
unfolding member keys
member-permᴰ c Permᴰ.nil = refl
member-permᴰ c (Permᴰ.cons e p) = ap₂ (λ (a : ℕ × ℕ) m. a.0 == c || m) e (member-permᴰ c p)
member-permᴰ c (Permᴰ.swap e f) =
    ground (arith, ap (λ (a : ℕ × ℕ). a.0) e, ap (λ (a : ℕ × ℕ). a.0) f)
member-permᴰ c (Permᴰ.trans p q) = member-permᴰ c p ∙ member-permᴰ c q

no_repeat-permᴰ : {xs ys : FreqMap} → Permᴰ xs ys → no_repeat (keys xs) ≡ no_repeat (keys ys)
unfolding member no_repeat keys
no_repeat-permᴰ Permᴰ.nil = refl
no_repeat-permᴰ (Permᴰ.cons {a} {b} {l₁} {l₂} e p) =
    ap₂ (λ (x : Bool) (y : Bool). not x && y)
      (member-permᴰ a.0 p ∙ ap (λ (t : ℕ × ℕ). member t.0 (keys l₂)) e) (no_repeat-permᴰ p)
no_repeat-permᴰ (Permᴰ.swap {a} {b} {l} e f) = ground (
  arith,
  ap (λ (t : ℕ × ℕ). t.0) e,
  ap (λ (t : ℕ × ℕ). t.0) f,
  ap (λ (t : ℕ × ℕ). member t.0 (keys l)) e,
  ap (λ (t : ℕ × ℕ). member t.0 (keys l)) f,
)
no_repeat-permᴰ (Permᴰ.trans p q) = no_repeat-permᴰ p ∙ no_repeat-permᴰ q

Bool-set : IsSet Bool
Bool-set = hlevel

pub member-perm : (c : ℕ) {xs ys : FreqMap} → Perm xs ys → member c (keys xs) ≡ member c (keys ys)
member-perm c p = ∥∥₁_elim p (Bool-set _ _) (member-permᴰ c)

pub no_repeat-perm : {xs ys : FreqMap} → Perm xs ys → no_repeat (keys xs) ≡ no_repeat (keys ys)
no_repeat-perm p = ∥∥₁_elim p (Bool-set _ _) no_repeat-permᴰ
