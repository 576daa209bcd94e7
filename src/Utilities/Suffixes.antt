-- ===== src/Utilities/Suffixes.antt =====
-- Bit vectors of one length: how many there are, and lists that hold them all.
use bitcoin_messaging.Base.{
  ℕ, zero, suc, ◌+◌, ◌^◌, ◌≤◌, ◌≡◌, refl, sym, ap, ◌∙◌, Bool, true, false, List, [], ◌∷◌, arith,
  length, All, if◌then◌else◌,
}
use bitcoin_messaging.Types.{DataBits}
use bitcoin_messaging.DataCompression.{bits_eq}

abbrev pub has : List DataBits → DataBits → Bool
has [] s = false
has (x ∷ l) s = if bits_eq x s then true else has l s

abbrev pub Distinct : List DataBits → Type 0
Distinct [] = Unit
Distinct (x ∷ l) = (has l x ≡ false) × Distinct l

abbrev pub IsSized : ℕ → List DataBits → Type 0
IsSized n l = All (λ (x : DataBits). length x ≡ n) l

pub bits_eq-same : (x : DataBits) → bits_eq x x ≡ true
unfolding bits_eq
bits_eq-same [] = refl
bits_eq-same (true ∷ x) = bits_eq-same x
bits_eq-same (false ∷ x) = bits_eq-same x

pub bits_eq→≡ : (x y : DataBits) → bits_eq x y ≡ true → x ≡ y
unfolding bits_eq
bits_eq→≡ [] [] h = refl
bits_eq→≡ [] (b ∷ y) h = ground (arith, h)
bits_eq→≡ (a ∷ x) [] h = ground (arith, h)
bits_eq→≡ (true ∷ x) (true ∷ y) h = ap (λ (l : DataBits). true ∷ l) (bits_eq→≡ x y h)
bits_eq→≡ (true ∷ x) (false ∷ y) h = ground (arith, h)
bits_eq→≡ (false ∷ x) (true ∷ y) h = ground (arith, h)
bits_eq→≡ (false ∷ x) (false ∷ y) h = ap (λ (l : DataBits). false ∷ l) (bits_eq→≡ x y h)

-- What stands behind this bit.
abbrev tails : Bool → List DataBits → List DataBits
tails b [] = []
tails b ([] ∷ l) = tails b l
tails true ((true ∷ x) ∷ l) = x ∷ tails true l
tails true ((false ∷ x) ∷ l) = tails true l
tails false ((true ∷ x) ∷ l) = tails false l
tails false ((false ∷ x) ∷ l) = x ∷ tails false l

tails-length :
    (n : ℕ) (l : List DataBits)
    → IsSized (suc n) l
    → length (tails true l) + length (tails false l) ≡ length l
tails-length n [] h = refl
tails-length n ([] ∷ l) (h, hs) = absurd (omega arith)
tails-length n ((true ∷ x) ∷ l) (h, hs) = omega (arith, tails-length n l hs)
tails-length n ((false ∷ x) ∷ l) (h, hs) = omega (arith, tails-length n l hs)

tails-IsSized : (b : Bool) (n : ℕ) (l : List DataBits) → IsSized (suc n) l → IsSized n (tails b l)
tails-IsSized true n [] h = tt
tails-IsSized true n ([] ∷ l) (h, hs) = absurd (omega arith)
tails-IsSized true n ((true ∷ x) ∷ l) (h, hs) = (omega arith, tails-IsSized true n l hs)
tails-IsSized true n ((false ∷ x) ∷ l) (h, hs) = tails-IsSized true n l hs
tails-IsSized false n [] h = tt
tails-IsSized false n ([] ∷ l) (h, hs) = absurd (omega arith)
tails-IsSized false n ((true ∷ x) ∷ l) (h, hs) = tails-IsSized false n l hs
tails-IsSized false n ((false ∷ x) ∷ l) (h, hs) = (omega arith, tails-IsSized false n l hs)

has-tails : (b : Bool) (t : DataBits) (l : List DataBits) → has (tails b l) t ≡ has l (b ∷ t)
unfolding bits_eq
has-tails true t [] = refl
has-tails true t ([] ∷ l) = has-tails true t l
has-tails true t ((true ∷ x) ∷ l) = rw (has-tails true t l)
has-tails true t ((false ∷ x) ∷ l) = has-tails true t l
has-tails false t [] = refl
has-tails false t ([] ∷ l) = has-tails false t l
has-tails false t ((true ∷ x) ∷ l) = has-tails false t l
has-tails false t ((false ∷ x) ∷ l) = rw (has-tails false t l)

tails-Distinct : (b : Bool) (l : List DataBits) → Distinct l → Distinct (tails b l)
tails-Distinct true [] h = tt
tails-Distinct true ([] ∷ l) (h, hs) = tails-Distinct true l hs
tails-Distinct true ((true ∷ x) ∷ l) (h, hs) = (has-tails true x l ∙ h, tails-Distinct true l hs)
tails-Distinct true ((false ∷ x) ∷ l) (h, hs) = tails-Distinct true l hs
tails-Distinct false [] h = tt
tails-Distinct false ([] ∷ l) (h, hs) = tails-Distinct false l hs
tails-Distinct false ((true ∷ x) ∷ l) (h, hs) = tails-Distinct false l hs
tails-Distinct false ((false ∷ x) ∷ l) (h, hs) =
    (has-tails false x l ∙ h, tails-Distinct false l hs)

-- There are 2 ^ n vectors of length n.
pub at_most : (n : ℕ) (l : List DataBits) → IsSized n l → Distinct l → length l ≤ 2 ^ n
at_most zero [] h d = omega arith
at_most zero (x ∷ []) h d = omega arith
at_most zero ([] ∷ [] ∷ l) h (d, ds) = absurd (unfold bits_eq in ground (arith, d))
at_most zero ([] ∷ (b ∷ y) ∷ l) (h, (h', hs)) d = absurd (omega arith)
at_most zero ((b ∷ x) ∷ y ∷ l) (h, hs) d = absurd (omega arith)
at_most (suc n) l h d = omega (
  arith,
  tails-length n l h,
  at_most n (tails true l) (tails-IsSized true n l h) (tails-Distinct true l d),
  at_most n (tails false l) (tails-IsSized false n l h) (tails-Distinct false l d),
)

-- So many different ones are all of them.
pub complete :
    (n : ℕ) (l : List DataBits)
    → IsSized n l
    → Distinct l
    → 2 ^ n ≤ length l
    → (s : DataBits) → length s ≡ n
    → has l s ≡ true
complete zero [] h d many s size = absurd (omega arith)
complete zero ([] ∷ l) h d many [] size = unfold bits_eq in refl
complete zero ((b ∷ x) ∷ l) (h, hs) d many [] size = absurd (omega arith)
complete zero l h d many (b ∷ s) size = absurd (omega arith)
complete (suc n) l h d many [] size = absurd (omega arith)
complete (suc n) l h d many (true ∷ s) size =
    sym (has-tails true s l)
    ∙ complete n (tails true l) (tails-IsSized true n l h) (tails-Distinct true l d)
        (omega (
          arith,
          tails-length n l h,
          at_most n (tails false l) (tails-IsSized false n l h) (tails-Distinct false l d),
        ))
        s (omega arith)
complete (suc n) l h d many (false ∷ s) size =
    sym (has-tails false s l)
    ∙ complete n (tails false l) (tails-IsSized false n l h) (tails-Distinct false l d)
        (omega (
          arith,
          tails-length n l h,
          at_most n (tails true l) (tails-IsSized true n l h) (tails-Distinct true l d),
        ))
        s (omega arith)

-- A list with all of them has so many.
pub at_least :
    (n : ℕ) (l : List DataBits)
    → IsSized n l
    → ((s : DataBits) → length s ≡ n → has l s ≡ true)
    → 2 ^ n ≤ length l
at_least zero [] h all = absurd (ground (arith, all [] refl))
at_least zero (x ∷ l) h all = omega arith
at_least (suc n) l h all = omega (
  arith,
  tails-length n l h,
  at_least n (tails true l) (tails-IsSized true n l h)
      (λ s size. has-tails true s l ∙ all (true ∷ s) (ap suc size)),
  at_least n (tails false l) (tails-IsSized false n l h)
      (λ s size. has-tails false s l ∙ all (false ∷ s) (ap suc size)),
)
