-- ===== src/DataCompression/Shipped.antt =====
-- src/lib/bms/DataCompression.cpp with the code of src/config/huffcode.map.
mod Table
use bitcoin_messaging.Base.{
  ℕ, suc, zero, Bool, true, false, List, [], ◌∷◌, ◌++◌, ◌≡◌, ◌≢◌, refl, sym, ap, ◌∙◌, arith, ◌||◌,
  ◌&&◌, not, ◌==◌, ◌<◌, ◌≤◌, Option, none, some, All, Bool-cases, inl, inr,
}
use mathlib.Core.Path.{subst}
use mathlib.Core.Bool.{xor}
use bitcoin_messaging.Base.{holds_below, holds_below_lem}
use bitcoin_messaging.Types.{DataBits, Data}
use bitcoin_messaging.DataCompression.{
  eof, is_char_invalid, transform_char_domain, HuffCodeMap, left_at, is_some, generate_codes,
  compress, decompress,
}
use bitcoin_messaging.DataCompression.Ways.{HasDistinct}
use bitcoin_messaging.DataCompression.Tree.{generate_codes-IsCodebook}
use bitcoin_messaging.DataCompression.Codebook.{IsCodebook, IsEncodable, decompress-compress}
use bitcoin_messaging.DataCompression.Distinct.{HasDistinct-of_no_repeat, no_repeat, chars}
pub use Table.*

-- The table of the file is the one that `GenerateCodes` fills from the tree.
pub shipped_codes-generated : generate_codes shipped_tree [] [] ≡ shipped_codes
unfolding generate_codes
shipped_codes-generated = refl

pub shipped_tree-HasDistinct : HasDistinct shipped_tree
unfolding no_repeat chars
shipped_tree-HasDistinct = HasDistinct-of_no_repeat shipped_tree refl

pub shipped_codes-IsCodebook : IsCodebook shipped_codes
shipped_codes-IsCodebook =
    subst IsCodebook shipped_codes-generated
      (generate_codes-IsCodebook 0 _ _ shipped_tree-HasDistinct)

-- Exactly the characters that survive the transformation, and the end mark, have a code word.
abbrev agrees : ℕ → Bool
agrees c = xor (is_char_invalid c) (is_some (left_at c shipped_codes)) || c == eof

agrees_table : holds_below agrees 128 ≡ true
unfolding holds_below is_char_invalid left_at xor
agrees_table = refl

valid-lt : (c : ℕ) → is_char_invalid c ≡ false → c < 128
unfolding is_char_invalid
valid-lt c h = ground arith

valid-ne-eof : (c : ℕ) → is_char_invalid c ≡ false → c ≢ eof
unfolding is_char_invalid
valid-ne-eof c h e = ground arith

some_value {ℓ} : {A : Type ℓ} (o : Option A) → is_some o ≡ true → (a : A) × (o ≡ some a)
some_value none h = cc
some_value (some a) h = (a, refl)

pub valid-IsEncodable : (c : ℕ) → is_char_invalid c ≡ false → IsEncodable shipped_codes c
unfolding xor
valid-IsEncodable c h =
    let agreed = holds_below_lem agrees 128 c (valid-lt c h) agrees_table in
    let ne = valid-ne-eof c h in
    let (x, e) = some_value (left_at c shipped_codes) (ground (arith, agreed, ne)) in (x, e, ne)

-- Only characters of the domain are left.
pub transform_char_domain-valid :
    (text : Data) → All (λ c. is_char_invalid c ≡ false) (transform_char_domain text)
unfolding transform_char_domain
transform_char_domain-valid [] = tt
transform_char_domain-valid (c ∷ text) = elim (Bool-cases (is_char_invalid c)) [
  | inl e ↦ rw e (transform_char_domain-valid text)
  | inr e ↦ rw e (e, transform_char_domain-valid text)
]

-- A text of the domain is left as it is.
pub transform_char_domain_id :
    (text : Data) → All (λ c. is_char_invalid c ≡ false) text → transform_char_domain text ≡ text
unfolding transform_char_domain
transform_char_domain_id [] h = refl
transform_char_domain_id (c ∷ text) (e, h) =
    rw e (ap (λ l. c ∷ l) (transform_char_domain_id text h))

All-IsEncodable :
    (text : Data) → All (λ c. is_char_invalid c ≡ false) text → All (IsEncodable shipped_codes) text
All-IsEncodable [] h = tt
All-IsEncodable (c ∷ text) (e, h) = (valid-IsEncodable c e, All-IsEncodable text h)

abbrev pub eof_word : DataBits
eof_word =
    false ∷ false ∷ false ∷ true ∷ true ∷ true ∷ false ∷ false ∷ true ∷ true ∷ false ∷ true ∷ false
    ∷ []

pub eof_found : left_at eof shipped_codes ≡ some eof_word
unfolding left_at
eof_found = refl

-- Whatever the text, what the transformation leaves of it is compressed with the shipped code, and is
-- decompressed again, whatever padding follows the bits.
pub decompress-compress_shipped :
    (text : Data)
    → (bits : DataBits) × (compress (transform_char_domain text) shipped_codes ≡ some bits)
      × ((padding : DataBits)
          → decompress (bits ++ padding) shipped_codes ≡ transform_char_domain text)
decompress-compress_shipped text =
    decompress-compress shipped_codes-IsCodebook (transform_char_domain text) eof_word
      (All-IsEncodable (transform_char_domain text) (transform_char_domain-valid text)) eof_found

-- A text of characters of the domain is read back unchanged.
pub decompress-compress_exact :
    (text : Data)
    → All (λ c. is_char_invalid c ≡ false) text
    → (bits : DataBits) × (compress text shipped_codes ≡ some bits)
      × ((padding : DataBits) → decompress (bits ++ padding) shipped_codes ≡ text)
decompress-compress_exact text h =
    subst
      (λ (t : Data).
        (bits : DataBits) × (compress t shipped_codes ≡ some bits)
        × ((padding : DataBits) → decompress (bits ++ padding) shipped_codes ≡ t))
      (transform_char_domain_id text h) (decompress-compress_shipped text)
