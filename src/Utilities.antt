-- ===== src/Utilities.antt =====
-- src/lib/bms/Utilities.cpp: random bits and random digits. Whatever the random device and its generator yield is an
-- argument, the sequence of the values drawn.
pub mod Fees
pub mod Suffixes
pub mod Minimum
pub mod Bounds
pub mod Keypairs
pub mod State
use bitcoin_messaging.Base.{
  ℕ, zero, suc, ◌+◌, Bool, [], ◌∷◌, ◌++◌, ◌≡◌, ◌∙◌, length, length-append, arith, Option, some,
  get_elem?, ◌>>=◌,
}
use bitcoin_messaging.Types.{DataBits, Data}

-- `0123456789ABCDEF`
abbrev charset : Data
charset = 48 ∷ 49 ∷ 50 ∷ 51 ∷ 52 ∷ 53 ∷ 54 ∷ 55 ∷ 56 ∷ 57 ∷ 65 ∷ 66 ∷ 67 ∷ 68 ∷ 69 ∷ 70 ∷ []

-- `data.insert(data.end(), (bool)dist(gen))`, with `left` rounds to go; `coin i` is the `i`th draw.
random_bits_loop : (ℕ → Bool) → ℕ → ℕ → DataBits → DataBits
random_bits_loop coin zero i bits = bits
random_bits_loop coin (suc left) i bits = random_bits_loop coin left (i + 1) (bits ++ (coin i ∷ []))

unfoldable pub generate_random_bits : (ℕ → Bool) → ℕ → DataBits
unfolding random_bits_loop
generate_random_bits coin n_bits = random_bits_loop coin n_bits 0 []

-- `str += Charset[dist(gen)]`; `draw i` is the `i`th draw. Behind the charset the read is out of range.
random_hex_loop : (ℕ → ℕ) → ℕ → ℕ → Data → Option Data
random_hex_loop draw zero i str = some str
random_hex_loop draw (suc left) i str =
    get_elem? charset (draw i) >>= λ c. random_hex_loop draw left (i + 1) (str ++ (c ∷ []))

unfoldable pub generate_random_hex_string : (ℕ → ℕ) → ℕ → Option Data
unfolding random_hex_loop
generate_random_hex_string draw n_chars = random_hex_loop draw n_chars 0 []

length-random_bits_loop :
    (coin : ℕ → Bool) (left i : ℕ) (bits : DataBits)
    → length (random_bits_loop coin left i bits) ≡ length bits + left
unfolding random_bits_loop
length-random_bits_loop coin zero i bits = omega arith
length-random_bits_loop coin (suc left) i bits = omega (
  arith,
  length-random_bits_loop coin left (i + 1) (bits ++ (coin i ∷ [])),
  length-append bits (coin i ∷ []),
)

pub length-generate_random_bits :
    (coin : ℕ → Bool) (n_bits : ℕ) → length (generate_random_bits coin n_bits) ≡ n_bits
unfolding generate_random_bits
length-generate_random_bits coin n_bits = length-random_bits_loop coin n_bits 0 [] ∙ omega arith
