-- ===== src/Types/Bytes.antt =====
-- Bytes as bit vectors and back.
use native.Mathlib.Nat.{mod-eq_of_lt}
use bitcoin_messaging.Base.{
  ℕ, zero, suc, ◌+◌, ◌*◌, ◌/◌, ◌%◌, ◌^◌, ◌<◌, ◌≡◌, refl, sym, ap, ap₂, ◌∙◌, [], ◌∷◌, ◌++◌, some,
  arith, length, take, drop, ◌==◌, ltb, All, append_assoc, append-nil, length-append,
  take-append-drop, length-take, length-drop, ==_iff, assert->>, lt→ltb,
}
use bitcoin_messaging.Types.{
  DataBits, Data, IsByte, of_bit, low_bit, char_loop, bool_vec_to_char, bool_vec_loop,
  char_to_bool_vec, data_to_bits_loop, data_to_bits, bits_to_data_loop, bits_to_data,
}
use bitcoin_messaging.Types.Digits.{
  to_nat, digits, length-digits, to_nat-lt, digits-to_nat_of_length, to_nat-digits_of_lt,
}

char_loop-to_nat :
    (bits : DataBits) (c : ℕ)
    → c + to_nat bits < 256
    → char_loop (length bits) c bits ≡ c + to_nat bits
unfolding char_loop
char_loop-to_nat [] c h = omega arith
char_loop-to_nat (b ∷ bits) c h =
    ap (λ (t : ℕ). char_loop (length bits) t bits)
      (mod-eq_of_lt {n = c + of_bit b * 2 ^ length bits} {m = 256} (omega arith))
    ∙ char_loop-to_nat bits (c + of_bit b * 2 ^ length bits) (omega arith)
    ∙ omega arith

-- Eight bits make the byte that they stand for.
pub bool_vec_to_char-to_nat :
    (bits : DataBits) → length bits ≡ 8 → bool_vec_to_char bits ≡ some (to_nat bits)
unfolding bool_vec_to_char
bool_vec_to_char-to_nat bits h =
    assert->> (length bits == 8) (some (char_loop 8 0 bits)) ((==_iff _ _).1 h)
    ∙ ap (λ (n : ℕ). some (char_loop n 0 bits)) (sym h)
    ∙ ap some (char_loop-to_nat bits 0 small ∙ omega arith)
  where
    small : 0 + to_nat bits < 256
    small = omega (arith, to_nat-lt bits, ap (λ (n : ℕ). 2 ^ n) h)

bool_vec_loop-digits : (w ch : ℕ) (vec : DataBits) → bool_vec_loop w ch vec ≡ vec ++ digits w ch
unfolding bool_vec_loop
bool_vec_loop-digits zero ch vec = sym (append-nil vec)
bool_vec_loop-digits (suc w) ch vec =
    bool_vec_loop-digits w ch (vec ++ (low_bit (ch / 2 ^ w) ∷ []))
    ∙ append_assoc vec (low_bit (ch / 2 ^ w) ∷ []) (digits w ch)

pub char_to_bool_vec-digits : (ch : ℕ) → char_to_bool_vec ch ≡ digits 8 ch
unfolding char_to_bool_vec
char_to_bool_vec-digits ch = bool_vec_loop-digits 8 ch []

-- The bytes, one after the other.
abbrev pub spread : Data → DataBits
spread [] = []
spread (b ∷ bytes) = digits 8 b ++ spread bytes

data_to_bits_loop-spread :
    (bytes : Data) (vec : DataBits) → data_to_bits_loop bytes vec ≡ vec ++ spread bytes
unfolding data_to_bits_loop
data_to_bits_loop-spread [] vec = sym (append-nil vec)
data_to_bits_loop-spread (b ∷ bytes) vec =
    data_to_bits_loop-spread bytes (vec ++ char_to_bool_vec b)
    ∙ rw (char_to_bool_vec-digits b) (append_assoc vec (digits 8 b) (spread bytes))

pub data_to_bits-spread : (bytes : Data) → data_to_bits bytes ≡ spread bytes
unfolding data_to_bits
data_to_bits-spread bytes = data_to_bits_loop-spread bytes []

pub length-spread : (bytes : Data) → length (spread bytes) ≡ 8 * length bytes
length-spread [] = refl
length-spread (b ∷ bytes) =
    omega (arith, length-append (digits 8 b) (spread bytes), length-digits 8 b, length-spread bytes)

-- The bytes that a vector of whole bytes makes.
abbrev pub gather : ℕ → DataBits → Data
gather zero bits = []
gather (suc n) bits = to_nat (take 8 bits) ∷ gather n (drop 8 bits)

bits_to_data_loop-gather :
    (n : ℕ) (bits : DataBits) (buf : Data)
    → length bits ≡ n * 8
    → bits_to_data_loop n bits buf ≡ some (buf ++ gather n bits)
unfolding bits_to_data_loop
bits_to_data_loop-gather zero bits buf h = ap some (sym (append-nil buf))
bits_to_data_loop-gather (suc n) bits buf h =
    rw (bool_vec_to_char-to_nat (take 8 bits) (length-take 8 bits (omega arith))) (
      bits_to_data_loop-gather n (drop 8 bits) (buf ++ (to_nat (take 8 bits) ∷ []))
        (omega (arith, length-drop 8 bits))
      ∙ ap some (append_assoc buf (to_nat (take 8 bits) ∷ []) (gather n (drop 8 bits))))

pub bits_to_data-gather :
    (n : ℕ) (bits : DataBits)
    → length bits ≡ n * 8
    → n < 2 ^ 29
    → bits_to_data bits ≡ some (gather n bits)
unfolding bits_to_data
bits_to_data-gather n bits h small =
    assert->> (length bits % 8 == 0) _ ((==_iff _ _).1 (omega arith))
    ∙ assert->> (ltb (length bits) (2 ^ 32)) _ (lt→ltb _ _ (omega arith))
    ∙ ap (λ (k : ℕ). bits_to_data_loop k bits []) (omega arith)
    ∙ bits_to_data_loop-gather n bits [] h

pub spread-gather : (n : ℕ) (bits : DataBits) → length bits ≡ n * 8 → spread (gather n bits) ≡ bits
spread-gather zero [] h = refl
spread-gather zero (b ∷ bits) h = absurd (omega arith)
spread-gather (suc n) bits h =
    ap₂ ◌++◌ (digits-to_nat_of_length 8 (take 8 bits) (length-take 8 bits (omega arith)))
      (spread-gather n (drop 8 bits) (omega (arith, length-drop 8 bits)))
    ∙ take-append-drop 8 bits

pub gather-spread : (bytes : Data) → All IsByte bytes → gather (length bytes) (spread bytes) ≡ bytes
gather-spread [] h = refl
gather-spread (b ∷ bytes) h = ap₂ ◌∷◌ (to_nat-digits_of_lt 8 b h.0) (gather-spread bytes h.1)

pub gather-IsByte : (n : ℕ) (bits : DataBits) → length bits ≡ n * 8 → All IsByte (gather n bits)
gather-IsByte zero bits h = tt
gather-IsByte (suc n) bits h = (
  omega (arith, to_nat-lt (take 8 bits), ap (λ (n : ℕ). 2 ^ n) (length-take 8 bits (omega arith))),
  gather-IsByte n (drop 8 bits) (omega (arith, length-drop 8 bits)),
)

pub length-gather : (n : ℕ) (bits : DataBits) → length (gather n bits) ≡ n
length-gather zero bits = refl
length-gather (suc n) bits = ap suc (length-gather n (drop 8 bits))

-- Writing less than 2^29 bytes out as bits and packing the bits again gives the bytes back.
pub bits_to_data-data_to_bits :
    (bytes : Data)
    → All IsByte bytes
    → length bytes < 2 ^ 29
    → bits_to_data (data_to_bits bytes) ≡ some bytes
bits_to_data-data_to_bits bytes h small =
    ap bits_to_data (data_to_bits-spread bytes)
    ∙ bits_to_data-gather (length bytes) (spread bytes) (omega (arith, length-spread bytes)) small
    ∙ ap some (gather-spread bytes h)

-- A bit vector of n < 2^29 whole bytes packs into n bytes, and these written out are the vector again.
pub data_to_bits-bits_to_data :
    (n : ℕ) (bits : DataBits)
    → length bits ≡ n * 8
    → n < 2 ^ 29
    → (bytes : Data) × (bits_to_data bits ≡ some bytes)
      × (length bytes ≡ n)
      × All IsByte bytes
      × (data_to_bits bytes ≡ bits)
data_to_bits-bits_to_data n bits h small = (
  gather n bits,
  bits_to_data-gather n bits h small,
  length-gather n bits,
  gather-IsByte n bits h,
  data_to_bits-spread (gather n bits) ∙ spread-gather n bits h,
)
