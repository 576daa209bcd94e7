-- ===== src/Types.antt =====
-- src/lib/bms/Types.cpp: bit vectors, bytes and integers.
--
-- `Data` is a list of bytes, `DataBits` a list of Booleans, `BigInt` (a signed integer of any size) a
-- number wherever the source's value cannot be negative. A `char` is the byte of its bit pattern.
pub mod Digits
pub mod Bytes
pub mod Integers
use bitcoin_messaging.Base.{
  ℕ, zero, suc, ◌+◌, ◌-◌, ◌*◌, ◌/◌, ◌%◌, ◌^◌, ◌<◌, Bool, true, false, List, [], ◌∷◌, ◌++◌, Option,
  none, some, arith, length, take, drop, replicate, leb, ltb, ◌==◌, if◌then◌else◌, ◌>>=◌, ◌>>◌,
  assert,
}
use bitcoin_messaging.Base.{lt_wf}
use mathlib.Core.Logic.{dite}
use mathlib.Core.WellFounded.{Acc}
use native.Mathlib.Decide.{dec_lt}

abbrev pub DataBits : Type 0
DataBits = List Bool

abbrev pub Data : Type 0
Data = List ℕ

abbrev pub IsByte : ℕ → Type 0
IsByte b = b < 256

abbrev pub of_bit : Bool → ℕ
of_bit false = 0
of_bit true = 1

-- `x & 0x01`, as a truth value.
unfoldable pub low_bit : ℕ → Bool
low_bit x = x % 2 == 1

-- The vector is changed in place in the source: here the new vector is returned.
unfoldable pub pad_bits : DataBits → ℕ → DataBits
pad_bits bits n_bits = bits ++ replicate n_bits false

-- The slice, then what is left of the vector. A slice longer than the vector is out of range.
unfoldable pub slice_bits : DataBits → ℕ → Option (DataBits × DataBits)
slice_bits bits n_bits =
    if leb n_bits (length bits) then some (take n_bits bits, drop n_bits bits) else none

-- `c += Vec[i] << (7 - i)` for the bits from the `i`th on, with `left` = 8 - i rounds left.
char_loop : ℕ → ℕ → DataBits → ℕ
char_loop zero c bits = c
char_loop (suc left) c [] = c
char_loop (suc left) c (b ∷ bits) = char_loop left ((c + of_bit b * 2 ^ left) % 2 ^ 8) bits

unfoldable pub bool_vec_to_char : DataBits → Option ℕ
unfolding char_loop
bool_vec_to_char vec = do assert (length vec == 8); some (char_loop 8 0 vec)

-- `vec.push_back((ch >> (7 - i)) & 0x01)`. Of a negative `char` only the low eight bits are read.
bool_vec_loop : ℕ → ℕ → DataBits → DataBits
bool_vec_loop zero ch vec = vec
bool_vec_loop (suc left) ch vec = bool_vec_loop left ch (vec ++ (low_bit (ch / 2 ^ left) ∷ []))

unfoldable pub char_to_bool_vec : ℕ → DataBits
unfolding bool_vec_loop
char_to_bool_vec ch = bool_vec_loop 8 ch []

data_to_bits_loop : Data → DataBits → DataBits
data_to_bits_loop [] vec = vec
data_to_bits_loop (b ∷ bytes) vec = data_to_bits_loop bytes (vec ++ char_to_bool_vec b)

unfoldable pub data_to_bits : Data → DataBits
unfolding data_to_bits_loop
data_to_bits bytes = data_to_bits_loop bytes []

-- One round takes the next eight bits; `left` counts the rounds of `i += 8`, where `i` has 32 bits: on a
-- vector of 2^32 bits or more it never comes to the end.
bits_to_data_loop : ℕ → DataBits → Data → Option Data
bits_to_data_loop zero bits buf = some buf
bits_to_data_loop (suc left) bits buf = bool_vec_to_char (take 8 bits) >>= λ byte.
    bits_to_data_loop left (drop 8 bits) (buf ++ (byte ∷ []))

unfoldable pub bits_to_data : DataBits → Option Data
unfolding bits_to_data_loop
bits_to_data bits = do
  assert (length bits % 8 == 0)
  assert (ltb (length bits) (2 ^ 32))
  bits_to_data_loop (length bits / 8) bits []

-- The loop over all bits but the last, then the last one; the test before it leaves no empty vector.
data_bits_to_int_loop : ℕ → DataBits → Option ℕ
data_bits_to_int_loop num [] = none
data_bits_to_int_loop num (b ∷ []) = some (num + of_bit b)
data_bits_to_int_loop num (b ∷ c ∷ bits) = data_bits_to_int_loop ((num + of_bit b) * 2) (c ∷ bits)

-- `i` has 32 bits, `size() - 1` has 64 and wraps on an empty vector: what a counter of 32 bits does not
-- come to is a loop without end or, before that, a read behind the vector.
unfoldable pub data_bits_to_int : DataBits → Option ℕ
unfolding data_bits_to_int_loop
data_bits_to_int bits = do
  assert (ltb ((length bits + (2 ^ 64 - 1)) % 2 ^ 64) (2 ^ 32))
  data_bits_to_int_loop 0 bits

pub half-lt : (num : ℕ) → 0 < num → num / 2 < num
half-lt num h = omega arith

-- `while (num != 0)`: the quotient by 2 falls.
int_to_data_bits_loop : (num : ℕ) → Acc ◌<◌ num → DataBits → DataBits
int_to_data_bits_loop num (Acc.intro _ smaller) bits =
    dite (dec_lt 0 num)
      (λ more. int_to_data_bits_loop (num / 2) (smaller _ (half-lt num more)) (low_bit num ∷ bits))
      (λ _. bits)

unfoldable pub int_to_data_bits : ℕ → DataBits
unfolding int_to_data_bits_loop lt_wf dec_lt
int_to_data_bits num = int_to_data_bits_loop num (lt_wf.apply num) []
