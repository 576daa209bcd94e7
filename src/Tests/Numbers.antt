-- ===== src/Tests/Numbers.antt =====
-- Types and Maths at concrete inputs.
use mathlib.Core.List.{Perm}
use mathlib.Core.List.Perm
use bitcoin_messaging.Base.{
  ℕ, ◌-◌, ◌^◌, ◌≤◌, ◌<◌, ◌≡◌, true, false, List, [], ◌∷◌, ◌++◌, some, arith, length, replicate,
}
use bitcoin_messaging.Types.{
  Data, DataBits, data_to_bits, bits_to_data, data_bits_to_int, int_to_data_bits,
}
use bitcoin_messaging.Types.Bytes.{bits_to_data-data_to_bits}
use bitcoin_messaging.Types.Integers.{int_to_data_bits-data_bits_to_int}
use bitcoin_messaging.Maths.{
  number_compositions, iota, permutation_to_integer, integer_to_permutation, composition_to_integer,
  integer_to_composition,
}
use bitcoin_messaging.Maths.Choose.{fact}
use bitcoin_messaging.Maths.Permutations.{
  permutation_to_integer-integer_to_permutation, integer_to_permutation-permutation_to_integer,
}
use bitcoin_messaging.Maths.Compositions.{sum, composition_to_integer-integer_to_composition}
use bitcoin_messaging.Tests.Models.{ceil_root, ceil_root-le}

abbrev two_bytes : Data
two_bytes = 0x48 ∷ 0xFF ∷ []

bits_to_data-data_to_bits_example : bits_to_data (data_to_bits two_bytes) ≡ some two_bytes
bits_to_data-data_to_bits_example = bits_to_data-data_to_bits two_bytes (omega arith) (omega arith)

abbrev eight_bits : DataBits
eight_bits = false ∷ true ∷ false ∷ false ∷ true ∷ false ∷ true ∷ true ∷ []

int_to_data_bits-data_bits_to_int_example :
    (num : ℕ) × (data_bits_to_int eight_bits ≡ some num)
    × (num < 2 ^ length eight_bits)
    × (length (int_to_data_bits num) ≤ length eight_bits)
    × (replicate (length eight_bits - length (int_to_data_bits num)) false ++ int_to_data_bits num
        ≡ eight_bits)
int_to_data_bits-data_bits_to_int_example =
    int_to_data_bits-data_bits_to_int eight_bits (omega arith) (omega arith)

permutation_to_integer-integer_to_permutation_example :
    (perm : List ℕ) × (integer_to_permutation 11 4 ≡ some perm)
    × Perm perm (iota 4 0)
    × (permutation_to_integer perm ≡ some 11)
permutation_to_integer-integer_to_permutation_example =
    permutation_to_integer-integer_to_permutation 11 4 (omega arith) (omega arith)

abbrev order : List ℕ
order = 1 ∷ 0 ∷ 2 ∷ []

order-Perm : Perm order (iota 3 0)
unfolding iota
order-Perm = Perm.swap 0 1 (2 ∷ [])

integer_to_permutation-permutation_to_integer_example :
    (idx : ℕ) × (permutation_to_integer order ≡ some idx)
    × (idx < fact 3)
    × (integer_to_permutation idx 3 ≡ some order)
integer_to_permutation-permutation_to_integer_example =
    integer_to_permutation-permutation_to_integer order 3 (omega arith) order-Perm

small_index : 5 < number_compositions 4 3
unfolding number_compositions
small_index = omega arith

composition_to_integer-integer_to_composition_example :
    (parts : List ℕ) × (integer_to_composition ceil_root 5 4 3 ≡ some parts)
    × (length parts ≡ 3)
    × (sum parts ≡ 4)
    × (composition_to_integer parts ≡ some 5)
composition_to_integer-integer_to_composition_example =
    composition_to_integer-integer_to_composition ceil_root ceil_root-le 5 4 3 (omega arith)
      (omega arith) (omega arith) small_index
