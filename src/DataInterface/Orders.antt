-- ===== src/DataInterface/Orders.antt =====
-- `EncodeDataInPermutation` and `DecodeDataInPermutation`: data in the order in which outputs are spent.
use mathlib.Core.List.{Perm}
use native.Mathlib.Nat.{le_trans}
use bitcoin_messaging.Base.{length-perm}
use bitcoin_messaging.Base.{
  ℕ, ◌^◌, ◌≤◌, ◌<◌, ◌≡◌, ap, ◌∙◌, List, some, arith, length, leb, ◌==◌, assert->>, le→leb, ==_iff,
}
use bitcoin_messaging.Types.{DataBits, int_to_data_bits}
use bitcoin_messaging.Types.Integers.{int_to_data_bits-data_bits_to_int}
use bitcoin_messaging.Maths.{u16, factorial, iota}
use bitcoin_messaging.Maths.Choose.{fact, fact-pos, fact-le-pow, exponent-le}
use bitcoin_messaging.Maths.Binomial.{factorial-fact}
use bitcoin_messaging.Maths.Smaller.{length-iota}
use bitcoin_messaging.Maths.Permutations.{permutation_to_integer-integer_to_permutation}
use bitcoin_messaging.DataInterface.{
  embeddable_bits_in_permutation, encode_data_in_permutation, decode_data_in_permutation,
}
use bitcoin_messaging.DataInterface.Amounts.{fill_front_lem}

module _ (floor_log2 : ℕ → ℕ) (floor_log2-le : (x : ℕ) → 0 < x → 2 ^ floor_log2 x ≤ x) where
  room :
      (n_parts : ℕ) (bits : DataBits)
      → length bits ≡ embeddable_bits_in_permutation floor_log2 n_parts
      → 2 ^ length bits ≤ fact n_parts
  unfolding embeddable_bits_in_permutation
  room n_parts bits size =
      rw (size, ← factorial-fact n_parts)
        (floor_log2-le (factorial n_parts) (rw (factorial-fact n_parts) (fact-pos n_parts)))

  few_bits :
      (n_parts : ℕ) (bits : DataBits)
      → n_parts < 2 ^ 16
      → length bits ≡ embeddable_bits_in_permutation floor_log2 n_parts
      → length bits ≤ 2 ^ 32
  few_bits n_parts bits k_small size = omega (
    arith,
    exponent-le (length bits) 16 n_parts (2 ^ 16)
        (le_trans (room n_parts bits size) (fact-le-pow n_parts (2 ^ 16) (omega arith)))
        (omega arith),
  )

  -- With a logarithm that is not above the true one and 2 to 2^16 - 1 parts: bits of the length
  -- that an order of the parts holds, at least one, become an order of 0, …, n_parts - 1, from
  -- which they are read back.
  pub decode-encode_data_in_permutation :
      (bits : DataBits) (n_parts : ℕ)
      → 2 ≤ n_parts
      → n_parts < 2 ^ 16
      → length bits ≡ embeddable_bits_in_permutation floor_log2 n_parts
      → 0 < length bits
      → (perm : List ℕ) × (encode_data_in_permutation floor_log2 bits n_parts ≡ some perm)
        × Perm perm (iota n_parts 0)
        × (decode_data_in_permutation floor_log2 perm ≡ some bits)
  unfolding encode_data_in_permutation decode_data_in_permutation
  decode-encode_data_in_permutation bits n_parts two k_small size some_bits =
      let max_bits = embeddable_bits_in_permutation floor_log2 n_parts in
      let (idx, read, idx_lt, fits, back) =
        int_to_data_bits-data_bits_to_int bits some_bits (few_bits n_parts bits k_small size) in
      let (perm, made, same, ranked) =
        permutation_to_integer-integer_to_permutation idx n_parts two
          (le_trans idx_lt (room n_parts bits size)) in
      let k_is : u16 (length perm) ≡ n_parts =
        omega (arith, length-perm same, length-iota n_parts 0) in
      (
        perm,
        assert->> (leb 2 n_parts) _ (le→leb 2 n_parts two)
            ∙ assert->> (length bits == max_bits) _ ((==_iff (length bits) max_bits).1 size)
            ∙ rw read made,
        same,
        rw k_is (
            assert->> (leb 2 n_parts) _ (le→leb 2 n_parts two)
            ∙ rw (ranked, ← size)
                (fill_front_lem (length bits) (int_to_data_bits idx) fits ∙ ap some back)),
      )
