-- ===== src/DataInterface/Amounts.antt =====
-- `EncodeDataInValues` and `DecodeDataInValues`: data in the amounts of outputs.
use native.Mathlib.Nat.{le_trans}
use bitcoin_messaging.Base.{
  ℕ, zero, suc, ◌+◌, ◌-◌, ◌*◌, ◌^◌, ◌≤◌, ◌<◌, ◌≡◌, ap, ◌∙◌, List, ◌++◌, some, arith, length,
  replicate, leb, ◌==◌, assert->>, le→leb, ==_iff, false,
}
use bitcoin_messaging.Types.{DataBits, int_to_data_bits}
use bitcoin_messaging.Types.Integers.{int_to_data_bits-data_bits_to_int}
use bitcoin_messaging.Maths.{u16, number_compositions}
use bitcoin_messaging.Maths.Choose.{choose, choose-pos, choose-le-pow, exponent-le}
use bitcoin_messaging.Maths.Binomial.{number_compositions-choose}
use bitcoin_messaging.Maths.Compositions.{
  sum, accumulate-sum, composition_to_integer-integer_to_composition,
}
use bitcoin_messaging.DataInterface.{
  embeddable_bits_in_values, encode_data_in_values, decode_data_in_values, fill_front,
}

-- A short number is filled up with leading zeros.
pub fill_front_lem :
    (w : ℕ) (bits : DataBits)
    → length bits ≤ w
    → fill_front w bits ≡ some (replicate (w - length bits) false ++ bits)
unfolding fill_front
fill_front_lem w bits h = assert->> (leb (length bits) w) _ (le→leb (length bits) w h)

pub number_compositions-pos :
    (n k : ℕ) → 0 < k → k < 2 ^ 16 → n < 2 ^ 62 → 0 < number_compositions n k
number_compositions-pos n zero pos small n_small = absurd (omega arith)
number_compositions-pos n (suc j) pos small n_small =
    omega (arith, number_compositions-choose n j (omega arith), choose-pos n j)

-- What stands in amounts of 2^62 and 2^16 of them is less than 2^32 bits.
few_bits :
    (floor_log2 : ℕ → ℕ)
    → ((x : ℕ) → 0 < x → 2 ^ floor_log2 x ≤ x)
    → (bits : DataBits) (budget n_parts : ℕ) → budget < 2 ^ 62
    → 2 ≤ n_parts
    → n_parts < 2 ^ 16
    → length bits ≡ embeddable_bits_in_values floor_log2 budget n_parts
    → length bits ≤ 2 ^ 32
unfolding embeddable_bits_in_values
few_bits floor_log2 floor_log2-le bits budget zero small two k_small size = absurd (omega arith)
few_bits floor_log2 floor_log2-le bits budget (suc j) small two k_small size =
    let room : 2 ^ embeddable_bits_in_values floor_log2 budget (suc j)
        ≤ number_compositions budget (suc j) =
      floor_log2-le (number_compositions budget (suc j))
        (number_compositions-pos budget (suc j) (omega arith) k_small small) in
    let counted : 2 ^ length bits ≤ choose (budget + j) j =
      rw (size, ← number_compositions-choose budget j (omega arith)) room in
    omega (
      arith,
      exponent-le (length bits) 63 j (budget + j) (le_trans counted (choose-le-pow budget j))
          (omega arith),
    )

module _ (floor_log2 : ℕ → ℕ) (floor_log2-le : (x : ℕ) → 0 < x → 2 ^ floor_log2 x ≤ x)
    (round_root : ℕ → ℕ → ℕ)
    (round_root-le : (a b j : ℕ) → 0 < j → a ≤ b ^ j → round_root a j ≤ 2 * b) where
  -- With a logarithm that is not above the true one and a rounded root that is at most twice the
  -- true one, a budget below 2^62 and 2 to 2^16 - 1 parts: bits of the length that the budget
  -- holds, at least one, become as many amounts as asked for, which sum up to the budget, and the
  -- bits are read back from the amounts.
  pub decode-encode_data_in_values :
      (bits : DataBits) (budget n_parts : ℕ)
      → budget < 2 ^ 62
      → 2 ≤ n_parts
      → n_parts < 2 ^ 16
      → length bits ≡ embeddable_bits_in_values floor_log2 budget n_parts
      → 0 < length bits
      → (values : List ℕ) × (encode_data_in_values floor_log2 round_root bits budget n_parts
          ≡ some values)
        × (length values ≡ n_parts)
        × (sum values ≡ budget)
        × (decode_data_in_values floor_log2 values ≡ some bits)
  unfolding encode_data_in_values decode_data_in_values
  decode-encode_data_in_values bits budget n_parts small two k_small size some_bits =
      let max_bits = embeddable_bits_in_values floor_log2 budget n_parts in
      let few : length bits ≤ 2 ^ 32 =
        few_bits floor_log2 floor_log2-le bits budget n_parts small two k_small size in
      let (idx, read, idx_lt, fits, back) = int_to_data_bits-data_bits_to_int bits some_bits few in
      let room : 2 ^ max_bits ≤ number_compositions budget n_parts =
        floor_log2-le (number_compositions budget n_parts)
          (number_compositions-pos budget n_parts (omega arith) k_small small) in
      let (values, made, count, total, ranked) =
        composition_to_integer-integer_to_composition round_root round_root-le idx budget n_parts
          (omega arith) k_small small (le_trans idx_lt (rw size room)) in
      let k_is : u16 (length values) ≡ n_parts = omega arith in
      (
        values,
        assert->> (length bits == max_bits) _ ((==_iff (length bits) max_bits).1 size)
            ∙ assert->> (leb 2 n_parts) _ (le→leb 2 n_parts two)
            ∙ rw read made,
        count,
        total,
        rw (k_is, accumulate-sum values (omega arith), total)
            (assert->> (leb 2 n_parts) _ (le→leb 2 n_parts two)
              ∙ rw (ranked, ← size)
                  (fill_front_lem (length bits) (int_to_data_bits idx) fits ∙ ap some back)),
      )
