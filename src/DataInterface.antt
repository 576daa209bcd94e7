-- ===== src/DataInterface.antt =====
-- src/lib/bms/DataInterface.cpp: data in sequence numbers, public keys, amounts and orders.
--
-- The public keys of the Bitcoin client, the logarithm and the root of the floating-point library are
-- parameters: `PubKeys`, `floor_log2` and `round_root`.
pub mod Sequence
pub mod Pubkey
pub mod Amounts
pub mod Orders
use Prim.Native.Nat.{bit_or}
use bitcoin_messaging.Base.{
  ℕ, zero, suc, ◌+◌, ◌-◌, ◌*◌, ◌/◌, ◌%◌, ◌^◌, ◌≤◌, ◌<◌, ◌≡◌, ◌⊎◌, Bool, true, false, List, [], ◌∷◌,
  ◌++◌, Option, none, some, length, get_elem?, take, drop, replicate, leb, ltb, ◌==◌, if◌then◌else◌,
  ◌>>=◌, ◌>>◌, assert,
}
use bitcoin_messaging.Types.{
  DataBits, Data, data_to_bits, bits_to_data, data_bits_to_int, int_to_data_bits,
}
use bitcoin_messaging.Maths.{
  u16, sub64, factorial, number_compositions, permutation_to_integer, integer_to_permutation,
  accumulate, composition_to_integer, integer_to_composition,
}
use bitcoin_messaging.Utilities.{generate_random_bits}

-- `seqnr |= data[0] << 24` and so on, on 32 bits.
unfoldable pub encode_data_in_sequence_nr : DataBits → Option ℕ
encode_data_in_sequence_nr bits = do
  assert (length bits == 32)
  bytes ← bits_to_data bits
  b0 ← get_elem? bytes 0
  b1 ← get_elem? bytes 1
  b2 ← get_elem? bytes 2
  b3 ← get_elem? bytes 3
  some (bit_or (bit_or (bit_or (bit_or 0 (b0 * 2 ^ 24)) (b1 * 2 ^ 16)) (b2 * 2 ^ 8)) b3)

-- `& 0xFF` keeps the low byte.
unfoldable pub decode_data_in_sequence_nr : ℕ → DataBits
decode_data_in_sequence_nr sequence_nr = data_to_bits (
    sequence_nr / 2 ^ 24 % 256
    ∷ sequence_nr / 2 ^ 16 % 256
    ∷ sequence_nr / 2 ^ 8 % 256
    ∷ sequence_nr % 256
    ∷ [])

-- What the code uses of `CPubKey`: the key of some bytes, its bytes, and the check of the curve.
-- A key of 33 bytes that begin with 2 or 3 keeps these bytes; others may be invalid and have none.
pub record PubKeys : Type 1 where
  pub Key : Type 0
  pub of_bytes : Data → Key
  pub bytes : Key → Data
  pub is_fully_valid : Key → Bool
  pub bytes-of_bytes :
      (b : ℕ) (rest : Data)
      → (b ≡ 2) ⊎ (b ≡ 3)
      → length rest ≡ 32
      → bytes (of_bytes (b ∷ rest)) ≡ b ∷ rest

-- The eight bits of the header of a compressed key, 0x02.
abbrev pub key_prefix : DataBits
key_prefix = replicate 6 false ++ (true ∷ false ∷ [])

-- `data`, filled up to the bits that stand between the header and the random ones.
unfoldable pub key_payload : DataBits → ℕ → DataBits
key_payload bits n_rand_bits =
    let begun = false ∷ bits in
    begun ++ replicate (sub64 (sub64 256 (length begun)) n_rand_bits) false

module _ (keys : PubKeys) where
  open keys use {Key, of_bytes, bytes, is_fully_valid}

  -- One round: the key of these bits and of random ones.
  unfoldable pub random_key : DataBits → ℕ → (ℕ → Bool) → Option Key
  unfolding key_payload
  random_key bits n_rand_bits coin = do
    packed ←
        bits_to_data
          (key_prefix ++ (key_payload bits n_rand_bits ++ generate_random_bits coin n_rand_bits))
    some (of_bytes packed)

  -- `do … while (!pk.IsFullyValid())`; `coins r` is what round `r` draws. `none` if the rounds that
  -- the fuel allows find no valid key.
  pub key_loop : ℕ → ℕ → DataBits → ℕ → (ℕ → ℕ → Bool) → Option Key
  key_loop zero round bits n_rand_bits coins = none
  key_loop (suc fuel) round bits n_rand_bits coins =
      random_key bits n_rand_bits (coins round) >>= λ pk. elim (is_fully_valid pk) [
        | true ↦ some pk
        | false ↦ key_loop fuel (round + 1) bits n_rand_bits coins
      ]

  unfoldable pub encode_data_in_pubkey : ℕ → DataBits → ℕ → (ℕ → ℕ → Bool) → Option Key
  unfolding key_loop random_key
  encode_data_in_pubkey fuel bits n_rand_bits coins = do
    assert (leb 1 (length bits))
    assert (leb 5 n_rand_bits)
    assert (sub64 255 (length bits) == n_rand_bits)
    key_loop fuel 0 bits n_rand_bits coins

  -- The header and the padding bit go, and the random bits. A shorter key is read out of range.
  unfoldable pub decode_data_in_pubkey : Key → ℕ → Option DataBits
  decode_data_in_pubkey pubkey n_rand_bits = do
    let buf = data_to_bits (bytes pubkey)
    assert (leb (9 + n_rand_bits) (length buf))
    some (take (length buf - 9 - n_rand_bits) (drop 9 buf))

-- `data.insert(data.begin(), MaxBits - data.size(), false)`: a difference that wraps is more than
-- the vector can hold.
unfoldable pub fill_front : ℕ → DataBits → Option DataBits
fill_front max_bits bits = do
  assert (leb (length bits) max_bits)
  some (replicate (max_bits - length bits) false ++ bits)

-- `floor_log2 x` is `(uint32_t) (log(x) / log(2))` of the floating-point library.
module _ (floor_log2 : ℕ → ℕ) where
  unfoldable pub embeddable_bits_in_values : ℕ → ℕ → ℕ
  embeddable_bits_in_values n k = floor_log2 (number_compositions n k)

  unfoldable pub encode_data_in_values : (ℕ → ℕ → ℕ) → DataBits → ℕ → ℕ → Option (List ℕ)
  unfolding embeddable_bits_in_values
  encode_data_in_values round_root bits budget n_parts = do
    assert (length bits == embeddable_bits_in_values budget n_parts)
    assert (leb 2 n_parts)
    idx ← data_bits_to_int bits
    integer_to_composition round_root idx budget n_parts

  unfoldable pub decode_data_in_values : List ℕ → Option DataBits
  unfolding embeddable_bits_in_values fill_front
  decode_data_in_values values = do
    let n_parts = u16 (length values)
    assert (leb 2 n_parts)
    idx ← composition_to_integer values
    fill_front (embeddable_bits_in_values (accumulate values) n_parts) (int_to_data_bits idx)

  unfoldable pub embeddable_bits_in_permutation : ℕ → ℕ
  embeddable_bits_in_permutation n_parts = floor_log2 (factorial n_parts)

  unfoldable pub encode_data_in_permutation : DataBits → ℕ → Option (List ℕ)
  unfolding embeddable_bits_in_permutation
  encode_data_in_permutation bits n_parts = do
    assert (leb 2 n_parts)
    assert (length bits == embeddable_bits_in_permutation n_parts)
    idx ← data_bits_to_int bits
    integer_to_permutation idx n_parts

  unfoldable pub decode_data_in_permutation : List ℕ → Option DataBits
  unfolding embeddable_bits_in_permutation fill_front
  decode_data_in_permutation permutation = do
    let size = u16 (length permutation)
    assert (leb 2 size)
    idx ← permutation_to_integer permutation
    fill_front (embeddable_bits_in_permutation size) (int_to_data_bits idx)
