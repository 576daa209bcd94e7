-- ===== src/BlockchainInterface/Budget.antt =====
-- Data in the amounts of the outputs and in the order in which they are claimed.
use mathlib.Core.List.{Perm}
use mathlib.Core.List.Perm
use native.Mathlib.Nat.{mul-le-mul_right}
use bitcoin_messaging.Base.{
  ℕ, zero, suc, ◌+◌, ◌-◌, ◌*◌, ◌^◌, ◌%◌, ◌≤◌, ◌<◌, ◌≡◌, refl, ap, ◌∙◌, List, [], ◌∷◌, some, arith,
  min, length, take, drop, leb, le→leb, assert->>, All, map, All-perm, length-perm,
}
use bitcoin_messaging.Types.{DataBits, Data, pad_bits}
use bitcoin_messaging.Maths.{u16, u64, sub64, iota}
use bitcoin_messaging.Maths.Compositions.{sum}
use bitcoin_messaging.Maths.Smaller.{length-iota}
use bitcoin_messaging.DataInterface.{embeddable_bits_in_values, embeddable_bits_in_permutation}
use bitcoin_messaging.DataInterface.Amounts.{decode-encode_data_in_values}
use bitcoin_messaging.DataInterface.Orders.{decode-encode_data_in_permutation}
use bitcoin_messaging.BlockchainInterface.{
  u32, TxIn, TxOut, set_values, get_values, set_order, get_order, pack_data_into_budget_split,
  unpack_data_from_budget_split, pack_data_into_budget_claim, unpack_data_from_budget_claim,
}
use bitcoin_messaging.BlockchainInterface.Slices.{
  IsStored, slice_bits_lem, IsStored-sliced, length-sliced,
}

abbrev pub amounts : List TxOut → List ℕ
amounts outs = map (λ (o : TxOut). o.n_value) outs

abbrev pub scripts_of : List TxOut → List Data
scripts_of outs = map (λ (o : TxOut). o.script_pub_key) outs

-- Outputs with these amounts, each raised by the lower bound.
record IsSplit (lbound : ℕ) (outs : List TxOut) (values : List ℕ) : Type 0 where
  pub packed : List TxOut
  pub returns : set_values lbound outs values ≡ some packed
  pub read : get_values lbound packed ≡ values
  pub same : scripts_of packed ≡ scripts_of outs
  pub total : sum (amounts packed) ≡ sum values + length outs * lbound
  pub above : All (λ (o : TxOut). lbound ≤ o.n_value) packed

set_values-IsSplit :
    (lbound : ℕ) (outs : List TxOut) (values : List ℕ)
    → length values ≡ length outs
    → sum values + lbound < 2 ^ 64
    → IsSplit lbound outs values
unfolding set_values get_values sub64
set_values-IsSplit lbound [] [] size small = record {
  packed = [];
  returns = refl;
  read = refl;
  same = refl;
  total = omega arith;
  above = tt;
}
set_values-IsSplit lbound [] (v ∷ values) size small = absurd (omega arith)
set_values-IsSplit lbound (o ∷ outs) [] size small = absurd (omega arith)
set_values-IsSplit lbound (o ∷ outs) (v ∷ values) size small =
    let r = set_values-IsSplit lbound outs values (omega arith) (omega arith) in
    let whole : u64 (v + lbound) ≡ v + lbound = omega arith in
    let back : (v + lbound + 2 ^ 64 - lbound) % 2 ^ 64 ≡ v = omega arith in
    let all = r.total in
    record {
      packed = record { n_value = u64 (v + lbound); script_pub_key = o.script_pub_key } ∷ r.packed;
      returns = rw (r.returns);
      read = rw (whole, back) (ap (λ l. v ∷ l) r.read);
      same = ap (λ l. o.script_pub_key ∷ l) r.same;
      total = rw whole (omega arith);
      above = (omega arith, r.above);
    }

record IsClaimed (ins : List TxIn) (perm : List ℕ) : Type 0 where
  pub packed : List TxIn
  pub returns : set_order ins perm ≡ some packed
  pub read : get_order packed ≡ perm
  pub claimed : map (λ (i : TxIn). i.prevout.n) packed ≡ perm

set_order-IsClaimed :
    (ins : List TxIn) (perm : List ℕ)
    → length perm ≡ length ins
    → All (λ p. p < 2 ^ 16) perm
    → IsClaimed ins perm
unfolding set_order get_order
set_order-IsClaimed [] [] size small = record {
  packed = [];
  returns = refl;
  read = refl;
  claimed = refl;
}
set_order-IsClaimed [] (p ∷ perm) size small = absurd (omega arith)
set_order-IsClaimed (i ∷ ins) [] size small = absurd (omega arith)
set_order-IsClaimed (i ∷ ins) (p ∷ perm) size (p_small, small) =
    let r = set_order-IsClaimed ins perm (omega arith) small in
    let whole : u16 p ≡ p = omega arith in
    record {
      packed =
          record {
            prevout = record { hash = i.prevout.hash; n = p };
            script_sig = i.script_sig;
            n_sequence = i.n_sequence;
          }
          ∷ r.packed;
      returns = rw (r.returns);
      read = rw whole (ap (λ l. p ∷ l) r.read);
      claimed = ap (λ l. p ∷ l) r.claimed;
    }

pub iota-below : (left first n : ℕ) → first + left ≤ n → All (λ p. p < n) (iota left first)
unfolding iota
iota-below zero first n h = tt
iota-below (suc left) first n h = (omega arith, iota-below left (first + 1) n (omega arith))

scale_le : (n k : ℕ) → 0 < n → k ≤ n * k
scale_le n k h = omega (arith, mul-le-mul_right k h)

module _ (floor_log2 : ℕ → ℕ) (floor_log2-le : (x : ℕ) → 0 < x → 2 ^ floor_log2 x ≤ x) where
  -- With a logarithm that is not above the true one and a rounded root that is at most twice the
  -- true one, 2 to 2^16 - 1 outputs, a budget below 2^62 that pays the lower bound of every output
  -- and has room for a bit besides, and less than 2^32 bits: packing succeeds. The scripts stay,
  -- every amount reaches the lower bound, the amounts sum up to the budget, and as many bits as
  -- they have room for are read back from them, which are the next ones of the data, filled up with
  -- zeros.
  pub unpack_data_from_budget_split-pack_data_into_budget_split :
      (round_root : ℕ → ℕ → ℕ)
      → ((a b j : ℕ) → 0 < j → a ≤ b ^ j → round_root a j ≤ 2 * b)
      → (bits : DataBits) (tx_outs : List TxOut) (budget lbound : ℕ) → budget < 2 ^ 62
      → 2 ≤ length tx_outs
      → length tx_outs < 2 ^ 16
      → length tx_outs * lbound ≤ budget
      → 0 < embeddable_bits_in_values floor_log2 (budget - length tx_outs * lbound) (length tx_outs)
      → length bits < 2 ^ 32
      → (rest : DataBits) × ((packed : List TxOut) × ((read : DataBits)
            × (pack_data_into_budget_split floor_log2 round_root bits tx_outs budget lbound
                ≡ some (rest, packed))
            × (unpack_data_from_budget_split floor_log2 packed lbound ≡ some read)
            × (length read
                ≡ embeddable_bits_in_values floor_log2
                    (budget - length tx_outs * lbound)
                    (length tx_outs))
            × IsStored bits rest read
            × (scripts_of packed ≡ scripts_of tx_outs)
            × (sum (amounts packed) ≡ budget)
            × All (λ (o : TxOut). lbound ≤ o.n_value) packed))
  unfolding pack_data_into_budget_split unpack_data_from_budget_split
  unpack_data_from_budget_split-pack_data_into_budget_split round_root root_law bits tx_outs budget
        lbound small two k_small paid some_room fits =
      let n = length tx_outs in
      let left = budget - n * lbound in
      let max_bits = embeddable_bits_in_values floor_log2 left n in
      let slice =
        pad_bits (take (min max_bits (length bits)) bits) (max_bits - min max_bits (length bits)) in
      let size = length-sliced max_bits bits in
      let (values, made, count, total, read) =
        decode-encode_data_in_values floor_log2 floor_log2-le round_root root_law slice left n
          (omega arith) two k_small size (omega arith) in
      let one = scale_le n lbound (omega arith) in
      let r = set_values-IsSplit lbound tx_outs values count (omega arith) in
      let n_is : u32 n ≡ n = omega arith in
      let n_16 : u16 n ≡ n = omega arith in
      let bits_is : u32 (length bits) ≡ length bits = omega arith in
      let cost : u64 (n * lbound) ≡ n * lbound = omega arith in
      let left_is : sub64 budget (n * lbound) ≡ left = unfold sub64 in omega arith in
      (
        drop (min max_bits (length bits)) bits,
        (
          r.packed,
          (
            slice,
            rw (n_is, n_16, bits_is, cost, left_is)
                (assert->> (leb (n * lbound) budget) _ (le→leb (n * lbound) budget paid)
                  ∙ rw (
                    slice_bits_lem (min max_bits (length bits)) bits (omega arith),
                    made,
                    r.returns,
                  )),
            rw (r.read) read,
            size,
            IsStored-sliced max_bits bits,
            r.same,
            r.total ∙ omega arith,
            r.above,
          ),
        ),
      )

  -- With a logarithm that is not above the true one, 2 to 2^16 - 1 inputs, room for a bit and less
  -- than 2^32 bits: packing succeeds, the inputs claim each of the outputs 0, 1, … exactly once,
  -- and as many bits as their orders have room for are read back from the order, which are the next
  -- ones of the data, filled up with zeros.
  pub unpack_data_from_budget_claim-pack_data_into_budget_claim :
      (bits : DataBits) (tx_inputs : List TxIn)
      → 2 ≤ length tx_inputs
      → length tx_inputs < 2 ^ 16
      → 0 < embeddable_bits_in_permutation floor_log2 (length tx_inputs)
      → length bits < 2 ^ 32
      → (rest : DataBits) × ((packed : List TxIn) × ((read : DataBits)
            × (pack_data_into_budget_claim floor_log2 bits tx_inputs ≡ some (rest, packed))
            × (unpack_data_from_budget_claim floor_log2 packed ≡ some read)
            × (length read ≡ embeddable_bits_in_permutation floor_log2 (length tx_inputs))
            × IsStored bits rest read
            × Perm (map (λ (i : TxIn). i.prevout.n) packed) (iota (length tx_inputs) 0)))
  unfolding pack_data_into_budget_claim unpack_data_from_budget_claim
  unpack_data_from_budget_claim-pack_data_into_budget_claim bits tx_inputs two k_small some_room
        fits =
      let n = length tx_inputs in
      let max_bits = embeddable_bits_in_permutation floor_log2 n in
      let slice =
        pad_bits (take (min max_bits (length bits)) bits) (max_bits - min max_bits (length bits)) in
      let size = length-sliced max_bits bits in
      let (perm, made, same, read) =
        decode-encode_data_in_permutation floor_log2 floor_log2-le slice n two k_small size
          (omega arith) in
      let small = All-perm (2 ^ 16) (Perm.symm same) (iota-below n 0 (2 ^ 16) (omega arith)) in
      let r = set_order-IsClaimed tx_inputs perm (length-perm same ∙ length-iota n 0) small in
      let n_is : u32 n ≡ n = omega arith in
      let n_16 : u16 n ≡ n = omega arith in
      let bits_is : u32 (length bits) ≡ length bits = omega arith in
      (
        drop (min max_bits (length bits)) bits,
        (
          r.packed,
          (
            slice,
            rw (n_is, n_16, bits_is)
                (rw (
                  slice_bits_lem (min max_bits (length bits)) bits (omega arith),
                  made,
                  r.returns,
                )),
            rw (r.read) read,
            size,
            IsStored-sliced max_bits bits,
            rw (r.claimed) same,
          ),
        ),
      )
