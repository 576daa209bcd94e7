-- ===== src/BlockchainInterface.antt =====
-- src/lib/bms/BlockchainInterface.cpp: the channels of a transaction.
--
-- A script is the vector of its bytes, as CScript is. Of the building of scripts only what the code
-- uses is a parameter (`Scripts`). Casts are written out: to `int`, where the size of a
-- vector of bits counts what has to be filled up, and to uint32_t. Amounts are numbers: an int64_t that is never negative.
pub mod Slices
pub mod Fields
pub mod Budget
pub mod Reading
pub mod Optimizing
pub mod Selecting
pub mod Signing
pub mod ScriptHash
pub mod Embedding
pub mod Authorizing
use bitcoin_messaging.Base.{
  ℕ, ◌+◌, ◌-◌, ◌*◌, ◌%◌, ◌^◌, ◌<◌, ◌≡◌, List, [], ◌∷◌, Option, none, some, min, length, drop, leb,
  ltb, if◌then◌else◌, ◌>>=◌, ◌>>◌, assert,
}
use bitcoin_messaging.Types.{DataBits, Data, pad_bits, slice_bits, data_to_bits, bits_to_data}
use bitcoin_messaging.Maths.{u16, u64, sub64}
use bitcoin_messaging.DataInterface.{
  encode_data_in_sequence_nr, decode_data_in_sequence_nr, embeddable_bits_in_values,
  encode_data_in_values, decode_data_in_values, embeddable_bits_in_permutation,
  encode_data_in_permutation, decode_data_in_permutation,
}

abbrev pub u32 : ℕ → ℕ
u32 x = x % 2 ^ 32

-- COutPoint, CTxIn, CTxOut and CTransaction, the fields that the code reads or writes.
pub record OutPoint : Type 0 where
  pub hash : ℕ
  pub n : ℕ

pub record TxIn : Type 0 where
  pub prevout : OutPoint
  pub script_sig : Data
  pub n_sequence : ℕ

pub record TxOut : Type 0 where
  pub n_value : ℕ
  pub script_pub_key : Data

pub record Transaction : Type 0 where
  pub vin : List TxIn
  pub vout : List TxOut

-- `CScript() << OP_RETURN << data`: the opcode and, for up to 75 bytes, their number, then the bytes;
-- and `CScript() << OP_HASH160 << data << OP_EQUAL`.
pub record Scripts : Type 0 where
  pub null_data : Data → Data
  pub hash_equal : Data → Data
  pub null_data-direct : (d : Data) → length d < 0x4C → null_data d ≡ 0x6A ∷ length d ∷ d

-- `w - std::min(w, (int)bits.size())`: from 2^31 on the size is a negative `int`, and a difference that is no
-- `int` is undefined.
unfoldable pub missing : ℕ → ℕ → Option ℕ
missing w n_bits =
    if ltb (n_bits % 2 ^ 32) (2 ^ 31)
    then some (w - min w (n_bits % 2 ^ 32))
    else (if ltb (w + (2 ^ 32 - n_bits % 2 ^ 32)) (2 ^ 31)
        then some (w + (2 ^ 32 - n_bits % 2 ^ 32))
        else none)

-- The packing functions change `bits`, the data still to be stored: it is returned first.
unfoldable pub pack_data_into_seq_nr : DataBits → TxIn → Option (DataBits × TxIn)
unfolding missing
pack_data_into_seq_nr bits tx_in = do
  n_pad ← missing 32 (length bits)
  sliced ← slice_bits (pad_bits bits n_pad) 32
  nr ← encode_data_in_sequence_nr sliced.0
  some
      (sliced.1, record { prevout = tx_in.prevout; script_sig = tx_in.script_sig; n_sequence = nr })

unfoldable pub unpack_data_from_seq_nr : TxIn → DataBits
unpack_data_from_seq_nr tx_in = decode_data_in_sequence_nr tx_in.n_sequence

-- Both fields of the output are overwritten.
unfoldable pub pack_data_into_nulldata : Scripts → DataBits → TxOut → Option (DataBits × TxOut)
unfolding missing
pack_data_into_nulldata scripts bits tx_out = do
  n_pad ← missing 320 (length bits)
  sliced ← slice_bits (pad_bits bits n_pad) 320
  bytes ← bits_to_data sliced.0
  some (sliced.1, record { n_value = 0; script_pub_key = scripts.null_data bytes })

-- Of a script of fewer than two bytes the erased range is out of range.
unfoldable pub unpack_data_from_nulldata : TxOut → Option DataBits
unpack_data_from_nulldata tx_out = do
  assert (leb 2 (length tx_out.script_pub_key))
  some (data_to_bits (drop 2 tx_out.script_pub_key))

-- `txOuts[i].nValue = values[i] + lbound`; a missing value is read out of range.
unfoldable pub set_values : ℕ → List TxOut → List ℕ → Option (List TxOut)
set_values lbound [] values = some []
set_values lbound (o ∷ outs) [] = none
set_values lbound (o ∷ outs) (v ∷ values) = do
  rest ← set_values lbound outs values
  some (record { n_value = u64 (v + lbound); script_pub_key = o.script_pub_key } ∷ rest)

-- `values[i] = txOuts[i].nValue - lbound`
unfoldable pub get_values : ℕ → List TxOut → List ℕ
unfolding sub64
get_values lbound [] = []
get_values lbound (o ∷ outs) = sub64 o.n_value lbound ∷ get_values lbound outs

-- `txInputs[i].prevout.n = perm[i]`
unfoldable pub set_order : List TxIn → List ℕ → Option (List TxIn)
set_order [] perm = some []
set_order (i ∷ ins) [] = none
set_order (i ∷ ins) (p ∷ perm) = do
  rest ← set_order ins perm
  some (
      record {
        prevout = record { hash = i.prevout.hash; n = p };
        script_sig = i.script_sig;
        n_sequence = i.n_sequence;
      }
      ∷ rest)

-- `perm[i] = txInputs[i].prevout.n`, an element of 16 bits.
unfoldable pub get_order : List TxIn → List ℕ
get_order [] = []
get_order (i ∷ ins) = u16 i.prevout.n ∷ get_order ins

module _ (floor_log2 : ℕ → ℕ) where
  unfoldable pub pack_data_into_budget_split :
      (ℕ → ℕ → ℕ) → DataBits → List TxOut → ℕ → ℕ → Option (DataBits × List TxOut)
  pack_data_into_budget_split round_root bits tx_outs budget lbound = do
    let n_outputs = u32 (length tx_outs)
    let left = sub64 budget (u64 (n_outputs * lbound))
    let max_bits = embeddable_bits_in_values floor_log2 left (u16 n_outputs)
    let n_bits = min max_bits (u32 (length bits))
    assert (leb (u64 (n_outputs * lbound)) budget)
    sliced ← slice_bits bits n_bits
    let slice = pad_bits sliced.0 (max_bits - n_bits)
    values ← encode_data_in_values floor_log2 round_root slice left (u16 n_outputs)
    outs ← set_values lbound tx_outs values
    some (sliced.1, outs)

  unfoldable pub unpack_data_from_budget_split : List TxOut → ℕ → Option DataBits
  unpack_data_from_budget_split tx_outs lbound =
      decode_data_in_values floor_log2 (get_values lbound tx_outs)

  unfoldable pub pack_data_into_budget_claim : DataBits → List TxIn → Option (DataBits × List TxIn)
  pack_data_into_budget_claim bits tx_inputs = do
    let n_inputs = u32 (length tx_inputs)
    let max_bits = embeddable_bits_in_permutation floor_log2 (u16 n_inputs)
    let n_bits = min max_bits (u32 (length bits))
    sliced ← slice_bits bits n_bits
    let slice = pad_bits sliced.0 (max_bits - n_bits)
    perm ← encode_data_in_permutation floor_log2 slice (u16 n_inputs)
    ins ← set_order tx_inputs perm
    some (sliced.1, ins)

  unfoldable pub unpack_data_from_budget_claim : List TxIn → Option DataBits
  unpack_data_from_budget_claim tx_inputs =
      decode_data_in_permutation floor_log2 (get_order tx_inputs)
