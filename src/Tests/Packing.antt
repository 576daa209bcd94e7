-- ===== src/Tests/Packing.antt =====
-- BlockchainInterface at concrete inputs.
use mathlib.Core.List.{Perm}
use bitcoin_messaging.Base.{
  ◌-◌, ◌*◌, ◌<◌, ◌≤◌, ◌≡◌, refl, true, false, List, [], ◌∷◌, some, arith, length, map, All,
}
use bitcoin_messaging.Types.{DataBits}
use bitcoin_messaging.Maths.{iota, number_compositions, factorial}
use bitcoin_messaging.Maths.Compositions.{sum}
use bitcoin_messaging.DataInterface.{embeddable_bits_in_values, embeddable_bits_in_permutation}
use bitcoin_messaging.BlockchainInterface.{
  TxIn, TxOut, Scripts, pack_data_into_seq_nr, unpack_data_from_seq_nr, pack_data_into_nulldata,
  unpack_data_from_nulldata, pack_data_into_budget_split, unpack_data_from_budget_split,
  pack_data_into_budget_claim, unpack_data_from_budget_claim,
}
use bitcoin_messaging.BlockchainInterface.Slices.{IsStored}
use bitcoin_messaging.BlockchainInterface.Fields.{
  unpack_data_from_seq_nr-pack_data_into_seq_nr, unpack_data_from_nulldata-pack_data_into_nulldata,
}
use bitcoin_messaging.BlockchainInterface.Budget.{
  amounts, scripts_of, unpack_data_from_budget_split-pack_data_into_budget_split,
  unpack_data_from_budget_claim-pack_data_into_budget_claim,
}
use bitcoin_messaging.Tests.Models.{ceil_root, ceil_root-le, log2, log2-le}

abbrev pub three_bits : DataBits
three_bits = true ∷ false ∷ true ∷ []

abbrev pub plain_in : TxIn
plain_in = record { prevout = record { hash = 7; n = 1 }; script_sig = []; n_sequence = 0 }

abbrev pub plain_out : TxOut
plain_out = record { n_value = 5; script_pub_key = [] }

pub direct_push : Scripts
direct_push = record {
  null_data = λ d. 0x6A ∷ length d ∷ d;
  hash_equal = λ d. 0xA9 ∷ length d ∷ d;
  null_data-direct = λ d small. refl;
}

unpack_data_from_seq_nr-pack_data_into_seq_nr_example :
    (rest : DataBits) × ((packed : TxIn) × (pack_data_into_seq_nr three_bits plain_in
        ≡ some (rest, packed))
      × (length (unpack_data_from_seq_nr packed) ≡ 32)
      × IsStored three_bits rest (unpack_data_from_seq_nr packed)
      × (packed.prevout ≡ plain_in.prevout)
      × (packed.script_sig ≡ plain_in.script_sig))
unpack_data_from_seq_nr-pack_data_into_seq_nr_example =
    unpack_data_from_seq_nr-pack_data_into_seq_nr three_bits plain_in (omega arith)

unpack_data_from_nulldata-pack_data_into_nulldata_example :
    (rest : DataBits) × ((packed : TxOut) × ((read : DataBits) × (pack_data_into_nulldata
            direct_push three_bits plain_out
          ≡ some (rest, packed))
        × (unpack_data_from_nulldata packed ≡ some read)
        × (length read ≡ 320)
        × IsStored three_bits rest read
        × (packed.n_value ≡ 0)))
unpack_data_from_nulldata-pack_data_into_nulldata_example =
    unpack_data_from_nulldata-pack_data_into_nulldata direct_push three_bits plain_out (omega arith)

abbrev two_outs : List TxOut
two_outs = plain_out ∷ plain_out ∷ []

split_room : 0 < embeddable_bits_in_values log2 (1100 - 2 * 546) 2
unfolding embeddable_bits_in_values log2 number_compositions
split_room = omega arith

unpack_data_from_budget_split-pack_data_into_budget_split_example :
    (rest : DataBits) × ((packed : List TxOut) × ((read : DataBits) × (pack_data_into_budget_split
            log2 ceil_root three_bits two_outs 1100 546
          ≡ some (rest, packed))
        × (unpack_data_from_budget_split log2 packed 546 ≡ some read)
        × (length read ≡ embeddable_bits_in_values log2 (1100 - 2 * 546) 2)
        × IsStored three_bits rest read
        × (scripts_of packed ≡ scripts_of two_outs)
        × (sum (amounts packed) ≡ 1100)
        × All (λ (o : TxOut). 546 ≤ o.n_value) packed))
unpack_data_from_budget_split-pack_data_into_budget_split_example =
    unpack_data_from_budget_split-pack_data_into_budget_split log2 log2-le ceil_root ceil_root-le
      three_bits two_outs 1100 546 (omega arith) (omega arith) (omega arith) (omega arith)
      split_room (omega arith)

abbrev three_ins : List TxIn
three_ins = plain_in ∷ plain_in ∷ plain_in ∷ []

claim_room : 0 < embeddable_bits_in_permutation log2 3
unfolding embeddable_bits_in_permutation log2 factorial
claim_room = omega arith

unpack_data_from_budget_claim-pack_data_into_budget_claim_example :
    (rest : DataBits) × ((packed : List TxIn) × ((read : DataBits) × (pack_data_into_budget_claim
            log2 three_bits three_ins
          ≡ some (rest, packed))
        × (unpack_data_from_budget_claim log2 packed ≡ some read)
        × (length read ≡ embeddable_bits_in_permutation log2 3)
        × IsStored three_bits rest read
        × Perm (map (λ (i : TxIn). i.prevout.n) packed) (iota 3 0)))
unpack_data_from_budget_claim-pack_data_into_budget_claim_example =
    unpack_data_from_budget_claim-pack_data_into_budget_claim log2 log2-le three_bits three_ins
      (omega arith) (omega arith) claim_room (omega arith)
