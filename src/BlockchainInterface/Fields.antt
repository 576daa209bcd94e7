-- ===== src/BlockchainInterface/Fields.antt =====
-- Data in the sequence number of one input and in the script of one output.
use bitcoin_messaging.Base.{
  ◌-◌, ◌^◌, ◌<◌, ◌≡◌, refl, ap, ◌∙◌, ◌∷◌, some, arith, min, length, take, drop, leb, le→leb,
  assert->>, length-take,
}
use bitcoin_messaging.Types.{DataBits, pad_bits}
use bitcoin_messaging.Types.Bytes.{data_to_bits-bits_to_data}
use bitcoin_messaging.DataInterface.Sequence.{decode-encode_data_in_sequence_nr}
use bitcoin_messaging.BlockchainInterface.{
  TxIn, TxOut, Scripts, pack_data_into_seq_nr, unpack_data_from_seq_nr, pack_data_into_nulldata,
  unpack_data_from_nulldata,
}
use bitcoin_messaging.BlockchainInterface.Slices.{
  IsStored, missing-small, slice_bits_lem, IsStored-padded, padded_room,
}

-- Packing succeeds for less than 2^31 bits of data and takes 32 bits of them, filled up with zeros at their
-- end. They are read back from the input, whose outpoint and script stay as they were.
pub unpack_data_from_seq_nr-pack_data_into_seq_nr :
    (bits : DataBits) (tx_in : TxIn)
    → length bits < 2 ^ 31
    → (rest : DataBits) × ((packed : TxIn) × (pack_data_into_seq_nr bits tx_in
          ≡ some (rest, packed))
        × (length (unpack_data_from_seq_nr packed) ≡ 32)
        × IsStored bits rest (unpack_data_from_seq_nr packed)
        × (packed.prevout ≡ tx_in.prevout)
        × (packed.script_sig ≡ tx_in.script_sig))
unfolding pack_data_into_seq_nr unpack_data_from_seq_nr
unpack_data_from_seq_nr-pack_data_into_seq_nr bits tx_in fits =
    let padded = pad_bits bits (32 - min 32 (length bits)) in
    let room = padded_room 32 bits in
    let size = length-take 32 padded room in
    let (nr, made, small, read) = decode-encode_data_in_sequence_nr (take 32 padded) size in
    (
      drop 32 padded,
      (
        record { prevout = tx_in.prevout; script_sig = tx_in.script_sig; n_sequence = nr },
        rw (missing-small 32 (length bits) fits, slice_bits_lem 32 padded room, made),
        ap length read ∙ size,
        rw read (IsStored-padded 32 bits),
        refl,
        refl,
      ),
    )

-- Packing succeeds for less than 2^31 bits of data and takes 320 bits of them, filled up with zeros at their
-- end. They are read back from the script, and the output holds no money.
pub unpack_data_from_nulldata-pack_data_into_nulldata :
    (scripts : Scripts) (bits : DataBits) (tx_out : TxOut)
    → length bits < 2 ^ 31
    → (rest : DataBits) × ((packed : TxOut) × ((read : DataBits) × (pack_data_into_nulldata scripts
              bits tx_out
            ≡ some (rest, packed))
          × (unpack_data_from_nulldata packed ≡ some read)
          × (length read ≡ 320)
          × IsStored bits rest read
          × (packed.n_value ≡ 0)))
unfolding pack_data_into_nulldata unpack_data_from_nulldata
unpack_data_from_nulldata-pack_data_into_nulldata scripts bits tx_out fits =
    let padded = pad_bits bits (320 - min 320 (length bits)) in
    let room = padded_room 320 bits in
    let size = length-take 320 padded room in
    let (bytes, made, forty, small, back) =
      data_to_bits-bits_to_data 40 (take 320 padded) size (omega arith) in
    let script = scripts.null_data-direct bytes (omega arith) in
    (
      drop 320 padded,
      (
        record { n_value = 0; script_pub_key = scripts.null_data bytes },
        (
          take 320 padded,
          rw (missing-small 320 (length bits) fits, slice_bits_lem 320 padded room, made),
          rw script (
              assert->> (leb 2 (length (0x6A ∷ length bytes ∷ bytes))) _ (le→leb 2 _ (omega arith))
              ∙ ap some back),
          size,
          IsStored-padded 320 bits,
          refl,
        ),
      ),
    )
