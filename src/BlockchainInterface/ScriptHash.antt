-- ===== src/BlockchainInterface/ScriptHash.antt =====
-- `PackDataIntoP2SH` and `UnpackDataFromP2SH`: data in the public keys of a redeem script.
--
-- A map from bit vectors to keys is the list of its pairs. What a call of the random device draws is an
-- argument: `draws n` belongs to the call of EncodeDataInPubkey with number n.
pub mod Parsing
pub mod Keys
pub mod Spending
pub mod Inputs
use bitcoin_messaging.Base.{
  ℕ, zero, suc, ◌+◌, ◌-◌, ◌*◌, ◌/◌, ◌^◌, ◌≡◌, Bool, true, false, List, [], ◌∷◌, ◌++◌, Option, none,
  some, min, length, drop, get_elem?, set, leb, ltb, ◌==◌, if◌then◌else◌, ◌>>=◌, ◌>>◌, assert,
}
use bitcoin_messaging.Types.{DataBits, Data, pad_bits, slice_bits, data_to_bits}
use bitcoin_messaging.DataCompression.{bits_eq}
use bitcoin_messaging.DataInterface.{PubKeys, encode_data_in_pubkey, decode_data_in_pubkey}
use bitcoin_messaging.BlockchainInterface.{TxIn, TxOut, Transaction, missing}
use bitcoin_messaging.BlockchainInterface.Signing.{Signing}

module _ {keys : PubKeys} (signing : Signing keys) where
  open signing use {
    Secret, Store, public_key, set_multisig, get_op, add_script, script_hash, sign_signature,
  }

  abbrev pub KeypairMap : Type 0
  KeypairMap = List (DataBits × Secret)

  -- `KeyMap.at(slice)`
  unfoldable pub key_at : DataBits → KeypairMap → Option Secret
  unfolding bits_eq
  key_at slice [] = none
  key_at slice ((bits, secret) ∷ key_map) =
      if bits_eq bits slice then some secret else key_at slice key_map

  -- What PackDataIntoP2SH changes besides its arguments: the keystore and the calls of the random device.
  pub record Session : Type 0 where
    pub store : Store
    pub calls : ℕ

  -- `while (start < end && scriptSig.GetOp(start, opcode, scriptData));`. An operation has a byte at
  -- least, so the number of bytes is enough fuel.
  pub last_push_loop : ℕ → Data → Data → Data
  last_push_loop zero script script_data = script_data
  last_push_loop (suc fuel) script script_data = elim (ltb 0 (length script)) [
    | true ↦ elim (get_op script).0 [
      | true ↦ last_push_loop fuel (get_op script).1 (get_op script).2
      | false ↦ (get_op script).2
    ]
    | false ↦ script_data
  ]

  -- The loop over the redeem script: the pushes of 33 bytes are public keys.
  pub pubkeys_loop : ℕ → Data → List keys.Key → List keys.Key
  pubkeys_loop zero script pubkeys = pubkeys
  pubkeys_loop (suc fuel) script pubkeys = elim (ltb 0 (length script)) [
    | true ↦ elim (get_op script).0 [
      | true ↦ pubkeys_loop fuel (get_op script).1 (
          if length (get_op script).2 == 33
          then pubkeys ++ (keys.of_bytes (get_op script).2 ∷ [])
          else pubkeys)
      | false ↦ pubkeys
    ]
    | false ↦ pubkeys
  ]

  -- `DataBits(buf.end()-nSuffixBits, buf.end())`
  unfoldable pub suffix : ℕ → DataBits → Option DataBits
  suffix n_bits buf = do assert (leb n_bits (length buf)); some (drop (length buf - n_bits) buf)

  -- The loop over the keys behind the first one.
  pub unpack_loop : List keys.Key → DataBits → Option DataBits
  unpack_loop [] bits = some bits
  unpack_loop (k ∷ pubkeys) bits =
      decode_data_in_pubkey keys k 5 >>= λ slice. unpack_loop pubkeys (bits ++ slice)

  -- Without a key `pubkeys[0]` is out of range.
  unfoldable pub unpack_keys : ℕ → List keys.Key → Option DataBits
  unfolding suffix unpack_loop
  unpack_keys suffix_bits [] = none
  unpack_keys suffix_bits (k ∷ pubkeys) = do
    slice ← suffix suffix_bits (data_to_bits (keys.bytes k))
    unpack_loop pubkeys slice

  unfoldable pub unpack_data_from_p2sh : ℕ → TxIn → Option DataBits
  unfolding last_push_loop pubkeys_loop unpack_keys
  unpack_data_from_p2sh suffix_bits tx_in = do
    let redeem = last_push_loop (length tx_in.script_sig) tx_in.script_sig []
    unpack_keys suffix_bits (pubkeys_loop (length redeem) redeem [])

  module _ (key_map : KeypairMap) (suffix_bits fuel : ℕ) (draws : ℕ → ℕ → ℕ → Bool) where
    -- The loop over the extra keys, with `left` rounds to go; `calls` counts the calls of the encoding.
    pub extra_keys_loop : ℕ → ℕ → DataBits → List keys.Key → Option (DataBits × List keys.Key)
    extra_keys_loop zero calls bits pubkeys = some (bits, pubkeys)
    extra_keys_loop (suc left) calls bits pubkeys = missing 250 (length bits) >>= λ n_pad.
        slice_bits (pad_bits bits n_pad) 250 >>= λ sliced.
        encode_data_in_pubkey keys fuel sliced.0 5 (draws calls) >>= λ k.
        extra_keys_loop left (calls + 1) sliced.1 (pubkeys ++ (k ∷ []))

    -- `min(11, (int)ceil(bits.size()/250.0))`, undefined where the quotient is no `int`.
    abbrev pub n_extra_keys : DataBits → ℕ
    n_extra_keys bits = min 11 ((length bits + 249) / 250)

    unfoldable pub pack_keys : DataBits → ℕ → Option (DataBits × List keys.Key)
    unfolding extra_keys_loop key_at
    pack_keys bits calls = do
      n_pad ← missing suffix_bits (length bits)
      sliced ← slice_bits (pad_bits bits n_pad) suffix_bits
      secret ← key_at sliced.0 key_map
      assert (ltb ((length sliced.1 + 249) / 250) (2 ^ 31))
      extra_keys_loop (n_extra_keys sliced.1) calls sliced.1 (public_key secret ∷ [])

    -- The output of the current transaction and the transaction behind it, whose input `n_input` gets
    -- the signature script. `none` is also the exception of a failed signature.
    unfoldable pub pack_data_into_p2sh :
        Session
        → DataBits
        → TxOut
        → Transaction
        → ℕ
        → Option (Session × DataBits × TxOut × Transaction)
    unfolding pack_keys
    pack_data_into_p2sh session bits tx_out tx n_input = do
      packed ← pack_keys bits session.calls
      let redeem = set_multisig 1 packed.1
      let store = add_script session.store redeem
      tx_in ← get_elem? tx.vin n_input
      script ← sign_signature store (script_hash redeem) tx n_input
      some (
        record { store = store; calls = session.calls + (length packed.1 - 1) },
        packed.0,
        record tx_out { script_pub_key = script_hash redeem },
        record tx { vin = set tx.vin n_input (record tx_in { script_sig = script }) },
      )
