-- ===== src/BlockchainInterface/ScriptHash/Inputs.antt =====
-- The round trip of PackDataIntoP2SH and UnpackDataFromP2SH at one input of a transaction.
use bitcoin_messaging.Base.{
  ◌^◌, ℕ, ◌+◌, ◌-◌, ◌<◌, ◌≡◌, refl, Bool, [], ◌∷◌, ◌++◌, some, arith, length, get_elem?, set,
}
use bitcoin_messaging.Types.{DataBits, Data}
use bitcoin_messaging.DataInterface.{PubKeys}
use bitcoin_messaging.BlockchainInterface.{TxIn, TxOut, Transaction}
use bitcoin_messaging.BlockchainInterface.Slices.{IsStored}
use bitcoin_messaging.BlockchainInterface.Signing.{push, Signing}
use bitcoin_messaging.BlockchainInterface.ScriptHash.{
  KeypairMap, Session, unpack_data_from_p2sh, pack_data_into_p2sh,
}
use bitcoin_messaging.BlockchainInterface.ScriptHash.Parsing.{last_push_loop_lem}
use bitcoin_messaging.BlockchainInterface.ScriptHash.Keys.{IsLucky, HasSuffixes, pack_keys-IsPacked}
use bitcoin_messaging.BlockchainInterface.ScriptHash.Spending.{
  lengths, redeem_keys, Grows, add_script-Grows, IsSpendable, HasSuffixes-Grows,
}

module _ {keys : PubKeys} (signing : Signing keys) where
  module _ (key_map : KeypairMap signing) (suffix_bits fuel : ℕ) (draws : ℕ → ℕ → ℕ → Bool) where
    -- With a map that has a key for every suffix and luck in the drawing of keys, packing into an input
    -- of a transaction succeeds for less than 2^31 bits of data. The data that it takes, filled up with zeros
    -- at their end, are read back from the input's script; the amount of the output stays, and so does
    -- the transaction but for this script. The keystore keeps its keys and scripts, and gets what the
    -- output's new script and the input's new script need to be signed again.
    pub unpack_data_from_p2sh-pack_data_into_p2sh :
        IsLucky keys fuel draws
        → (session : Session signing) (bits : DataBits) (tx_out : TxOut) (tx : Transaction)
          (n_input : ℕ) (tx_in : TxIn)
        → length bits < 2 ^ 31
        → HasSuffixes signing key_map suffix_bits session.store
        → n_input < length tx.vin
        → get_elem? tx.vin n_input ≡ some tx_in
        → (session' : Session signing) × ((rest : DataBits) × ((script script_sig : Data)
              × ((read : DataBits) × (pack_data_into_p2sh signing key_map suffix_bits fuel draws
                      session bits tx_out tx n_input
                    ≡ some (
                      session',
                      rest,
                      record tx_out { script_pub_key = script },
                      record tx {
                        vin = set tx.vin n_input (record tx_in { script_sig = script_sig });
                      },
                    ))
                  × (unpack_data_from_p2sh signing suffix_bits
                        (record tx_in { script_sig = script_sig })
                      ≡ some read)
                  × IsStored bits rest read
                  × HasSuffixes signing key_map suffix_bits session'.store
                  × IsSpendable signing session'.store script script_sig
                  × Grows signing session.store session'.store)))
    unfolding pack_data_into_p2sh unpack_data_from_p2sh
    unpack_data_from_p2sh-pack_data_into_p2sh lucky session bits tx_out tx n_input tx_in fits
          suffixes inside here =
        let p =
          pack_keys-IsPacked signing key_map suffix_bits fuel draws lucky session.store
            session.calls bits fits suffixes in
        let ks = signing.public_key p.secret ∷ p.others in
        let redeem = signing.set_multisig 1 ks in
        let store = signing.add_script session.store redeem in
        let grows = add_script-Grows signing session.store redeem in
        let redeemable = signing.has_script-add_script session.store redeem in
        let known = grows.0 p.secret p.known in
        let p_few = p.few in
        let (ops, signed, shape) =
          signing.sign_signature-multisig store p.secret p.others tx n_input known redeemable
            (omega arith) (lengths signing ks p.shape) inside in
        let script_sig = signing.script_of (ops ++ (push redeem ∷ [])) in
        (
          record { store = store; calls = session.calls + (length ks - 1) },
          (
            p.rest,
            (
              signing.script_hash redeem,
              script_sig,
              (
                p.read,
                rw (p.returns, here, signed),
                rw
                    (
                      last_push_loop_lem signing ops redeem shape,
                      redeem_keys signing ks (omega arith) p.shape,
                    )
                    (p.back),
                p.stored,
                HasSuffixes-Grows signing key_map suffix_bits session.store store grows suffixes,
                record {
                  secret = p.secret;
                  others = p.others;
                  ops = ops;
                  known = known;
                  redeemable = redeemable;
                  few = omega arith;
                  shape = p.shape;
                  locks = refl;
                  unlocks = refl;
                  is_ops = shape;
                },
                grows,
              ),
            ),
          ),
        )
