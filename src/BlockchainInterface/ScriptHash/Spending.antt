-- ===== src/BlockchainInterface/ScriptHash/Spending.antt =====
-- Outputs that are locked by a script's hash and inputs that unlock them: what is read from such an input
-- depends on the redeem script alone, so a new signature keeps it.
use bitcoin_messaging.Base.{
  ℕ, ◌+◌, ◌≤◌, ◌<◌, ◌≡◌, refl, sym, ap, ◌∙◌, true, List, [], ◌∷◌, ◌++◌, some, arith, All,
  All-append, length, map, ==_iff,
}
use bitcoin_messaging.Types.{Data}
use bitcoin_messaging.DataInterface.{PubKeys}
use bitcoin_messaging.DataInterface.Pubkey.{IsCompressed}
use bitcoin_messaging.BlockchainInterface.{TxIn, Transaction}
use bitcoin_messaging.BlockchainInterface.Signing.{Op, opcode, push, IsOp, Signing}
use bitcoin_messaging.BlockchainInterface.ScriptHash.{
  KeypairMap, pubkeys_loop, unpack_keys, unpack_data_from_p2sh,
}
use bitcoin_messaging.BlockchainInterface.ScriptHash.Parsing.{
  last_push_loop_lem, found_keys, pubkeys_loop_lem,
}
use bitcoin_messaging.BlockchainInterface.ScriptHash.Keys.{reread, length-bytes, HasSuffixes}

module _ {keys : PubKeys} (signing : Signing keys) where
  abbrev pushes : List keys.Key → List Op
  pushes ks = map (λ (k : keys.Key). push (keys.bytes k)) ks

  abbrev multisig_ops : List keys.Key → List Op
  multisig_ops ks =
      opcode (0x50 + 1) ∷ (pushes ks ++ (opcode (0x50 + length ks) ∷ opcode 0xAE ∷ []))

  pushes-found :
      (n : ℕ) (ks : List keys.Key)
      → All (IsCompressed keys) ks
      → found_keys signing (pushes ks ++ (opcode n ∷ opcode 0xAE ∷ [])) ≡ map (reread keys) ks
  pushes-found n [] h = refl
  pushes-found n (k ∷ ks) (hk, h) =
      rw ((==_iff (length (keys.bytes k)) 33).1 (length-bytes keys k hk))
        (ap (λ l. reread keys k ∷ l) (pushes-found n ks h))

  pushes-IsOp : (ks : List keys.Key) → All (IsCompressed keys) ks → All IsOp (pushes ks)
  pushes-IsOp [] h = tt
  pushes-IsOp (k ∷ ks) (hk, h) = (omega (arith, length-bytes keys k hk), pushes-IsOp ks h)

  multisig_ops-IsOp :
      (ks : List keys.Key)
      → length ks ≤ 16
      → All (IsCompressed keys) ks
      → All IsOp (multisig_ops ks)
  multisig_ops-IsOp ks few h = (
    omega arith,
    All-append IsOp (pushes ks) (opcode (0x50 + length ks) ∷ opcode 0xAE ∷ []) (pushes-IsOp ks h)
        (omega arith),
  )

  pub lengths :
      (ks : List keys.Key)
      → All (IsCompressed keys) ks
      → All (λ (k : keys.Key). length (keys.bytes k) ≡ 33) ks
  lengths [] h = tt
  lengths (k ∷ ks) (hk, h) = (length-bytes keys k hk, lengths ks h)

  -- The keys that are read from a redeem script are those that it was made of.
  pub redeem_keys :
      (ks : List keys.Key)
      → length ks ≤ 16
      → All (IsCompressed keys) ks
      → pubkeys_loop signing (length (signing.set_multisig 1 ks)) (signing.set_multisig 1 ks) []
        ≡ map (reread keys) ks
  redeem_keys ks few h =
      ap (λ (s : Data). pubkeys_loop signing (length s) s [])
        (signing.set_multisig-ops 1 ks (omega arith) few)
      ∙ pubkeys_loop_lem signing (multisig_ops ks) (multisig_ops-IsOp ks few h)
      ∙ pushes-found (0x50 + length ks) ks h

  -- What one store knows the other one knows, too.
  abbrev pub Grows : signing.Store → signing.Store → Type 0
  Grows store store' =
      ((secret : signing.Secret)
        → signing.has_key store secret ≡ true
        → signing.has_key store' secret ≡ true)
      × ((script : Data)
          → signing.has_script store script ≡ true
          → signing.has_script store' script ≡ true)

  pub Grows-trans :
      (store store' store'' : signing.Store)
      → Grows store store'
      → Grows store' store''
      → Grows store store''
  Grows-trans store store' store'' (k, s) (k', s') =
      (λ secret h. k' secret (k secret h), λ script h. s' script (s script h))

  pub add_script-Grows :
      (store : signing.Store) (script : Data) → Grows store (signing.add_script store script)
  add_script-Grows store script = (
    signing.has_key-add_script store script,
    λ other h. signing.has_script-add_other store other script h,
  )

  pub HasSuffixes-Grows :
      (key_map : KeypairMap signing) (suffix_bits : ℕ) (store store' : signing.Store)
      → Grows store store'
      → HasSuffixes signing key_map suffix_bits store
      → HasSuffixes signing key_map suffix_bits store'
  HasSuffixes-Grows key_map suffix_bits store store' grows suffixes slice size =
      let (secret, found, form, ends, known) = suffixes slice size in
      (secret, found, form, ends, grows.0 secret known)

  -- The output is locked by a redeem script that the store has, with a key that it has, and the input's
  -- script ends with it.
  pub record IsSpendable (store : signing.Store) (script script_sig : Data) : Type 0 where
    pub secret : signing.Secret
    pub others : List keys.Key
    pub ops : List Op
    pub known : signing.has_key store secret ≡ true
    pub redeemable :
        signing.has_script store (signing.set_multisig 1 (signing.public_key secret ∷ others))
        ≡ true
    pub few : length others ≤ 14
    pub shape : All (IsCompressed keys) (signing.public_key secret ∷ others)
    pub locks :
        script ≡ signing.script_hash (signing.set_multisig 1 (signing.public_key secret ∷ others))
    pub unlocks :
        script_sig
        ≡ signing.script_of
            (ops ++ (push (signing.set_multisig 1 (signing.public_key secret ∷ others)) ∷ []))
    pub is_ops :
        All IsOp (ops ++ (push (signing.set_multisig 1 (signing.public_key secret ∷ others)) ∷ []))

  pub IsSpendable-Grows :
      (store store' : signing.Store) (script script_sig : Data)
      → Grows store store'
      → IsSpendable store script script_sig
      → IsSpendable store' script script_sig
  IsSpendable-Grows store store' script script_sig (k, s) c = record {
    secret = c.secret;
    others = c.others;
    ops = c.ops;
    known = k c.secret c.known;
    redeemable = s (signing.set_multisig 1 (signing.public_key c.secret ∷ c.others)) c.redeemable;
    few = c.few;
    shape = c.shape;
    locks = c.locks;
    unlocks = c.unlocks;
    is_ops = c.is_ops;
  }

  -- What is read from such an input.
  pub unpack_data_from_p2sh-IsSpendable :
      (store : signing.Store) (script script_sig : Data) (suffix_bits : ℕ) (tx_in : TxIn)
      (c : IsSpendable store script script_sig)
      → unpack_data_from_p2sh signing suffix_bits (record tx_in { script_sig = script_sig })
        ≡ unpack_keys signing suffix_bits
            (map (reread keys) (signing.public_key c.secret ∷ c.others))
  unfolding unpack_data_from_p2sh
  unpack_data_from_p2sh-IsSpendable store script script_sig suffix_bits tx_in c =
      let ks = signing.public_key c.secret ∷ c.others in
      let few = c.few in
      rw (c.unlocks, last_push_loop_lem signing c.ops (signing.set_multisig 1 ks) c.is_ops)
        (ap (unpack_keys signing suffix_bits) (redeem_keys ks (omega arith) c.shape))

  -- Such an output is signed for by any input, and what was read from the old input is read from the new
  -- one.
  pub sign_signature-IsSpendable :
      (store : signing.Store) (script script_sig : Data) (suffix_bits : ℕ) (tx_in : TxIn)
      (tx : Transaction) (n : ℕ)
      → IsSpendable store script script_sig
      → n < length tx.vin
      → (script_sig' : Data) × (signing.sign_signature store script tx n ≡ some script_sig')
        × IsSpendable store script script_sig'
        × (unpack_data_from_p2sh signing suffix_bits (record tx_in { script_sig = script_sig' })
            ≡ unpack_data_from_p2sh signing suffix_bits (record tx_in { script_sig = script_sig }))
  sign_signature-IsSpendable store script script_sig suffix_bits tx_in tx n c inside =
      let redeem = signing.set_multisig 1 (signing.public_key c.secret ∷ c.others) in
      let (ops, signed, shape) =
        signing.sign_signature-multisig store c.secret c.others tx n c.known c.redeemable c.few
          (lengths (signing.public_key c.secret ∷ c.others) c.shape) inside in
      let script_sig' = signing.script_of (ops ++ (push redeem ∷ [])) in
      let c' : IsSpendable store script script_sig' = record {
        secret = c.secret;
        others = c.others;
        ops = ops;
        known = c.known;
        redeemable = c.redeemable;
        few = c.few;
        shape = c.shape;
        locks = c.locks;
        unlocks = refl;
        is_ops = shape;
      } in
      (
        script_sig',
        rw (c.locks) signed,
        c',
        unpack_data_from_p2sh-IsSpendable store script script_sig' suffix_bits tx_in c'
            ∙ sym (unpack_data_from_p2sh-IsSpendable store script script_sig suffix_bits tx_in c),
      )
