-- ===== src/BlockchainInterface/Signing.antt =====
-- What the chains of transactions use of the Bitcoin client: scripts, secret keys, the keystore and the
-- signing of an input.
use bitcoin_messaging.Base.{
  ℕ, ◌+◌, ◌≤◌, ◌<◌, ◌≡◌, Bool, true, List, [], ◌∷◌, ◌++◌, Option, some, length, map, All,
}
use bitcoin_messaging.Types.{Data}
use bitcoin_messaging.DataInterface.{PubKeys}
use bitcoin_messaging.BlockchainInterface.{Transaction}

-- One operation of a script: an opcode by itself, or bytes that are pushed.
pub data Op : Type 0 where
  opcode : ℕ → Op
  push : Data → Op

abbrev pub op_data : Op → Data
op_data (opcode code) = []
op_data (push bytes) = bytes

-- The operations of standard scripts: a push of at most 520 bytes, and opcodes behind the pushes.
abbrev pub IsOp : Op → Type 0
IsOp (opcode code) = (0x4F ≤ code) × (code < 256)
IsOp (push bytes) = length bytes ≤ 520

pub record Signing (keys : PubKeys) : Type 1 where
  -- The bytes of operations in a row, and GetOp: whether it succeeds, the bytes behind the operation,
  -- and the data that it pushes.
  pub script_of : List Op → Data
  pub get_op : Data → Bool × Data × Data
  pub script_of-nil : script_of [] ≡ []
  pub script_of-cons : (op : Op) (ops : List Op) → 0 < length (script_of (op ∷ ops))
  pub get_op-script_of :
      (op : Op) (ops : List Op)
      → IsOp op
      → get_op (script_of (op ∷ ops)) ≡ (true, script_of ops, op_data op)
  pub get_op-shorter :
      (script : Data)
      → 0 < length script
      → (get_op script).0 ≡ true
      → length (get_op script).1 < length script
  -- CKey with GetPubKey, and SetMultisig: the required number, the keys, their number and
  -- OP_CHECKMULTISIG.
  pub Secret : Type 0
  pub public_key : Secret → keys.Key
  pub set_multisig : ℕ → List keys.Key → Data
  pub set_multisig-ops :
      (n : ℕ) (pubkeys : List keys.Key)
      → n ≤ 16
      → length pubkeys ≤ 16
      → set_multisig n pubkeys
        ≡ script_of (
            opcode (0x50 + n)
            ∷ (map (λ (k : keys.Key). push (keys.bytes k)) pubkeys
                ++ (opcode (0x50 + length pubkeys) ∷ opcode 0xAE ∷ [])))
  -- CBasicKeyStore with AddKey and AddCScript; the script of a destination that is a script's hash; and
  -- SignSignature, which gives the input's new script, or fails.
  pub Store : Type 0
  pub has_key : Store → Secret → Bool
  pub add_script : Store → Data → Store
  pub has_key-add_script :
      (store : Store) (script : Data) (secret : Secret)
      → has_key store secret ≡ true
      → has_key (add_script store script) secret ≡ true
  -- HaveCScript. A store finds scripts by their hashes, of which no two scripts share one.
  pub has_script : Store → Data → Bool
  pub has_script-add_script :
      (store : Store) (script : Data) → has_script (add_script store script) script ≡ true
  pub has_script-add_other :
      (store : Store) (script other : Data)
      → has_script store script ≡ true
      → has_script (add_script store other) script ≡ true
  pub add_key : Store → Secret → Store
  pub has_key-add_key :
      (store : Store) (secret : Secret) → has_key (add_key store secret) secret ≡ true
  pub has_key-add_other :
      (store : Store) (other secret : Secret)
      → has_key store secret ≡ true
      → has_key (add_key store other) secret ≡ true
  pub script_hash : Data → Data
  pub sign_signature : Store → Data → Transaction → ℕ → Option Data
  -- With the redeem script and one of its keys in the store, an input is signed by a script whose last
  -- push is the redeem script.
  pub sign_signature-multisig :
      (store : Store) (secret : Secret) (others : List keys.Key) (tx : Transaction) (n : ℕ)
      → has_key store secret ≡ true
      → has_script store (set_multisig 1 (public_key secret ∷ others)) ≡ true
      → length others ≤ 14
      → All (λ (k : keys.Key). length (keys.bytes k) ≡ 33) (public_key secret ∷ others)
      → n < length tx.vin
      → (ops : List Op) × (sign_signature store
            (script_hash (set_multisig 1 (public_key secret ∷ others)))
            tx
            n
          ≡ some (script_of (ops ++ (push (set_multisig 1 (public_key secret ∷ others)) ∷ []))))
        × All IsOp (ops ++ (push (set_multisig 1 (public_key secret ∷ others)) ∷ []))
