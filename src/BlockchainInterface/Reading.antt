-- ===== src/BlockchainInterface/Reading.antt =====
-- `ReadTransactions`, both of its forms: a chain of transactions is read and split where a message ends.
--
-- The wallet's `getrawtransaction` with the decoding of its answer is the parameter `get_transaction`;
-- `none` stands for its exception. The test for a script hash, IsPayToScriptHash, is one, too.
pub mod Backwards
pub mod Splitting
pub mod Linked
pub mod Blocks
use mathlib.Core.List.{reverse}
use bitcoin_messaging.Base.{
  ℕ, zero, suc, Bool, true, false, List, [], ◌∷◌, ◌++◌, Option, none, some, length, ◌==◌, ◌>>=◌,
  ◌&&◌, not,
}
use bitcoin_messaging.Types.{Data}
use bitcoin_messaging.BlockchainInterface.{TxIn, TxOut, Transaction}

-- `vin[0].prevout.hash`, out of range if there is no input.
abbrev pub spent_hash : List TxIn → Option ℕ
spent_hash [] = none
spent_hash (i ∷ ins) = some i.prevout.hash

-- `vout.size() == 1 && !vout.front().scriptPubKey.IsPayToScriptHash()`
unfoldable pub is_last : (Data → Bool) → Transaction → Bool
is_last is_script_hash tx = elim tx.vout [
  | [] ↦ false
  | ◌∷◌ out outs ↦ length outs == 0 && not (is_script_hash out.script_pub_key)
]

-- `while (TxBegin != TxEnd)`, then the transaction that it ends at. `none` without an exception is a
-- walk that the fuel does not finish: one that misses `tx_begin`.
pub backwards_loop :
    (ℕ → Option Transaction) → ℕ → ℕ → ℕ → List Transaction → Option (List Transaction)
backwards_loop get_transaction zero tx_begin tx_end chain = none
backwards_loop get_transaction (suc fuel) tx_begin tx_end chain = get_transaction tx_end >>= λ tx.
    elim (tx_begin == tx_end) [
      | true ↦ some (chain ++ (tx ∷ []))
      | false ↦ spent_hash tx.vin >>= λ hash.
          backwards_loop get_transaction fuel tx_begin hash (chain ++ (tx ∷ []))
    ]

-- `current` runs from `start` up to `it`; what stands behind the last end is dropped.
pub split_loop :
    (Transaction → Bool)
    → List Transaction
    → List Transaction
    → List (List Transaction)
    → List (List Transaction)
split_loop ends [] current chains = chains
split_loop ends (tx ∷ txs) current chains = elim (ends tx) [
  | true ↦ split_loop ends txs [] (chains ++ ((current ++ (tx ∷ [])) ∷ []))
  | false ↦ split_loop ends txs (current ++ (tx ∷ [])) chains
]

unfoldable pub read_transactions :
    (Data → Bool) → (ℕ → Option Transaction) → ℕ → ℕ → ℕ → Option (List (List Transaction))
unfolding backwards_loop split_loop is_last
read_transactions is_script_hash get_transaction fuel tx_begin tx_end = do
  chain ← backwards_loop get_transaction fuel tx_begin tx_end []
  some (split_loop (is_last is_script_hash) (reverse chain) [] [])
