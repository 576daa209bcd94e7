-- ===== src/BlockchainInterface/Reading/Backwards.antt =====
-- The walk from the last transaction of a chain to its first.
use mathlib.Core.List.{reverse, reverse-append, reverse-reverse}
use bitcoin_messaging.Base.{
  ℕ, zero, suc, ◌≤◌, ◌≡◌, ◌≢◌, sym, ap, ◌∙◌, Bool, false, List, [], ◌∷◌, ◌++◌, Option, some, arith,
  length, append_assoc, length-append, All,
}
use bitcoin_messaging.Types.{Data}
use bitcoin_messaging.BlockchainInterface.{Transaction}
use bitcoin_messaging.BlockchainInterface.Reading.{
  spent_hash, is_last, backwards_loop, read_transactions,
}
use bitcoin_messaging.BlockchainInterface.Reading.Splitting.{
  Message, joined, wholes, split_loop-messages,
}

module _ (get_transaction : ℕ → Option Transaction) where
  -- The transactions from one id to another, each spending an output of the one before it.
  pub data Spends (tx_begin : ℕ) : ℕ → List Transaction → Type 0 where
    first :
        (tx : Transaction) → get_transaction tx_begin ≡ some tx → Spends tx_begin tx_begin (tx ∷ [])
    next :
        (tx_end before : ℕ) (tx : Transaction) (txs : List Transaction)
        → Spends tx_begin before txs
        → get_transaction tx_end ≡ some tx
        → spent_hash tx.vin ≡ some before
        → tx_begin ≢ tx_end
        → Spends tx_begin tx_end (txs ++ (tx ∷ []))

  last_step :
      (fuel tx_begin : ℕ) (tx : Transaction) (chain : List Transaction)
      → get_transaction tx_begin ≡ some tx
      → backwards_loop get_transaction (suc fuel) tx_begin tx_begin chain
        ≡ some (chain ++ (tx ∷ []))
  unfolding backwards_loop
  last_step fuel tx_begin tx chain e = ground arith

  back_step :
      (fuel tx_begin tx_end before : ℕ) (tx : Transaction) (chain : List Transaction)
      → get_transaction tx_end ≡ some tx
      → spent_hash tx.vin ≡ some before
      → tx_begin ≢ tx_end
      → backwards_loop get_transaction (suc fuel) tx_begin tx_end chain
        ≡ backwards_loop get_transaction fuel tx_begin before (chain ++ (tx ∷ []))
  unfolding backwards_loop
  back_step fuel tx_begin tx_end before tx chain e s ne = ground arith

  -- The walk collects the transactions in the opposite order.
  backwards_loop-Spends :
      (fuel tx_begin tx_end : ℕ) (txs chain : List Transaction)
      → Spends tx_begin tx_end txs
      → length txs ≤ fuel
      → backwards_loop get_transaction fuel tx_begin tx_end chain ≡ some (chain ++ reverse txs)
  backwards_loop-Spends zero tx_begin _ _ chain (first tx e) h = absurd (omega arith)
  backwards_loop-Spends (suc fuel) tx_begin _ _ chain (first tx e) h =
      last_step fuel tx_begin tx chain e
  backwards_loop-Spends zero tx_begin tx_end _ chain (next _ before tx txs s e m ne) h =
      absurd (omega (arith, length-append txs (tx ∷ [])))
  backwards_loop-Spends (suc fuel) tx_begin tx_end _ chain (next _ before tx txs s e m ne) h =
      back_step fuel tx_begin tx_end before tx chain e m ne
      ∙ backwards_loop-Spends fuel tx_begin before txs (chain ++ (tx ∷ [])) s
          (omega (arith, length-append txs (tx ∷ [])))
      ∙ ap some (
          append_assoc chain (tx ∷ []) (reverse txs)
          ∙ ap (λ (l : List Transaction). chain ++ l) (sym (reverse-append txs (tx ∷ []))))

  -- If every transaction of a chain is found and spends, by its first input, an output of the one
  -- before it, and the first one's id is not met again, then as many rounds as there are transactions
  -- are enough: the chain is read and split into the messages that it consists of.
  pub read_transactions-messages :
      (is_script_hash : Data → Bool) (fuel tx_begin tx_end : ℕ)
      (ms : List (Message (is_last is_script_hash))) (tail : List Transaction)
      → Spends tx_begin tx_end (joined (is_last is_script_hash) ms tail)
      → length (joined (is_last is_script_hash) ms tail) ≤ fuel
      → All (λ tx. is_last is_script_hash tx ≡ false) tail
      → read_transactions is_script_hash get_transaction fuel tx_begin tx_end
        ≡ some (wholes (is_last is_script_hash) ms)
  unfolding read_transactions
  read_transactions-messages is_script_hash fuel tx_begin tx_end ms tail spends enough h =
      let txs = joined (is_last is_script_hash) ms tail in
      rw (backwards_loop-Spends fuel tx_begin tx_end txs [] spends enough, reverse-reverse txs)
        (ap some (split_loop-messages (is_last is_script_hash) ms tail h))
