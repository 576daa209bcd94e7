-- ===== src/BlockchainInterface/Reading/Blocks.antt =====
-- `ReadTransactions` over blocks: from a transaction on, those that follow it are looked for in the next blocks.
--
-- `get_raw` is getrawtransaction with the hash of the block, `get_block` getblock: the ids of the transactions
-- and the hash of the next block. `none` stands for an exception of the client.
pub mod Following
use mathlib.Core.Path.{subst}
use bitcoin_messaging.Base.{
  ℕ, zero, suc, ◌+◌, ◌*◌, ◌≤◌, ◌<◌, ◌≡◌, refl, sym, ap, ◌∙◌, Bool, true, false, List, [], ◌∷◌, ◌++◌,
  Option, none, some, arith, length, get_elem?, get_elem?-some, All, All-append, ltb, ◌==◌, ==_iff,
  ◌>>=◌, Bool-cases, inl, inr,
}
use bitcoin_messaging.BlockchainInterface.{TxIn, Transaction}
use bitcoin_messaging.BlockchainInterface.Reading.{spent_hash, split_loop}
use bitcoin_messaging.BlockchainInterface.Reading.Linked.{
  last_of, last_of-append, IsFollowed, IsFollowed-append,
}

-- `txs.erase(txs.begin()+j)`
abbrev pub erase : List Transaction → ℕ → List Transaction
erase [] j = []
erase (tx ∷ txs) zero = txs
erase (tx ∷ txs) (suc j) = tx ∷ erase txs j

-- The loop over the references of a block.
pub refs_loop : (ℕ → Option Transaction) → List ℕ → List Transaction → Option (List Transaction)
refs_loop get_transaction [] txs = some txs
refs_loop get_transaction (ref ∷ refs) txs =
    get_transaction ref >>= λ tx. refs_loop get_transaction refs (txs ++ (tx ∷ []))

module _ (get_hash : Transaction → ℕ) where
  -- What is looked for, what is left, and the chain. After a match `j` is set to 0 and then incremented.
  pub scan_loop :
      ℕ
      → ℕ
      → ℕ
      → List Transaction
      → List Transaction
      → Option (ℕ × List Transaction × List Transaction)
  scan_loop zero j tx_begin txs chain = none
  scan_loop (suc fuel) j tx_begin txs chain = elim (ltb j (length txs)) [
    | false ↦ some (tx_begin, txs, chain)
    | true ↦ get_elem? txs j >>= λ tx. spent_hash tx.vin >>= λ hash. elim (hash == tx_begin) [
      | true ↦ scan_loop fuel 1 (get_hash tx) (erase txs j) (chain ++ (tx ∷ []))
      | false ↦ scan_loop fuel (j + 1) tx_begin txs chain
    ]
  ]

  module _ (get_transaction : ℕ → Option Transaction) (get_block : ℕ → Option (List ℕ × ℕ)) where
    -- The loop over the blocks; what is left of one is kept for the next. Every match takes a transaction
    -- away, and between matches the index grows, which bounds the rounds of the scan.
    pub blocks_loop : ℕ → ℕ → ℕ → List Transaction → List Transaction → Option (List Transaction)
    unfolding refs_loop scan_loop
    blocks_loop zero block_hash tx_begin txs chain = some chain
    blocks_loop (suc left) block_hash tx_begin txs chain = get_block block_hash >>= λ block.
        refs_loop get_transaction block.0 txs >>= λ found.
        scan_loop (length found * length found + length found + 2) 0 tx_begin found chain
        >>= λ scanned. blocks_loop left block.1 scanned.0 scanned.1 scanned.2

    -- A message ends at every transaction with one output.
    unfoldable pub read_blocks :
        (ℕ → Option (Transaction × ℕ)) → ℕ → ℕ → Option (List (List Transaction))
    unfolding blocks_loop
    read_blocks get_raw tx_begin n_blocks = do
      raw ← get_raw tx_begin
      chain ← blocks_loop n_blocks raw.1 tx_begin [] (raw.0 ∷ [])
      some (split_loop (λ (tx : Transaction). length tx.vout == 1) chain [] [])
