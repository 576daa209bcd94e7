-- ===== src/Tests/Funds.antt =====
-- Selecting at concrete inputs.
use mathlib.Core.List.{Perm}
use mathlib.Core.List.Perm
use bitcoin_messaging.Base.{
  ℕ, ◌+◌, ◌*◌, length, ◌≤◌, ◌≡◌, ◌⊎◌, refl, Bool, List, [], ◌∷◌, ◌++◌, some, arith, ltb,
}
use bitcoin_messaging.BlockchainInterface.Selecting.{
  Unspent, InitInputs, select_inputs, IsListing, select_inputs-reached,
}
use bitcoin_messaging.BlockchainInterface.{OutPoint, Transaction}
use bitcoin_messaging.BlockchainInterface.Selecting.Continuing.{select_inputs-continues}
use bitcoin_messaging.Utilities.Minimum.{chain_fee}
use bitcoin_messaging.Utilities.Bounds.{all_bytes, chain_fee-bounds}
use bitcoin_messaging.Tests.Packing.{plain_out}
use bitcoin_messaging.Tests.Chains.{config}

abbrev whole_satoshi : ℕ → ℕ
whole_satoshi amount = amount

abbrev outputs : List (Unspent whole_satoshi)
outputs =
    record { txid = 4; n = 1; amount = 90 }
    ∷ record { txid = 5; n = 0; amount = 60 }
    ∷ record { txid = 6; n = 2; amount = 30 }
    ∷ []

abbrev below : ℕ → Bool
below n_min = ltb 180 n_min

select_inputs-reached_example :
    (params : InitInputs whole_satoshi) × ((chosen : List (Unspent whole_satoshi)) × ((others : List
          (Unspent whole_satoshi))
        × (select_inputs whole_satoshi (λ us. us) below outputs 5 100 ≡ some params)
        × Perm (chosen ++ others) outputs
        × IsListing whole_satoshi chosen params
        × ((100 ≤ params.budget) ⊎ (others ≡ []))))
select_inputs-reached_example =
    select_inputs-reached whole_satoshi (λ us. us) (λ us. Perm.refl us) below outputs 5 100 refl
      (omega arith)

select_inputs-continues_example :
    (params : InitInputs whole_satoshi) × ((rest : List OutPoint) × (select_inputs whole_satoshi
          (λ us. us)
          below
          outputs
          5
          100
        ≡ some params)
      × (params.utxo ≡ record { hash = 5; n = 0 } ∷ rest))
select_inputs-continues_example =
    select_inputs-continues whole_satoshi (λ us. us) (λ us. Perm.refl us) below outputs 5 100 refl
      refl

abbrev half_kilobytes : Transaction → ℕ
half_kilobytes tx = 500 * length tx.vout

abbrev two_txs : List Transaction
two_txs =
    record { vin = []; vout = plain_out ∷ plain_out ∷ plain_out ∷ [] }
    ∷ record { vin = []; vout = plain_out ∷ [] }
    ∷ []

chain_fee-bounds_example :
    (100 * all_bytes half_kilobytes config two_txs ≤ 1000 * chain_fee half_kilobytes config two_txs)
    × (1000 * chain_fee half_kilobytes config two_txs
        ≤ 100 * (all_bytes half_kilobytes config two_txs + 999 * length two_txs))
chain_fee-bounds_example =
    chain_fee-bounds half_kilobytes config two_txs (omega arith) (omega arith)
