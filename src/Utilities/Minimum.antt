-- ===== src/Utilities/Minimum.antt =====
-- The fee of a chain of transactions, and `MinimumBudget`.
use bitcoin_messaging.Base.{ℕ, ◌+◌, ◌*◌, Bool, List, [], ◌∷◌, Option, some, false, replicate, ◌>>=◌}
use bitcoin_messaging.Types.{Data}
use bitcoin_messaging.Maths.{u64}
use bitcoin_messaging.DataInterface.{PubKeys}
use bitcoin_messaging.Utilities.Fees.{transaction_fee}
use bitcoin_messaging.BlockchainInterface.{Transaction, Scripts}
use bitcoin_messaging.BlockchainInterface.Optimizing.{Parameters, Config}
use bitcoin_messaging.BlockchainInterface.Signing.{Signing}
use bitcoin_messaging.BlockchainInterface.ScriptHash.{KeypairMap, Session}
use bitcoin_messaging.BlockchainInterface.Embedding.{embed_data}

unfoldable pub chain_fee_loop : (Transaction → ℕ) → Config → List Transaction → ℕ → ℕ
unfolding transaction_fee
chain_fee_loop size config [] fee = fee
chain_fee_loop size config (tx ∷ chain) fee =
    chain_fee_loop size config chain (u64 (fee + transaction_fee size config tx))

unfoldable pub chain_fee : (Transaction → ℕ) → Config → List Transaction → ℕ
unfolding chain_fee_loop
chain_fee size config chain = chain_fee_loop size config chain 0

-- The chain is embedded to measure it: `nobody` is the script of the empty address. What that leaves in the
-- keystore stays there.
unfoldable pub minimum_budget :
    {keys : PubKeys} (signing : Signing keys) (floor_log2 : ℕ → ℕ) (round_root : ℕ → ℕ → ℕ)
    (scripts : Scripts) (size : Transaction → ℕ) (config : Config) (key_map : KeypairMap signing)
    (fuel : ℕ) (draws : ℕ → ℕ → ℕ → Bool) (session : Session signing) (params : Parameters)
    (nobody : Data) (n_bits : ℕ)
    → Option (Session signing × ℕ)
unfolding chain_fee
minimum_budget signing floor_log2 round_root scripts size config key_map fuel draws session params
      nobody n_bits =
    do
      embedded ←
          embed_data signing floor_log2 round_root scripts size config key_map fuel draws session
            params (replicate n_bits false) 0 [] nobody
      some (embedded.0, u64 (chain_fee size config embedded.1 + 2 * config.fee_rate))
