-- ===== src/Tests/Messages.antt =====
-- Reading and Optimizing at concrete inputs.
use bitcoin_messaging.Base.{
  ℕ, ◌+◌, List, length, ◌≡◌, refl, Bool, false, [], ◌∷◌, Option, none, some, arith, ◌==◌,
  if◌then◌else◌,
}
use bitcoin_messaging.Types.{Data}
use bitcoin_messaging.BlockchainInterface.{Transaction}
use bitcoin_messaging.BlockchainInterface.Reading.{is_last, read_transactions, split_loop}
use bitcoin_messaging.BlockchainInterface.Reading.Linked.{IsFollowed}
use bitcoin_messaging.BlockchainInterface.Reading.Blocks.{read_blocks}
use bitcoin_messaging.BlockchainInterface.Reading.Blocks.Following.{read_blocks-IsFollowed}
use bitcoin_messaging.BlockchainInterface.Reading.Splitting.{Message, wholes, joined}
use bitcoin_messaging.BlockchainInterface.Reading.Backwards.{
  Spends, first, next, read_transactions-messages,
}
use bitcoin_messaging.BlockchainInterface.Optimizing.{
  Parameters, Config, optimize_params, IsOptimal, optimize_params-IsOptimal,
}
use bitcoin_messaging.Tests.Models.{log2}
use bitcoin_messaging.Tests.Packing.{plain_in, plain_out, three_bits, direct_push}

abbrev never : Data → Bool
never script = false

abbrev tx1 : Transaction
tx1 = record { vin = plain_in ∷ []; vout = plain_out ∷ plain_out ∷ [] }

-- The input of `plain_in` spends an output of transaction 7.
abbrev tx2 : Transaction
tx2 = record { vin = plain_in ∷ []; vout = plain_out ∷ [] }

abbrev stored : ℕ → Option Transaction
stored id = if id == 7 then some tx1 else (if id == 9 then some tx2 else none)

message : Message (is_last never)
unfolding is_last
message = record { body = tx1 ∷ []; last = tx2; goes_on = (refl, tt); stops = refl }

chain-Spends : Spends stored 7 9 (joined (is_last never) (message ∷ []) [])
unfolding message
chain-Spends = next 9 7 tx2 (tx1 ∷ []) (first tx1 refl) refl refl (λ e. omega arith)

read_transactions-messages_example :
    read_transactions never stored 2 7 9 ≡ some (wholes (is_last never) (message ∷ []))
unfolding message
read_transactions-messages_example =
    read_transactions-messages stored never 2 7 9 (message ∷ []) [] chain-Spends (omega arith) tt

abbrev config : Config
config = record {
  suffix_bits = 8;
  random_suffix_bits = 5;
  fee_rate = 10000;
  out_of_range = λ fee. 0;
}

abbrev no_params : Parameters
no_params = record { n_script_hash = 0; n_nulldata = 0; n_fees = 0 }

optimize_params-IsOptimal_example :
    IsOptimal log2 direct_push
      (λ tx. 200)
      config
      tx1
      three_bits
      1000
      (optimize_params log2 direct_push (λ tx. 200) config tx1 three_bits 1000 no_params)
optimize_params-IsOptimal_example =
    optimize_params-IsOptimal log2 direct_push (λ tx. 200) config tx1 three_bits 1000 no_params
      (omega arith)

-- Every block has transaction 9, which spends an output of transaction 7.
abbrev hash_of : Transaction → ℕ
hash_of tx = 5 + length tx.vout

abbrev every_block : ℕ → Option (List ℕ × ℕ)
every_block hash = some (9 ∷ [], hash + 1)

abbrev same_tx : ℕ → Option Transaction
same_tx ref = some tx2

abbrev first_raw : ℕ → Option (Transaction × ℕ)
first_raw id = some (tx1, 100)

read_blocks-IsFollowed_example :
    (rest : List Transaction) × (read_blocks hash_of same_tx every_block first_raw 7 3
      ≡ some (split_loop (λ (t : Transaction). length t.vout == 1) (tx1 ∷ rest) [] []))
    × IsFollowed hash_of (tx1 ∷ rest)
read_blocks-IsFollowed_example =
    read_blocks-IsFollowed hash_of same_tx every_block (λ ref. (tx2, refl, omega arith))
      (λ hash. ((9 ∷ [], hash + 1), refl)) first_raw 7 3 100 tx1 refl refl
