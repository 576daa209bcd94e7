-- ===== src/Messages/Commands.antt =====
-- src/Main.cpp: the two commands, and what they use of the Bitcoin client.
use bitcoin_messaging.Base.{
  ℕ, ◌≡◌, ◌≢◌, Bool, true, false, List, [], ◌∷◌, Option, none, some, length, map, All, ◌>>=◌, ◌>>◌,
  assert,
}
use bitcoin_messaging.Types.{DataBits, Data}
use bitcoin_messaging.DataCompression.{HuffCodeMap, transform_char_domain, compress}
use bitcoin_messaging.DataInterface.{PubKeys}
use bitcoin_messaging.BlockchainInterface.{OutPoint, TxIn, Transaction, Scripts, u32}
use bitcoin_messaging.BlockchainInterface.Optimizing.{Parameters, Config}
use bitcoin_messaging.BlockchainInterface.Signing.{Signing}
use bitcoin_messaging.BlockchainInterface.ScriptHash.{KeypairMap, Session}
use bitcoin_messaging.BlockchainInterface.Selecting.{Unspent, select_inputs}
use bitcoin_messaging.BlockchainInterface.Embedding.{embed_data}
use bitcoin_messaging.BlockchainInterface.Authorizing.{authorize_transactions, send_transactions}
use bitcoin_messaging.BlockchainInterface.Reading.{read_transactions}
use bitcoin_messaging.BlockchainInterface.Reading.Linked.{last_of, IsFollowed}
use bitcoin_messaging.Utilities.Minimum.{minimum_budget}
use bitcoin_messaging.Serialization.{codes, config_at, Archive}
use bitcoin_messaging.Utilities.State.{
  Disk, Globals, load_config_file, load_huffman_code, load_keypair_map, load_keystore, load_wallet,
  is_bitcoin_running, unload_config_file, unload_huffman_code, unload_keypair_map, unload_keystore,
  unload_wallet, update_chainstate,
}
use bitcoin_messaging.Messages.{read_message}

-- The wallet and the client: GetHash, its hexadecimal digits, IsPayToScriptHash, whether walletpassphrase
-- and walletlock succeed, signrawtransaction, sendrawtransaction, and getrawtransaction after transactions were sent.
pub record Client : Type 0 where
  pub get_hash : Transaction → ℕ
  pub get_hex : ℕ → Data
  pub is_script_hash : Data → Bool
  pub unlocks : Bool
  pub locks : Bool
  pub sign_raw : Transaction → Option (Transaction × Bool)
  pub send : Transaction → Bool
  pub get_transaction : List Transaction → ℕ → Option Transaction

-- A client that is unlocked and locked again, signs every transaction completely without a change of its outputs and of what
-- it spends, accepts every transaction, and finds transactions that were sent by their ids. An id depends
-- on those that the inputs spend, so along a chain the first one is not met again.
pub record IsWorking {keys : PubKeys} (signing : Signing keys) (client : Client) : Type 0 where
  pub unlocked : client.unlocks ≡ true
  pub locked : client.locks ≡ true
  pub signs :
      (tx : Transaction)
      → (signed : Transaction) × (client.sign_raw tx ≡ some (signed, true))
        × (signed.vout ≡ tx.vout)
        × (map (λ (i : TxIn). i.prevout) signed.vin ≡ map (λ (i : TxIn). i.prevout) tx.vin)
  pub accepts : (tx : Transaction) → client.send tx ≡ true
  pub finds :
      (chain : List Transaction)
      → IsFollowed client.get_hash chain
      → All
          (λ (tx : Transaction). client.get_transaction chain (client.get_hash tx) ≡ some tx)
          chain
  pub fresh :
      (tx : Transaction) (txs : List Transaction)
      → IsFollowed client.get_hash (tx ∷ txs)
      → All (λ (u : Transaction). client.get_hash tx ≢ client.get_hash u) txs
  pub hashes : (redeem : Data) → client.is_script_hash (signing.script_hash redeem) ≡ true

module _ {keys : PubKeys} (signing : Signing keys) (floor_log2 : ℕ → ℕ) (round_root : ℕ → ℕ → ℕ)
    (scripts : Scripts) (size : Transaction → ℕ) (config : Config) (key_map : KeypairMap signing)
    (fuel : ℕ) (draws : ℕ → ℕ → ℕ → Bool) (client : Client) where
  -- The command W from EmbedData on: the chain, what of it was sent, and whether that was all.
  unfoldable pub send_message :
      Session signing
      → Parameters
      → DataBits
      → ℕ
      → List OutPoint
      → Data
      → Option (Session signing × List Transaction × (List Transaction × Bool))
  send_message session params compressed_data budget utxo addr = do
    embedded ←
        embed_data signing floor_log2 round_root scripts size config key_map fuel draws session
          params compressed_data budget utxo addr
    assert client.unlocks
    chain ←
        authorize_transactions signing client.get_hash client.sign_raw embedded.0.store embedded.1
    assert client.locks
    some (embedded.0, chain, send_transactions client.send chain)

  -- The loop over the chains that were read.
  unfoldable pub read_loop : HuffCodeMap → List (List Transaction) → Option (List Data)
  read_loop codes [] = some []
  read_loop codes (chain ∷ chains) =
      read_message signing floor_log2 round_root scripts size config key_map fuel draws codes chain
      >>= λ text. read_loop codes chains >>= λ texts. some (text ∷ texts)

  -- The command R: `steps` bounds the walk from the last transaction to the first.
  unfoldable pub read_command :
      HuffCodeMap → (ℕ → Option Transaction) → ℕ → ℕ → ℕ → Option (List Data)
  unfolding read_loop
  read_command codes get_transaction steps tx_begin tx_end = do
    chains ← read_transactions client.is_script_hash get_transaction steps tx_begin tx_end
    read_loop codes chains

  -- What is left after the command W: without `finished` there was an exception, after some transactions
  -- had been sent.
  pub record Written : Type 0 where
    pub sent : List Transaction
    pub finished : Bool
    pub globals : Globals signing
    pub disk : Disk

  -- `UpdateChainstate`, if all transactions were sent.
  unfoldable pub finish_message :
      Globals signing → Disk → List Transaction → List Transaction × Bool → Option Written
  finish_message globals disk [] sent = none
  finish_message globals disk (tx ∷ txs) (sent, false) =
      some (record { sent = sent; finished = false; globals = globals; disk = disk })
  finish_message globals disk (tx ∷ txs) (sent, true) = do
    updated ←
        update_chainstate signing (client.get_hex (client.get_hash tx))
          (client.get_hex (client.get_hash (last_of tx txs))) disk globals
    some (record { sent = sent; finished = true; globals = updated.0; disk = updated.1 })

module _ {keys : PubKeys} (signing : Signing keys) (floor_log2 : ℕ → ℕ) (round_root : ℕ → ℕ → ℕ)
    (scripts : Scripts) (size : Transaction → ℕ) (config : Config) (fuel : ℕ)
    (draws : ℕ → ℕ → ℕ → Bool) (client : Client) where
  -- The command W. The wallet gives `list_unspent` and the address `addr`; `nobody` is the script of the
  -- empty address, `get_id` reads the digits of an id, and `calls` counts the draws so far.
  unfoldable pub write_command :
      {Amount : Type 0} (satoshi : Amount → ℕ)
      (sort : List (Unspent satoshi) → List (Unspent satoshi)) (balance_below : ℕ → Bool)
      (list_unspent : List (Unspent satoshi)) (get_id : Data → ℕ) (nobody addr text : Data)
      (params : Parameters) (calls : ℕ) (globals : Globals signing) (disk : Disk)
      → Option (
          Written signing floor_log2 round_root scripts size config globals.key_map fuel draws
            client)
  unfolding send_message finish_message
  write_command satoshi sort balance_below list_unspent get_id nobody addr text params calls globals
        disk =
      do
        compressed_data ← compress (transform_char_domain text) globals.huff_code
        measured ←
            minimum_budget signing floor_log2 round_root scripts size config globals.key_map fuel
              draws (record { store = globals.store; calls = calls }) params nobody
              (u32 (length compressed_data))
        last_tx ← config_at (codes "State.LastTx") globals.config
        inputs ← select_inputs satoshi sort balance_below list_unspent (get_id last_tx) measured.1
        written ←
            send_message signing floor_log2 round_root scripts size config globals.key_map fuel
              draws client measured.0 params compressed_data inputs.budget inputs.utxo addr
        finish_message signing floor_log2 round_root scripts size config globals.key_map fuel draws
            client (record globals { store = written.0.store }) disk written.1 written.2

module _ {keys : PubKeys} (signing : Signing keys) (is_empty : signing.Store → Bool)
    (no_keys : signing.Store) where
  -- What both commands begin with: the loads in a row, and the test of the daemon.
  unfoldable pub start_up :
      (archive : Archive signing.Secret) (stoi : Data → Option ℕ) (fresh : ℕ → signing.Secret)
      (key_fuel : ℕ) (options : Data → Option (List (Data × Data)))
      (restore : Data → Option HuffCodeMap) (answers : Bool)
      → Disk
      → Globals signing
      → Option (Globals signing × Disk)
  start_up archive stoi fresh key_fuel options restore answers disk globals = do
    configured ← load_config_file signing options disk globals
    coded ← load_huffman_code signing restore disk configured
    mapped ← load_keypair_map signing archive stoi fresh key_fuel disk coded
    connected ← load_wallet signing stoi (load_keystore signing is_empty no_keys mapped.0)
    assert (is_bitcoin_running signing answers connected)
    some (connected, mapped.1)

  -- What both end with, also after an exception.
  unfoldable pub unload_all : Globals signing → Globals signing
  unload_all globals = unload_wallet signing (
      unload_keystore signing is_empty no_keys (
        unload_keypair_map signing
          (unload_huffman_code signing (unload_config_file signing globals))))
