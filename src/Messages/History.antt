-- ===== src/Messages/History.antt =====
-- src/Main.cpp: commands W in a row, and a command R from the first to the last of them.
use bitcoin_messaging.Base.{ℕ, ◌≡◌, Bool, true, Option, none, List, [], ◌∷◌, ◌++◌, some, All}
use bitcoin_messaging.Types.{DataBits, Data}
use bitcoin_messaging.DataCompression.{transform_char_domain}
use bitcoin_messaging.DataCompression.Shipped.{shipped_codes}
use bitcoin_messaging.DataInterface.{PubKeys}
use bitcoin_messaging.BlockchainInterface.{OutPoint, Transaction, Scripts}
use bitcoin_messaging.BlockchainInterface.Optimizing.{Parameters, Config}
use bitcoin_messaging.BlockchainInterface.Signing.{Signing}
use bitcoin_messaging.BlockchainInterface.ScriptHash.{KeypairMap, Session}
use bitcoin_messaging.BlockchainInterface.ScriptHash.Keys.{HasSuffixes}
use bitcoin_messaging.BlockchainInterface.Reading.{is_last}
use bitcoin_messaging.BlockchainInterface.Reading.Linked.{last_of, flatten, IsWhole, IsFollowed}
use bitcoin_messaging.Messages.Commands.{Client, send_message, read_loop}
use bitcoin_messaging.Messages.RoundTrip.{IsFeasible, IsMessage}

hash_at : List OutPoint → Option ℕ
hash_at [] = none
hash_at (p ∷ points) = some p.hash

module _ {keys : PubKeys} (signing : Signing keys) (floor_log2 : ℕ → ℕ) (round_root : ℕ → ℕ → ℕ)
    (scripts : Scripts) (size : Transaction → ℕ) (config : Config) (key_map : KeypairMap signing)
    (fuel : ℕ) (draws : ℕ → ℕ → ℕ → Bool) (client : Client) where
  -- Commands W in a row from the transaction `tx0` on: the keystore, the last transaction, the chains that
  -- were sent, and the texts without the characters that the code does not have. SelectInputs takes
  -- output 0 of the last transaction first.
  pub data History (tx0 : Transaction)
      : Session signing → Transaction → List (List Transaction) → List Data → Type 0 where
    begun :
        (session session' : Session signing) (params : Parameters) (text : Data) (bits : DataBits)
        (budget : ℕ) (utxo : List OutPoint) (addr : Data) (txs : List Transaction)
        → HasSuffixes signing key_map config.suffix_bits session.store
        → IsFeasible signing floor_log2 round_root scripts size config key_map fuel draws client
            session params text bits budget utxo addr
        → send_message signing floor_log2 round_root scripts size config key_map fuel draws client
            session params bits budget utxo addr
          ≡ some (session', tx0 ∷ txs, (tx0 ∷ txs, true))
        → History tx0 session'
            (last_of tx0 txs)
            ((tx0 ∷ txs) ∷ [])
            (transform_char_domain text ∷ [])
    continued :
        (session session' : Session signing) (last : Transaction) (chains : List (List Transaction))
        (texts : List Data) (params : Parameters) (text : Data) (bits : DataBits) (budget : ℕ)
        (utxo : List OutPoint) (addr : Data) (tx : Transaction) (txs : List Transaction)
        → History tx0 session last chains texts
        → IsFeasible signing floor_log2 round_root scripts size config key_map fuel draws client
            session params text bits budget
            (record { hash = client.get_hash last; n = 0 } ∷ utxo)
            addr
        → send_message signing floor_log2 round_root scripts size config key_map fuel draws client
            session params bits budget
            (record { hash = client.get_hash last; n = 0 } ∷ utxo)
            addr
          ≡ some (session', tx ∷ txs, (tx ∷ txs, true))
        → History tx0 session'
            (last_of tx txs)
            (chains ++ ((tx ∷ txs) ∷ []))
            (texts ++ (transform_char_domain text ∷ []))

  -- What has been sent so far.
  record IsRow (tx0 : Transaction) (session : Session signing) (last : Transaction)
      (chains : List (List Transaction)) (texts : List Data) : Type 0 where
    pub rest : List Transaction
    pub row : flatten chains ≡ tx0 ∷ rest
    pub ending : last ≡ last_of tx0 rest
    pub followed : IsFollowed client.get_hash (tx0 ∷ rest)
    pub whole :
        All (λ (chain : List Transaction). IsWhole (is_last client.is_script_hash) chain) chains
    pub printed :
        read_loop signing floor_log2 round_root scripts size config key_map fuel draws client
          shipped_codes chains
        ≡ some texts
    pub suffixes : HasSuffixes signing key_map config.suffix_bits session.store

  -- The message that a command W made, if it did not stop at an exception.
  abbrev MessageOf :
      Session signing
      → Parameters
      → Data
      → DataBits
      → ℕ
      → List OutPoint
      → Data
      → Session signing × List Transaction × (List Transaction × Bool)
      → Type 0
  MessageOf session params text bits budget utxo addr (session', [], sent) = ⊥
  MessageOf session params text bits budget utxo addr (session', tx ∷ txs, sent) =
      IsMessage signing floor_log2 round_root scripts size config key_map fuel draws client session
        params text bits budget utxo addr session' tx txs
