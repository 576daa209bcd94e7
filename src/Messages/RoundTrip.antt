-- ===== src/Messages/RoundTrip.antt =====
-- src/Main.cpp: what the command W sends, the command R reads.
use mathlib.Core.Option.{some-injective}
use bitcoin_messaging.Base.{
  ℕ, suc, ◌+◌, ◌*◌, ◌^◌, ◌≤◌, ◌<◌, ◌≡◌, refl, sym, ap, ◌∙◌, Bool, true, false, List, [], ◌∷◌, ◌++◌,
  some, arith, length, replicate, map, append-nil,
}
use bitcoin_messaging.Types.{DataBits, Data}
use bitcoin_messaging.DataCompression.{transform_char_domain, compress, decompress}
use bitcoin_messaging.DataCompression.Shipped.{
  shipped_codes, eof_word, eof_found, decompress-compress_shipped,
}
use bitcoin_messaging.DataInterface.{PubKeys}
use bitcoin_messaging.BlockchainInterface.{OutPoint, TxIn, Transaction, Scripts}
use bitcoin_messaging.BlockchainInterface.Optimizing.{Parameters, Config}
use bitcoin_messaging.BlockchainInterface.Signing.{Signing}
use bitcoin_messaging.BlockchainInterface.ScriptHash.{KeypairMap, Session}
use bitcoin_messaging.BlockchainInterface.ScriptHash.Keys.{IsLucky, HasSuffixes}
use bitcoin_messaging.BlockchainInterface.Embedding.{Round, start_round, extract_data}
use bitcoin_messaging.BlockchainInterface.Embedding.Step.{fees_of}
use bitcoin_messaging.BlockchainInterface.Embedding.RoundTrip.{Reaches, extract_data-embed_data}
use bitcoin_messaging.BlockchainInterface.Authorizing.{send_transactions-accepted}
use bitcoin_messaging.BlockchainInterface.Authorizing.Claimed.{authorize_transactions-extract_data}
use bitcoin_messaging.BlockchainInterface.Authorizing.Readable.{
  AreClaimed-IsWhole, AreReread-IsWhole, AreReread-IsFollowed,
}
use bitcoin_messaging.BlockchainInterface.Reading.Linked.{
  last_of, IsWhole, IsFollowed, read_transactions-IsFollowed,
}
use bitcoin_messaging.BlockchainInterface.Reading.{is_last}
use bitcoin_messaging.Messages.{compress-length, read_message}
use bitcoin_messaging.Messages.Commands.{Client, IsWorking, send_message, read_loop, read_command}

module _ {keys : PubKeys} (signing : Signing keys) (floor_log2 : ℕ → ℕ) (round_root : ℕ → ℕ → ℕ)
    (scripts : Scripts) (size : Transaction → ℕ) (config : Config) (key_map : KeypairMap signing)
    (fuel : ℕ) (draws : ℕ → ℕ → ℕ → Bool) (client : Client) where
  -- The text of a chain from which the compressed text is read, with zeros behind it.
  read_message-zeros :
      (chain : List Transaction) (text : Data) (bits : DataBits) (k : ℕ)
      → compress (transform_char_domain text) shipped_codes ≡ some bits
      → extract_data signing floor_log2 config.suffix_bits chain ≡ some (bits ++ replicate k false)
      → read_message signing floor_log2 round_root scripts size config key_map fuel draws
          shipped_codes chain
        ≡ some (transform_char_domain text)
  unfolding read_message
  read_message-zeros chain text bits k compressed read =
      let (bits', compressed', back) = decompress-compress_shipped text in
      let same : bits' ≡ bits = some-injective _ _ (sym compressed' ∙ compressed) in
      rw read (
        ap some (
          ap (λ (l : DataBits). decompress (l ++ replicate k false) shipped_codes) (sym same)
          ∙ back (replicate k false)))

  -- What the command W is given: the text, compressed, the selected inputs and the address. In every round
  -- of EmbedData there is more than the fees and 14 times 546 left of the budget.
  pub record IsFeasible (session : Session signing) (params : Parameters) (text : Data)
      (bits : DataBits) (budget : ℕ) (utxo : List OutPoint) (addr : Data) : Type 0 where
    pub compressed : compress (transform_char_domain text) shipped_codes ≡ some bits
    pub few : length bits < 2 ^ 31
    pub small : budget < 2 ^ 62
    pub plain : client.is_script_hash addr ≡ false
    pub funded :
        (s : Round signing)
        → Reaches signing floor_log2 round_root scripts size config key_map fuel draws
            (start_round signing floor_log2 round_root scripts size config key_map fuel draws
              session params bits budget utxo)
            s
        → fees_of signing floor_log2 round_root scripts size config key_map fuel draws s + 7644
          < s.budget

  -- The command W made one message of it and sent all of it.
  pub record IsMessage (session : Session signing) (params : Parameters) (text : Data)
      (bits : DataBits) (budget : ℕ) (utxo : List OutPoint) (addr : Data)
      (session' : Session signing) (tx : Transaction) (txs : List Transaction) : Type 0 where
    pub returns :
        send_message signing floor_log2 round_root scripts size config key_map fuel draws client
          session params bits budget utxo addr
        ≡ some (session', tx ∷ txs, (tx ∷ txs, true))
    pub followed : IsFollowed client.get_hash (tx ∷ txs)
    pub one : IsWhole (is_last client.is_script_hash) (tx ∷ txs)
    pub points : map (λ (i : TxIn). i.prevout) tx.vin ≡ utxo
    pub printed :
        read_message signing floor_log2 round_root scripts size config key_map fuel draws
          shipped_codes
          (tx ∷ txs)
        ≡ some (transform_char_domain text)
    pub suffixes : HasSuffixes signing key_map config.suffix_bits session'.store

  module _ (floor_log2-le : (x : ℕ) → 0 < x → 2 ^ floor_log2 x ≤ x)
      (floor_log2-pos : (x : ℕ) → 2 ≤ x → 0 < floor_log2 x)
      (round_root-le : (a b j : ℕ) → 0 < j → a ≤ b ^ j → round_root a j ≤ 2 * b) where
    pub send_message-IsMessage :
        IsLucky keys fuel draws
        → IsWorking signing client
        → (session : Session signing) (params : Parameters) (text : Data) (bits : DataBits)
          (budget : ℕ) (utxo : List OutPoint) (addr : Data)
        → HasSuffixes signing key_map config.suffix_bits session.store
        → IsFeasible session params text bits budget utxo addr
        → (session' : Session signing) × ((tx : Transaction) × ((txs : List Transaction) × IsMessage
                session params text bits budget utxo addr session' tx txs))
    unfolding send_message
    send_message-IsMessage lucky working session params text bits budget utxo addr suffixes q =
        let some_bits =
          compress-length (transform_char_domain text) shipped_codes eof_word bits eof_found
            q.compressed in
        let (session', (first, (others, (k, made, spends, read, claimed, ends, suffixes')))) =
          extract_data-embed_data signing floor_log2 round_root scripts size config key_map fuel
            draws floor_log2-le floor_log2-pos round_root-le lucky session params bits budget utxo
            addr suffixes (omega (arith, some_bits)) q.few q.small q.funded in
        let (tx, complete, outs, points) = working.signs first in
        let (txs, authorized, linked, reread, same) =
          authorize_transactions-extract_data signing config.suffix_bits client.get_hash
            client.sign_raw session'.store floor_log2 first tx others complete outs claimed in
        (
          session',
          (
            tx,
            (
              txs,
              record {
                returns =
                    rw
                      (
                        made,
                        working.unlocked,
                        authorized,
                        working.locked,
                        send_transactions-accepted client.send (tx ∷ txs) working.accepts,
                      )
                      refl;
                followed =
                    AreReread-IsFollowed signing config.suffix_bits client.get_hash client.sign_raw
                      session'.store first tx others txs reread claimed linked;
                one =
                    AreReread-IsWhole client.is_script_hash signing working.hashes
                      config.suffix_bits first tx others txs outs reread
                      (AreClaimed-IsWhole client.is_script_hash signing working.hashes
                        session'.store addr first others q.plain claimed ends);
                points = points ∙ spends;
                printed = read_message-zeros (tx ∷ txs) text bits k q.compressed (same ∙ read);
                suffixes = suffixes';
              },
            ),
          ),
        )

    -- With a logarithm that is not above the true one but above 0 from 2 on, a rounded root that is at
    -- most twice the true one, the shipped code, less than 2^31 compressed bits, luck in the drawing of
    -- keys, a key for every suffix, a budget below 2^62, in every round of EmbedData more than the fees
    -- and 14 times 546 left of it, an address that is no script's hash, and a working client: the
    -- command W makes a chain, authorizes it and sends all of it; and the command R, given the ids of
    -- its first and its last transaction and as many steps as it has transactions, prints one message,
    -- the text without the characters that the code does not have.
    pub read_command-send_message :
        IsLucky keys fuel draws
        → IsWorking signing client
        → (session : Session signing) (params : Parameters) (text : Data) (bits : DataBits)
          (budget : ℕ) (utxo : List OutPoint) (addr : Data)
        → HasSuffixes signing key_map config.suffix_bits session.store
        → IsFeasible session params text bits budget utxo addr
        → (session' : Session signing) × ((tx : Transaction) × ((txs : List Transaction)
              × (send_message signing floor_log2 round_root scripts size config key_map fuel draws
                    client session params bits budget utxo addr
                  ≡ some (session', tx ∷ txs, (tx ∷ txs, true)))
              × (read_command signing floor_log2 round_root scripts size config key_map fuel draws
                    client shipped_codes
                    (client.get_transaction (tx ∷ txs))
                    (suc (length txs))
                    (client.get_hash tx)
                    (client.get_hash (last_of tx txs))
                  ≡ some (transform_char_domain text ∷ []))))
    unfolding read_command read_loop
    read_command-send_message lucky working session params text bits budget utxo addr suffixes q =
        let (session', (tx, (txs, m))) =
          send_message-IsMessage lucky working session params text bits budget utxo addr suffixes
            q in
        let found =
          read_transactions-IsFollowed client.get_hash (client.get_transaction (tx ∷ txs))
            client.is_script_hash (suc (length txs)) ((tx ∷ txs) ∷ []) tx txs
            (append-nil (tx ∷ txs)) (m.one, tt) m.followed (working.finds (tx ∷ txs) m.followed)
            (working.fresh tx txs m.followed) (omega arith) in
        (session', (tx, (txs, m.returns, rw (found, m.printed) refl)))
