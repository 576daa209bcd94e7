-- ===== src/Messages.antt =====
-- src/Main.cpp: a text, written into a chain of transactions, and read from one.
--
-- Here the chain that is read is the one that EmbedData made. What stands between, from AuthorizeTransactions
-- to ReadTransactions, is in Commands, RoundTrip and History.
pub mod Commands
pub mod RoundTrip
pub mod History
use bitcoin_messaging.Base.{
  ℕ, ◌+◌, ◌*◌, ◌^◌, ◌≤◌, ◌<◌, ◌≡◌, sym, ap, ◌∙◌, Bool, false, List, [], ◌∷◌, ◌++◌, Option, some,
  arith, length, length-append, replicate, Option-cases, inl, inr, ◌>>=◌,
}
use mathlib.Core.Option.{some-injective}
use bitcoin_messaging.Types.{DataBits, Data}
use bitcoin_messaging.DataCompression.{
  eof, HuffCodeMap, left_at, transform_char_domain, compress, decompress, compress_loop,
}
use bitcoin_messaging.DataCompression.Shipped.{
  shipped_codes, eof_word, eof_found, decompress-compress_shipped,
}
use bitcoin_messaging.DataInterface.{PubKeys}
use bitcoin_messaging.BlockchainInterface.{OutPoint, Transaction, Scripts}
use bitcoin_messaging.BlockchainInterface.Optimizing.{Parameters, Config}
use bitcoin_messaging.BlockchainInterface.Signing.{Signing}
use bitcoin_messaging.BlockchainInterface.ScriptHash.{KeypairMap, Session}
use bitcoin_messaging.BlockchainInterface.ScriptHash.Keys.{IsLucky, HasSuffixes}
use bitcoin_messaging.BlockchainInterface.Embedding.{Round, start_round, embed_data, extract_data}
use bitcoin_messaging.BlockchainInterface.Embedding.Step.{fees_of}
use bitcoin_messaging.BlockchainInterface.Embedding.RoundTrip.{Reaches, extract_data-embed_data}

-- The end mark alone takes so many bits.
pub compress-length :
    (text : Data) (codes : HuffCodeMap) (word bits : DataBits)
    → left_at eof codes ≡ some word
    → compress text codes ≡ some bits
    → length word ≤ length bits
unfolding compress
compress-length text codes word bits found = elim (Option-cases (compress_loop text codes [])) [
  | inl e ↦ rw e (λ h. ground (arith, h))
  | inr (begun, e) ↦
      rw (e, found) (λ h. omega (arith, ap length (some-injective _ _ h), length-append begun word))
]

module _ {keys : PubKeys} (signing : Signing keys) (floor_log2 : ℕ → ℕ) (round_root : ℕ → ℕ → ℕ)
    (scripts : Scripts) (size : Transaction → ℕ) (config : Config) (key_map : KeypairMap signing)
    (fuel : ℕ) (draws : ℕ → ℕ → ℕ → Bool) where
  -- From the text of the file to the chain.
  unfoldable pub write_message :
      HuffCodeMap
      → Session signing
      → Parameters
      → Data
      → ℕ
      → List OutPoint
      → Data
      → Option (Session signing × List Transaction)
  write_message codes session params text budget utxo addr = do
    compressed_data ← compress (transform_char_domain text) codes
    embed_data signing floor_log2 round_root scripts size config key_map fuel draws session params
        compressed_data budget utxo addr

  -- From a chain to the text that is printed.
  unfoldable pub read_message : HuffCodeMap → List Transaction → Option Data
  read_message codes chain = do
    compressed_data ← extract_data signing floor_log2 config.suffix_bits chain
    some (decompress compressed_data codes)

  module _ (floor_log2-le : (x : ℕ) → 0 < x → 2 ^ floor_log2 x ≤ x)
      (floor_log2-pos : (x : ℕ) → 2 ≤ x → 0 < floor_log2 x)
      (round_root-le : (a b j : ℕ) → 0 < j → a ≤ b ^ j → round_root a j ≤ 2 * b) where
    -- With a logarithm that is not above the true one but above 0 from 2 on, a rounded root that is at
    -- most twice the true one, the shipped code, less than 2^31 compressed bits, luck in the drawing of keys, a key for every
    -- suffix, a budget below 2^62, and in every round of EmbedData more than the fees and 14 times 546 left
    -- of it: a message is written into a chain, and what is read from the chain is the text without the
    -- characters that the code does not have.
    pub read_message-write_message :
        IsLucky keys fuel draws
        → (session : Session signing) (params : Parameters) (text : Data) (bits : DataBits)
          (budget : ℕ) (utxo : List OutPoint) (addr : Data)
        → HasSuffixes signing key_map config.suffix_bits session.store
        → compress (transform_char_domain text) shipped_codes ≡ some bits
        → length bits < 2 ^ 31
        → budget < 2 ^ 62
        → ((s : Round signing)
            → Reaches signing floor_log2 round_root scripts size config key_map fuel draws
                (start_round signing floor_log2 round_root scripts size config key_map fuel draws
                  session params bits budget utxo)
                s
            → fees_of signing floor_log2 round_root scripts size config key_map fuel draws s + 7644
              < s.budget)
        → (session' : Session signing) × ((chain : List Transaction) × (write_message shipped_codes
                session params text budget utxo addr
              ≡ some (session', chain))
            × (read_message shipped_codes chain ≡ some (transform_char_domain text)))
    unfolding write_message read_message
    read_message-write_message lucky session params text bits budget utxo addr suffixes compressed
          few small funded =
        let (session', (first, (others, (k, made, _, read, _, _, _)))) =
          extract_data-embed_data signing floor_log2 round_root scripts size config key_map fuel
            draws floor_log2-le floor_log2-pos round_root-le lucky session params bits budget utxo
            addr suffixes
            (omega (
              arith,
              compress-length (transform_char_domain text) shipped_codes eof_word bits eof_found
                  compressed,
            ))
            few small funded in
        let (bits', compressed', back) = decompress-compress_shipped text in
        let same : bits' ≡ bits = some-injective _ _ (sym compressed' ∙ compressed) in
        (
          session',
          (
            first ∷ others,
            rw compressed made,
            rw read (
                ap some (
                  ap (λ (l : DataBits). decompress (l ++ replicate k false) shipped_codes)
                    (sym same)
                  ∙ back (replicate k false))),
          ),
        )
