-- ===== src/Tests/Sending.antt =====
-- The authorization and the sending of a chain at concrete inputs.
use bitcoin_messaging.Base.{
  ℕ, ◌+◌, ◌≡◌, refl, sym, ap, Bool, true, List, [], ◌∷◌, Option, some, length, ltb, arith,
}
use mathlib.Core.Option.{some-injective}
use bitcoin_messaging.BlockchainInterface.{TxOut, Transaction}
use bitcoin_messaging.BlockchainInterface.Authorizing.{
  authorize_transactions, IsLinked, AreSame, authorize_transactions-IsLinked, send_transactions,
  IsSent, send_transactions-IsSent,
}
use bitcoin_messaging.BlockchainInterface.Embedding.{extract_data}
use bitcoin_messaging.BlockchainInterface.Embedding.Claims.{AreClaimed}
use bitcoin_messaging.BlockchainInterface.Embedding.Rereading.{AreReread}
use bitcoin_messaging.BlockchainInterface.Embedding.RoundTrip.{extract_data-embed_data}
use bitcoin_messaging.BlockchainInterface.Authorizing.Claimed.{authorize_transactions-extract_data}
use bitcoin_messaging.Tests.Models.{ceil_root, ceil_root-le, log2, log2-le, log2-pos}
use bitcoin_messaging.Tests.Chains.{
  two_keys, no_draws, session, config, one_kilobyte, no_params, points, lucky, both_suffixes, start,
  start_funded,
}
use bitcoin_messaging.Tests.Packing.{plain_in, plain_out, three_bits, direct_push}
use bitcoin_messaging.Tests.Wallet.{wallet_signing, find_redeem}

abbrev tx_hash : Transaction → ℕ
tx_hash tx = 40 + length tx.vout

abbrev wallet_signs : Transaction → Option (Transaction × Bool)
wallet_signs tx = some (tx, true)

wallet_keeps :
    (tx signed : Transaction) (complete : Bool)
    → wallet_signs tx ≡ some (signed, complete)
    → signed.vout ≡ tx.vout
wallet_keeps tx signed complete e =
    sym (ap (λ (r : Transaction × Bool). r.0.vout) (some-injective _ _ e))

abbrev one_script : wallet_signing.Store
unfolding wallet_signing
one_script = record { knows = λ key. true; redeems = (5 ∷ []) ∷ [] }

abbrev hash_out : TxOut
hash_out = record plain_out { script_pub_key = 0xA9 ∷ 5 ∷ [] }

abbrev first_tx : Transaction
first_tx = record { vin = plain_in ∷ []; vout = hash_out ∷ hash_out ∷ [] }

abbrev second_tx : Transaction
second_tx = record { vin = plain_in ∷ []; vout = plain_out ∷ [] }

abbrev linked_tx : Transaction
linked_tx = record {
  vin =
      record {
        prevout = record { hash = 42; n = 1 };
        script_sig = 1 ∷ 0x30 ∷ 1 ∷ 5 ∷ [];
        n_sequence = 0;
      }
      ∷ [];
  vout = plain_out ∷ [];
}

both_authorized :
    authorize_transactions wallet_signing tx_hash wallet_signs one_script
      (first_tx ∷ second_tx ∷ [])
    ≡ some (first_tx ∷ linked_tx ∷ [])
unfolding authorize_transactions wallet_signing find_redeem
both_authorized = refl

authorize_transactions-IsLinked_example :
    (signed : Transaction) × ((rest : List Transaction) × (first_tx ∷ linked_tx ∷ []
        ≡ signed ∷ rest)
      × (wallet_signs first_tx ≡ some (signed, true))
      × (signed.vout ≡ first_tx.vout)
      × IsLinked wallet_signing tx_hash wallet_signs one_script (signed ∷ rest)
      × AreSame wallet_signing tx_hash wallet_signs one_script (second_tx ∷ []) rest)
authorize_transactions-IsLinked_example =
    authorize_transactions-IsLinked wallet_signing tx_hash wallet_signs one_script wallet_keeps
      first_tx (second_tx ∷ []) (first_tx ∷ linked_tx ∷ []) both_authorized

abbrev accepts : Transaction → Bool
accepts tx = ltb 1 (length tx.vout)

send_transactions-IsSent_example :
    IsSent accepts
      (first_tx ∷ second_tx ∷ [])
      (send_transactions accepts (first_tx ∷ second_tx ∷ []))
send_transactions-IsSent_example = send_transactions-IsSent accepts (first_tx ∷ second_tx ∷ [])

-- The chain of EmbedData for three bits, and the store that signs for it.
hidden_chain :
    (store : wallet_signing.Store) × ((tx : Transaction) × ((txs : List Transaction) × AreClaimed
          wallet_signing store
          (tx ∷ txs)))
hidden_chain =
    let (session', (first, (others, (k, _, _, _, claimed, _, _)))) =
      extract_data-embed_data wallet_signing log2 ceil_root direct_push one_kilobyte config two_keys
        1 no_draws log2-le log2-pos ceil_root-le lucky session no_params three_bits 20000 points
        (0x76 ∷ []) both_suffixes (omega arith) (omega arith) (omega arith)
        (λ s reached.
          start_funded three_bits (start three_bits) s reached (omega arith) (omega arith) refl) in
    (session'.store, (first, (others, claimed)))

authorize_transactions-extract_data_example :
    (rest : List Transaction) × (authorize_transactions wallet_signing tx_hash wallet_signs
        hidden_chain.0
        (hidden_chain.1.0 ∷ hidden_chain.1.1.0)
      ≡ some (hidden_chain.1.0 ∷ rest))
    × IsLinked wallet_signing tx_hash wallet_signs hidden_chain.0 (hidden_chain.1.0 ∷ rest)
    × AreReread wallet_signing 1 hidden_chain.1.1.0 rest
    × (extract_data wallet_signing log2 1 (hidden_chain.1.0 ∷ rest)
        ≡ extract_data wallet_signing log2 1 (hidden_chain.1.0 ∷ hidden_chain.1.1.0))
authorize_transactions-extract_data_example =
    authorize_transactions-extract_data wallet_signing 1 tx_hash wallet_signs hidden_chain.0 log2
      hidden_chain.1.0 hidden_chain.1.0 hidden_chain.1.1.0 refl refl hidden_chain.1.1.1
