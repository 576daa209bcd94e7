-- ===== src/Tests/Commands.antt =====
-- The two commands at a concrete client: the id of a transaction is one more than the id that its first input
-- names.
use mathlib.Core.Option.{none-ne-some, some-injective}
use bitcoin_messaging.Base.{
  ℕ, suc, ◌≤◌, ◌<◌, ◌≡◌, ◌≢◌, refl, Bool, true, false, List, [], ◌∷◌, Option, none, some, arith,
  length, All, ◌==◌, if◌then◌else◌,
}
use bitcoin_messaging.Types.{Data}
use bitcoin_messaging.DataCompression.{transform_char_domain}
use bitcoin_messaging.DataCompression.Shipped.{shipped_codes}
use bitcoin_messaging.BlockchainInterface.{OutPoint, TxIn, Transaction}
use bitcoin_messaging.BlockchainInterface.ScriptHash.{Session}
use bitcoin_messaging.BlockchainInterface.ScriptHash.Keys.{HasSuffixes}
use bitcoin_messaging.BlockchainInterface.Reading.{spent_hash}
use bitcoin_messaging.BlockchainInterface.Reading.Linked.{last_of, IsFollowed}
use bitcoin_messaging.Messages.Commands.{Client, IsWorking, send_message, read_command}
use bitcoin_messaging.Messages.RoundTrip.{IsFeasible, read_command-send_message}
use bitcoin_messaging.Messages.History.{History}
use bitcoin_messaging.Tests.Models.{ceil_root, ceil_root-le, log2, log2-le, log2-pos}
use bitcoin_messaging.Tests.Packing.{direct_push}
use bitcoin_messaging.Tests.Wallet.{wallet_signing}
use bitcoin_messaging.Tests.Chains.{
  two_keys, no_draws, session, config, one_kilobyte, no_params, points, lucky, both_suffixes,
  start_at, start_at_funded,
}
use bitcoin_messaging.Tests.Written.{h_bits, h_compressed}

abbrev id_of : List TxIn → ℕ
id_of [] = 0
id_of (i ∷ vin) = suc i.prevout.hash

abbrev tx_id : Transaction → ℕ
tx_id tx = id_of tx.vin

find_id : List Transaction → ℕ → Option Transaction
find_id [] id = none
find_id (tx ∷ txs) id = if tx_id tx == id then some tx else find_id txs id

spent_id : (id : ℕ) (vin : List TxIn) → spent_hash vin ≡ some id → id < id_of vin
spent_id id [] e = absurd (none-ne-some _ e)
spent_id id (i ∷ vin) e = omega (arith, some-injective _ _ e)

ids-grow :
    (id : ℕ) (tx : Transaction) (txs : List Transaction)
    → id ≤ tx_id tx
    → IsFollowed tx_id (tx ∷ txs)
    → All (λ (u : Transaction). id < tx_id u) txs
ids-grow id tx [] small followed = tt
ids-grow id tx (u ∷ txs) small (spent, followed) =
    let more = spent_id (tx_id tx) u.vin spent in
    (omega (arith, more), ids-grow id u txs (omega (arith, more)) followed)

others :
    (id : ℕ) (txs : List Transaction)
    → All (λ (u : Transaction). id < tx_id u) txs
    → All (λ (u : Transaction). id ≢ tx_id u) txs
others id [] h = tt
others id (u ∷ txs) (less, h) = ((λ e. omega (arith, e)), others id txs h)

find_id-later :
    (tx : Transaction) (txs us : List Transaction)
    → All (λ (u : Transaction). tx_id tx < tx_id u) us
    → All (λ (u : Transaction). find_id txs (tx_id u) ≡ some u) us
    → All (λ (u : Transaction). find_id (tx ∷ txs) (tx_id u) ≡ some u) us
unfolding find_id
find_id-later tx txs [] more found = tt
find_id-later tx txs (u ∷ us) (less, more) (here, found) =
    let other : (tx_id tx == tx_id u) ≡ false = ground arith in
    (rw other here, find_id-later tx txs us more found)

find_id-followed :
    (chain : List Transaction)
    → IsFollowed tx_id chain
    → All (λ (u : Transaction). find_id chain (tx_id u) ≡ some u) chain
unfolding find_id
find_id-followed [] followed = tt
find_id-followed (tx ∷ []) followed =
    let same : (tx_id tx == tx_id tx) ≡ true = ground arith in (rw same refl, tt)
find_id-followed (tx ∷ u ∷ txs) (spent, followed) =
    let same : (tx_id tx == tx_id tx) ≡ true = ground arith in
    (
      rw same refl,
      find_id-later tx (u ∷ txs) (u ∷ txs)
          (ids-grow (tx_id tx) tx (u ∷ txs) (omega arith) (spent, followed))
          (find_id-followed (u ∷ txs) followed),
    )

abbrev begins_hash : Data → Bool
begins_hash [] = false
begins_hash (code ∷ script) = code == 0xA9

abbrev client : Client
client = record {
  get_hash = λ tx. tx_id tx;
  get_hex = λ id. id ∷ [];
  is_script_hash = λ script. begins_hash script;
  unlocks = true;
  locks = true;
  sign_raw = λ tx. some (tx, true);
  send = λ tx. true;
  get_transaction = λ sent id. find_id sent id;
}

client-IsWorking : IsWorking wallet_signing client
unfolding wallet_signing
client-IsWorking = record {
  unlocked = refl;
  locked = refl;
  signs = λ tx. (tx, refl, refl, refl);
  accepts = λ tx. refl;
  finds = λ chain followed. find_id-followed chain followed;
  fresh =
      λ tx txs followed. others (tx_id tx) txs (ids-grow (tx_id tx) tx txs (omega arith) followed);
  hashes = λ redeem. refl;
}

h-IsFeasible :
    (opened : Session wallet_signing) (spent : List OutPoint)
    → HasSuffixes wallet_signing two_keys 1 opened.store
    → IsFeasible wallet_signing log2 ceil_root direct_push one_kilobyte config two_keys 1 no_draws
        client opened no_params
        (104 ∷ [])
        h_bits
        20000
        spent
        (0x76 ∷ [])
h-IsFeasible opened spent suffixes = record {
  compressed = h_compressed;
  few = omega arith;
  small = omega arith;
  plain = refl;
  funded = λ s reached.
      start_at_funded opened spent h_bits (start_at opened spent h_bits) s reached suffixes
        (omega arith) (omega arith) refl;
}

read_command-send_message_example :
    (session' : Session wallet_signing) × ((tx : Transaction) × ((txs : List Transaction)
        × (send_message wallet_signing log2 ceil_root direct_push one_kilobyte config two_keys 1
              no_draws client session no_params h_bits 20000 points
              (0x76 ∷ [])
            ≡ some (session', tx ∷ txs, (tx ∷ txs, true)))
        × (read_command wallet_signing log2 ceil_root direct_push one_kilobyte config two_keys 1
              no_draws client shipped_codes
              (client.get_transaction (tx ∷ txs))
              (suc (length txs))
              (client.get_hash tx)
              (client.get_hash (last_of tx txs))
            ≡ some (transform_char_domain (104 ∷ []) ∷ []))))
read_command-send_message_example =
    read_command-send_message wallet_signing log2 ceil_root direct_push one_kilobyte config two_keys
      1 no_draws client log2-le log2-pos ceil_root-le lucky client-IsWorking session no_params
      (104 ∷ []) h_bits 20000 points (0x76 ∷ []) both_suffixes
      (h-IsFeasible session points both_suffixes)
