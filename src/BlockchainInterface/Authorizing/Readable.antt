-- ===== src/BlockchainInterface/Authorizing/Readable.antt =====
-- The authorized chain of EmbedData is one message for ReadTransactions.
use mathlib.Core.Option.{none-ne-some, some-injective}
use bitcoin_messaging.Base.{
  ℕ, zero, suc, ◌≡◌, refl, ap, ◌∙◌, Bool, true, false, List, [], ◌∷◌, Option, some, arith, length,
  length-map, get_elem?, get_elem?-some, ◌==◌, ◌<◌, All,
}
use bitcoin_messaging.Types.{Data}
use bitcoin_messaging.DataInterface.{PubKeys}
use bitcoin_messaging.BlockchainInterface.{TxIn, TxOut, Transaction}
use bitcoin_messaging.BlockchainInterface.Signing.{Signing}
use bitcoin_messaging.BlockchainInterface.Embedding.Claims.{AreClaimed, EndsIn}
use bitcoin_messaging.BlockchainInterface.Embedding.Rereading.{AreReread}
use bitcoin_messaging.BlockchainInterface.Reading.{spent_hash, is_last}
use bitcoin_messaging.BlockchainInterface.Reading.Linked.{IsWhole, IsFollowed}
use bitcoin_messaging.BlockchainInterface.Authorizing.{IsLinked}

first_spent :
    (hash : ℕ) (vin : List TxIn)
    → 0 < length vin
    → All (λ (i : TxIn). i.prevout.hash ≡ hash) vin
    → spent_hash vin ≡ some hash
first_spent hash [] some_in h = absurd (omega arith)
first_spent hash (i ∷ vin) some_in (e, h) = ap some e

module _ (is_script_hash : Data → Bool) where
  is_last-vout :
      (tx u : Transaction) → u.vout ≡ tx.vout → is_last is_script_hash u ≡ is_last is_script_hash tx
  unfolding is_last
  is_last-vout tx u e = rw e refl

  is_last-hash :
      (tx : Transaction) (vout : List TxOut) (out : TxOut) (n : ℕ)
      → tx.vout ≡ vout
      → get_elem? vout n ≡ some out
      → is_script_hash out.script_pub_key ≡ true
      → is_last is_script_hash tx ≡ false
  unfolding is_last
  is_last-hash tx [] out n e there h = absurd (none-ne-some _ there)
  is_last-hash tx (o ∷ []) out zero e there h =
      rw (e, ap (λ (t : TxOut). is_script_hash t.script_pub_key) (some-injective _ _ there) ∙ h)
        refl
  is_last-hash tx (o ∷ []) out (suc n) e there h = absurd (none-ne-some _ there)
  is_last-hash tx (o ∷ p ∷ outs) out n e there h =
      let more : (suc (length outs) == 0) ≡ false = ground arith in rw (e, more) refl

  is_last-one :
      (tx : Transaction) (amount : ℕ) (addr : Data)
      → is_script_hash addr ≡ false
      → tx.vout ≡ record { n_value = amount; script_pub_key = addr } ∷ []
      → is_last is_script_hash tx ≡ true
  unfolding is_last
  is_last-one tx amount addr plain e = rw (e, plain) refl

  module _ {keys : PubKeys} (signing : Signing keys)
      (hashes : (redeem : Data) → is_script_hash (signing.script_hash redeem) ≡ true) where
    -- A chain of script hashes that ends in an output to another kind of address is one message.
    pub AreClaimed-IsWhole :
        (store : signing.Store) (addr : Data) (tx : Transaction) (txs : List Transaction)
        → is_script_hash addr ≡ false
        → AreClaimed signing store (tx ∷ txs)
        → EndsIn addr (tx ∷ txs)
        → IsWhole (is_last is_script_hash) (tx ∷ txs)
    AreClaimed-IsWhole store addr tx [] plain claimed (amount, e) =
        is_last-one tx amount addr plain e
    AreClaimed-IsWhole store addr tx (u ∷ txs) plain (some_in, claims, claimed) ends =
        let (t, here) = get_elem?-some u.vin 0 some_in in
        let (out, (at_out, spends)) = claims 0 t (omega arith) here in
        (
          is_last-hash tx tx.vout out t.prevout.n refl at_out
              (ap is_script_hash spends.locks ∙ hashes _),
          AreClaimed-IsWhole store addr u txs plain claimed ends,
        )

    pub AreReread-IsWhole :
        (suffix_bits : ℕ) (tx u : Transaction) (txs us : List Transaction)
        → u.vout ≡ tx.vout
        → AreReread signing suffix_bits txs us
        → IsWhole (is_last is_script_hash) (tx ∷ txs)
        → IsWhole (is_last is_script_hash) (u ∷ us)
    AreReread-IsWhole suffix_bits tx u [] [] e h ends = is_last-vout tx u e ∙ ends
    AreReread-IsWhole suffix_bits tx u [] (u' ∷ us) e h ends = absurd h
    AreReread-IsWhole suffix_bits tx u (tx' ∷ txs) [] e h ends = absurd h
    AreReread-IsWhole suffix_bits tx u (tx' ∷ txs) (u' ∷ us) e ((outs, _, _), h) (goes_on, ends) =
        (is_last-vout tx u e ∙ goes_on, AreReread-IsWhole suffix_bits tx' u' txs us outs h ends)

module _ {keys : PubKeys} (signing : Signing keys) (suffix_bits : ℕ) (get_hash : Transaction → ℕ)
    (sign_raw : Transaction → Option (Transaction × Bool)) (store : signing.Store) where
  -- Of linked transactions with as many inputs as before, the first input spends the one before it.
  pub AreReread-IsFollowed :
      (tx u : Transaction) (txs us : List Transaction)
      → AreReread signing suffix_bits txs us
      → AreClaimed signing store (tx ∷ txs)
      → IsLinked signing get_hash sign_raw store (u ∷ us)
      → IsFollowed get_hash (u ∷ us)
  AreReread-IsFollowed tx u [] [] h claimed linked = tt
  AreReread-IsFollowed tx u [] (u' ∷ us) h claimed linked = absurd h
  AreReread-IsFollowed tx u (tx' ∷ txs) [] h claimed linked = absurd h
  AreReread-IsFollowed tx u (tx' ∷ txs) (u' ∷ us) ((_, same, _), h) (some_in, _, claimed)
        (spent, linked) =
      (
        first_spent (get_hash u) u'.vin
            (omega (
              arith,
              some_in,
              length-map (λ (i : TxIn). i.prevout.n) tx'.vin,
              length-map (λ (i : TxIn). i.prevout.n) u'.vin,
              ap length same,
            ))
            spent,
        AreReread-IsFollowed tx' u' txs us h claimed linked,
      )
