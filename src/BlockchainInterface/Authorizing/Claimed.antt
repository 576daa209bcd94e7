-- ===== src/BlockchainInterface/Authorizing/Claimed.antt =====
-- AuthorizeTransactions on a chain of EmbedData: every input spends an output that the keystore can sign for,
-- so the chain is authorized, and ExtractData reads from it what it read before.
use mathlib.Core.Option.{some-injective}
use mathlib.Core.Bool.{false≢true}
use mathlib.Core.Path.{subst}
use bitcoin_messaging.Base.{
  ℕ, zero, suc, ◌+◌, ◌<◌, ◌≡◌, ◌≢◌, refl, sym, ap, ◌∙◌, Bool, true, List, [], ◌∷◌, Option, some,
  arith, length, length-map, length-set, map, get_elem?, set, map-set, get_elem?-some,
  get_elem?-map-some, get_elem?-set_self, get_elem?-set_other, Bool-cases, inl, inr, ◌==◌, ==_iff,
}
use bitcoin_messaging.DataInterface.{PubKeys}
use bitcoin_messaging.BlockchainInterface.{TxIn, TxOut, Transaction, unpack_data_from_seq_nr}
use bitcoin_messaging.BlockchainInterface.Signing.{Signing}
use bitcoin_messaging.BlockchainInterface.ScriptHash.{unpack_data_from_p2sh}
use bitcoin_messaging.BlockchainInterface.ScriptHash.Spending.{
  IsSpendable, sign_signature-IsSpendable,
}
use bitcoin_messaging.BlockchainInterface.Embedding.{extract_data}
use bitcoin_messaging.BlockchainInterface.Embedding.Claims.{IsClaimed, AreClaimed}
use bitcoin_messaging.BlockchainInterface.Authorizing.{
  point_to, point_all, map-point_to, sign_inputs_loop, authorize_loop, authorize_transactions,
  IsLinked, sign_inputs_loop-IsSame, authorize_loop-IsLinked,
}
use bitcoin_messaging.BlockchainInterface.Embedding.Rereading.{
  view, view-signed, AreReread, extract_data-AreReread,
}

module _ {keys : PubKeys} (signing : Signing keys) (suffix_bits : ℕ) where
  view-point_to :
      (hash : ℕ) (t : TxIn)
      → view signing suffix_bits (point_to hash t) ≡ view signing suffix_bits t
  unfolding unpack_data_from_p2sh unpack_data_from_seq_nr
  view-point_to hash t = refl

module _ {keys : PubKeys} (signing : Signing keys) (suffix_bits : ℕ) (get_hash : Transaction → ℕ)
    (sign_raw : Transaction → Option (Transaction × Bool)) (store : signing.Store) where
  -- A new signature at one place leaves the others as they were.
  IsClaimed-set :
      (outs : List TxOut) (vin : List TxIn) (j : ℕ) (t u : TxIn) (out : TxOut)
      → IsClaimed signing store 0 outs vin
      → j < length vin
      → get_elem? outs u.prevout.n ≡ some out
      → IsSpendable signing store out.script_pub_key u.script_sig
      → IsClaimed signing store 0 outs (set vin j u)
  IsClaimed-set outs vin j t u out claims inside at_out spends k v below there =
      elim (Bool-cases (k == j)) [
        | inl e ↦
            let same : u ≡ v = some-injective _ _ (
              sym (get_elem?-set_self vin j u inside)
              ∙ ap (get_elem? (set vin j u)) (sym ((==_iff k j).0 e))
              ∙ there) in
            subst
              (λ (x : TxIn).
                (o : TxOut) × ((get_elem? outs x.prevout.n ≡ some o)
                  × IsSpendable signing store o.script_pub_key x.script_sig))
              same (out, (at_out, spends))
        | inr e ↦
            let other : k ≢ j = (λ f. false≢true (sym e ∙ (==_iff k j).1 f)) in
            claims k v below (sym (get_elem?-set_other vin j k u other) ∙ there)
      ]

  IsClaimed-point_to :
      (outs : List TxOut) (vin : List TxIn) (hash : ℕ)
      → IsClaimed signing store 0 outs vin
      → IsClaimed signing store 0 outs (map (λ (t : TxIn). point_to hash t) vin)
  IsClaimed-point_to outs vin hash claims k v below there =
      let (t, (here, same)) = get_elem?-map-some (λ (t : TxIn). point_to hash t) vin k v there in
      subst
        (λ (x : TxIn).
          (o : TxOut) × ((get_elem? outs x.prevout.n ≡ some o)
            × IsSpendable signing store o.script_pub_key x.script_sig))
        same (claims k t below here)

  sign_inputs_loop-IsClaimed :
      (left j : ℕ) (before tx : Transaction)
      → j + left ≡ length tx.vin
      → IsClaimed signing store 0 before.vout tx.vin
      → (signed : Transaction) × (sign_inputs_loop signing get_hash sign_raw store left j before tx
          ≡ some signed)
        × (map (view signing suffix_bits) signed.vin ≡ map (view signing suffix_bits) tx.vin)
  unfolding sign_inputs_loop
  sign_inputs_loop-IsClaimed zero j before tx count claims = (tx, refl, refl)
  sign_inputs_loop-IsClaimed (suc left) j before tx count claims =
      let inside : j < length tx.vin = omega arith in
      let (t, here) = get_elem?-some tx.vin j inside in
      let (out, (at_out, spends)) = claims j t (omega arith) here in
      let (script, signed, spends', same) =
        sign_signature-IsSpendable signing store out.script_pub_key t.script_sig suffix_bits t tx j
          spends inside in
      let t' : TxIn = record t { script_sig = script } in
      let (tx', made, same') =
        sign_inputs_loop-IsClaimed left (j + 1) before (record tx { vin = set tx.vin j t' })
          (omega (arith, length-set tx.vin j t'))
          (IsClaimed-set before.vout tx.vin j t t' out claims inside at_out spends') in
      (
        tx',
        rw (here, at_out, signed) made,
        same'
            ∙ map-set (view signing suffix_bits) tx.vin j t t' here
                (view-signed signing suffix_bits t script same),
      )

  AreClaimed-vout :
      (tx u : Transaction) (txs : List Transaction)
      → u.vout ≡ tx.vout
      → AreClaimed signing store (tx ∷ txs)
      → AreClaimed signing store (u ∷ txs)
  AreClaimed-vout tx u [] e h = tt
  AreClaimed-vout tx u (tx' ∷ txs) e (inputs, claims, h) =
      (inputs, subst (λ (l : List TxOut). IsClaimed signing store 0 l tx'.vin) (sym e) claims, h)

  authorize_loop-AreReread :
      (before : Transaction) (txs : List Transaction)
      → AreClaimed signing store (before ∷ txs)
      → (rest : List Transaction) × (authorize_loop signing get_hash sign_raw store before txs
          ≡ some (before ∷ rest))
        × AreReread signing suffix_bits txs rest
  unfolding authorize_loop
  authorize_loop-AreReread before [] h = ([], refl, tt)
  authorize_loop-AreReread before (tx ∷ txs) (inputs, claims, h) =
      let pointed = point_all (get_hash before) tx in
      let (signed, made, same) =
        sign_inputs_loop-IsClaimed (length tx.vin) 0 before pointed
          (omega (arith, length-map (λ (t : TxIn). point_to (get_hash before) t) tx.vin))
          (IsClaimed-point_to before.vout tx.vin (get_hash before) claims) in
      let ((outs, indices, _), _) =
        sign_inputs_loop-IsSame signing get_hash sign_raw store (length tx.vin) 0 before pointed
          signed made in
      let (rest, made', reread) =
        authorize_loop-AreReread signed txs (AreClaimed-vout tx signed txs outs h) in
      (
        signed ∷ rest,
        rw (made, made') refl,
        (
          (
            outs,
            indices ∙ map-point_to (λ (i : TxIn). i.prevout.n) (get_hash before) tx.vin (λ i. refl),
            same
                ∙ map-point_to (view signing suffix_bits) (get_hash before) tx.vin
                    (view-point_to signing suffix_bits (get_hash before)),
          ),
          reread,
        ),
      )

  -- If every input of a chain behind the first transaction spends an output of the transaction before it
  -- that the keystore can sign for, and the wallet signs the first transaction completely, without changing its outputs:
  -- the chain is authorized; every input of a later transaction points to the signed transaction before
  -- it; and ExtractData reads from the result what it reads from the chain.
  pub authorize_transactions-extract_data :
      (floor_log2 : ℕ → ℕ) (tx signed : Transaction) (txs : List Transaction)
      → sign_raw tx ≡ some (signed, true)
      → signed.vout ≡ tx.vout
      → AreClaimed signing store (tx ∷ txs)
      → (rest : List Transaction) × (authorize_transactions signing get_hash sign_raw store
            (tx ∷ txs)
          ≡ some (signed ∷ rest))
        × IsLinked signing get_hash sign_raw store (signed ∷ rest)
        × AreReread signing suffix_bits txs rest
        × (extract_data signing floor_log2 suffix_bits (signed ∷ rest)
            ≡ extract_data signing floor_log2 suffix_bits (tx ∷ txs))
  unfolding authorize_transactions
  authorize_transactions-extract_data floor_log2 tx signed txs complete outs claimed =
      let (rest, made, reread) =
        authorize_loop-AreReread signed txs (AreClaimed-vout tx signed txs outs claimed) in
      let (rest', shape, linked, _) =
        authorize_loop-IsLinked signing get_hash sign_raw store signed txs (signed ∷ rest) made in
      (
        rest,
        rw complete made,
        subst (IsLinked signing get_hash sign_raw store) (sym shape) linked,
        reread,
        extract_data-AreReread signing suffix_bits floor_log2 tx signed txs rest outs reread,
      )
