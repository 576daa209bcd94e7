-- ===== src/BlockchainInterface/Embedding/Rereading.antt =====
-- ExtractData on two chains with the same outputs, the same order of the inputs and the same data in each input.
use mathlib.Core.Path.{fun_ext}
use bitcoin_messaging.Base.{
  ℕ, zero, suc, ◌+◌, ◌-◌, ◌≡◌, refl, sym, ap, ap₂, ◌∙◌, List, [], ◌∷◌, ◌++◌, Option, some,
  get_elem?-map-none, length, map, get_elem?, get_elem?-map, Option-cases, inl, inr, leb,
  if◌then◌else◌, ◌>>=◌,
}
use bitcoin_messaging.Types.{DataBits, Data}
use bitcoin_messaging.DataInterface.{PubKeys}
use bitcoin_messaging.BlockchainInterface.{
  TxIn, TxOut, Transaction, unpack_data_from_seq_nr, unpack_data_from_nulldata,
  unpack_data_from_budget_claim,
}
use bitcoin_messaging.BlockchainInterface.Signing.{Signing}
use bitcoin_messaging.BlockchainInterface.ScriptHash.{unpack_data_from_p2sh}
use bitcoin_messaging.BlockchainInterface.Embedding.{
  split_back, unpack_budget, unpack_inputs_loop, extract_round, extract_loop, extract_data,
}
use bitcoin_messaging.BlockchainInterface.Embedding.Outputs.{orders, get_order-orders}

module _ {keys : PubKeys} (signing : Signing keys) (suffix_bits : ℕ) where
  -- What ExtractData reads from an input by itself.
  abbrev pub view : TxIn → Option DataBits × DataBits
  view t = (unpack_data_from_p2sh signing suffix_bits t, unpack_data_from_seq_nr t)

  pub view-signed :
      (t : TxIn) (script : Data)
      → unpack_data_from_p2sh signing suffix_bits (record t { script_sig = script })
        ≡ unpack_data_from_p2sh signing suffix_bits t
      → view (record t { script_sig = script }) ≡ view t
  unfolding unpack_data_from_seq_nr
  view-signed t script e = ap (λ (r : Option DataBits). (r, unpack_data_from_seq_nr t)) e

  views_loop : ℕ → ℕ → List (Option DataBits × DataBits) → DataBits → Option DataBits
  views_loop zero j views bits = some bits
  views_loop (suc left) j views bits = get_elem? views j >>= λ v.
      v.0 >>= λ slice. views_loop left (j + 1) views ((bits ++ slice) ++ v.1)

  unpack_inputs_loop-views :
      (left j : ℕ) (vin : List TxIn) (bits : DataBits)
      → unpack_inputs_loop signing suffix_bits left j vin bits
        ≡ views_loop left j (map view vin) bits
  unfolding unpack_inputs_loop views_loop
  unpack_inputs_loop-views zero j vin bits = refl
  unpack_inputs_loop-views (suc left) j vin bits = elim (Option-cases (get_elem? vin j)) [
    | inl e ↦ rw (e, get_elem?-map-none view vin j e) refl
    | inr (t, e) ↦ elim (Option-cases (unpack_data_from_p2sh signing suffix_bits t)) [
      | inl f ↦ rw (e, get_elem?-map view vin j t e, f) refl
      | inr (slice, f) ↦
          rw (e, get_elem?-map view vin j t e, f)
            (unpack_inputs_loop-views left (j + 1) vin
              ((bits ++ slice) ++ unpack_data_from_seq_nr t))
    ]
  ]

  -- What is read from a transaction's inputs stays, and so do the outputs.
  abbrev pub IsReread : Transaction → Transaction → Type 0
  IsReread tx u =
      (u.vout ≡ tx.vout) × (orders u.vin ≡ orders tx.vin) × (map view u.vin ≡ map view tx.vin)

  abbrev pub AreReread : List Transaction → List Transaction → Type 0
  AreReread [] [] = Unit
  AreReread [] (u ∷ us) = ⊥
  AreReread (tx ∷ txs) [] = ⊥
  AreReread (tx ∷ txs) (u ∷ us) = IsReread tx u × AreReread txs us

  module _ (floor_log2 : ℕ → ℕ) where
    same_budget :
        (n : ℕ) (outs : List TxOut) (vin vin' : List TxIn) (bits : DataBits)
        → orders vin' ≡ orders vin
        → unpack_budget floor_log2 n outs vin' bits ≡ unpack_budget floor_log2 n outs vin bits
    unfolding unpack_budget unpack_data_from_budget_claim
    same_budget n outs vin vin' bits e = rw (get_order-orders vin', get_order-orders vin, e) refl

    same_round :
        (vout : List TxOut) (vin vin' : List TxIn) (bits : DataBits)
        → orders vin' ≡ orders vin
        → map view vin' ≡ map view vin
        → extract_round signing floor_log2 suffix_bits vout vin' bits
          ≡ extract_round signing floor_log2 suffix_bits vout vin bits
    unfolding extract_round
    same_round vout vin vin' bits e f =
        ap₂
          (λ (budget_of : List TxOut → Option DataBits) (inputs : ℕ → DataBits → Option DataBits).
            if leb 2 (length vout)
            then (do
              parts ← split_back vout
              budget ← budget_of parts.0
              slice ← unpack_data_from_nulldata parts.1
              inputs (length vout - 1) (budget ++ slice))
            else inputs (length vout) bits)
          (fun_ext (λ outs. same_budget (length vout - 1) outs vin vin' bits e))
          (fun_ext (λ n. fun_ext (λ b.
            unpack_inputs_loop-views n 0 vin' b
            ∙ ap (λ l. views_loop n 0 l b) f
            ∙ sym (unpack_inputs_loop-views n 0 vin b))))

    pub extract_loop-AreReread :
        (tx u : Transaction) (txs us : List Transaction) (bits : DataBits)
        → u.vout ≡ tx.vout
        → AreReread txs us
        → extract_loop signing floor_log2 suffix_bits (u ∷ us) bits
          ≡ extract_loop signing floor_log2 suffix_bits (tx ∷ txs) bits
    unfolding extract_loop
    extract_loop-AreReread tx u [] [] bits outs h = refl
    extract_loop-AreReread tx u [] (u' ∷ us) bits outs h = absurd h
    extract_loop-AreReread tx u (tx' ∷ txs) [] bits outs h = absurd h
    extract_loop-AreReread tx u (tx' ∷ txs) (u' ∷ us) bits outs ((outs', e, f), h) =
        rw (outs, same_round tx.vout tx'.vin u'.vin bits e f)
          (ap
            (λ (k : DataBits → Option DataBits).
              extract_round signing floor_log2 suffix_bits tx.vout tx'.vin bits >>= k)
            (fun_ext (λ b. extract_loop-AreReread tx' u' txs us b outs' h)))

    pub extract_data-AreReread :
        (tx u : Transaction) (txs us : List Transaction)
        → u.vout ≡ tx.vout
        → AreReread txs us
        → extract_data signing floor_log2 suffix_bits (u ∷ us)
          ≡ extract_data signing floor_log2 suffix_bits (tx ∷ txs)
    unfolding extract_data
    extract_data-AreReread tx u txs us outs h = extract_loop-AreReread tx u txs us [] outs h
