-- ===== src/BlockchainInterface/Embedding/Claims.antt =====
-- The inputs of a transaction that spend the outputs of the one before it, all of which are locked by
-- scripts' hashes.
use mathlib.Core.Option.{some-injective}
use mathlib.Core.Path.{subst}
use bitcoin_messaging.Base.{
  ℕ, zero, suc, ◌+◌, ◌≤◌, ◌<◌, ◌≡◌, ◌⊎◌, inl, inr, refl, sym, ap, ◌∙◌, List, [], ◌∷◌, ◌++◌, some,
  arith, length, get_elem?, get_elem?-below, get_elem?-append,
}
use bitcoin_messaging.Types.{Data}
use bitcoin_messaging.DataInterface.{PubKeys}
use bitcoin_messaging.BlockchainInterface.{TxIn, TxOut, Transaction}
use bitcoin_messaging.BlockchainInterface.Signing.{Signing}
use bitcoin_messaging.BlockchainInterface.ScriptHash.Spending.{
  Grows, IsSpendable, IsSpendable-Grows,
}

≤-cases : (i j : ℕ) → i ≤ j → (i < j) ⊎ (i ≡ j)
≤-cases zero zero h = inr refl
≤-cases zero (suc j) h = inl (omega arith)
≤-cases (suc i) zero h = absurd (omega arith)
≤-cases (suc i) (suc j) h = elim (≤-cases i j (omega arith)) [
  | inl l ↦ inl (omega arith)
  | inr e ↦ inr (ap suc e)
]

module _ {keys : PubKeys} (signing : Signing keys) where
  -- Every input from `i` on spends an output that the store can sign for.
  abbrev pub IsClaimed : signing.Store → ℕ → List TxOut → List TxIn → Type 0
  IsClaimed store i outs vin =
      (j : ℕ) (t : TxIn)
      → i ≤ j
      → get_elem? vin j ≡ some t
      → (out : TxOut) × ((get_elem? outs t.prevout.n ≡ some out)
          × IsSpendable signing store out.script_pub_key t.script_sig)

  pub IsClaimed-step :
      (i p : ℕ) (store store' : signing.Store) (outs outs' : List TxOut) (vin : List TxIn)
      (u : TxIn) (out : TxOut)
      → IsClaimed store' (i + 1) outs' vin
      → get_elem? vin i ≡ some u
      → u.prevout.n ≡ p
      → get_elem? outs' p ≡ some out
      → IsSpendable signing store out.script_pub_key u.script_sig
      → Grows signing store store'
      → IsClaimed store' i outs' vin
  IsClaimed-step i p store store' outs outs' vin u out later here e at_out spends grows j t below
        there =
      elim (≤-cases i j below) [
        | inl less ↦ later j t (omega arith) there
        | inr same ↦
            let f : u ≡ t = some-injective _ _ (sym here ∙ ap (get_elem? vin) same ∙ there) in
            subst
              (λ (x : TxIn).
                (o : TxOut) × ((get_elem? outs' x.prevout.n ≡ some o)
                  × IsSpendable signing store' o.script_pub_key x.script_sig))
              f
              (
                out,
                (
                  ap (get_elem? outs') e ∙ at_out,
                  IsSpendable-Grows signing store store' out.script_pub_key u.script_sig grows
                      spends,
                ),
              )
      ]

  pub IsClaimed-Grows :
      (store store' : signing.Store) (outs : List TxOut) (vin : List TxIn)
      → Grows signing store store'
      → IsClaimed store 0 outs vin
      → IsClaimed store' 0 outs vin
  IsClaimed-Grows store store' outs vin grows claims j t below there =
      let (out, (at_out, spends)) = claims j t below there in
      (
        out,
        (
          at_out,
          IsSpendable-Grows signing store store' out.script_pub_key t.script_sig grows spends,
        ),
      )

  -- Outputs behind those that are spent do not matter.
  pub IsClaimed-append :
      (store : signing.Store) (outs tail : List TxOut) (vin : List TxIn)
      → IsClaimed store 0 outs vin
      → IsClaimed store 0 (outs ++ tail) vin
  IsClaimed-append store outs tail vin claims j t below there =
      let (out, (at_out, spends)) = claims j t below there in
      (
        out,
        (
          get_elem?-append outs tail t.prevout.n (get_elem?-below outs t.prevout.n out at_out)
              ∙ at_out,
          spends,
        ),
      )

  -- Every transaction of a chain has inputs, which spend outputs of the one before it.
  abbrev pub AreClaimed : signing.Store → List Transaction → Type 0
  AreClaimed store [] = Unit
  AreClaimed store (tx ∷ []) = Unit
  AreClaimed store (tx ∷ u ∷ txs) =
      (0 < length u.vin) × IsClaimed store 0 tx.vout u.vin × AreClaimed store (u ∷ txs)

-- The last transaction of a chain has one output, which pays to the address.
abbrev pub EndsIn : Data → List Transaction → Type 0
EndsIn addr [] = ⊥
EndsIn addr (tx ∷ []) =
    (amount : ℕ) × (tx.vout ≡ record { n_value = amount; script_pub_key = addr } ∷ [])
EndsIn addr (tx ∷ u ∷ txs) = EndsIn addr (u ∷ txs)

pub EndsIn-append :
    (addr : Data) (tx last : Transaction) (txs : List Transaction) (amount : ℕ)
    → last.vout ≡ record { n_value = amount; script_pub_key = addr } ∷ []
    → EndsIn addr (tx ∷ (txs ++ (last ∷ [])))
EndsIn-append addr tx last [] amount e = (amount, e)
EndsIn-append addr tx last (u ∷ txs) amount e = EndsIn-append addr u last txs amount e
