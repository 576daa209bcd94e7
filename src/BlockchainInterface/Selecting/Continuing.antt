-- ===== src/BlockchainInterface/Selecting/Continuing.antt =====
-- `SelectInputs` continues a chain: output 0 of its last transaction comes first.
use mathlib.Core.Bool.{false≢true, Bool-set}
use mathlib.Core.Logic.{∥∥₁_elim}
use mathlib.Core.List.{Perm, Permᴰ}
use bitcoin_messaging.Base.{
  ℕ, ◌≡◌, refl, sym, ap, ap₂, ◌∙◌, Bool, true, false, List, [], ◌∷◌, ◌++◌, some, leb, ◌==◌, ◌&&◌,
  if◌then◌else◌, append-nil, append_assoc, Bool-cases, inl, inr, ==_iff,
}
use bitcoin_messaging.BlockchainInterface.{OutPoint}
use bitcoin_messaging.BlockchainInterface.Selecting.{
  Unspent, InitInputs, point_of, add_input, last_loop, fill_loop, select_inputs,
}

both : (a b : Bool) → (a && b) ≡ true → (a ≡ true) × (b ≡ true)
both true b h = (refl, h)
both false b h = absurd (false≢true h)

module _ {Amount : Type 0} (satoshi : Amount → ℕ) where
  abbrev is_last_output : ℕ → Unspent satoshi → Bool
  is_last_output last_tx u = u.txid == last_tx && u.n == 0

  -- Output 0 of the last transaction is not spent yet.
  abbrev pub has_last : ℕ → List (Unspent satoshi) → Bool
  has_last last_tx [] = false
  has_last last_tx (u ∷ us) = if is_last_output last_tx u then true else has_last last_tx us

  either_order :
      (a b c : Bool)
      → (if a then true else (if b then true else c))
        ≡ (if b then true else (if a then true else c))
  either_order true true c = refl
  either_order true false c = refl
  either_order false b c = refl

  has_last-permᴰ :
      (last_tx : ℕ) {us vs : List (Unspent satoshi)}
      → Permᴰ us vs
      → has_last last_tx us ≡ has_last last_tx vs
  has_last-permᴰ last_tx Permᴰ.nil = refl
  has_last-permᴰ last_tx (Permᴰ.cons e p) =
      ap₂ (λ (a b : Bool). if a then true else b) (ap (is_last_output last_tx) e)
        (has_last-permᴰ last_tx p)
  has_last-permᴰ last_tx (Permᴰ.swap {l = l} e f) =
      ap₂ (λ (a b : Bool). if a then true else (if b then true else has_last last_tx l))
        (ap (is_last_output last_tx) e) (ap (is_last_output last_tx) f)
      ∙ either_order _ _ (has_last last_tx l)
  has_last-permᴰ last_tx (Permᴰ.trans p q) = has_last-permᴰ last_tx p ∙ has_last-permᴰ last_tx q

  has_last-perm :
      (last_tx : ℕ) {us vs : List (Unspent satoshi)}
      → Perm us vs
      → has_last last_tx us ≡ has_last last_tx vs
  has_last-perm last_tx p = ∥∥₁_elim p (Bool-set _ _) (has_last-permᴰ last_tx)

  abbrev pub last_point : ℕ → OutPoint
  last_point last_tx = record { hash = last_tx; n = 0 }

  -- The loop finds it.
  last_loop-has_last :
      (last_tx : ℕ) (us before : List (Unspent satoshi)) (params : InitInputs satoshi)
      → has_last last_tx us ≡ true
      → (last_loop satoshi last_tx us before params).0.utxo
        ≡ params.utxo ++ (last_point last_tx ∷ [])
  unfolding last_loop
  last_loop-has_last last_tx [] before params h = absurd (false≢true h)
  last_loop-has_last last_tx (u ∷ us) before params h =
      elim (Bool-cases (is_last_output last_tx u)) [
        | inl e ↦
            let (same, zeroth) = both (u.txid == last_tx) (u.n == 0) e in
            rw e (
              ap (λ (p : OutPoint). params.utxo ++ (p ∷ []))
                (ap₂ (λ (h n : ℕ). record { hash = h; n = n }) ((==_iff u.txid last_tx).0 same)
                  ((==_iff u.n 0).0 zeroth)))
        | inr e ↦
            rw e (last_loop-has_last last_tx us (before ++ (u ∷ [])) params (sym (rw e refl) ∙ h))
      ]

  -- The second loop only adds to it.
  fill_loop-extends :
      (n_min : ℕ) (us : List (Unspent satoshi)) (params : InitInputs satoshi)
      → (rest : List OutPoint) × ((fill_loop satoshi n_min us params).utxo ≡ params.utxo ++ rest)
  unfolding fill_loop
  fill_loop-extends n_min [] params = ([], sym (append-nil params.utxo))
  fill_loop-extends n_min (u ∷ us) params = elim (Bool-cases (leb n_min params.budget)) [
    | inl e ↦ ([], rw e (sym (append-nil params.utxo)))
    | inr e ↦
        let (rest, same) = fill_loop-extends n_min us (add_input satoshi u params) in
        (
          point_of satoshi u ∷ rest,
          rw e (same ∙ append_assoc params.utxo (point_of satoshi u ∷ []) rest),
        )
  ]

  -- If output 0 of the last transaction is among the unspent outputs, which the sorting only permutes, and
  -- the balance is not below the minimum, it is the first of the selected inputs.
  pub select_inputs-continues :
      (sort : List (Unspent satoshi) → List (Unspent satoshi))
      → ((us : List (Unspent satoshi)) → Perm (sort us) us)
      → (balance_below : ℕ → Bool) (list_unspent : List (Unspent satoshi)) (last_tx n_min : ℕ)
      → balance_below n_min ≡ false
      → has_last last_tx list_unspent ≡ true
      → (params : InitInputs satoshi) × ((rest : List OutPoint) × (select_inputs satoshi sort
              balance_below list_unspent last_tx n_min
            ≡ some params)
          × (params.utxo ≡ last_point last_tx ∷ rest))
  unfolding select_inputs
  select_inputs-continues sort sort-perm balance_below list_unspent last_tx n_min rich there =
      let sorted = sort list_unspent in
      let found = last_loop satoshi last_tx sorted [] (record { utxo = []; budget = 0 }) in
      let first =
        last_loop-has_last last_tx sorted [] (record { utxo = []; budget = 0 })
          (has_last-perm last_tx (sort-perm list_unspent) ∙ there) in
      let (rest, same) = fill_loop-extends n_min found.1 found.0 in
      (
        fill_loop satoshi n_min found.1 found.0,
        (rest, rw rich refl, same ∙ ap (λ (l : List OutPoint). l ++ rest) first),
      )
