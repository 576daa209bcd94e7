-- ===== src/BlockchainInterface/Reading/Linked.antt =====
-- A single message: a chain in which every transaction spends the one before it, and only the last one ends it.
use mathlib.Core.Path.{subst}
use bitcoin_messaging.Base.{
  ℕ, suc, ◌≤◌, ◌≡◌, ◌≢◌, refl, sym, ap, ap₂, ◌∙◌, Bool, true, false, List, [], ◌∷◌, ◌++◌, Option,
  some, arith, length, All, append_assoc, append-nil,
}
use bitcoin_messaging.Types.{Data}
use bitcoin_messaging.BlockchainInterface.{Transaction}
use bitcoin_messaging.BlockchainInterface.Reading.{spent_hash, is_last, read_transactions}
use bitcoin_messaging.BlockchainInterface.Reading.Splitting.{Message, whole, wholes, joined}
use bitcoin_messaging.BlockchainInterface.Reading.Backwards.{
  Spends, first, next, read_transactions-messages,
}

-- `chain.back()` of a chain that begins with `tx`.
abbrev pub last_of : Transaction → List Transaction → Transaction
last_of tx [] = tx
last_of tx (u ∷ txs) = last_of u txs

module _ (ends : Transaction → Bool) where
  -- The last transaction ends a message, and no other one does.
  abbrev pub IsWhole : List Transaction → Type 0
  IsWhole [] = ⊥
  IsWhole (tx ∷ []) = ends tx ≡ true
  IsWhole (tx ∷ u ∷ txs) = (ends tx ≡ false) × IsWhole (u ∷ txs)

  pub IsWhole-message :
      (tx : Transaction) (txs : List Transaction)
      → IsWhole (tx ∷ txs)
      → (m : Message ends) × (whole ends m ≡ tx ∷ txs)
  IsWhole-message tx [] h = (record { body = []; last = tx; goes_on = tt; stops = h }, refl)
  IsWhole-message tx (u ∷ txs) (goes_on, h) =
      let (m, same) = IsWhole-message u txs h in
      (
        record {
          body = tx ∷ m.body;
          last = m.last;
          goes_on = (goes_on, m.goes_on);
          stops = m.stops;
        },
        ap (λ (l : List Transaction). tx ∷ l) same,
      )

pub last_of-append :
    (tx u : Transaction) (txs us : List Transaction) → last_of tx (txs ++ (u ∷ us)) ≡ last_of u us
last_of-append tx u [] us = refl
last_of-append tx u (t ∷ txs) us = last_of-append t u txs us

-- The transactions of all chains in a row.
abbrev pub flatten : List (List Transaction) → List Transaction
flatten [] = []
flatten (chain ∷ chains) = chain ++ flatten chains

pub flatten-append :
    (chains : List (List Transaction)) (chain : List Transaction)
    → flatten (chains ++ (chain ∷ [])) ≡ flatten chains ++ chain
flatten-append [] chain = append-nil chain
flatten-append (c ∷ chains) chain =
    ap (λ (l : List Transaction). c ++ l) (flatten-append chains chain)
    ∙ sym (append_assoc c (flatten chains) chain)

module _ (ends : Transaction → Bool) where
  -- Chains that are a message each are the messages of their concatenation.
  messages_of :
      (chains : List (List Transaction))
      → All (λ (chain : List Transaction). IsWhole ends chain) chains
      → (ms : List (Message ends)) × ((joined ends ms [] ≡ flatten chains)
          × (wholes ends ms ≡ chains))
  messages_of [] h = ([], (refl, refl))
  messages_of ([] ∷ chains) (complete, h) = absurd complete
  messages_of ((tx ∷ txs) ∷ chains) (complete, h) =
      let (m, same) = IsWhole-message ends tx txs complete in
      let (ms, (row, each)) = messages_of chains h in
      (
        m ∷ ms,
        (
          ap (λ (l : List Transaction). m.body ++ (m.last ∷ l)) row
              ∙ sym (append_assoc m.body (m.last ∷ []) (flatten chains))
              ∙ ap (λ (l : List Transaction). l ++ flatten chains) same,
          ap₂ ◌∷◌ same each,
        ),
      )

module _ (get_hash : Transaction → ℕ) where
  -- The first input of every transaction spends an output of the one before it.
  abbrev pub IsFollowed : List Transaction → Type 0
  IsFollowed [] = Unit
  IsFollowed (tx ∷ []) = Unit
  IsFollowed (tx ∷ u ∷ txs) = (spent_hash u.vin ≡ some (get_hash tx)) × IsFollowed (u ∷ txs)

  pub IsFollowed-append :
      (tx u : Transaction) (txs us : List Transaction)
      → IsFollowed (tx ∷ txs)
      → spent_hash u.vin ≡ some (get_hash (last_of tx txs))
      → IsFollowed (u ∷ us)
      → IsFollowed (tx ∷ (txs ++ (u ∷ us)))
  IsFollowed-append tx u [] us followed spent after = (spent, after)
  IsFollowed-append tx u (t ∷ txs) us (here, followed) spent after =
      (here, IsFollowed-append t u txs us followed spent after)

  IsFollowed-Spends :
      (get_transaction : ℕ → Option Transaction) (tx_begin : ℕ) (before : List Transaction)
      (tx : Transaction) (txs : List Transaction)
      → Spends get_transaction tx_begin (get_hash tx) (before ++ (tx ∷ []))
      → IsFollowed (tx ∷ txs)
      → All (λ (u : Transaction). get_transaction (get_hash u) ≡ some u) txs
      → All (λ (u : Transaction). tx_begin ≢ get_hash u) txs
      → Spends get_transaction tx_begin (get_hash (last_of tx txs)) (before ++ (tx ∷ txs))
  IsFollowed-Spends get_transaction tx_begin before tx [] spends followed found other = spends
  IsFollowed-Spends get_transaction tx_begin before tx (u ∷ txs) spends (spent, followed)
        (here, found) (differs, other) =
      subst (Spends get_transaction tx_begin (get_hash (last_of u txs)))
        (append_assoc before (tx ∷ []) (u ∷ txs))
        (IsFollowed-Spends get_transaction tx_begin (before ++ (tx ∷ [])) u txs
          (next (get_hash u) (get_hash tx) u (before ++ (tx ∷ [])) spends here spent differs)
          followed found other)

  -- If chains in a row are a message each, the first input of every transaction spends the one before
  -- it, and all of them are found by their ids, none of which is the first one's again, then reading
  -- from the first to the last gives the chains.
  pub read_transactions-IsFollowed :
      (get_transaction : ℕ → Option Transaction) (is_script_hash : Data → Bool) (fuel : ℕ)
      (chains : List (List Transaction)) (tx : Transaction) (txs : List Transaction)
      → flatten chains ≡ tx ∷ txs
      → All (λ (chain : List Transaction). IsWhole (is_last is_script_hash) chain) chains
      → IsFollowed (tx ∷ txs)
      → All (λ (u : Transaction). get_transaction (get_hash u) ≡ some u) (tx ∷ txs)
      → All (λ (u : Transaction). get_hash tx ≢ get_hash u) txs
      → suc (length txs) ≤ fuel
      → read_transactions is_script_hash get_transaction fuel
          (get_hash tx)
          (get_hash (last_of tx txs))
        ≡ some chains
  read_transactions-IsFollowed get_transaction is_script_hash fuel chains tx txs row complete
        followed (here, found) other enough =
      let (ms, (same, each)) = messages_of (is_last is_script_hash) chains complete in
      read_transactions-messages get_transaction is_script_hash fuel (get_hash tx)
        (get_hash (last_of tx txs)) ms []
        (subst (Spends get_transaction (get_hash tx) (get_hash (last_of tx txs))) (sym (same ∙ row))
          (IsFollowed-Spends get_transaction (get_hash tx) [] tx txs (first tx here) followed found
            other))
        (omega (arith, ap length (same ∙ row))) tt
      ∙ ap (λ (l : List (List Transaction)). some l) each
