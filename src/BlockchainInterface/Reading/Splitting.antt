-- ===== src/BlockchainInterface/Reading/Splitting.antt =====
-- The split of a chain: it undoes the concatenation of messages.
use bitcoin_messaging.Base.{
  Bool, true, false, List, [], ◌∷◌, ◌++◌, ◌≡◌, refl, sym, ap, ◌∙◌, All, arith, append-nil,
  append_assoc,
}
use bitcoin_messaging.BlockchainInterface.{Transaction}
use bitcoin_messaging.BlockchainInterface.Reading.{split_loop}

-- A message: transactions none of which ends it, and one that does.
pub record Message (ends : Transaction → Bool) : Type 0 where
  pub body : List Transaction
  pub last : Transaction
  pub goes_on : All (λ tx. ends tx ≡ false) body
  pub stops : ends last ≡ true

module _ (ends : Transaction → Bool) where
  abbrev pub whole : Message ends → List Transaction
  whole m = m.body ++ (m.last ∷ [])

  abbrev pub wholes : List (Message ends) → List (List Transaction)
  wholes [] = []
  wholes (m ∷ ms) = whole m ∷ wholes ms

  abbrev pub joined : List (Message ends) → List Transaction → List Transaction
  joined [] tail = tail
  joined (m ∷ ms) tail = m.body ++ (m.last ∷ joined ms tail)

  split_on :
      (tx : Transaction) (txs current : List Transaction) (chains : List (List Transaction))
      → ends tx ≡ false
      → split_loop ends (tx ∷ txs) current chains
        ≡ split_loop ends txs (current ++ (tx ∷ [])) chains
  unfolding split_loop
  split_on tx txs current chains e = ground arith

  split_off :
      (tx : Transaction) (txs current : List Transaction) (chains : List (List Transaction))
      → ends tx ≡ true
      → split_loop ends (tx ∷ txs) current chains
        ≡ split_loop ends txs [] (chains ++ ((current ++ (tx ∷ [])) ∷ []))
  unfolding split_loop
  split_off tx txs current chains e = ground arith

  split_body :
      (body txs current : List Transaction) (chains : List (List Transaction))
      → All (λ tx. ends tx ≡ false) body
      → split_loop ends (body ++ txs) current chains ≡ split_loop ends txs (current ++ body) chains
  split_body [] txs current chains h =
      ap (λ (l : List Transaction). split_loop ends txs l chains) (sym (append-nil current))
  split_body (tx ∷ body) txs current chains (e, h) =
      split_on tx (body ++ txs) current chains e
      ∙ split_body body txs (current ++ (tx ∷ [])) chains h
      ∙ ap (λ (l : List Transaction). split_loop ends txs l chains)
          (append_assoc current (tx ∷ []) body)

  split_tail :
      (tail current : List Transaction) (chains : List (List Transaction))
      → All (λ tx. ends tx ≡ false) tail
      → split_loop ends tail current chains ≡ chains
  unfolding split_loop
  split_tail [] current chains h = refl
  split_tail (tx ∷ tail) current chains (e, h) =
      split_on tx tail current chains e ∙ split_tail tail (current ++ (tx ∷ [])) chains h

  split_step :
      (m : Message ends) (txs : List Transaction) (chains : List (List Transaction))
      → split_loop ends (m.body ++ (m.last ∷ txs)) [] chains
        ≡ split_loop ends txs [] (chains ++ (whole m ∷ []))
  split_step m txs chains =
      split_body m.body (m.last ∷ txs) [] chains m.goes_on
      ∙ split_off m.last txs m.body chains m.stops

  split_loop-joined :
      (ms : List (Message ends)) (tail : List Transaction) (chains : List (List Transaction))
      → All (λ tx. ends tx ≡ false) tail
      → split_loop ends (joined ms tail) [] chains ≡ chains ++ wholes ms
  split_loop-joined [] tail chains h = split_tail tail [] chains h ∙ sym (append-nil chains)
  split_loop-joined (m ∷ ms) tail chains h =
      split_step m (joined ms tail) chains
      ∙ split_loop-joined ms tail (chains ++ (whole m ∷ [])) h
      ∙ append_assoc chains (whole m ∷ []) (wholes ms)

  -- A chain that consists of messages, each ended by its last transaction and by no earlier one, and of
  -- a rest without an end is split into exactly these messages, in their order; the rest is dropped.
  pub split_loop-messages :
      (ms : List (Message ends)) (tail : List Transaction)
      → All (λ tx. ends tx ≡ false) tail
      → split_loop ends (joined ms tail) [] [] ≡ wholes ms
  split_loop-messages ms tail h = split_loop-joined ms tail [] h
