-- ===== src/BlockchainInterface/Reading/Blocks/Following.antt =====
-- The reading of blocks ends, and what it reads is a chain.
use mathlib.Core.Path.{subst}
use bitcoin_messaging.Base.{
  ℕ, zero, suc, ◌+◌, ◌*◌, ◌≤◌, ◌<◌, ◌≡◌, refl, sym, ap, ◌∙◌, true, false, List, [], ◌∷◌, ◌++◌,
  Option, some, arith, length, get_elem?, get_elem?-some, All, All-append, ltb, ◌==◌, ==_iff,
  Bool-cases, inl, inr,
}
use bitcoin_messaging.BlockchainInterface.{TxIn, Transaction}
use bitcoin_messaging.BlockchainInterface.Reading.{spent_hash, split_loop}
use bitcoin_messaging.BlockchainInterface.Reading.Linked.{
  last_of, last_of-append, IsFollowed, IsFollowed-append,
}
use bitcoin_messaging.BlockchainInterface.Reading.Blocks.{
  erase, refs_loop, scan_loop, blocks_loop, read_blocks,
}

abbrev pub HasInput : Transaction → Type 0
HasInput tx = 0 < length tx.vin

length-erase :
    (txs : List Transaction) (j : ℕ) → j < length txs → suc (length (erase txs j)) ≡ length txs
length-erase [] j h = absurd (omega arith)
length-erase (tx ∷ txs) zero h = refl
length-erase (tx ∷ txs) (suc j) h = ap suc (length-erase txs j (omega arith))

All-erase :
    (txs : List Transaction) (j : ℕ)
    → All (λ (tx : Transaction). HasInput tx) txs
    → All (λ (tx : Transaction). HasInput tx) (erase txs j)
All-erase [] j h = tt
All-erase (tx ∷ txs) zero (here, h) = h
All-erase (tx ∷ txs) (suc j) (here, h) = (here, All-erase txs j h)

input_at :
    (txs : List Transaction) (j : ℕ) (tx : Transaction)
    → All (λ (t : Transaction). HasInput t) txs
    → get_elem? txs j ≡ some tx
    → HasInput tx
input_at [] j tx h e = ground (arith, e)
input_at (t ∷ txs) zero tx (here, h) e = ground (arith, here, e)
input_at (t ∷ txs) (suc j) tx (here, h) e = input_at txs j tx h e

spent_some : (vin : List TxIn) → 0 < length vin → (hash : ℕ) × (spent_hash vin ≡ some hash)
spent_some [] h = absurd (omega arith)
spent_some (i ∷ vin) h = (i.prevout.hash, refl)

refs_loop-some :
    (get_transaction : ℕ → Option Transaction) (refs : List ℕ) (txs : List Transaction)
    → ((ref : ℕ) → (tx : Transaction) × (get_transaction ref ≡ some tx) × HasInput tx)
    → All (λ (tx : Transaction). HasInput tx) txs
    → (found : List Transaction) × (refs_loop get_transaction refs txs ≡ some found)
      × All (λ (tx : Transaction). HasInput tx) found
unfolding refs_loop
refs_loop-some get_transaction [] txs finds h = (txs, refl, h)
refs_loop-some get_transaction (ref ∷ refs) txs finds h =
    let (tx, e, here) = finds ref in
    let (found, made, all) =
      refs_loop-some get_transaction refs (txs ++ (tx ∷ [])) finds
        (All-append (λ (t : Transaction). HasInput t) txs (tx ∷ []) h (here, tt)) in
    (found, rw e made, all)

module _ (get_hash : Transaction → ℕ) where
  -- The result of a scan: the chain begins as before and is followed, what is looked for is its last
  -- transaction, and those that are left have inputs.
  abbrev IsScanned : Transaction → Option (ℕ × List Transaction × List Transaction) → Type 0
  IsScanned tx0 result =
      (rest : List Transaction) × ((left : List Transaction) × (result
          ≡ some (get_hash (last_of tx0 rest), left, tx0 ∷ rest))
        × IsFollowed get_hash (tx0 ∷ rest)
        × All (λ (tx : Transaction). HasInput tx) left)

  scan_end :
      (fuel j tx_begin : ℕ) (txs chain : List Transaction)
      → ltb j (length txs) ≡ false
      → scan_loop get_hash (suc fuel) j tx_begin txs chain ≡ some (tx_begin, txs, chain)
  unfolding scan_loop
  scan_end fuel j tx_begin txs chain e = rw (scan_loop, e) refl

  scan_match :
      (fuel j tx_begin hash : ℕ) (txs chain : List Transaction) (tx : Transaction)
      → ltb j (length txs) ≡ true
      → get_elem? txs j ≡ some tx
      → spent_hash tx.vin ≡ some hash
      → (hash == tx_begin) ≡ true
      → scan_loop get_hash (suc fuel) j tx_begin txs chain
        ≡ scan_loop get_hash fuel 1 (get_hash tx) (erase txs j) (chain ++ (tx ∷ []))
  unfolding scan_loop
  scan_match fuel j tx_begin hash txs chain tx e here spent same = ground arith

  scan_on :
      (fuel j tx_begin hash : ℕ) (txs chain : List Transaction) (tx : Transaction)
      → ltb j (length txs) ≡ true
      → get_elem? txs j ≡ some tx
      → spent_hash tx.vin ≡ some hash
      → (hash == tx_begin) ≡ false
      → scan_loop get_hash (suc fuel) j tx_begin txs chain
        ≡ scan_loop get_hash fuel (j + 1) tx_begin txs chain
  unfolding scan_loop
  scan_on fuel j tx_begin hash txs chain tx e here spent other = ground arith

  scan_loop-IsScanned :
      (fuel j tx_begin : ℕ) (txs : List Transaction) (tx0 : Transaction) (rest : List Transaction)
      → length txs * length txs + length txs + 2 ≤ fuel + j
      → j ≤ length txs + 1
      → All (λ (tx : Transaction). HasInput tx) txs
      → IsFollowed get_hash (tx0 ∷ rest)
      → tx_begin ≡ get_hash (last_of tx0 rest)
      → IsScanned tx0 (scan_loop get_hash fuel j tx_begin txs (tx0 ∷ rest))
  scan_loop-IsScanned zero j tx_begin txs tx0 rest enough near inputs followed e =
      absurd (omega arith)
  scan_loop-IsScanned (suc fuel) j tx_begin txs tx0 rest enough near inputs followed e =
      elim (Bool-cases (ltb j (length txs))) [
        | inr past ↦ (
          rest,
          (
            txs,
            scan_end fuel j tx_begin txs (tx0 ∷ rest) past
                ∙ ap (λ (h : ℕ). some (h, txs, tx0 ∷ rest)) e,
            followed,
            inputs,
          ),
        )
        | inl inside ↦
            let below : j < length txs = ground arith in
            let (tx, here) = get_elem?-some txs j below in
            let (hash, spent) = spent_some tx.vin (input_at txs j tx inputs here) in
            elim (Bool-cases (hash == tx_begin)) [
              | inl same ↦
                  let size = length-erase txs j below in
                  let square : length txs * length txs
                      ≡ suc (length (erase txs j)) * suc (length (erase txs j)) =
                    ap (λ (n : ℕ). n * n) (sym size) in
                  let known : spent_hash tx.vin ≡ some (get_hash (last_of tx0 rest)) =
                    spent ∙ ap some ((==_iff hash tx_begin).0 same ∙ e) in
                  subst (IsScanned tx0)
                    (sym
                      (scan_match fuel j tx_begin hash txs (tx0 ∷ rest) tx inside here spent same))
                    (scan_loop-IsScanned fuel 1 (get_hash tx) (erase txs j) tx0 (rest ++ (tx ∷ []))
                      (omega (arith, square)) (omega arith) (All-erase txs j inputs)
                      (IsFollowed-append get_hash tx0 tx rest [] followed known tt)
                      (ap get_hash (sym (last_of-append tx0 tx rest []))))
              | inr other ↦
                  subst (IsScanned tx0)
                    (sym (scan_on fuel j tx_begin hash txs (tx0 ∷ rest) tx inside here spent other))
                    (scan_loop-IsScanned fuel (j + 1) tx_begin txs tx0 rest (omega arith)
                      (omega arith) inputs followed e)
            ]
      ]

  module _ (get_transaction : ℕ → Option Transaction) (get_block : ℕ → Option (List ℕ × ℕ))
      (finds : (ref : ℕ) → (tx : Transaction) × (get_transaction ref ≡ some tx) × HasInput tx)
      (blocks : (hash : ℕ) → (block : List ℕ × ℕ) × (get_block hash ≡ some block)) where
    blocks_loop-IsFollowed :
        (left block_hash tx_begin : ℕ) (txs : List Transaction) (tx0 : Transaction)
        (rest : List Transaction)
        → All (λ (tx : Transaction). HasInput tx) txs
        → IsFollowed get_hash (tx0 ∷ rest)
        → tx_begin ≡ get_hash (last_of tx0 rest)
        → (rest' : List Transaction) × (blocks_loop get_hash get_transaction get_block left
              block_hash tx_begin txs
              (tx0 ∷ rest)
            ≡ some (tx0 ∷ rest'))
          × IsFollowed get_hash (tx0 ∷ rest')
    unfolding blocks_loop
    blocks_loop-IsFollowed zero block_hash tx_begin txs tx0 rest inputs followed e =
        (rest, refl, followed)
    blocks_loop-IsFollowed (suc left) block_hash tx_begin txs tx0 rest inputs followed e =
        let (block, got) = blocks block_hash in
        let (found, made, inputs') = refs_loop-some get_transaction block.0 txs finds inputs in
        let (rest', (txs', scanned, followed', inputs'')) =
          scan_loop-IsScanned (length found * length found + length found + 2) 0 tx_begin found tx0
            rest (omega arith) (omega arith) inputs' followed e in
        let (rest'', result, followed'') =
          blocks_loop-IsFollowed left block.1 (get_hash (last_of tx0 rest')) txs' tx0 rest' inputs''
            followed' refl in
        (rest'', rw (got, made, scanned) result, followed'')

    -- If the client has every block and every transaction, all of which have inputs, and the id that is
    -- asked for is that of the transaction it finds: reading returns, for any number of blocks, within
    -- n * n + n + 2 rounds for a scan of n transactions. What it splits into messages is a chain from this
    -- transaction on, in which the first input of each spends an output of the one before.
    pub read_blocks-IsFollowed :
        (get_raw : ℕ → Option (Transaction × ℕ)) (tx_begin n_blocks block_hash : ℕ)
        (tx : Transaction)
        → get_raw tx_begin ≡ some (tx, block_hash)
        → get_hash tx ≡ tx_begin
        → (rest : List Transaction) × (read_blocks get_hash get_transaction get_block get_raw
              tx_begin n_blocks
            ≡ some (split_loop (λ (t : Transaction). length t.vout == 1) (tx ∷ rest) [] []))
          × IsFollowed get_hash (tx ∷ rest)
    unfolding read_blocks
    read_blocks-IsFollowed get_raw tx_begin n_blocks block_hash tx got id =
        let (rest, made, followed) =
          blocks_loop-IsFollowed n_blocks block_hash tx_begin [] tx [] tt tt (sym id) in
        (rest, rw (got, made) refl, followed)
