-- ===== src/BlockchainInterface/Authorizing.antt =====
-- `AuthorizeTransactions` and `SendTransactions`: a chain is linked by the hashes of its transactions, signed,
-- and sent in order.
--
-- `sign_raw` is signrawtransaction of the wallet with the conversions to hexadecimal digits and back: the
-- signed transaction and whether the signature is complete, or `none` for the exception. `get_hash` is GetHash.
pub mod Claimed
pub mod Readable
use bitcoin_messaging.Base.{
  ℕ, zero, suc, ◌+◌, ◌≡◌, refl, sym, ap, ap₂, ◌∙◌, Bool, true, false, List, [], ◌∷◌, ◌++◌, Option,
  none, some, arith, length, map, get_elem?, set, map-set, All, All-append, append_assoc,
  append-nil, Bool-cases, inl, inr, ◌⊎◌, ◌>>=◌, ◌>>◌, assert, >>=-eq-some,
}
use mathlib.Core.Option.{some-injective}
use mathlib.Core.Path.{subst}
use bitcoin_messaging.DataInterface.{PubKeys}
use bitcoin_messaging.BlockchainInterface.{TxIn, Transaction}
use bitcoin_messaging.BlockchainInterface.Signing.{Signing}

-- `txs[i].vin[j].prevout.hash = txs[i-1].GetHash()` for all inputs.
abbrev pub point_to : ℕ → TxIn → TxIn
point_to hash tx_in = record tx_in { prevout = record tx_in.prevout { hash = hash } }

abbrev pub point_all : ℕ → Transaction → Transaction
point_all hash tx = record tx { vin = map (λ (i : TxIn). point_to hash i) tx.vin }

-- `SendTransactions`: `send` is sendrawtransaction, and what has been sent before is `sent`. It stops at
-- the first failure.
pub send_loop : (Transaction → Bool) → List Transaction → List Transaction → List Transaction × Bool
send_loop send [] sent = (sent, true)
send_loop send (tx ∷ txs) sent = elim (send tx) [
  | true ↦ send_loop send txs (sent ++ (tx ∷ []))
  | false ↦ (sent, false)
]

unfoldable pub send_transactions : (Transaction → Bool) → List Transaction → List Transaction × Bool
unfolding send_loop
send_transactions send txs = send_loop send txs []

-- What has been sent is a beginning of the chain; each of it was accepted, and the sending stops where the
-- wallet refuses.
abbrev pub IsSent : (Transaction → Bool) → List Transaction → List Transaction × Bool → Type 0
IsSent send txs result =
    (rest : List Transaction) × (result.0 ++ rest ≡ txs)
    × All (λ (tx : Transaction). send tx ≡ true) result.0
    × (((result.1 ≡ true) × (rest ≡ []))
        ⊎ ((result.1 ≡ false)
            × ((tx : Transaction) × ((others : List Transaction) × (rest ≡ tx ∷ others)
                  × (send tx ≡ false)))))

send_on :
    (send : Transaction → Bool) (tx : Transaction) (txs sent : List Transaction)
    → send tx ≡ true
    → send_loop send (tx ∷ txs) sent ≡ send_loop send txs (sent ++ (tx ∷ []))
unfolding send_loop
send_on send tx txs sent e = rw (send_loop, e)

send_stop :
    (send : Transaction → Bool) (tx : Transaction) (txs sent : List Transaction)
    → send tx ≡ false
    → send_loop send (tx ∷ txs) sent ≡ (sent, false)
unfolding send_loop
send_stop send tx txs sent e = rw (send_loop, e)

send_loop-IsSent :
    (send : Transaction → Bool) (txs sent : List Transaction)
    → All (λ (tx : Transaction). send tx ≡ true) sent
    → IsSent send (sent ++ txs) (send_loop send txs sent)
send_loop-IsSent send [] sent h = unfold send_loop in ([], refl, h, inl (refl, refl))
send_loop-IsSent send (tx ∷ txs) sent h = elim (Bool-cases (send tx)) [
  | inl e ↦ subst (IsSent send (sent ++ (tx ∷ txs))) (sym (send_on send tx txs sent e)) (
      subst (λ (l : List Transaction). IsSent send l (send_loop send txs (sent ++ (tx ∷ []))))
        (append_assoc sent (tx ∷ []) txs)
        (send_loop-IsSent send txs (sent ++ (tx ∷ []))
          (All-append (λ (t : Transaction). send t ≡ true) sent (tx ∷ []) h (e, tt))))
  | inr e ↦
      subst (IsSent send (sent ++ (tx ∷ txs))) (sym (send_stop send tx txs sent e))
        (tx ∷ txs, refl, h, inr (refl, (tx, (txs, refl, e))))
]

-- The wallet gets the transactions in the order of the chain, up to the first one that it refuses. If it
-- refuses none, all of them are sent and there is no exception; otherwise those before it are sent, and
-- there is one.
pub send_transactions-IsSent :
    (send : Transaction → Bool) (txs : List Transaction)
    → IsSent send txs (send_transactions send txs)
unfolding send_transactions
send_transactions-IsSent send txs = send_loop-IsSent send txs [] tt

send_loop-accepted :
    (send : Transaction → Bool) (txs sent : List Transaction)
    → ((tx : Transaction) → send tx ≡ true)
    → send_loop send txs sent ≡ (sent ++ txs, true)
unfolding send_loop
send_loop-accepted send [] sent h = ap (λ (l : List Transaction). (l, true)) (sym (append-nil sent))
send_loop-accepted send (tx ∷ txs) sent h =
    send_on send tx txs sent (h tx)
    ∙ send_loop-accepted send txs (sent ++ (tx ∷ [])) h
    ∙ ap (λ (l : List Transaction). (l, true)) (append_assoc sent (tx ∷ []) txs)

-- A wallet that refuses nothing gets everything.
pub send_transactions-accepted :
    (send : Transaction → Bool) (txs : List Transaction)
    → ((tx : Transaction) → send tx ≡ true)
    → send_transactions send txs ≡ (txs, true)
unfolding send_transactions
send_transactions-accepted send txs h = send_loop-accepted send txs [] h

asserted : (b : Bool) {u : Unit {0}} → assert b ≡ some u → b ≡ true
asserted true h = refl
asserted false h = ground (arith, h)

pub map-point_to :
    {B : Type 0} (f : TxIn → B) (hash : ℕ) (vin : List TxIn)
    → ((i : TxIn) → f (point_to hash i) ≡ f i)
    → map f (map (λ (i : TxIn). point_to hash i) vin) ≡ map f vin
map-point_to f hash [] same = refl
map-point_to f hash (i ∷ vin) same = ap₂ ◌∷◌ (same i) (map-point_to f hash vin same)

all_hash :
    (hash : ℕ) (vin : List TxIn)
    → All
        (λ (h : ℕ). h ≡ hash)
        (map (λ (i : TxIn). i.prevout.hash) (map (λ (i : TxIn). point_to hash i) vin))
all_hash hash [] = tt
all_hash hash (i ∷ vin) = (refl, all_hash hash vin)

all_inputs :
    (hash : ℕ) (vin : List TxIn)
    → All (λ (h : ℕ). h ≡ hash) (map (λ (i : TxIn). i.prevout.hash) vin)
    → All (λ (i : TxIn). i.prevout.hash ≡ hash) vin
all_inputs hash [] h = tt
all_inputs hash (i ∷ vin) (h, hs) = (h, all_inputs hash vin hs)

module _ {keys : PubKeys} (signing : Signing keys) (get_hash : Transaction → ℕ)
    (sign_raw : Transaction → Option (Transaction × Bool)) (store : signing.Store) where
  -- The loop over the inputs, with `left` rounds to go: each is signed for the output it spends.
  pub sign_inputs_loop : ℕ → ℕ → Transaction → Transaction → Option Transaction
  sign_inputs_loop zero j before tx = some tx
  sign_inputs_loop (suc left) j before tx = get_elem? tx.vin j >>= λ tx_in.
      get_elem? before.vout tx_in.prevout.n >>= λ out.
      signing.sign_signature store out.script_pub_key tx j >>= λ script.
      sign_inputs_loop left (j + 1) before
        (record tx { vin = set tx.vin j (record tx_in { script_sig = script }) })

  -- The loop over the transactions behind `before`.
  pub authorize_loop : Transaction → List Transaction → Option (List Transaction)
  unfolding sign_inputs_loop
  authorize_loop before [] = some (before ∷ [])
  authorize_loop before (tx ∷ txs) =
      sign_inputs_loop (length tx.vin) 0 before (point_all (get_hash before) tx) >>= λ signed.
      authorize_loop signed txs >>= λ rest. some (before ∷ rest)

  unfoldable pub authorize_transactions : List Transaction → Option (List Transaction)
  unfolding authorize_loop
  authorize_transactions [] = none
  authorize_transactions (tx ∷ txs) = do
    result ← sign_raw tx
    assert result.1
    authorize_loop result.0 txs

  -- Every input spends an output of the transaction before.
  abbrev pub IsLinked : List Transaction → Type 0
  IsLinked [] = Unit
  IsLinked (tx ∷ []) = Unit
  IsLinked (tx ∷ u ∷ txs) =
      All (λ (i : TxIn). i.prevout.hash ≡ get_hash tx) u.vin × IsLinked (u ∷ txs)

  -- The outputs, the outputs that the inputs spend and the sequence numbers stay.
  abbrev pub IsSame : Transaction → Transaction → Type 0
  IsSame tx u =
      (u.vout ≡ tx.vout)
      × (map (λ (i : TxIn). i.prevout.n) u.vin ≡ map (λ (i : TxIn). i.prevout.n) tx.vin)
      × (map (λ (i : TxIn). i.n_sequence) u.vin ≡ map (λ (i : TxIn). i.n_sequence) tx.vin)

  abbrev pub AreSame : List Transaction → List Transaction → Type 0
  AreSame [] [] = Unit
  AreSame [] (u ∷ us) = ⊥
  AreSame (tx ∷ txs) [] = ⊥
  AreSame (tx ∷ txs) (u ∷ us) = IsSame tx u × AreSame txs us

  unfoldable pub hashes_of : Transaction → List ℕ
  hashes_of tx = map (λ (i : TxIn). i.prevout.hash) tx.vin

  pub sign_inputs_loop-IsSame :
      (left j : ℕ) (before tx signed : Transaction)
      → sign_inputs_loop left j before tx ≡ some signed
      → IsSame tx signed × (hashes_of signed ≡ hashes_of tx)
  unfolding sign_inputs_loop hashes_of
  sign_inputs_loop-IsSame zero j before tx signed h =
      let e : signed ≡ tx = sym (some-injective _ _ h) in
      (
        (
          ap (λ t. t.vout) e,
          ap (λ t. map (λ (i : TxIn). i.prevout.n) t.vin) e,
          ap (λ t. map (λ (i : TxIn). i.n_sequence) t.vin) e,
        ),
        ap hashes_of e,
      )
  sign_inputs_loop-IsSame (suc left) j before tx signed h =
      let (t, here, h1) = >>=-eq-some (get_elem? tx.vin j) _ h in
      let (out, _, h2) = >>=-eq-some (get_elem? before.vout t.prevout.n) _ h1 in
      let (script, _, h3) =
        >>=-eq-some (signing.sign_signature store out.script_pub_key tx j) _ h2 in
      let t' : TxIn = record t { script_sig = script } in
      let ((a, b, c), d) =
        sign_inputs_loop-IsSame left (j + 1) before (record tx { vin = set tx.vin j t' }) signed
          h3 in
      (
        (
          a,
          b ∙ map-set (λ (i : TxIn). i.prevout.n) tx.vin j t t' here refl,
          c ∙ map-set (λ (i : TxIn). i.n_sequence) tx.vin j t t' here refl,
        ),
        d ∙ map-set (λ (i : TxIn). i.prevout.hash) tx.vin j t t' here refl,
      )

  pub authorize_loop-IsLinked :
      (before : Transaction) (txs result : List Transaction)
      → authorize_loop before txs ≡ some result
      → (rest : List Transaction) × (result ≡ before ∷ rest)
        × IsLinked (before ∷ rest)
        × AreSame txs rest
  unfolding authorize_loop hashes_of
  authorize_loop-IsLinked before [] result h = ([], sym (some-injective _ _ h), tt, tt)
  authorize_loop-IsLinked before (tx ∷ txs) result h =
      let hash = get_hash before in
      let (signed, e, h1) =
        >>=-eq-some (sign_inputs_loop (length tx.vin) 0 before (point_all hash tx)) _ h in
      let (r, f, h2) = >>=-eq-some (authorize_loop signed txs) _ h1 in
      let (rest, shape, linked, same) = authorize_loop-IsLinked signed txs r f in
      let ((outs, indices, numbers), hashes) =
        sign_inputs_loop-IsSame (length tx.vin) 0 before (point_all hash tx) signed e in
      let all = subst (All (λ (p : ℕ). p ≡ hash)) (sym hashes) (all_hash hash tx.vin) in
      (
        signed ∷ rest,
        sym (some-injective _ _ h2) ∙ ap (λ (l : List Transaction). before ∷ l) shape,
        (all_inputs hash signed.vin all, linked),
        (
          (
            outs,
            indices ∙ map-point_to (λ (i : TxIn). i.prevout.n) hash tx.vin (λ i. refl),
            numbers ∙ map-point_to (λ (i : TxIn). i.n_sequence) hash tx.vin (λ i. refl),
          ),
          same,
        ),
      )

  -- If the wallet signs without changing the outputs, then of a chain that has been authorized the first
  -- transaction has a complete signature and its old outputs; every input of a later one spends an
  -- output of the signed transaction before it, by its hash; and amounts, scripts, the order of the
  -- inputs and the sequence numbers of the later ones are as they were.
  pub authorize_transactions-IsLinked :
      ((tx signed : Transaction) (complete : Bool)
        → sign_raw tx ≡ some (signed, complete)
        → signed.vout ≡ tx.vout)
      → (tx : Transaction) (txs result : List Transaction)
      → authorize_transactions (tx ∷ txs) ≡ some result
      → (signed : Transaction) × ((rest : List Transaction) × (result ≡ signed ∷ rest)
          × (sign_raw tx ≡ some (signed, true))
          × (signed.vout ≡ tx.vout)
          × IsLinked (signed ∷ rest)
          × AreSame txs rest)
  unfolding authorize_transactions
  authorize_transactions-IsLinked keeps tx txs result h =
      let ((signed, complete), e, h1) = >>=-eq-some (sign_raw tx) _ h in
      let (_, f, h2) = >>=-eq-some (assert complete) _ h1 in
      let (rest, shape, linked, same) = authorize_loop-IsLinked signed txs result h2 in
      (
        signed,
        (
          rest,
          shape,
          e ∙ ap (λ (b : Bool). some (signed, b)) (asserted complete f),
          keeps tx signed complete e,
          linked,
          same,
        ),
      )
