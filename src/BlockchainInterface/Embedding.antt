-- ===== src/BlockchainInterface/Embedding.antt =====
-- `EmbedData` and `ExtractData`: data in a chain of transactions.
--
-- The vector `txs` of EmbedData is `done`, the transactions before index `idx`, then `current` and
-- `next`, those at `idx` and `idx + 1`. What a round changes is the record `Round`.
pub mod Outputs
pub mod Claims
pub mod Inputs
pub mod Step
pub mod RoundTrip
pub mod Rereading
use bitcoin_messaging.Base.{
  ℕ, zero, suc, ◌+◌, ◌-◌, ◌^◌, ◌≡◌, Bool, true, false, List, [], ◌∷◌, ◌++◌, Option, none, some,
  length, map, get_elem?, set, leb, ltb, ◌==◌, if◌then◌else◌, ◌>>=◌, ◌>>◌, assert,
}
use bitcoin_messaging.Types.{DataBits, Data}
use bitcoin_messaging.Maths.{sub64}
use bitcoin_messaging.DataInterface.{PubKeys}
use bitcoin_messaging.BlockchainInterface.{
  OutPoint, TxIn, TxOut, Transaction, Scripts, pack_data_into_seq_nr, unpack_data_from_seq_nr,
  pack_data_into_nulldata, unpack_data_from_nulldata, pack_data_into_budget_split,
  unpack_data_from_budget_split, pack_data_into_budget_claim, unpack_data_from_budget_claim,
}
use bitcoin_messaging.BlockchainInterface.Optimizing.{
  Parameters, Config, dummy_out, optimize_params,
}
use bitcoin_messaging.BlockchainInterface.Signing.{Signing}
use bitcoin_messaging.BlockchainInterface.ScriptHash.{
  KeypairMap, Session, pack_data_into_p2sh, unpack_data_from_p2sh,
}

-- `CTxIn()` and `CTransaction()`.
abbrev pub empty_in : TxIn
empty_in = record {
  prevout = record { hash = 0; n = 2 ^ 32 - 1 };
  script_sig = [];
  n_sequence = 2 ^ 32 - 1;
}

abbrev pub empty_tx : Transaction
empty_tx = record { vin = []; vout = [] }

-- `txs[idx+1].vin[i].prevout.n = i`
abbrev pub set_n : ℕ → TxIn → TxIn
set_n n tx_in = record tx_in { prevout = record tx_in.prevout { n = n } }

-- The loop that adds an output and an input in front, with `left` rounds to go.
pub open_loop : ℕ → ℕ → List TxOut → List TxIn → Option (List TxOut × List TxIn)
open_loop zero i vout vin = some (vout, vin)
open_loop (suc left) i vout vin = get_elem? (empty_in ∷ vin) i >>= λ tx_in.
    open_loop left (i + 1) (dummy_out [] ∷ vout) (set (empty_in ∷ vin) i (set_n i tx_in))

-- The last element, and those before it. `none` is `back` of an empty vector.
pub split_back : List TxOut → Option (List TxOut × TxOut)
split_back [] = none
split_back (o ∷ []) = some ([], o)
split_back (o ∷ p ∷ outs) = split_back (p ∷ outs) >>= λ parts. some (o ∷ parts.0, parts.1)

module _ (floor_log2 : ℕ → ℕ) where
  -- Data in the budget split and claim, or all of the budget in the only output.
  unfoldable pub pack_budget :
      (ℕ → ℕ → ℕ)
      → DataBits
      → List TxOut
      → List TxIn
      → ℕ
      → ℕ
      → Option (DataBits × List TxOut × List TxIn)
  pack_budget round_root bits vout vin budget fees =
      if length vout == 1
      then (do
        out ← get_elem? vout 0
        tx_in ← get_elem? vin 0
        some (
          bits,
          set vout 0 (record out { n_value = sub64 budget fees }),
          set vin 0 (set_n 0 tx_in),
        ))
      else (if leb 2 (length vout)
          then (do
            split ←
                if leb fees budget
                then pack_data_into_budget_split floor_log2 round_root bits vout (sub64 budget fees)
                    546
                else some (bits, vout)
            claim ← pack_data_into_budget_claim floor_log2 split.0 vin
            some (claim.0, split.1, claim.1))
          else some (bits, vout, vin))

  -- Data from the budget split and claim of `n` script hashes.
  unfoldable pub unpack_budget : ℕ → List TxOut → List TxIn → DataBits → Option DataBits
  unpack_budget n vout vin bits =
      if leb 2 n
      then (do
        split ← unpack_data_from_budget_split floor_log2 vout 546
        claim ← unpack_data_from_budget_claim floor_log2 vin
        some ((bits ++ split) ++ claim))
      else some bits

-- `if(nNulldata)`: an output more.
unfoldable pub pack_nulldata : Scripts → ℕ → DataBits → List TxOut → Option (DataBits × List TxOut)
pack_nulldata scripts n_nulldata bits vout =
    if ltb 0 n_nulldata
    then (do
      packed ← pack_data_into_nulldata scripts bits (dummy_out [])
      some (packed.0, vout ++ (packed.1 ∷ [])))
    else some (bits, vout)

module _ {keys : PubKeys} (signing : Signing keys) where
  -- The loop over the inputs of the next transaction.
  pub unpack_inputs_loop : ℕ → ℕ → ℕ → List TxIn → DataBits → Option DataBits
  unpack_inputs_loop suffix_bits zero j vin bits = some bits
  unpack_inputs_loop suffix_bits (suc left) j vin bits = get_elem? vin j >>= λ tx_in.
      unpack_data_from_p2sh signing suffix_bits tx_in >>= λ slice.
      unpack_inputs_loop suffix_bits left (j + 1) vin
        ((bits ++ slice) ++ unpack_data_from_seq_nr tx_in)

  -- One round of ExtractData: the outputs of a transaction and the inputs of the next one.
  pub extract_round : (ℕ → ℕ) → ℕ → List TxOut → List TxIn → DataBits → Option DataBits
  unfolding unpack_budget unpack_inputs_loop split_back
  extract_round floor_log2 suffix_bits vout vin bits =
      if leb 2 (length vout)
      then (do
        parts ← split_back vout
        budget ← unpack_budget floor_log2 (length vout - 1) parts.0 vin bits
        slice ← unpack_data_from_nulldata parts.1
        unpack_inputs_loop suffix_bits (length vout - 1) 0 vin (budget ++ slice))
      else unpack_inputs_loop suffix_bits (length vout) 0 vin bits

  -- The bound `nTransactions-1` wraps for an empty chain, which is read out of range.
  pub extract_loop : (ℕ → ℕ) → ℕ → List Transaction → DataBits → Option DataBits
  extract_loop floor_log2 suffix_bits [] bits = none
  extract_loop floor_log2 suffix_bits (tx ∷ []) bits = some bits
  extract_loop floor_log2 suffix_bits (tx ∷ u ∷ txs) bits =
      extract_round floor_log2 suffix_bits tx.vout u.vin bits >>= λ more.
      extract_loop floor_log2 suffix_bits (u ∷ txs) more

  unfoldable pub extract_data : (ℕ → ℕ) → ℕ → List Transaction → Option DataBits
  unfolding extract_loop
  extract_data floor_log2 suffix_bits txs = extract_loop floor_log2 suffix_bits txs []

  module _ (key_map : KeypairMap signing) (suffix_bits fuel : ℕ) (draws : ℕ → ℕ → ℕ → Bool) where
    -- The loop that packs data into the script hashes and the inputs that claim them.
    pub pack_inputs_loop :
        ℕ
        → ℕ
        → Session signing
        → DataBits
        → List TxOut
        → Transaction
        → Option (Session signing × DataBits × List TxOut × Transaction)
    pack_inputs_loop zero i session bits vout tx = some (session, bits, vout, tx)
    pack_inputs_loop (suc left) i session bits vout tx = get_elem? tx.vin i >>= λ claiming.
        get_elem? vout claiming.prevout.n >>= λ out.
        pack_data_into_p2sh signing key_map suffix_bits fuel draws session bits out tx i
        >>= λ hashed. get_elem? hashed.3.vin i >>= λ signed.
            pack_data_into_seq_nr hashed.1 signed >>= λ numbered.
            pack_inputs_loop left (i + 1) hashed.0 numbered.0 (set vout claiming.prevout.n hashed.2)
              (record hashed.3 { vin = set hashed.3.vin i numbered.1 })

  pub record Round : Type 0 where
    pub session : Session signing
    pub params : Parameters
    pub bits : DataBits
    pub current : Transaction
    pub next : Transaction
    pub budget : ℕ

  module _ (floor_log2 : ℕ → ℕ) (round_root : ℕ → ℕ → ℕ) (scripts : Scripts)
      (size : Transaction → ℕ) (config : Config) (key_map : KeypairMap signing) (fuel : ℕ)
      (draws : ℕ → ℕ → ℕ → Bool) where
    -- The parameters that OptimizeParams sets in a round.
    abbrev pub params_of : Round → Parameters
    params_of r = optimize_params floor_log2 scripts size config r.current r.bits r.budget r.params

    unfoldable pub embed_round : Round → Option Round
    unfolding open_loop pack_budget pack_nulldata pack_inputs_loop
    embed_round r = do
      let params = params_of r
      opened ← open_loop params.n_script_hash 0 r.current.vout r.next.vin
      budgeted ← pack_budget floor_log2 round_root r.bits opened.0 opened.1 r.budget params.n_fees
      with_null ← pack_nulldata scripts params.n_nulldata budgeted.0 budgeted.1
      packed ←
          pack_inputs_loop key_map config.suffix_bits fuel draws params.n_script_hash 0 r.session
            with_null.0 with_null.1 (record r.next { vin = budgeted.2 })
      some (record {
        session = packed.0;
        params = params;
        bits = packed.1;
        current = record r.current { vout = packed.2 };
        next = packed.3;
        budget = sub64 r.budget params.n_fees;
      })

    -- `txs.push_back(CTransaction()); idx++`
    abbrev pub next_round : Round → Round
    next_round s = record s { current = s.next; next = empty_tx }

    -- The variables before the loop. The fields of `params` are uninitialized.
    abbrev pub start_round : Session signing → Parameters → DataBits → ℕ → List OutPoint → Round
    start_round session params bits budget prev_out = record {
      session = session;
      params = params;
      bits = bits;
      current = record {
        vin = map (λ (p : OutPoint). record empty_in { prevout = p }) prev_out;
        vout = [];
      };
      next = empty_tx;
      budget = budget;
    }

    -- `do … while(bits.size() > 0)`. Every round takes bits, so their number is enough fuel.
    pub embed_loop : ℕ → List Transaction → Round → Option (List Transaction × Round)
    embed_loop zero done r = none
    embed_loop (suc rounds) done r = embed_round r >>= λ s. elim (ltb 0 (length s.bits)) [
      | true ↦ embed_loop rounds (done ++ (s.current ∷ [])) (next_round s)
      | false ↦ some (done, s)
    ]

    -- `addr` is the script of the address. The keystore and the calls of the generator, which outlive the
    -- call, come back beside the chain.
    unfoldable pub embed_data :
        Session signing
        → Parameters
        → DataBits
        → ℕ
        → List OutPoint
        → Data
        → Option (Session signing × List Transaction)
    unfolding embed_loop embed_round
    embed_data session params bits budget prev_out addr = do
      ended ← embed_loop (suc (length bits)) [] (start_round session params bits budget prev_out)
      let r = ended.1
      let last = optimize_params floor_log2 scripts size config r.next r.bits r.budget r.params
      let out : TxOut = record { n_value = sub64 r.budget last.n_fees; script_pub_key = addr }
      some (
        r.session,
        ended.0 ++ (r.current ∷ record r.next { vout = r.next.vout ++ (out ∷ []) } ∷ []),
      )
