-- ===== src/BlockchainInterface/Embedding/Inputs.antt =====
-- The loop of EmbedData over the inputs of the next transaction, against the loop of ExtractData.
use bitcoin_messaging.Base.{
  ℕ, ◌^◌, zero, suc, ◌+◌, ◌≤◌, ◌<◌, ◌≡◌, refl, sym, ap, ◌∙◌, Bool, List, [], ◌∷◌, ◌++◌, some, arith,
  All, length, length-append, get_elem?, set, length-set, get_elem?-set_self, get_elem?-set_lt,
  set-set, get_elem?-some, set-append, get_elem?-append, map-set, append-nil, IsDistinct,
  IsDistinct-same, get_elem?-below, get_elem?-map, get_elem?-set_other, append_assoc,
}
use mathlib.Core.Path.{subst}
use bitcoin_messaging.Types.{DataBits, Data}
use bitcoin_messaging.DataInterface.{PubKeys}
use bitcoin_messaging.BlockchainInterface.{
  TxIn, TxOut, Transaction, pack_data_into_seq_nr, unpack_data_from_seq_nr,
}
use bitcoin_messaging.BlockchainInterface.Slices.{IsStored, IsStored-nil, IsStored-append}
use bitcoin_messaging.BlockchainInterface.Fields.{unpack_data_from_seq_nr-pack_data_into_seq_nr}
use bitcoin_messaging.BlockchainInterface.Budget.{amounts}
use bitcoin_messaging.BlockchainInterface.Signing.{Signing}
use bitcoin_messaging.BlockchainInterface.ScriptHash.{
  KeypairMap, Session, pack_data_into_p2sh, unpack_data_from_p2sh,
}
use bitcoin_messaging.BlockchainInterface.ScriptHash.Keys.{IsLucky, HasSuffixes}
use bitcoin_messaging.BlockchainInterface.ScriptHash.Spending.{Grows, Grows-trans, IsSpendable}
use bitcoin_messaging.BlockchainInterface.ScriptHash.Inputs.{
  unpack_data_from_p2sh-pack_data_into_p2sh,
}
use bitcoin_messaging.BlockchainInterface.Embedding.{unpack_inputs_loop, pack_inputs_loop}
use bitcoin_messaging.BlockchainInterface.Embedding.Outputs.{orders}
use bitcoin_messaging.BlockchainInterface.Embedding.Claims.{IsClaimed, IsClaimed-step}

order_below :
    (n : ℕ) (vin : List TxIn) (i : ℕ) (t : TxIn)
    → All (λ p. p < n) (orders vin)
    → get_elem? vin i ≡ some t
    → t.prevout.n < n
order_below n [] i t h e = ground arith
order_below n (u ∷ vin) zero t (hu, h) e = ground (arith, hu)
order_below n (u ∷ vin) (suc i) t (hu, h) e = order_below n vin i t h e

module _ {keys : PubKeys} (signing : Signing keys) where
  same_script :
      (suffix_bits : ℕ) (t u : TxIn)
      → t.script_sig ≡ u.script_sig
      → unpack_data_from_p2sh signing suffix_bits t ≡ unpack_data_from_p2sh signing suffix_bits u
  unfolding unpack_data_from_p2sh
  same_script suffix_bits t u e = rw e

  -- One round of the reading loop.
  unpack_input :
      (suffix_bits left i : ℕ) (vin : List TxIn) (t : TxIn) (read more before : DataBits)
      → get_elem? vin i ≡ some t
      → unpack_data_from_p2sh signing suffix_bits t ≡ some read
      → ((b : DataBits)
          → unpack_inputs_loop signing suffix_bits left (i + 1) vin b ≡ some (b ++ more))
      → unpack_inputs_loop signing suffix_bits (suc left) i vin before
        ≡ some (before ++ ((read ++ unpack_data_from_seq_nr t) ++ more))
  unfolding unpack_inputs_loop
  unpack_input suffix_bits left i vin t read more before here back rest =
      let seq = unpack_data_from_seq_nr t in
      rw (here, back)
        (rest ((before ++ read) ++ seq)
          ∙ ap (λ (b : DataBits). some (b ++ more)) (append_assoc before read seq)
          ∙ ap some (append_assoc before (read ++ seq) more))

  module _ (key_map : KeypairMap signing) (suffix_bits fuel : ℕ) (draws : ℕ → ℕ → ℕ → Bool) where
    -- One round of the packing loop.
    pack_input :
        (left i : ℕ) (session session' : Session signing) (bits mid rest : DataBits)
        (outs tail : List TxOut) (tx : Transaction) (t u : TxIn) (out out' : TxOut)
        (script_sig : Data)
        → get_elem? tx.vin i ≡ some t
        → i < length tx.vin
        → t.prevout.n < length outs
        → get_elem? outs t.prevout.n ≡ some out
        → pack_data_into_p2sh signing key_map suffix_bits fuel draws session bits out tx i
          ≡ some (
            session',
            mid,
            out',
            record tx { vin = set tx.vin i (record t { script_sig = script_sig }) },
          )
        → pack_data_into_seq_nr mid (record t { script_sig = script_sig }) ≡ some (rest, u)
        → pack_inputs_loop signing key_map suffix_bits fuel draws
            (suc left)
            i
            session
            bits
            (outs ++ tail)
            tx
          ≡ pack_inputs_loop signing key_map suffix_bits fuel draws left
              (i + 1)
              session'
              rest
              (set outs t.prevout.n out' ++ tail)
              (record tx { vin = set tx.vin i u })
    unfolding pack_inputs_loop
    pack_input left i session session' bits mid rest outs tail tx t u out out' script_sig here
          inside bound at_out hashed numbered =
        let signed = record t { script_sig = script_sig } in
        rw (
          here,
          get_elem?-append outs tail t.prevout.n bound,
          at_out,
          hashed,
          get_elem?-set_self tx.vin i signed inside,
          numbered,
          set-append outs tail t.prevout.n out' bound,
          set-set tx.vin i signed u,
        )

    pub record IsPackedInputs (left i : ℕ) (session : Session signing) (bits : DataBits)
        (outs tail : List TxOut) (tx : Transaction) : Type 0 where
      pub session' : Session signing
      pub rest : DataBits
      pub outs' : List TxOut
      pub vin' : List TxIn
      pub read : DataBits
      pub returns :
          pack_inputs_loop signing key_map suffix_bits fuel draws left i session bits
            (outs ++ tail)
            tx
          ≡ some (session', rest, outs' ++ tail, record tx { vin = vin' })
      pub same_amounts : amounts outs' ≡ amounts outs
      pub same_orders : orders vin' ≡ orders tx.vin
      pub kept : (j : ℕ) → j < i → get_elem? vin' j ≡ get_elem? tx.vin j
      pub back :
          (before : DataBits)
          → unpack_inputs_loop signing suffix_bits left i vin' before ≡ some (before ++ read)
      pub stored : IsStored bits rest read
      pub suffixes : HasSuffixes signing key_map suffix_bits session'.store
      pub enough : 0 < left → 32 ≤ length read
      pub grows : Grows signing session.store session'.store
      pub kept_out :
          (p : ℕ)
          → ((j : ℕ) → i ≤ j → get_elem? (orders tx.vin) j ≡ some p → ⊥)
          → get_elem? outs' p ≡ get_elem? outs p
      pub claims : IsDistinct (orders tx.vin) → IsClaimed signing session'.store i outs' vin'

    -- Every input signs and claims an output: packing succeeds, and what it takes of the data is read
    -- back from the inputs; the amounts of the outputs and the order of the inputs stay.
    pub pack_inputs_loop-IsPackedInputs :
        IsLucky keys fuel draws
        → (left i : ℕ) (session : Session signing) (bits : DataBits) (outs tail : List TxOut)
          (tx : Transaction)
        → length bits < 2 ^ 31
        → HasSuffixes signing key_map suffix_bits session.store
        → i + left ≡ length tx.vin
        → All (λ p. p < length outs) (orders tx.vin)
        → IsPackedInputs left i session bits outs tail tx
    unfolding pack_inputs_loop unpack_inputs_loop
    pack_inputs_loop-IsPackedInputs lucky zero i session bits outs tail tx fits suffixes count
          below =
        record {
          session' = session;
          rest = bits;
          outs' = outs;
          vin' = tx.vin;
          read = [];
          returns = refl;
          same_amounts = refl;
          same_orders = refl;
          kept = λ j _. refl;
          back = λ before. ap some (sym (append-nil before));
          stored = IsStored-nil bits;
          suffixes = suffixes;
          enough = λ h. absurd (omega arith);
          grows = ((λ secret h. h), λ script h. h);
          kept_out = λ p h. refl;
          claims =
              λ distinct j t below there. absurd (omega (arith, get_elem?-below tx.vin j t there));
        }
    pack_inputs_loop-IsPackedInputs lucky (suc left) i session bits outs tail tx fits suffixes count
          below =
        let inside : i < length tx.vin = omega arith in
        let (t, here) = get_elem?-some tx.vin i inside in
        let bound = order_below (length outs) tx.vin i t below here in
        let (out, at_out) = get_elem?-some outs t.prevout.n bound in
        let (
          session1,
          (mid, (script, script_sig, (read, hashed, unhashed, stored, suffixes1, spends, grows1))),
        ) =
          unpack_data_from_p2sh-pack_data_into_p2sh signing key_map suffix_bits fuel draws lucky
            session bits out tx i t fits suffixes inside here in
        let (rest, (u, numbered, size, stored', prevout, script')) =
          unpack_data_from_seq_nr-pack_data_into_seq_nr mid (record t { script_sig = script_sig })
            (omega (arith, stored.2)) in
        let out' : TxOut = record out { script_pub_key = script } in
        let same_out = map-set (λ (o : TxOut). o.n_value) outs t.prevout.n out out' at_out refl in
        let same_in =
          map-set (λ (x : TxIn). x.prevout.n) tx.vin i t u here (ap (λ p. p.n) prevout) in
        let m =
          pack_inputs_loop-IsPackedInputs lucky left (i + 1) session1 rest
            (set outs t.prevout.n out') tail (record tx { vin = set tx.vin i u })
            (omega (arith, stored.2, stored'.2)) suffixes1 (omega (arith, length-set tx.vin i u))
            (rw (length-set outs t.prevout.n out', same_in) below) in
        let seq = unpack_data_from_seq_nr u in
        let here' = m.kept i (omega arith) ∙ get_elem?-set_self tx.vin i u inside in
        let unhashed' =
          same_script suffix_bits u (record t { script_sig = script_sig }) script' ∙ unhashed in
        record {
          session' = m.session';
          rest = m.rest;
          outs' = m.outs';
          vin' = m.vin';
          read = (read ++ unpack_data_from_seq_nr u) ++ m.read;
          returns =
              pack_input left i session session1 bits mid rest outs tail tx t u out out' script_sig
                here inside bound at_out hashed numbered
              ∙ m.returns;
          same_amounts = m.same_amounts ∙ same_out;
          same_orders = m.same_orders ∙ same_in;
          kept = λ j h. m.kept j (omega arith) ∙ get_elem?-set_lt tx.vin i j u h;
          back = λ before.
              unpack_input suffix_bits left i m.vin' u read m.read before here' unhashed' m.back;
          stored =
              IsStored-append bits rest m.rest (read ++ seq) m.read
                (IsStored-append bits mid rest read seq stored stored') m.stored;
          suffixes = m.suffixes;
          enough =
              λ _. omega (arith, size, length-append (read ++ seq) m.read, length-append read seq);
          grows = Grows-trans signing session.store session1.store m.session'.store grows1 m.grows;
          kept_out = λ p unnamed.
              m.kept_out p (λ j below named.
                unnamed j (omega arith) (ap (λ l. get_elem? l j) (sym same_in) ∙ named))
              ∙ get_elem?-set_other outs t.prevout.n p out' (λ e.
                unnamed i (omega arith)
                  (get_elem?-map (λ (x : TxIn). x.prevout.n) tx.vin i t here ∙ ap some (sym e)));
          claims = λ distinct.
              IsClaimed-step signing i t.prevout.n session1.store m.session'.store outs m.outs'
                m.vin' u out' (m.claims (rw same_in distinct)) here' (ap (λ p. p.n) prevout)
                (m.kept_out t.prevout.n (λ j below named. absurd (
                    omega (
                      arith,
                      IsDistinct-same (orders tx.vin) i j t.prevout.n distinct
                          (get_elem?-map (λ (x : TxIn). x.prevout.n) tx.vin i t here)
                          (ap (λ l. get_elem? l j) (sym same_in) ∙ named),
                    )))
                  ∙ get_elem?-set_self outs t.prevout.n out' bound)
                (subst (λ (l : Data). IsSpendable signing session1.store script l) (sym script')
                  spends)
                m.grows;
        }
