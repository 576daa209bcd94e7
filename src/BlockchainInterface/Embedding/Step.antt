-- ===== src/BlockchainInterface/Embedding/Step.antt =====
-- One round of EmbedData against one round of ExtractData.
use bitcoin_messaging.Base.{
  ℕ, suc, ◌+◌, ◌-◌, ◌*◌, ◌^◌, ◌≤◌, ◌<◌, ◌≡◌, ◌⊎◌, inl, inr, refl, sym, ap, ◌∙◌, Bool, true, false,
  List, [], ◌∷◌, ◌++◌, Option, some, arith, length, length-append, length-map, leb, if◌then◌else◌,
  append-nil, append_assoc,
}
use mathlib.Core.Option.{some-injective}
use bitcoin_messaging.Types.{DataBits}
use bitcoin_messaging.Maths.{sub64}
use bitcoin_messaging.Maths.Compositions.{sum}
use bitcoin_messaging.DataInterface.{PubKeys}
use bitcoin_messaging.BlockchainInterface.{
  TxIn, TxOut, Transaction, Scripts, unpack_data_from_nulldata,
}
use bitcoin_messaging.BlockchainInterface.Slices.{
  IsStored, IsStored-nil, IsStored-append, IsStored-few,
}
use bitcoin_messaging.BlockchainInterface.Fields.{unpack_data_from_nulldata-pack_data_into_nulldata}
use bitcoin_messaging.BlockchainInterface.Budget.{amounts}
use bitcoin_messaging.BlockchainInterface.Optimizing.{
  Parameters, Config, dummy_out, needs_nulldata, round_params, optimize_params,
  optimize_params-IsOptimal,
}
use bitcoin_messaging.BlockchainInterface.Signing.{Signing}
use bitcoin_messaging.BlockchainInterface.ScriptHash.{KeypairMap, Session}
use bitcoin_messaging.BlockchainInterface.ScriptHash.Keys.{IsLucky, HasSuffixes}
use bitcoin_messaging.BlockchainInterface.Embedding.{
  open_loop, pack_budget, unpack_budget, pack_nulldata, unpack_inputs_loop, extract_round,
  pack_inputs_loop, Round, params_of, embed_round,
}
use bitcoin_messaging.BlockchainInterface.Embedding.Outputs.{
  open_loop_lem, split_back-append, total-append, pack_budget-IsBudgeted,
}
use bitcoin_messaging.BlockchainInterface.ScriptHash.Spending.{Grows}
use bitcoin_messaging.BlockchainInterface.Embedding.Claims.{IsClaimed, IsClaimed-append}
use bitcoin_messaging.BlockchainInterface.Embedding.Inputs.{pack_inputs_loop-IsPackedInputs}

-- The output behind the script hashes, or none: what it takes of the data and what is read from it.
record IsNulled (scripts : Scripts) (needed : Bool) (bits : DataBits) : Type 0 where
  pub rest : DataBits
  pub tail : List TxOut
  pub read : DataBits
  pub returns :
      (vout : List TxOut)
      → pack_nulldata scripts (if needed then 1 else 0) bits vout ≡ some (rest, vout ++ tail)
  pub back :
      ((null : TxOut) × (tail ≡ null ∷ []) × (unpack_data_from_nulldata null ≡ some read))
      ⊎ ((needed ≡ false) × (tail ≡ []) × (read ≡ []))
  pub stored : IsStored bits rest read
  pub free : sum (amounts tail) ≡ 0

pack_nulldata-IsNulled :
    (scripts : Scripts) (needed : Bool) (bits : DataBits)
    → length bits < 2 ^ 31
    → IsNulled scripts needed bits
unfolding pack_nulldata
pack_nulldata-IsNulled scripts true bits fits =
    let (rest, (null, (read, made, back, _, stored, none_paid))) =
      unpack_data_from_nulldata-pack_data_into_nulldata scripts bits (dummy_out []) fits in
    record {
      rest = rest;
      tail = null ∷ [];
      read = read;
      returns = λ vout. rw made;
      back = inl (null, refl, back);
      stored = stored;
      free = omega (arith, none_paid);
    }
pack_nulldata-IsNulled scripts false bits fits = record {
  rest = bits;
  tail = [];
  read = [];
  returns = λ vout. ap (λ (l : List TxOut). some (bits, l)) (sym (append-nil vout));
  back = inr (refl, refl, refl);
  stored = IsStored-nil bits;
  free = refl;
}

-- Only a single script hash goes without the output behind it.
needs_nulldata-one :
    (floor_log2 : ℕ → ℕ) (scripts : Scripts) (size : Transaction → ℕ) (config : Config)
    (tx : Transaction) (bits : DataBits) (budget n : ℕ)
    → needs_nulldata floor_log2 scripts size config tx bits budget n ≡ false
    → n < 2
unfolding needs_nulldata
needs_nulldata-one floor_log2 scripts size config tx bits budget n h = ground (arith, h)

module _ {keys : PubKeys} (signing : Signing keys) (floor_log2 : ℕ → ℕ) (suffix_bits : ℕ) where
  -- Reading with an output behind the script hashes.
  extract_with_null :
      (n : ℕ) (outs : List TxOut) (vin : List TxIn) (null : TxOut)
      (split slice more before : DataBits)
      → 1 ≤ n
      → length outs ≡ n
      → unpack_budget floor_log2 n outs vin before ≡ some (before ++ split)
      → unpack_data_from_nulldata null ≡ some slice
      → ((b : DataBits) → unpack_inputs_loop signing suffix_bits n 0 vin b ≡ some (b ++ more))
      → extract_round signing floor_log2 suffix_bits (outs ++ (null ∷ [])) vin before
        ≡ some (before ++ ((split ++ slice) ++ more))
  unfolding extract_round
  extract_with_null n outs vin null split slice more before one size budget unnull loop =
      let count : length (outs ++ (null ∷ [])) ≡ suc n =
        omega (arith, length-append outs (null ∷ [])) in
      let two : leb 2 (suc n) ≡ true = ground arith in
      let less : suc n - 1 ≡ n = omega arith in
      rw (count, two, split_back-append outs null, less, budget, unnull, loop)
        (ap some (
          ap (λ (l : DataBits). l ++ more) (append_assoc before split slice)
          ∙ append_assoc before (split ++ slice) more))

  -- Reading with a single script hash.
  extract_single :
      (n : ℕ) (outs : List TxOut) (vin : List TxIn) (split more before : DataBits)
      → n < 2
      → length outs ≡ n
      → unpack_budget floor_log2 n outs vin before ≡ some (before ++ split)
      → ((b : DataBits) → unpack_inputs_loop signing suffix_bits n 0 vin b ≡ some (b ++ more))
      → extract_round signing floor_log2 suffix_bits outs vin before
        ≡ some (before ++ ((split ++ []) ++ more))
  unfolding extract_round unpack_budget
  extract_single n outs vin split more before one size budget loop =
      let few : leb 2 n ≡ false = ground arith in
      let same : unpack_budget floor_log2 n outs vin before ≡ some before = rw few in
      let none_read = some-injective _ _ (sym same ∙ budget) in
      rw (size, few, loop)
        (ap (λ (l : DataBits). some (l ++ more)) none_read
          ∙ ap some (append_assoc before split more)
          ∙ ap (λ (l : DataBits). some (before ++ (l ++ more))) (sym (append-nil split)))

  -- Both ways at once.
  extract_round-IsNulled :
      (scripts : Scripts) (n : ℕ) (needed : Bool) (bits : DataBits) (outs : List TxOut)
      (vin : List TxIn) (split more before : DataBits) (nulled : IsNulled scripts needed bits)
      → 1 ≤ n
      → (needed ≡ false → n < 2)
      → length outs ≡ n
      → unpack_budget floor_log2 n outs vin before ≡ some (before ++ split)
      → ((b : DataBits) → unpack_inputs_loop signing suffix_bits n 0 vin b ≡ some (b ++ more))
      → extract_round signing floor_log2 suffix_bits (outs ++ nulled.tail) vin before
        ≡ some (before ++ ((split ++ nulled.read) ++ more))
  extract_round-IsNulled scripts n needed bits outs vin split more before nulled one single size
        budget loop =
      elim nulled.back [
        | inl (null, e, back) ↦ rw e (
            extract_with_null n outs vin null split nulled.read more before one size budget back
              loop)
        | inr (h, e, f) ↦
            rw (e, f, append-nil outs)
              (extract_single n outs vin split more before (single h) size budget loop)
      ]

module _ {keys : PubKeys} (signing : Signing keys) (floor_log2 : ℕ → ℕ) (round_root : ℕ → ℕ → ℕ)
    (scripts : Scripts) (size : Transaction → ℕ) (config : Config) (key_map : KeypairMap signing)
    (fuel : ℕ) (draws : ℕ → ℕ → ℕ → Bool) where
  abbrev round_of : Round signing → Option (Round signing)
  round_of r = embed_round signing floor_log2 round_root scripts size config key_map fuel draws r

  abbrev pub fees_of : Round signing → ℕ
  fees_of r =
      (params_of signing floor_log2 round_root scripts size config key_map fuel draws r).n_fees

  pub record IsEmbedded (r : Round signing) : Type 0 where
    pub made : Round signing
    pub read : DataBits
    pub returns : round_of r ≡ some made
    pub same_vin : made.current.vin ≡ r.current.vin
    pub no_vout : made.next.vout ≡ r.next.vout
    pub paid : made.budget ≡ r.budget - fees_of r
    pub total : sum (amounts made.current.vout) ≡ r.budget - fees_of r
    pub back :
        (before : DataBits)
        → extract_round signing floor_log2 config.suffix_bits made.current.vout made.next.vin before
          ≡ some (before ++ read)
    pub stored : IsStored r.bits made.bits read
    pub enough : 32 ≤ length read
    pub suffixes : HasSuffixes signing key_map config.suffix_bits made.session.store
    pub grows : Grows signing r.session.store made.session.store
    pub claims : IsClaimed signing made.session.store 0 made.current.vout made.next.vin
    pub some_in : 0 < length made.next.vin

  left_over :
      (budget fees spent : ℕ)
      → budget < 2 ^ 62
      → spent ≡ fees
      → spent ≤ budget
      → sub64 budget fees ≡ budget - spent
  unfolding sub64
  left_over budget fees spent small e h = omega arith

  embed_returns :
      (r : Round signing) (p : Parameters) (vout vout' vout'' vout3 : List TxOut)
      (vin vin' : List TxIn) (rest rest' rest'' : DataBits) (session : Session signing)
      (next : Transaction)
      → optimize_params floor_log2 scripts size config r.current r.bits r.budget r.params ≡ p
      → open_loop p.n_script_hash 0 r.current.vout r.next.vin ≡ some (vout, vin)
      → pack_budget floor_log2 round_root r.bits vout vin r.budget p.n_fees
        ≡ some (rest, vout', vin')
      → pack_nulldata scripts p.n_nulldata rest vout' ≡ some (rest', vout'')
      → pack_inputs_loop signing key_map config.suffix_bits fuel draws p.n_script_hash 0 r.session
          rest' vout''
          (record r.next { vin = vin' })
        ≡ some (session, rest'', vout3, next)
      → round_of r
        ≡ some (record {
          session = session;
          params = p;
          bits = rest'';
          current = record r.current { vout = vout3 };
          next = next;
          budget = sub64 r.budget p.n_fees;
        })
  unfolding embed_round
  embed_returns r p vout vout' vout'' vout3 vin vin' rest rest' rest'' session next e opened
        budgeted nulled packed =
      rw (e, opened, budgeted, nulled, packed)

  module _ (floor_log2-le : (x : ℕ) → 0 < x → 2 ^ floor_log2 x ≤ x)
      (floor_log2-pos : (x : ℕ) → 2 ≤ x → 0 < floor_log2 x)
      (round_root-le : (a b j : ℕ) → 0 < j → a ≤ b ^ j → round_root a j ≤ 2 * b) where
    -- With a logarithm that is not above the true one but above 0 from 2 on, a rounded root that is at
    -- most twice the true one, luck in the drawing of keys and a key for every suffix, no outputs and no next inputs yet, from
    -- 1 to 2^31 - 1 bits left, and a budget below 2^62 that exceeds the fees by more than 14 times the
    -- least amount of 546: a round succeeds. It takes 32 bits at least, or zeros in their place, which
    -- the round of reading gives back; the amounts of the outputs sum up to the budget less the fees,
    -- which is the budget of the next round; the inputs stay, and so do the keys and scripts in the
    -- keystore; there are next inputs, and each of them spends an output that the keystore can sign for.
    pub embed_round-IsEmbedded :
        IsLucky keys fuel draws
        → (r : Round signing) → HasSuffixes signing key_map config.suffix_bits r.session.store
        → r.current.vout ≡ []
        → r.next.vin ≡ []
        → 0 < length r.bits
        → length r.bits < 2 ^ 31
        → r.budget < 2 ^ 62
        → fees_of r + 7644 < r.budget
        → IsEmbedded r
    unfolding round_params
    embed_round-IsEmbedded lucky r suffixes no_vout no_vin some_bits few_bits small paid =
        let o =
          optimize_params-IsOptimal floor_log2 scripts size config r.current r.bits r.budget
            r.params some_bits in
        let n = o.n in
        let p = round_params floor_log2 scripts size config r.current r.bits r.budget n in
        let needed = needs_nulldata floor_log2 scripts size config r.current r.bits r.budget n in
        let fees : fees_of r ≡ p.n_fees = ap (λ (q : Parameters). q.n_fees) o.result in
        let (vout, (vin, opened, outs, ins)) =
          open_loop_lem n 0 r.current.vout r.next.vin (omega (arith, ap length no_vin)) in
        let b =
          pack_budget-IsBudgeted floor_log2 floor_log2-le floor_log2-pos round_root round_root-le n
            r.bits vout vin r.budget p.n_fees o.at_least o.at_most
            (omega (arith, ap length no_vout)) (omega arith) small (omega arith) (omega arith) in
        let few_rest = IsStored-few r.bits b.rest b.read (2 ^ 31) b.stored few_bits in
        let z = pack_nulldata-IsNulled scripts needed b.rest few_rest in
        let i =
          pack_inputs_loop-IsPackedInputs signing key_map config.suffix_bits fuel draws lucky n 0
            r.session z.rest b.outs z.tail (record r.next { vin = b.ins })
            (IsStored-few b.rest z.rest z.read (2 ^ 31) z.stored few_rest) suffixes
            (omega (arith, b.n_ins)) (rw b.n_outs b.indices) in
        let n_outs : length i.outs' ≡ n = omega (
          arith,
          length-map (λ (t : TxOut). t.n_value) i.outs',
          length-map (λ (t : TxOut). t.n_value) b.outs,
          ap length i.same_amounts,
          b.n_outs,
        ) in
        record {
          made = record {
            session = i.session';
            params = p;
            bits = i.rest;
            current = record r.current { vout = i.outs' ++ z.tail };
            next = record r.next { vin = i.vin' };
            budget = sub64 r.budget p.n_fees;
          };
          read = (b.read ++ z.read) ++ i.read;
          returns =
              embed_returns r p vout b.outs (b.outs ++ z.tail) (i.outs' ++ z.tail) vin b.ins b.rest
                z.rest i.rest i.session' (record r.next { vin = i.vin' }) o.result opened b.returns
                (z.returns b.outs) i.returns;
          same_vin = refl;
          no_vout = refl;
          paid = left_over r.budget p.n_fees (fees_of r) small fees (omega arith);
          total = omega (
            arith,
            total-append i.outs' z.tail,
            z.free,
            ap sum i.same_amounts,
            b.total,
            left_over r.budget p.n_fees (fees_of r) small fees (omega arith),
          );
          back = λ before.
              extract_round-IsNulled signing floor_log2 config.suffix_bits scripts n needed b.rest
                i.outs' i.vin' b.read i.read before z o.at_least
                (needs_nulldata-one floor_log2 scripts size config r.current r.bits r.budget n)
                n_outs (b.back i.outs' i.vin' before i.same_amounts i.same_orders) i.back;
          stored =
              IsStored-append r.bits z.rest i.rest (b.read ++ z.read) i.read
                (IsStored-append r.bits b.rest z.rest b.read z.read b.stored z.stored) i.stored;
          enough = omega (arith, i.enough o.at_least, length-append (b.read ++ z.read) i.read);
          suffixes = i.suffixes;
          grows = i.grows;
          claims =
              IsClaimed-append signing i.session'.store i.outs' z.tail i.vin' (i.claims b.distinct);
          some_in = omega (
            arith,
            o.at_least,
            b.n_ins,
            length-map (λ (x : TxIn). x.prevout.n) i.vin',
            length-map (λ (x : TxIn). x.prevout.n) b.ins,
            ap length i.same_orders,
          );
        }
