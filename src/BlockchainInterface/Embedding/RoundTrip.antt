-- ===== src/BlockchainInterface/Embedding/RoundTrip.antt =====
-- A chain of transactions: the rounds of EmbedData in a row against those of ExtractData.
use bitcoin_messaging.Base.{
  ℕ, zero, suc, ◌+◌, ◌-◌, ◌*◌, ◌^◌, ◌≤◌, ◌<◌, ◌≡◌, refl, sym, ap, ◌∙◌, Bool, true, false, List, [],
  ◌∷◌, ◌++◌, Option, some, arith, length, map, replicate, ltb, append-nil, append_assoc, Bool-cases,
  inl, inr,
}
use mathlib.Core.Path.{subst}
use bitcoin_messaging.Types.{DataBits, Data}
use bitcoin_messaging.Maths.{sub64}
use bitcoin_messaging.DataInterface.{PubKeys}
use bitcoin_messaging.BlockchainInterface.{OutPoint, TxIn, TxOut, Transaction, Scripts}
use bitcoin_messaging.BlockchainInterface.Slices.{IsStored, IsStored-append}
use bitcoin_messaging.BlockchainInterface.Optimizing.{Parameters, Config, optimize_params}
use bitcoin_messaging.BlockchainInterface.Signing.{Signing}
use bitcoin_messaging.BlockchainInterface.ScriptHash.{KeypairMap, Session}
use bitcoin_messaging.BlockchainInterface.ScriptHash.Keys.{IsLucky, HasSuffixes}
use bitcoin_messaging.BlockchainInterface.Embedding.{
  empty_in, extract_loop, extract_data, Round, embed_round, next_round, start_round, embed_loop,
  embed_data,
}
use bitcoin_messaging.BlockchainInterface.ScriptHash.Spending.{
  Grows, Grows-trans, HasSuffixes-Grows,
}
use bitcoin_messaging.BlockchainInterface.Embedding.Claims.{
  IsClaimed, IsClaimed-Grows, AreClaimed, EndsIn, EndsIn-append,
}
use bitcoin_messaging.BlockchainInterface.Embedding.Step.{
  fees_of, IsEmbedded, embed_round-IsEmbedded,
}

prevouts :
    (ps : List OutPoint)
    → map (λ (i : TxIn). i.prevout) (map (λ (p : OutPoint). record empty_in { prevout = p }) ps)
      ≡ ps
prevouts [] = refl
prevouts (p ∷ ps) = ap (λ (l : List OutPoint). p ∷ l) (prevouts ps)

module _ {keys : PubKeys} (signing : Signing keys) (floor_log2 : ℕ → ℕ) (round_root : ℕ → ℕ → ℕ)
    (scripts : Scripts) (size : Transaction → ℕ) (config : Config) (key_map : KeypairMap signing)
    (fuel : ℕ) (draws : ℕ → ℕ → ℕ → Bool) where
  abbrev one_round : Round signing → Option (Round signing)
  one_round r = embed_round signing floor_log2 round_root scripts size config key_map fuel draws r

  abbrev after : Round signing → Round signing
  after r = next_round signing floor_log2 round_root scripts size config key_map fuel draws r

  abbrev fees : Round signing → ℕ
  fees r = fees_of signing floor_log2 round_root scripts size config key_map fuel draws r

  -- The variables at the start of a round that the loop comes to.
  pub data Reaches : Round signing → Round signing → Type 0 where
    here : (r : Round signing) → Reaches r r
    onward :
        (r t s : Round signing)
        → embed_round signing floor_log2 round_root scripts size config key_map fuel draws r
          ≡ some t
        → 0 < length t.bits
        → Reaches
            (next_round signing floor_log2 round_root scripts size config key_map fuel draws t)
            s
        → Reaches r s

  -- The chain that the loop makes from a round, and what is read from it with any transaction at its
  -- end that has the inputs of the last one.
  record IsChained (rounds : ℕ) (r : Round signing) : Type 0 where
    pub txs : List Transaction
    pub final : Round signing
    pub first : Transaction
    pub others : List Transaction
    pub read : DataBits
    pub returns :
        (done : List Transaction)
        → embed_loop signing floor_log2 round_root scripts size config key_map fuel draws rounds
            done r
          ≡ some (done ++ txs, final)
    pub chain : txs ++ (final.current ∷ []) ≡ first ∷ others
    pub spends : first.vin ≡ r.current.vin
    pub back :
        (last : Transaction) (before : DataBits)
        → last.vin ≡ final.next.vin
        → extract_loop signing floor_log2 config.suffix_bits
            (first ∷ (others ++ (last ∷ [])))
            before
          ≡ some (before ++ read)
    pub stored : IsStored r.bits [] read
    pub grows : Grows signing r.session.store final.session.store
    pub open_end : final.next.vout ≡ []
    pub claimed :
        (last : Transaction)
        → last.vin ≡ final.next.vin
        → AreClaimed signing final.session.store (first ∷ (others ++ (last ∷ [])))

  ended : (bits : DataBits) → ltb 0 (length bits) ≡ false → bits ≡ []
  ended [] h = refl
  ended (b ∷ bits) h = ground (arith, h)

  abbrev params_at_end : Round signing → Parameters
  params_at_end r = optimize_params floor_log2 scripts size config r.next r.bits r.budget r.params

  abbrev out_at_end : Data → Round signing → TxOut
  out_at_end addr r = record {
    n_value = sub64 r.budget (params_at_end r).n_fees;
    script_pub_key = addr;
  }

  -- The transaction at the end of the chain.
  abbrev last_tx : Data → Round signing → Transaction
  last_tx addr r = record r.next { vout = r.next.vout ++ (out_at_end addr r ∷ []) }

  chain_end :
      (session : Session signing) (params : Parameters) (bits : DataBits) (budget : ℕ)
      (prev_out : List OutPoint) (addr : Data) (txs : List Transaction) (final : Round signing)
      (first : Transaction) (others : List Transaction)
      → embed_loop signing floor_log2 round_root scripts size config key_map fuel draws
          (suc (length bits))
          []
          (start_round signing floor_log2 round_root scripts size config key_map fuel draws session
            params bits budget prev_out)
        ≡ some (txs, final)
      → txs ++ (final.current ∷ []) ≡ first ∷ others
      → embed_data signing floor_log2 round_root scripts size config key_map fuel draws session
          params bits budget prev_out addr
        ≡ some (final.session, first ∷ (others ++ (last_tx addr final ∷ [])))
  unfolding embed_data
  chain_end session params bits budget prev_out addr txs final first others e chain = rw e (
      ap (λ (l : List Transaction). some (final.session, l))
        (sym (append_assoc txs (final.current ∷ []) (last_tx addr final ∷ []))
          ∙ ap (λ (l : List Transaction). l ++ (last_tx addr final ∷ [])) chain))

  loop_end :
      (rounds : ℕ) (done : List Transaction) (r s : Round signing)
      → one_round r ≡ some s
      → ltb 0 (length s.bits) ≡ false
      → embed_loop signing floor_log2 round_root scripts size config key_map fuel draws
          (suc rounds)
          done
          r
        ≡ some (done, s)
  unfolding embed_loop
  loop_end rounds done r s e h = rw e (ground (arith, h))

  loop_on :
      (rounds : ℕ) (done : List Transaction) (r s : Round signing)
      → one_round r ≡ some s
      → ltb 0 (length s.bits) ≡ true
      → embed_loop signing floor_log2 round_root scripts size config key_map fuel draws
          (suc rounds)
          done
          r
        ≡ embed_loop signing floor_log2 round_root scripts size config key_map fuel draws rounds
            (done ++ (s.current ∷ []))
            (after s)
  unfolding embed_loop
  loop_on rounds done r s e h = rw e (ground (arith, h))

  last_link :
      (rounds : ℕ) (r : Round signing)
      (e : IsEmbedded signing floor_log2 round_root scripts size config key_map fuel draws r)
      → r.next.vout ≡ []
      → ltb 0 (length e.made.bits) ≡ false
      → IsChained (suc rounds) r
  unfolding embed_loop extract_loop
  last_link rounds r e no_next h = record {
    txs = [];
    final = e.made;
    first = e.made.current;
    others = [];
    read = e.read;
    returns = λ done.
        loop_end rounds done r e.made e.returns h
        ∙ ap (λ (l : List Transaction). some (l, e.made)) (sym (append-nil done));
    chain = refl;
    spends = e.same_vin;
    back = λ last before same. rw (same, e.back before);
    stored = subst (λ (l : DataBits). IsStored r.bits l e.read) (ended e.made.bits h) e.stored;
    grows = e.grows;
    open_end = e.no_vout ∙ no_next;
    claimed = λ last same. (
      omega (arith, e.some_in, ap length same),
      subst (IsClaimed signing e.made.session.store 0 e.made.current.vout) (sym same) e.claims,
      tt,
    );
  }

  more_links :
      (rounds : ℕ) (r : Round signing)
      (e : IsEmbedded signing floor_log2 round_root scripts size config key_map fuel draws r)
      → ltb 0 (length e.made.bits) ≡ true
      → IsChained rounds (after e.made)
      → IsChained (suc rounds) r
  unfolding embed_loop extract_loop
  more_links rounds r e h c = record {
    txs = e.made.current ∷ c.txs;
    final = c.final;
    first = e.made.current;
    others = c.first ∷ c.others;
    read = e.read ++ c.read;
    returns = λ done.
        loop_on rounds done r e.made e.returns h
        ∙ c.returns (done ++ (e.made.current ∷ []))
        ∙ ap (λ (l : List Transaction). some (l, c.final))
            (append_assoc done (e.made.current ∷ []) c.txs);
    chain = ap (λ (l : List Transaction). e.made.current ∷ l) c.chain;
    spends = e.same_vin;
    back = λ last before same.
        rw (c.spends, e.back before)
          (c.back last (before ++ e.read) same ∙ ap some (append_assoc before e.read c.read));
    stored = IsStored-append r.bits e.made.bits [] e.read c.read e.stored c.stored;
    grows =
        Grows-trans signing r.session.store e.made.session.store c.final.session.store e.grows
          c.grows;
    open_end = c.open_end;
    claimed = λ last same. (
      omega (arith, e.some_in, ap length c.spends),
      IsClaimed-Grows signing e.made.session.store c.final.session.store e.made.current.vout
          c.first.vin c.grows
          (subst (IsClaimed signing e.made.session.store 0 e.made.current.vout) (sym c.spends)
            e.claims),
      c.claimed last same,
    );
  }

  module _ (floor_log2-le : (x : ℕ) → 0 < x → 2 ^ floor_log2 x ≤ x)
      (floor_log2-pos : (x : ℕ) → 2 ≤ x → 0 < floor_log2 x)
      (round_root-le : (a b j : ℕ) → 0 < j → a ≤ b ^ j → round_root a j ≤ 2 * b) where
    embed_loop-IsChained :
        IsLucky keys fuel draws
        → (rounds : ℕ) (r : Round signing)
        → HasSuffixes signing key_map config.suffix_bits r.session.store
        → r.current.vout ≡ []
        → r.next.vin ≡ []
        → r.next.vout ≡ []
        → 0 < length r.bits
        → length r.bits ≤ rounds
        → length r.bits < 2 ^ 31
        → r.budget < 2 ^ 62
        → ((s : Round signing) → Reaches r s → fees s + 7644 < s.budget)
        → IsChained rounds r
    embed_loop-IsChained lucky zero r suffixes no_vout no_vin no_next some_bits enough few small
          funded =
        absurd (omega arith)
    embed_loop-IsChained lucky (suc rounds) r suffixes no_vout no_vin no_next some_bits enough few
          small funded =
        let e =
          embed_round-IsEmbedded signing floor_log2 round_root scripts size config key_map fuel
            draws floor_log2-le floor_log2-pos round_root-le lucky r suffixes no_vout no_vin
            some_bits few small (funded r (here r)) in
        let shorter : length e.made.bits ≡ length r.bits - length e.read = e.stored.2 in
        elim (Bool-cases (ltb 0 (length e.made.bits))) [
          | inl h ↦
              let left : 0 < length e.made.bits = ground arith in
              more_links rounds r e h (
                embed_loop-IsChained lucky rounds (after e.made) e.suffixes (e.no_vout ∙ no_next)
                  refl refl left (omega (arith, e.enough)) (omega arith) (omega (arith, e.paid))
                  (λ s reached. funded s (onward r e.made s e.returns left reached)))
          | inr h ↦ last_link rounds r e no_next h
        ]

    -- With a logarithm that is not above the true one but above 0 from 2 on, a rounded root that is at
    -- most twice the true one, luck in the drawing of keys and a key for every suffix, a budget below 2^62 and from 1 to
    -- 2^31 - 1 bits, if in every round that the loop comes to the budget exceeds the fees by more than
    -- 14 times the least amount of 546: EmbedData returns a chain, the first transaction of which
    -- spends the given outputs, ExtractData gives back the data with zeros behind them, every later transaction has inputs,
    -- which spend outputs of the one before it that the keystore can sign for; the last one has one output, which
    -- pays to the address; and the keystore has a key for every suffix, as before.
    pub extract_data-embed_data :
        IsLucky keys fuel draws
        → (session : Session signing) (params : Parameters) (bits : DataBits) (budget : ℕ)
          (prev_out : List OutPoint) (addr : Data)
        → HasSuffixes signing key_map config.suffix_bits session.store
        → 0 < length bits
        → length bits < 2 ^ 31
        → budget < 2 ^ 62
        → ((s : Round signing)
            → Reaches
                (start_round signing floor_log2 round_root scripts size config key_map fuel draws
                  session params bits budget prev_out)
                s
            → fees s + 7644 < s.budget)
        → (session' : Session signing) × ((first : Transaction) × ((others : List Transaction)
              × ((k : ℕ) × (embed_data signing floor_log2 round_root scripts size config key_map
                      fuel draws session params bits budget prev_out addr
                    ≡ some (session', first ∷ others))
                  × (map (λ (i : TxIn). i.prevout) first.vin ≡ prev_out)
                  × (extract_data signing floor_log2 config.suffix_bits (first ∷ others)
                      ≡ some (bits ++ replicate k false))
                  × AreClaimed signing session'.store (first ∷ others)
                  × EndsIn addr (first ∷ others)
                  × HasSuffixes signing key_map config.suffix_bits session'.store)))
    unfolding extract_data
    extract_data-embed_data lucky session params bits budget prev_out addr suffixes some_bits few
          small funded =
        let start =
          start_round signing floor_log2 round_root scripts size config key_map fuel draws session
            params bits budget prev_out in
        let c =
          embed_loop-IsChained lucky (suc (length bits)) start suffixes refl refl refl some_bits
            (omega arith) few small funded in
        let (k, zeros, _) = c.stored in
        let last = last_tx addr c.final in
        (
          c.final.session,
          (
            c.first,
            (
              c.others ++ (last ∷ []),
              (
                k,
                chain_end session params bits budget prev_out addr c.txs c.final c.first c.others
                    (c.returns []) c.chain,
                ap (λ l. map (λ (i : TxIn). i.prevout) l) c.spends ∙ prevouts prev_out,
                c.back last [] refl ∙ ap some (sym (append-nil c.read) ∙ zeros),
                c.claimed last refl,
                EndsIn-append addr c.first last c.others
                    (sub64 c.final.budget (params_at_end c.final).n_fees)
                    (ap (λ (l : List TxOut). l ++ (out_at_end addr c.final ∷ [])) c.open_end),
                HasSuffixes-Grows signing key_map config.suffix_bits session.store
                    c.final.session.store c.grows suffixes,
              ),
            ),
          ),
        )
