-- ===== src/BlockchainInterface/Embedding/Outputs.antt =====
-- The outputs of a transaction: how a round of EmbedData opens them and stores data in their amounts and
-- in the order of the inputs that claim them.
use mathlib.Core.List.{Perm}
use mathlib.Core.List.Perm
use native.Mathlib.Nat.{mul-le-mul_right}
use bitcoin_messaging.Base.{
  ℕ, zero, suc, ◌+◌, ◌-◌, ◌*◌, ◌^◌, ◌≤◌, ◌<◌, ◌≡◌, refl, sym, ap, ◌∙◌, true, false, List, [], ◌∷◌,
  ◌++◌, Option, some, arith, All, All-perm, length, length-map, map, set, length-set,
  get_elem?-some, leb, ◌==◌, append-nil, append_assoc, length-perm, ◌≢◌, IsDistinct,
  IsDistinct-perm,
}
use bitcoin_messaging.Types.{DataBits}
use bitcoin_messaging.Maths.{u16, sub64, iota, factorial, number_compositions}
use bitcoin_messaging.Maths.Choose.{choose, choose-pos, fact, fact-pos}
use bitcoin_messaging.Maths.Binomial.{factorial-fact, number_compositions-choose}
use bitcoin_messaging.Maths.Compositions.{sum}
use bitcoin_messaging.Maths.Smaller.{length-iota}
use bitcoin_messaging.DataInterface.{embeddable_bits_in_values, embeddable_bits_in_permutation}
use bitcoin_messaging.BlockchainInterface.{
  TxIn, TxOut, get_values, get_order, pack_data_into_budget_split, pack_data_into_budget_claim,
  unpack_data_from_budget_split, unpack_data_from_budget_claim,
}
use bitcoin_messaging.BlockchainInterface.Slices.{IsStored, IsStored-nil, IsStored-append}
use bitcoin_messaging.BlockchainInterface.Optimizing.{dummy_out}
use bitcoin_messaging.BlockchainInterface.Budget.{
  amounts, scripts_of, iota-below, unpack_data_from_budget_split-pack_data_into_budget_split,
  unpack_data_from_budget_claim-pack_data_into_budget_claim,
}
use bitcoin_messaging.BlockchainInterface.Embedding.{
  empty_in, set_n, open_loop, split_back, pack_budget, unpack_budget,
}

abbrev pub orders : List TxIn → List ℕ
orders ins = map (λ (i : TxIn). i.prevout.n) ins

-- After the loop there are as many outputs and inputs more.
pub open_loop_lem :
    (left i : ℕ) (vout : List TxOut) (vin : List TxIn)
    → length vin ≡ i
    → (vout' : List TxOut) × ((vin' : List TxIn) × (open_loop left i vout vin ≡ some (vout', vin'))
        × (length vout' ≡ length vout + left)
        × (length vin' ≡ i + left))
unfolding open_loop
open_loop_lem zero i vout vin h = (vout, (vin, refl, omega arith, omega arith))
open_loop_lem (suc left) i vout vin h =
    let (t, e) = get_elem?-some (empty_in ∷ vin) i (omega arith) in
    let size = length-set (empty_in ∷ vin) i (set_n i t) in
    let (vout', (vin', made, outs, ins)) =
      open_loop_lem left (i + 1) (dummy_out [] ∷ vout) (set (empty_in ∷ vin) i (set_n i t))
        (omega arith) in
    (vout', (vin', rw e made, omega arith, omega arith))

pub split_back-append :
    (outs : List TxOut) (o : TxOut) → split_back (outs ++ (o ∷ [])) ≡ some (outs, o)
unfolding split_back
split_back-append [] o = refl
split_back-append (p ∷ []) o = refl
split_back-append (p ∷ q ∷ outs) o = rw (split_back-append (q ∷ outs) o)

get_values-amounts :
    (lbound : ℕ) (outs : List TxOut)
    → get_values lbound outs ≡ map (λ (v : ℕ). sub64 v lbound) (amounts outs)
unfolding get_values
get_values-amounts lbound [] = refl
get_values-amounts lbound (o ∷ outs) =
    ap (λ l. sub64 o.n_value lbound ∷ l) (get_values-amounts lbound outs)

pub get_order-orders : (ins : List TxIn) → get_order ins ≡ map (λ (p : ℕ). u16 p) (orders ins)
unfolding get_order
get_order-orders [] = refl
get_order-orders (i ∷ ins) = ap (λ l. u16 i.prevout.n ∷ l) (get_order-orders ins)

pub total-append :
    (outs tail : List TxOut)
    → sum (amounts (outs ++ tail)) ≡ sum (amounts outs) + sum (amounts tail)
total-append [] tail = omega arith
total-append (o ∷ outs) tail = omega (arith, total-append outs tail)

-- There are two ways at least to split an amount that is not 0 into two parts or more.
two_ways : (left j : ℕ) → 0 < left → 0 < j → 2 ≤ choose (left + j) j
two_ways (suc l) (suc i) hl hj =
    let e : suc l + suc i ≡ suc (l + suc i) = omega arith in
    let f : suc l + i ≡ l + suc i = omega arith in
    let less = choose-pos (suc l) i in
    rw e (omega (arith, choose-pos l (suc i), less, ap (λ (m : ℕ). choose m i) f))
two_ways zero j hl hj = absurd (omega arith)
two_ways (suc l) zero hl hj = absurd (omega arith)

two_orders : (n : ℕ) → 2 ≤ n → 2 ≤ fact n
two_orders zero h = absurd (omega arith)
two_orders (suc m) h = omega (arith, mul-le-mul_right (fact m) h, fact-pos m)

iota-other : (left first x : ℕ) → x < first → All (λ (y : ℕ). x ≢ y) (iota left first)
unfolding iota
iota-other zero first x h = tt
iota-other (suc left) first x h =
    ((λ e. omega (arith, e)), iota-other left (first + 1) x (omega arith))

iota-IsDistinct : (left first : ℕ) → IsDistinct (iota left first)
unfolding iota
iota-IsDistinct zero first = tt
iota-IsDistinct (suc left) first =
    (iota-other left (first + 1) first (omega arith), iota-IsDistinct left (first + 1))

module _ (floor_log2 : ℕ → ℕ) (floor_log2-le : (x : ℕ) → 0 < x → 2 ^ floor_log2 x ≤ x)
    (floor_log2-pos : (x : ℕ) → 2 ≤ x → 0 < floor_log2 x) (round_root : ℕ → ℕ → ℕ)
    (round_root-le : (a b j : ℕ) → 0 < j → a ≤ b ^ j → round_root a j ≤ 2 * b) where
  split_room :
      (left n : ℕ)
      → 0 < left
      → left < 2 ^ 62
      → 2 ≤ n
      → n < 2 ^ 16
      → 0 < embeddable_bits_in_values floor_log2 left n
  unfolding embeddable_bits_in_values
  split_room left zero hl small two k_small = absurd (omega arith)
  split_room left (suc j) hl small two k_small =
      floor_log2-pos (number_compositions left (suc j))
        (rw (number_compositions-choose left j (omega arith)) (two_ways left j hl (omega arith)))

  claim_room : (n : ℕ) → 2 ≤ n → 0 < embeddable_bits_in_permutation floor_log2 n
  unfolding embeddable_bits_in_permutation
  claim_room n two = floor_log2-pos (factorial n) (rw (factorial-fact n) (two_orders n two))

  -- What the amounts and the order of `n` outputs take of the data, and that it is read back from any
  -- outputs with these amounts and inputs with this order.
  pub record IsBudgeted (n left : ℕ) (bits : DataBits)
      (result : Option (DataBits × List TxOut × List TxIn)) : Type 0 where
    pub rest : DataBits
    pub outs : List TxOut
    pub ins : List TxIn
    pub read : DataBits
    pub returns : result ≡ some (rest, outs, ins)
    pub n_outs : length outs ≡ n
    pub n_ins : length ins ≡ n
    pub indices : All (λ p. p < n) (orders ins)
    pub distinct : IsDistinct (orders ins)
    pub back :
        (outs' : List TxOut) (ins' : List TxIn) (before : DataBits)
        → amounts outs' ≡ amounts outs
        → orders ins' ≡ orders ins
        → unpack_budget floor_log2 n outs' ins' before ≡ some (before ++ read)
    pub stored : IsStored bits rest read
    pub total : sum (amounts outs) ≡ left

  same_split :
      (outs outs' : List TxOut)
      → amounts outs' ≡ amounts outs
      → unpack_data_from_budget_split floor_log2 outs' 546
        ≡ unpack_data_from_budget_split floor_log2 outs 546
  unfolding unpack_data_from_budget_split
  same_split outs outs' e = rw (get_values-amounts 546 outs', get_values-amounts 546 outs, e)

  same_claim :
      (ins ins' : List TxIn)
      → orders ins' ≡ orders ins
      → unpack_data_from_budget_claim floor_log2 ins' ≡ unpack_data_from_budget_claim floor_log2 ins
  unfolding unpack_data_from_budget_claim
  same_claim ins ins' e = rw (get_order-orders ins', get_order-orders ins, e)

  one_output :
      (bits : DataBits) (out : TxOut) (tx_in : TxIn) (budget fees : ℕ)
      → IsBudgeted 1
          (sub64 budget fees)
          bits
          (pack_budget floor_log2 round_root bits (out ∷ []) (tx_in ∷ []) budget fees)
  unfolding pack_budget unpack_budget
  one_output bits out tx_in budget fees = record {
    rest = bits;
    outs = record out { n_value = sub64 budget fees } ∷ [];
    ins = set_n 0 tx_in ∷ [];
    read = [];
    returns = refl;
    n_outs = refl;
    n_ins = refl;
    indices = (omega arith, tt);
    distinct = (tt, tt);
    back = λ outs' ins' before _ _. ap some (sym (append-nil before));
    stored = IsStored-nil bits;
    total = omega arith;
  }

  many-IsBudgeted :
      (n : ℕ) (bits rest rest' read read' : DataBits) (vout outs : List TxOut) (vin ins : List TxIn)
      (budget fees : ℕ)
      → 2 ≤ n
      → length vout ≡ n
      → length vin ≡ n
      → fees ≤ budget
      → budget < 2 ^ 62
      → pack_data_into_budget_split floor_log2 round_root bits vout (budget - fees) 546
        ≡ some (rest, outs)
      → unpack_data_from_budget_split floor_log2 outs 546 ≡ some read
      → scripts_of outs ≡ scripts_of vout
      → pack_data_into_budget_claim floor_log2 rest vin ≡ some (rest', ins)
      → unpack_data_from_budget_claim floor_log2 ins ≡ some read'
      → Perm (orders ins) (iota (length vin) 0)
      → sum (amounts outs) ≡ budget - fees
      → IsStored bits rest' (read ++ read')
      → IsBudgeted n
          (sub64 budget fees)
          bits
          (pack_budget floor_log2 round_root bits vout vin budget fees)
  unfolding pack_budget unpack_budget
  many-IsBudgeted n bits rest rest' read read' vout outs vin ins budget fees two n_outs n_ins paid
        small made unmade scripts made' unmade' same total stored =
      let left : sub64 budget fees ≡ budget - fees = unfold sub64 in omega arith in
      let not_one : (length vout == 1) ≡ false = ground arith in
      let two' : leb 2 (length vout) ≡ true = ground arith in
      let two'' : leb 2 n ≡ true = ground arith in
      let paid' : leb fees budget ≡ true = ground arith in
      let script = λ (o : TxOut). o.script_pub_key in
      record {
        rest = rest';
        outs = outs;
        ins = ins;
        read = read ++ read';
        returns = rw (not_one, two', paid', left, made, made');
        n_outs = omega (arith, length-map script outs, length-map script vout, ap length scripts);
        n_ins = omega (
          arith,
          length-map (λ (i : TxIn). i.prevout.n) ins,
          length-perm same,
          length-iota (length vin) 0,
        );
        indices = All-perm n (Perm.symm same) (iota-below (length vin) 0 n (omega arith));
        distinct = IsDistinct-perm (Perm.symm same) (iota-IsDistinct (length vin) 0);
        back = λ outs' ins' before e f.
            rw (two'', same_split outs outs' e, unmade, same_claim ins ins' f, unmade')
              (ap some (append_assoc before read read'));
        stored = stored;
        total = total ∙ sym left;
      }

  many_outputs :
      (n : ℕ) (bits : DataBits) (vout : List TxOut) (vin : List TxIn) (budget fees : ℕ)
      → 2 ≤ n
      → n ≤ 14
      → length vout ≡ n
      → length vin ≡ n
      → budget < 2 ^ 62
      → fees + 7644 < budget
      → length bits < 2 ^ 32
      → IsBudgeted n
          (sub64 budget fees)
          bits
          (pack_budget floor_log2 round_root bits vout vin budget fees)
  many_outputs n bits vout vin budget fees two most n_outs n_ins small paid fits =
      let room =
        split_room (budget - fees - length vout * 546) (length vout) (omega arith) (omega arith)
          (omega arith) (omega arith) in
      let (rest, (outs, (read, made, unmade, _, stored, scripts, total, _))) =
        unpack_data_from_budget_split-pack_data_into_budget_split floor_log2 floor_log2-le
          round_root round_root-le bits vout (budget - fees) 546 (omega arith) (omega arith)
          (omega arith) (omega arith) room fits in
      let shorter : length rest ≡ length bits - length read = stored.2 in
      let room' = claim_room (length vin) (omega arith) in
      let (rest', (ins, (read', made', unmade', _, stored', same))) =
        unpack_data_from_budget_claim-pack_data_into_budget_claim floor_log2 floor_log2-le rest vin
          (omega arith) (omega arith) room' (omega arith) in
      many-IsBudgeted n bits rest rest' read read' vout outs vin ins budget fees two n_outs n_ins
        (omega arith) small made unmade scripts made' unmade' same total
        (IsStored-append bits rest rest' read read' stored stored')

  -- With a budget that pays the fees and the least amount of 14 outputs, packing succeeds for every
  -- number of outputs that OptimizeParams chooses.
  pub pack_budget-IsBudgeted :
      (n : ℕ) (bits : DataBits) (vout : List TxOut) (vin : List TxIn) (budget fees : ℕ)
      → 1 ≤ n
      → n ≤ 14
      → length vout ≡ n
      → length vin ≡ n
      → budget < 2 ^ 62
      → fees + 7644 < budget
      → length bits < 2 ^ 32
      → IsBudgeted n
          (sub64 budget fees)
          bits
          (pack_budget floor_log2 round_root bits vout vin budget fees)
  pack_budget-IsBudgeted (suc zero) bits (out ∷ []) (tx_in ∷ []) budget fees one most n_outs n_ins
        small paid fits =
      one_output bits out tx_in budget fees
  pack_budget-IsBudgeted (suc (suc m)) bits vout vin budget fees one most n_outs n_ins small paid
        fits =
      many_outputs (suc (suc m)) bits vout vin budget fees (omega arith) most n_outs n_ins small
        paid fits
  pack_budget-IsBudgeted n bits vout vin budget fees one most n_outs n_ins small paid fits =
      absurd (omega arith)
