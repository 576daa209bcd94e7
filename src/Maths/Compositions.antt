-- ===== src/Maths/Compositions.antt =====
-- `IntegerToComposition` and `CompositionToInteger`: the parts found from an index have that index.
use native.Mathlib.Nat.{mul-le-mul_right, le_trans, sub-le}
use native.Mathlib.Decide.{dec_le}
use bitcoin_messaging.Base.{
  ℕ, zero, suc, ◌+◌, ◌-◌, ◌*◌, ◌/◌, ◌^◌, ◌≤◌, ◌<◌, ◌≡◌, refl, ap, ap_at, ◌∙◌, List, [], ◌∷◌, ◌++◌,
  Option, some, arith, length, leb, replicate, ◌==◌, ◌>>=◌, assert->>, le→leb, Bool-cases, false,
  length-append, length-replicate, inl, inr, ==_iff,
}
use bitcoin_messaging.Maths.{
  u16, u64, sub64, number_compositions, climb, descend, search_fuel, find_part, factorial,
  accumulate_loop, accumulate, ranking_loop, composition_to_integer, unranking_parts,
  integer_to_composition,
}
use bitcoin_messaging.Maths.Choose.{choose, choose_self, fact, choose-fact-le}
use bitcoin_messaging.Maths.Binomial.{factorial-fact, number_compositions-choose}
use bitcoin_messaging.Maths.Search.{
  comps, comps_split, comps-le, IsClimbed, IsFound, climb_up, climb_negative, descend_from,
}

-- The sum of the parts.
abbrev pub sum : List ℕ → ℕ
sum [] = 0
sum (c ∷ cs) = c + sum cs

accumulate_loop-sum :
    (total : ℕ) (cs : List ℕ) → total + sum cs < 2 ^ 64 → accumulate_loop total cs ≡ total + sum cs
unfolding accumulate_loop
accumulate_loop-sum total [] h = omega arith
accumulate_loop-sum total (c ∷ cs) h =
    ap_at (λ (t : ℕ). accumulate_loop t cs) (u64 (total + c)) (total + c) (omega arith)
    ∙ accumulate_loop-sum (total + c) cs (omega arith)
    ∙ omega arith

-- A sum that fits a uint64_t is accumulated as it is.
pub accumulate-sum : (cs : List ℕ) → sum cs < 2 ^ 64 → accumulate cs ≡ sum cs
unfolding accumulate
accumulate-sum cs h = accumulate_loop-sum 0 cs (omega arith) ∙ omega arith

search_fuel-le : (x : ℕ) → x < 2 ^ 64 → x < search_fuel
unfolding search_fuel
search_fuel-le x h = h

climb_enough :
    (n j idx guess : ℕ) (j_pos : 0 < j) (n_small : n < 2 ^ 62) (j_small : j < 2 ^ 16) (back : ℕ)
    → idx < comps n j
    → guess ≡ sub64 n back
    → n + back + j < 2 ^ 64
    → IsClimbed n j idx j_pos n_small j_small (climb search_fuel idx n (suc j) guess)
unfolding sub64
climb_enough n j idx guess j_pos n_small j_small back h e fits = elim (dec_le back n) [
  | yes p ↦
      climb_up n j idx j_pos n_small j_small search_fuel guess h (omega arith)
        (search_fuel-le (n - guess) (omega arith))
  | no p ↦
      climb_negative n j idx j_pos n_small j_small search_fuel guess (back - n) h (omega arith)
        (omega arith) (omega arith) (search_fuel-le (n + (back - n)) (omega arith))
]

ranking_step :
    (left n k acc c : ℕ) (cs : List ℕ) {n' k' total above : ℕ}
    → number_compositions n k ≡ total
    → sub64 n c ≡ n'
    → number_compositions n' k ≡ above
    → k - 1 ≡ k'
    → above ≤ acc + total
    → ranking_loop (suc left) n k acc (c ∷ cs) ≡ ranking_loop left n' k' (acc + total - above) cs
unfolding ranking_loop
ranking_step left n k acc c cs {n' = n'} {k' = k'} {total = total} {above = above} t e a k_is h =
    rw (t, e, a, k_is)
      (assert->> (leb above (acc + total)) (ranking_loop left n' k' (acc + total - above) cs)
        (le→leb above (acc + total) h))

-- Parts of 0 add nothing to the index.
ranking_loop-zeros :
    (left k acc : ℕ) → ranking_loop left 0 k acc (replicate left 0 ++ (0 ∷ [])) ≡ some acc
ranking_loop-zeros zero k acc = unfold ranking_loop in refl
ranking_loop-zeros (suc left) k acc =
    let c = number_compositions 0 k in
    ranking_step left 0 k acc 0 (replicate left 0 ++ (0 ∷ [])) {n' = 0} {k' = k - 1} {total = c}
      {above = c} refl (unfold sub64 in refl) refl refl (omega arith)
    ∙ ap_at (λ (t : ℕ). ranking_loop left 0 (k - 1) t (replicate left 0 ++ (0 ∷ []))) (acc + c - c)
        acc (omega arith)
    ∙ ranking_loop-zeros left (k - 1) acc

sum-zeros : (left : ℕ) → sum (replicate left 0 ++ (0 ∷ [])) ≡ 0
sum-zeros zero = refl
sum-zeros (suc left) = omega (arith, sum-zeros left)

-- What the library's floating-point root promises here: of at most b^j it is about b, and in any
-- case no more than twice that.
module _ (round_root : ℕ → ℕ → ℕ)
    (round_root-le : (a b j : ℕ) → 0 < j → a ≤ b ^ j → round_root a j ≤ 2 * b) where
  root_bound :
      (idx n j : ℕ)
      → 0 < j
      → n < 2 ^ 62
      → j < 2 ^ 16
      → round_root ((number_compositions n (suc j) - idx) * factorial (suc j - 1)) (suc j - 1)
        ≤ 2 * (n + j)
  root_bound idx n j j_pos n_small j_small =
      let j_is : suc j - 1 ≡ j = omega arith in
      rw (j_is, number_compositions-choose n j (omega arith), factorial-fact j)
        (round_root-le ((comps n j - idx) * fact j) (n + j) j j_pos
          (le_trans (mul-le-mul_right (fact j) (sub-le (comps n j) idx)) (choose-fact-le n j)))

  -- Whatever the guess, the search ends at the one part that fits.
  find_part-IsFound :
      (idx n j : ℕ) (j_pos : 0 < j) (n_small : n < 2 ^ 62) (j_small : j < 2 ^ 16)
      → idx < comps n j
      → IsFound n j idx j_pos n_small j_small (find_part round_root idx n (suc j))
  unfolding find_part
  find_part-IsFound idx n j j_pos n_small j_small h =
      let root =
        round_root ((number_compositions n (suc j) - idx) * factorial (suc j - 1)) (suc j - 1) in
      let root_le = root_bound idx n j j_pos n_small j_small in
      let half = (suc j - 1) / 2 in
      let same : sub64 (sub64 n root) half ≡ sub64 n (root + half) = unfold sub64 in omega arith in
      let climbed =
        climb_enough n j idx (sub64 (sub64 n root) half) j_pos n_small j_small (root + half) h same
          (omega arith) in
      let found =
        descend_from n j idx j_pos n_small j_small search_fuel climbed.part climbed.fits
          climbed.stops (search_fuel-le climbed.part (omega (arith, climbed.fits))) in
      record {
        part = found.part;
        returns =
            ap (λ (o : Option ℕ). o >>= λ mu. descend search_fuel idx n (suc j) mu) climbed.returns
            ∙ found.returns;
        fits = found.fits;
        below = found.below;
        reaches = found.reaches;
      }

  unranking_step :
      (left idx n k : ℕ) {t idx' n' k' : ℕ} {ps : List ℕ}
      → (n == 0) ≡ false
      → find_part round_root idx n k ≡ some t
      → idx + number_compositions (sub64 n t) k - number_compositions n k ≡ idx'
      → sub64 n t ≡ n'
      → k - 1 ≡ k'
      → unranking_parts round_root left idx' n' k' ≡ some ps
      → unranking_parts round_root (suc left) idx n k ≡ some (t ∷ ps)
  unfolding unranking_parts
  unranking_step left idx n k more found idx_is n_is k_is rest =
      rw (more, found, idx_is, n_is, k_is, rest)

  -- The parts of a vector that is found, and its index.
  record IsComposed (left idx n : ℕ) (result : Option (List ℕ)) : Type 0 where
    parts : List ℕ
    returns : result ≡ some parts
    count : length parts ≡ suc left
    total : sum parts ≡ n
    ranks : (acc : ℕ) → ranking_loop left n (suc left) acc parts ≡ some (acc + idx)

  IsComposed-zero :
      (left idx n : ℕ)
      → n ≡ 0
      → idx < comps n (suc left)
      → IsComposed (suc left) idx n (unranking_parts round_root (suc left) idx n (suc (suc left)))
  IsComposed-zero left idx zero n_zero h =
      let only : comps 0 (suc left) ≡ 1 =
        ap_at (λ (t : ℕ). choose t (suc left)) (0 + suc left) (suc left) (omega arith)
        ∙ choose_self (suc left) in
      record {
        parts = replicate (suc left) 0 ++ (0 ∷ []);
        returns = unfold unranking_parts in refl;
        count = omega (
          arith,
          length-append {A = ℕ} (replicate (suc left) 0) (0 ∷ []),
          length-replicate {A = ℕ} (suc left) 0,
        );
        total = sum-zeros (suc left);
        ranks = λ acc.
            ranking_loop-zeros (suc left) (suc (suc left)) acc
            ∙ ap_at some acc (acc + idx) (omega arith);
      }
  IsComposed-zero left idx (suc n) n_zero h = absurd (omega arith)

  unranking_parts-IsComposed :
      (left idx n : ℕ)
      → n < 2 ^ 62
      → left < 2 ^ 16
      → idx < comps n left
      → IsComposed left idx n (unranking_parts round_root left idx n (suc left))
  unranking_parts-IsComposed zero idx n n_small small h = record {
    parts = n ∷ [];
    returns = unfold unranking_parts in refl;
    count = refl;
    total = omega arith;
    ranks = λ acc. unfold ranking_loop in ap_at some acc (acc + idx) (omega arith);
  }
  unranking_parts-IsComposed (suc left) idx n n_small small h = elim (Bool-cases (n == 0)) [
    | inl e ↦ IsComposed-zero left idx n ((==_iff n 0).0 e) h
    | inr e ↦
        let found = find_part-IsFound idx n (suc left) (omega arith) n_small small h in
        let t = found.part in
        let fits = found.fits in
        let below = found.below in
        let reaches = found.reaches in
        let n_is : sub64 n t ≡ n - t = unfold sub64 in omega arith in
        let all = number_compositions-choose n (suc left) (omega arith) in
        let after = number_compositions-choose (n - t) (suc left) (omega arith) in
        let idx_is : idx
              + number_compositions (sub64 n t) (suc (suc left))
              - number_compositions n (suc (suc left))
            ≡ idx + comps (n - t) (suc left) - comps n (suc left) =
          rw (n_is, all, after) refl in
        let rest =
          unranking_parts-IsComposed left (idx + comps (n - t) (suc left) - comps n (suc left))
            (n - t) (omega arith) (omega arith) (omega (arith, comps_split (n - t) left)) in
        record {
          parts = t ∷ rest.parts;
          returns =
              unranking_step left idx n (suc (suc left)) e found.returns idx_is n_is (omega arith)
                rest.returns;
          count = ap suc rest.count;
          total = omega (arith, rest.total);
          ranks = λ acc.
              ranking_step left n (suc (suc left)) acc t rest.parts all n_is after (omega arith)
                (omega (arith, comps-le (n - t) n (suc left) (omega arith)))
              ∙ rest.ranks (acc + comps n (suc left) - comps (n - t) (suc left))
              ∙ ap_at some _ (acc + idx)
                  (omega (arith, comps-le (n - t) n (suc left) (omega arith)));
        }
  ]

-- With a rounded root that is at most twice the true one, for n below 2^62, 1 to 2^16 - 1 parts and
-- every index below the number of compositions, `IntegerToComposition` returns `k` parts that sum
-- up to `n`, and `CompositionToInteger` gives the index back.
pub composition_to_integer-integer_to_composition :
    (round_root : ℕ → ℕ → ℕ)
    → ((a b j : ℕ) → 0 < j → a ≤ b ^ j → round_root a j ≤ 2 * b)
    → (idx n k : ℕ) → 0 < k
    → k < 2 ^ 16
    → n < 2 ^ 62
    → idx < number_compositions n k
    → (parts : List ℕ) × (integer_to_composition round_root idx n k ≡ some parts)
      × (length parts ≡ k)
      × (sum parts ≡ n)
      × (composition_to_integer parts ≡ some idx)
unfolding integer_to_composition composition_to_integer
composition_to_integer-integer_to_composition round_root law idx n zero pos small n_small h =
    absurd (omega arith)
composition_to_integer-integer_to_composition round_root law idx n (suc left) pos small n_small h =
    let c =
      unranking_parts-IsComposed round_root law left idx n n_small (omega arith)
        (omega (arith, number_compositions-choose n left (omega arith))) in
    let k_is : u16 (length c.parts) - 1 ≡ left = omega (arith, c.count) in
    let k_full : u16 (length c.parts) ≡ suc left = omega (arith, c.count) in
    (
      c.parts,
      assert->> (leb 1 (suc left)) (unranking_parts round_root (suc left - 1) idx n (suc left))
            (le→leb 1 (suc left) (omega arith))
          ∙ ap_at (λ (t : ℕ). unranking_parts round_root t idx n (suc left)) (suc left - 1) left
              (omega arith)
          ∙ c.returns,
      c.count,
      c.total,
      rw (k_is, k_full, accumulate-sum c.parts (omega (arith, c.total)), c.total)
          (c.ranks 0 ∙ ap_at some (0 + idx) idx (omega arith)),
    )
