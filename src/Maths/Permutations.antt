-- ===== src/Maths/Permutations.antt =====
-- `PermutationToInteger` and `IntegerToPermutation`: the factorial number system.
use mathlib.Core.List.{Perm, perm-cons}
use mathlib.Core.List.Perm
use native.Mathlib.Decide.{dec_lt}
use native.Mathlib.Nat.{
  mul-le-mul_right, div-lt_iff_lt-mul, mul_comm, mod-lt, div-add-mod', mul-add-div_right,
  div-eq_of_lt, mul-add-mod_self_right, mod-eq_of_lt,
}
use mathlib.Core.Path.{subst}
use bitcoin_messaging.Base.{length-perm}
use bitcoin_messaging.Base.{
  ℕ, zero, suc, ◌+◌, ◌*◌, ◌/◌, ◌%◌, ◌≤◌, ◌<◌, ◌≡◌, refl, sym, ap, ap_at, ◌∙◌, List, [], ◌∷◌, ◌++◌,
  Option, some, arith, length, get_elem?, leb, append-nil, append_assoc, assert->>, le→leb,
}
use bitcoin_messaging.Maths.{
  factorial, count_smaller, permutation_loop, permutation_to_integer, iota, remove, unranking_loop,
  integer_to_permutation,
}
use bitcoin_messaging.Maths.Choose.{fact, fact-pos}
use bitcoin_messaging.Maths.Binomial.{factorial-fact}
use bitcoin_messaging.Maths.Smaller.{
  smaller, count_smaller-smaller, smaller-le, Ascends, IsPicked, pick, smaller-perm, iota-Ascends,
  length-iota,
}

-- The rank of a vector among the orders of its elements.
abbrev pub rank : List ℕ → ℕ
rank [] = 0
rank (x ∷ xs) = smaller x xs * fact (length xs) + rank xs

permutation_loop-rank : (idx : ℕ) (perm : List ℕ) → permutation_loop idx perm ≡ idx + rank perm
unfolding permutation_loop
permutation_loop-rank idx [] = omega arith
permutation_loop-rank idx (x ∷ []) = omega arith
permutation_loop-rank idx (x ∷ y ∷ ys) =
    permutation_loop-rank (idx + count_smaller 0 x (y ∷ ys) * factorial (length (y ∷ ys))) (y ∷ ys)
    ∙ rw (count_smaller-smaller 0 x (y ∷ ys), factorial-fact (length (y ∷ ys))) (omega arith)

-- Of two elements or more the rank is what is computed.
pub permutation_to_integer-rank :
    (perm : List ℕ) → 2 ≤ length perm → permutation_to_integer perm ≡ some (rank perm)
unfolding permutation_to_integer
permutation_to_integer-rank perm h =
    assert->> (leb 2 (length perm)) (some (permutation_loop 0 perm)) (le→leb 2 (length perm) h)
    ∙ ap some (permutation_loop-rank 0 perm ∙ omega arith)

pub rank-lt : (perm : List ℕ) → rank perm < fact (length perm)
rank-lt [] = omega arith
rank-lt (x ∷ xs) = omega (arith, rank-lt xs, mul-le-mul_right (fact (length xs)) (smaller-le x xs))

unranking_step :
    (left idx v : ℕ) (buf perm : List ℕ)
    → get_elem? buf (idx / fact left) ≡ some v
    → unranking_loop (suc left) idx buf perm
      ≡ unranking_loop left (idx % fact left) (remove v buf) (perm ++ (v ∷ []))
unfolding unranking_loop
unranking_step left idx v buf perm e =
    rw (factorial-fact left, e)
      (ap_at (λ (t : ℕ). unranking_loop left t (remove v buf) (perm ++ (v ∷ []))) _ _ (omega arith))

rank-cons :
    (v x left r : ℕ) (chosen : List ℕ)
    → smaller v chosen ≡ x
    → length chosen ≡ left
    → rank chosen ≡ r
    → rank (v ∷ chosen) ≡ x * fact left + r
rank-cons v x left r chosen e f g = rw (e, f, g)

index_in_range : (idx left : ℕ) → idx < fact (suc left) → idx / fact left < suc left
index_in_range idx left h =
    (div-lt_iff_lt-mul (fact-pos left)).1 (rw (mul_comm (suc left) (fact left)) h)

-- The vector that the loop adds behind what it has.
record IsUnranked (idx : ℕ) (buf perm : List ℕ) (result : Option (List ℕ)) : Type 0 where
  chosen : List ℕ
  returns : result ≡ some (perm ++ chosen)
  same : Perm chosen buf
  ranks : rank chosen ≡ idx

unranking_loop-IsUnranked :
    (left lo idx : ℕ) (buf perm : List ℕ)
    → length buf ≡ left
    → Ascends lo buf
    → idx < fact left
    → IsUnranked idx buf perm (unranking_loop left idx buf perm)
unranking_loop-IsUnranked zero lo idx [] perm e a h = record {
  chosen = [];
  returns = unfold unranking_loop in ap some (sym (append-nil perm));
  same = Perm.nil;
  ranks = omega arith;
}
unranking_loop-IsUnranked zero lo idx (x ∷ buf) perm e a h = absurd (omega arith)
unranking_loop-IsUnranked (suc left) lo idx buf perm e a h =
    let x = idx / fact left in
    let in_range : x < length buf = rw e (index_in_range idx left h) in
    let p : IsPicked lo x buf = pick lo x buf a in_range in
    let s = p.size in
    let shorter : length (remove p.v buf) ≡ left = omega arith in
    let rest =
      unranking_loop-IsUnranked left lo (idx % fact left) (remove p.v buf) (perm ++ (p.v ∷ []))
        shorter p.ascends (mod-lt idx (fact-pos left)) in
    record {
      chosen = p.v ∷ rest.chosen;
      returns =
          unranking_step left idx p.v buf perm p.found
          ∙ rest.returns
          ∙ ap some (append_assoc perm (p.v ∷ []) rest.chosen);
      same = Perm.trans (Perm.cons p.v rest.same) p.same;
      ranks =
          rank-cons p.v x left (idx % fact left) rest.chosen (smaller-perm p.v rest.same ∙ p.place)
            (length-perm rest.same ∙ shorter) rest.ranks
          ∙ div-add-mod' idx (fact left);
    }

-- For k at least 2, every index below k! is the rank of an order of 0, …, k - 1, which
-- `IntegerToPermutation` finds, and `PermutationToInteger` gives the index back.
pub permutation_to_integer-integer_to_permutation :
    (idx k : ℕ)
    → 2 ≤ k
    → idx < fact k
    → (perm : List ℕ) × (integer_to_permutation idx k ≡ some perm)
      × Perm perm (iota k 0)
      × (permutation_to_integer perm ≡ some idx)
unfolding integer_to_permutation
permutation_to_integer-integer_to_permutation idx k two h =
    let u =
      unranking_loop-IsUnranked k 0 idx (iota k 0) [] (length-iota k 0) (iota-Ascends k 0) h in
    let size : length u.chosen ≡ k = length-perm u.same ∙ length-iota k 0 in
    (
      u.chosen,
      u.returns,
      u.same,
      permutation_to_integer-rank u.chosen (omega arith) ∙ ap some u.ranks,
    )

smaller_mono : (v w : ℕ) (ys : List ℕ) → v ≤ w → smaller v ys ≤ smaller w ys
smaller_mono v w [] h = omega arith
smaller_mono v w (y ∷ ys) h = ground (arith, smaller_mono v w ys)

-- Two ways to take an element with as many below it out of one vector take the same.
place_unique :
    (v w x : ℕ) (vs ws buf : List ℕ)
    → Perm (v ∷ vs) buf
    → Perm (w ∷ ws) buf
    → smaller v vs ≡ x
    → smaller w ws ≡ x
    → v ≡ w
place_unique v w x vs ws buf p q e f =
    let at_v = smaller-perm v p ∙ sym (smaller-perm v q) in
    let at_w = smaller-perm w p ∙ sym (smaller-perm w q) in
    elim (dec_lt v w) [
      | yes lt ↦ absurd (ground (arith, at_w, smaller_mono v w vs))
      | no le ↦ elim (dec_lt w v) [
        | yes lt ↦ absurd (ground (arith, at_v, smaller_mono w v ws))
        | no ge ↦ omega arith
      ]
    ]

take_at :
    (lo v : ℕ) (vs buf : List ℕ)
    → Ascends lo buf
    → Perm (v ∷ vs) buf
    → (get_elem? buf (smaller v vs) ≡ some v) × Ascends lo (remove v buf) × Perm vs (remove v buf)
take_at lo v vs buf a p =
    let size = length-perm p in
    let q : IsPicked lo (smaller v vs) buf =
      pick lo (smaller v vs) buf a (omega (arith, smaller-le v vs)) in
    let one : q.v ≡ v =
      place_unique q.v v (smaller v vs) (remove q.v buf) vs buf q.same p q.place refl in
    let same : Perm (v ∷ remove v buf) buf =
      subst (λ (t : ℕ). Perm (t ∷ remove t buf) buf) one q.same in
    (
      q.found ∙ ap some one,
      subst (λ (t : ℕ). Ascends lo (remove t buf)) one q.ascends,
      (perm-cons v).0 (Perm.trans p (Perm.symm same)),
    )

unranking_loop-rank :
    (lo : ℕ) (perm buf before : List ℕ)
    → Ascends lo buf
    → Perm perm buf
    → unranking_loop (length perm) (rank perm) buf before ≡ some (before ++ perm)
unranking_loop-rank lo [] buf before a p =
    unfold unranking_loop in ap some (sym (append-nil before))
unranking_loop-rank lo (v ∷ vs) buf before a p =
    let (found, ascends, same) = take_at lo v vs buf a p in
    let idx = smaller v vs * fact (length vs) + rank vs in
    let quotient : idx / fact (length vs) ≡ smaller v vs =
      mul-add-div_right (fact-pos (length vs)) (smaller v vs) (rank vs)
      ∙ omega (arith, div-eq_of_lt (rank-lt vs)) in
    let remainder : idx % fact (length vs) ≡ rank vs =
      mul-add-mod_self_right (smaller v vs) (fact (length vs)) (rank vs)
      ∙ mod-eq_of_lt (rank-lt vs) in
    unranking_step (length vs) idx v buf before (ap (get_elem? buf) quotient ∙ found)
    ∙ ap (λ (t : ℕ). unranking_loop (length vs) t (remove v buf) (before ++ (v ∷ []))) remainder
    ∙ unranking_loop-rank lo vs (remove v buf) (before ++ (v ∷ [])) ascends same
    ∙ ap some (append_assoc before (v ∷ []) vs)

-- For k at least 2, every order of 0, …, k - 1 has a rank below k!, and is found again from it.
pub integer_to_permutation-permutation_to_integer :
    (perm : List ℕ) (k : ℕ)
    → 2 ≤ k
    → Perm perm (iota k 0)
    → (idx : ℕ) × (permutation_to_integer perm ≡ some idx)
      × (idx < fact k)
      × (integer_to_permutation idx k ≡ some perm)
unfolding integer_to_permutation
integer_to_permutation-permutation_to_integer perm k two p =
    let size : length perm ≡ k = length-perm p ∙ length-iota k 0 in
    (
      rank perm,
      permutation_to_integer-rank perm (omega arith),
      rw (← size) (rank-lt perm),
      ap (λ (n : ℕ). unranking_loop n (rank perm) (iota k 0) []) (sym size)
          ∙ unranking_loop-rank 0 perm (iota k 0) [] (iota-Ascends k 0) p,
    )
