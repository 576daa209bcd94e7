-- ===== src/Maths/Binomial.antt =====
-- `Factorial`, `BinomialCoefficient` and `NumberCompositions` compute what they are named after.
use native.Mathlib.Nat.{mul-div_cancel}
use native.Mathlib.Decide.{dec_le}
use bitcoin_messaging.Base.{
  ℕ, zero, suc, ◌+◌, ◌-◌, ◌*◌, ◌/◌, ◌^◌, ◌≤◌, ◌<◌, ◌≡◌, refl, sym, ap, ap_at, ◌∙◌, inl, inr, arith,
  ltb, min, Bool-cases, ltb→lt, not-ltb→le,
}
use bitcoin_messaging.Maths.{
  u64, sub64, factorial_loop, factorial, binomial_loop, binomial_coefficient, number_compositions,
}
use bitcoin_messaging.Maths.Choose.{fact, choose, choose_step, choose_symm, choose-zero_of_lt}

factorial_loop-fact : (left i : ℕ) → factorial_loop left (suc i) (fact i) ≡ fact (i + left)
unfolding factorial_loop
factorial_loop-fact zero i = ap_at fact i (i + 0) (omega arith)
factorial_loop-fact (suc left) i =
    ap_at (λ (t : ℕ). factorial_loop left t (fact (suc i))) (suc i + 1) (suc (suc i)) (omega arith)
    ∙ factorial_loop-fact left (suc i)
    ∙ ap_at fact (suc i + left) (i + suc left) (omega arith)

-- `Factorial` computes n!.
pub factorial-fact : (n : ℕ) → factorial n ≡ fact n
unfolding factorial
factorial-fact zero = refl
factorial-fact (suc n) =
    ap_at (λ (t : ℕ). factorial_loop t 2 1) (suc n - 1) n (omega arith)
    ∙ factorial_loop-fact n 1
    ∙ ap_at fact (1 + n) (suc n) (omega arith)

-- After i rounds the loop holds C(base + i, i): each division is exact.
binomial_loop-choose :
    (left i base : ℕ)
    → binomial_loop left (suc i) base (choose (base + i) i) ≡ choose (base + (i + left)) (i + left)
unfolding binomial_loop
binomial_loop-choose zero i base = ap_at (λ (t : ℕ). choose (base + t) t) i (i + 0) (omega arith)
binomial_loop-choose (suc left) i base =
    ap_at (λ (s : ℕ). binomial_loop left s base (choose (base + i) i * (base + suc i) / suc i))
      (suc i + 1) (suc (suc i)) (omega arith)
    ∙ ap (λ (t : ℕ). binomial_loop left (suc (suc i)) base t) exact
    ∙ binomial_loop-choose left (suc i) base
    ∙ ap_at (λ (t : ℕ). choose (base + t) t) (suc i + left) (i + suc left) (omega arith)
  where
    exact : choose (base + i) i * (base + suc i) / suc i ≡ choose (base + suc i) (suc i)
    exact =
        ap (λ (t : ℕ). t / suc i) (sym (choose_step base i))
        ∙ mul-div_cancel (choose (base + suc i) (suc i)) (omega arith)

from_one : (left base : ℕ) → binomial_loop left 1 base 1 ≡ choose (base + left) left
from_one left base =
    binomial_loop-choose left 0 base
    ∙ ap_at (λ (t : ℕ). choose (base + t) t) (0 + left) left (omega arith)

-- The smaller of k and n - k gives the same coefficient.
choose-min : (n k : ℕ) → k ≤ n → choose n (min k (n - k)) ≡ choose n k
choose-min n k h = elim (dec_le k (n - k)) [
  | yes p ↦ ap_at (choose n) (min k (n - k)) k (omega arith)
  | no p ↦
      ap_at (choose n) (min k (n - k)) (n - k) (omega arith)
      ∙ ap_at (λ (t : ℕ). choose t (n - k)) n (n - k + k) (omega arith)
      ∙ sym (choose_symm (n - k) k)
      ∙ ap_at (λ (t : ℕ). choose t k) (n - k + k) n (omega arith)
]

-- `BinomialCoefficient` computes C(n, k) by Pascal's rule, for every n and k.
pub binomial_coefficient-choose : (n k : ℕ) → binomial_coefficient n k ≡ choose n k
unfolding binomial_coefficient
binomial_coefficient-choose n k = elim (Bool-cases (ltb n k)) [
  | inl e ↦ rw e (sym (choose-zero_of_lt n k (ltb→lt n k e)))
  | inr e ↦
      let k' = min k (n - k) in
      rw e (
        from_one k' (n - k')
        ∙ ap_at (λ (t : ℕ). choose t k') (n - k' + k') n (omega arith)
        ∙ choose-min n k (not-ltb→le n k e))
]

-- `NumberCompositions` of n into j + 1 parts is C(n + j, j), as long as n + j is below 2^64.
pub number_compositions-choose :
    (n j : ℕ) → n + j < 2 ^ 64 → number_compositions n (suc j) ≡ choose (n + j) j
unfolding number_compositions sub64
number_compositions-choose n j h =
    binomial_coefficient-choose (sub64 (u64 (n + suc j)) 1) (sub64 (suc j) 1)
    ∙ ap_at (λ (t : ℕ). choose t (sub64 (suc j) 1)) (sub64 (u64 (n + suc j)) 1) (n + j)
        (omega arith)
    ∙ ap_at (choose (n + j)) (sub64 (suc j) 1) j (omega arith)

-- At n = -1, as uint64_t, there is no way.
pub number_compositions-wrapped :
    (j : ℕ) → 0 < j → j < 2 ^ 64 - 1 → number_compositions (2 ^ 64 - 1) (suc j) ≡ 0
unfolding number_compositions sub64
number_compositions-wrapped j h small =
    binomial_coefficient-choose (sub64 (u64 (2 ^ 64 - 1 + suc j)) 1) (sub64 (suc j) 1)
    ∙ choose-zero_of_lt (sub64 (u64 (2 ^ 64 - 1 + suc j)) 1) (sub64 (suc j) 1) (omega arith)
