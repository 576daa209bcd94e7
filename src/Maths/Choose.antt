-- ===== src/Maths/Choose.antt =====
-- The binomial coefficients by Pascal's rule, and factorials by recursion: the specification of
-- `Factorial` and `BinomialCoefficient` of lib/bms/Maths.cpp.
use native.Mathlib.Nat.{
  mul-pos, mul-le-mul, pow-suc, pow-zero, pow-le-pow_left, add-suc, suc-add, add-zero, zero-add,
  le_trans, le_refl, pow-le-pow_right, one-le-pow, mul_assoc,
}
use native.Mathlib.Decide.{dec_lt}
use bitcoin_messaging.Base.{
  ℕ, zero, suc, ◌+◌, ◌*◌, ◌^◌, ◌≤◌, ◌<◌, ◌≡◌, refl, sym, ap, ap_at, ◌∙◌, arith,
}

abbrev pub choose : ℕ → ℕ → ℕ
choose n zero = 1
choose zero (suc k) = 0
choose (suc n) (suc k) = choose n k + choose n (suc k)

abbrev pub fact : ℕ → ℕ
fact zero = 1
fact (suc n) = fact n * suc n

pub fact-pos : (n : ℕ) → 0 < fact n
fact-pos zero = omega arith
fact-pos (suc n) = mul-pos (fact-pos n) (omega arith)

pub choose-zero_of_lt : (n k : ℕ) → n < k → choose n k ≡ 0
choose-zero_of_lt n zero h = absurd (omega arith)
choose-zero_of_lt zero (suc k) h = refl
choose-zero_of_lt (suc n) (suc k) h =
    omega (arith, choose-zero_of_lt n k (omega arith), choose-zero_of_lt n (suc k) (omega arith))

pub choose_self : (n : ℕ) → choose n n ≡ 1
choose_self zero = refl
choose_self (suc n) = omega (arith, choose_self n, choose-zero_of_lt n (suc n) (omega arith))

pub choose-one : (n : ℕ) → choose n 1 ≡ n
choose-one zero = refl
choose-one (suc n) = omega (arith, choose-one n)

-- (k + 1) C(n + 1, k + 1) = (n + 1) C(n, k)
pub choose_absorb : (n k : ℕ) → suc k * choose (suc n) (suc k) ≡ suc n * choose n k
choose_absorb zero zero = refl
choose_absorb zero (suc k) = omega arith
choose_absorb (suc n) zero = omega (arith, choose-one n)
choose_absorb (suc n) (suc k) = omega (arith, choose_absorb n k, choose_absorb n (suc k))

-- C(m + k, k) k! m! = (m + k)!, in the steps of the loop over k.
pub choose_step : (m i : ℕ) → choose (m + suc i) (suc i) * suc i ≡ choose (m + i) i * (m + suc i)
choose_step m i = rw (add-suc m i) (omega (arith, choose_absorb (m + i) i))

pub choose_symm : (m k : ℕ) → choose (m + k) k ≡ choose (m + k) m
choose_symm zero k = rw (zero-add k) (choose_self k)
choose_symm (suc m) zero = rw (add-zero (suc m)) (sym (choose_self (suc m)))
choose_symm (suc m) (suc k) =
    let left : choose (m + suc k) k ≡ choose (m + suc k) (suc m) =
      ap_at (λ (t : ℕ). choose t k) (m + suc k) (suc m + k) (omega arith)
      ∙ choose_symm (suc m) k
      ∙ ap_at (λ (t : ℕ). choose t (suc m)) (suc m + k) (m + suc k) (omega arith) in
    rw (suc-add m (suc k)) (omega (arith, left, choose_symm m (suc k)))

pub choose-fact : (m k : ℕ) → choose (m + k) k * (fact k * fact m) ≡ fact (m + k)
choose-fact m zero = rw (add-zero m) (omega arith)
choose-fact m (suc k) =
    let step = choose_step m k in
    let grown = ap (λ (t : ℕ). t * (fact k * fact m)) step in
    let before = ap (λ (t : ℕ). t * suc (m + k)) (choose-fact m k) in
    rw (add-suc m k) (omega (arith, rw (add-suc m k) at grown, before))

-- More things to choose from, more choices.
pub choose_mono : (n k : ℕ) → choose n k ≤ choose (suc n) k
choose_mono n zero = omega arith
choose_mono n (suc k) = omega arith

pub choose_mono_le : (n d k : ℕ) → choose n k ≤ choose (n + d) k
choose_mono_le n zero k = rw (add-zero n) (omega arith)
choose_mono_le n (suc d) k =
    rw (add-suc n d) (omega (arith, choose_mono_le n d k, choose_mono (n + d) k))

power_add : (a w : ℕ) → 2 ^ (a + w) ≡ 2 ^ a * 2 ^ w
power_add a zero = ap_at (λ (t : ℕ). 2 ^ t) (a + 0) a (omega arith) ∙ omega arith
power_add a (suc w) =
    ap_at (λ (t : ℕ). 2 ^ t) (a + suc w) (suc (a + w)) (omega arith)
    ∙ pow-suc 2 (a + w)
    ∙ ap (λ (t : ℕ). t * 2) (power_add a w)
    ∙ mul_assoc (2 ^ a) (2 ^ w) 2
    ∙ ap (λ (t : ℕ). 2 ^ a * t) (sym (pow-suc 2 w))

power_power : (w j : ℕ) → (2 ^ w) ^ j ≡ 2 ^ (j * w)
power_power w zero = pow-zero (2 ^ w) ∙ sym (ap_at (λ (t : ℕ). 2 ^ t) (0 * w) 0 (omega arith))
power_power w (suc j) =
    pow-suc (2 ^ w) j
    ∙ ap (λ (t : ℕ). t * 2 ^ w) (power_power w j)
    ∙ sym (power_add (j * w) w)
    ∙ ap_at (λ (t : ℕ). 2 ^ t) (j * w + w) (suc j * w) (omega arith)

-- C(m + j, j) j! is a product of j factors, each m + j at most.
pub choose-fact-le : (m j : ℕ) → choose (m + j) j * fact j ≤ (m + j) ^ j
choose-fact-le m zero = rw (pow-zero (m + 0)) (omega arith)
choose-fact-le m (suc j) =
    let grown = ap (λ (t : ℕ). t * fact j) (choose_step m j) in
    let wider : (m + j) ^ j ≤ (m + suc j) ^ j = pow-le-pow_left (omega arith) j in
    let before = mul-le-mul (le_trans (choose-fact-le m j) wider) (le_refl (m + suc j)) in
    rw (pow-suc (m + suc j) j) (omega (arith, grown, before))

pub choose-le-pow : (m j : ℕ) → choose (m + j) j ≤ (m + j) ^ j
choose-le-pow m j =
    let whole : choose (m + j) j * 1 ≤ choose (m + j) j * fact j =
      mul-le-mul (le_refl (choose (m + j) j)) (fact-pos j) in
    le_trans (omega arith) (choose-fact-le m j)

-- A power of two below a product of j factors below 2^w.
pub exponent-le : (l w j x : ℕ) → 2 ^ l ≤ x ^ j → x ≤ 2 ^ w → l ≤ j * w
exponent-le l w j x h small = elim (dec_lt (j * w) l) [
  | yes more ↦
      let shorter : 2 ^ suc (j * w) ≤ 2 ^ l = pow-le-pow_right (omega arith) more in
      let whole : x ^ j ≤ 2 ^ (j * w) =
        le_trans (pow-le-pow_left small j) (rw (power_power w j) (omega arith)) in
      absurd (omega (arith, pow-suc 2 (j * w), one-le-pow (j * w) 2 (omega arith)))
  | no less ↦ omega arith
]

pub fact-le-pow : (n x : ℕ) → n ≤ x → fact n ≤ x ^ n
fact-le-pow zero x h = rw (pow-zero x) (omega arith)
fact-le-pow (suc n) x h = rw (pow-suc x n) (mul-le-mul (fact-le-pow n x (omega arith)) h)

pub choose-pos : (m j : ℕ) → 0 < choose (m + j) j
choose-pos m zero = omega arith
choose-pos m (suc j) = rw (add-suc m j) (omega (arith, choose-pos m j))
