-- ===== src/Maths.antt =====
-- src/lib/bms/Maths.cpp: binomials, and the ranking of permutations and of compositions.
--
-- `BigInt` is an unbounded signed integer; the values below are never negative, or the model says so
-- by `none`. uint64_t arithmetic wraps. Loops that the source bounds only by a test are on fuel.
pub mod Choose
pub mod Binomial
pub mod Smaller
pub mod Permutations
pub mod Search
pub mod Compositions
use bitcoin_messaging.Base.{
  ℕ, zero, suc, ◌+◌, ◌-◌, ◌*◌, ◌/◌, ◌%◌, ◌^◌, ◌≤◌, ◌<◌, Bool, true, false, List, [], ◌∷◌, ◌++◌,
  Option, none, some, length, get_elem?, replicate, leb, ltb, ◌==◌, if◌then◌else◌, ◌>>=◌, ◌>>◌,
  assert, not, min,
}

abbrev pub u16 : ℕ → ℕ
u16 x = x % 2 ^ 16

abbrev pub u64 : ℕ → ℕ
u64 x = x % 2 ^ 64

-- The difference of two uint64_t.
unfoldable pub sub64 : ℕ → ℕ → ℕ
sub64 a b = (a + 2 ^ 64 - b) % 2 ^ 64

-- `for (int i = 2; i <= n; i++) fac *= i`, with `left` rounds to go.
pub factorial_loop : ℕ → ℕ → ℕ → ℕ
factorial_loop zero i fac = fac
factorial_loop (suc left) i fac = factorial_loop left (i + 1) (fac * i)

unfoldable pub factorial : ℕ → ℕ
unfolding factorial_loop
factorial n = factorial_loop (n - 1) 2 1

-- `for (unsigned i = 1; i < k + 1; ++i)`. All callers pass k below 2^16, so `i` does not wrap.
pub binomial_loop : ℕ → ℕ → ℕ → ℕ → ℕ
binomial_loop zero i base result = result
binomial_loop (suc left) i base result = binomial_loop left (i + 1) base (result * (base + i) / i)

unfoldable pub binomial_coefficient : ℕ → ℕ → ℕ
unfolding binomial_loop
binomial_coefficient n k =
    if ltb n k then 0 else (let k' = min k (n - k) in binomial_loop k' 1 (n - k') 1)

-- `n + k - 1` and `k - 1` are converted to uint64_t.
unfoldable pub number_compositions : ℕ → ℕ → ℕ
unfolding binomial_coefficient sub64
number_compositions n k = binomial_coefficient (sub64 (u64 (n + k)) 1) (sub64 k 1)

-- `a`, the number of later elements below the `i`th.
pub count_smaller : ℕ → ℕ → List ℕ → ℕ
count_smaller a x [] = a
count_smaller a x (y ∷ ys) = count_smaller (if ltb y x then a + 1 else a) x ys

-- The vector from index `i` on: `PermSize - i - 1` elements follow the `i`th.
pub permutation_loop : ℕ → List ℕ → ℕ
permutation_loop idx [] = idx
permutation_loop idx (x ∷ []) = idx
permutation_loop idx (x ∷ y ∷ ys) =
    permutation_loop (idx + count_smaller 0 x (y ∷ ys) * factorial (length (y ∷ ys))) (y ∷ ys)

-- Of fewer than two elements `PermSize - 2` wraps, and the loop reads out of range.
unfoldable pub permutation_to_integer : List ℕ → Option ℕ
unfolding permutation_loop count_smaller factorial
permutation_to_integer permutation = do
  assert (leb 2 (length permutation))
  some (permutation_loop 0 permutation)

-- `std::iota`
unfoldable pub iota : ℕ → ℕ → List ℕ
iota zero first = []
iota (suc n) first = first ∷ iota n (first + 1)

-- `buf.erase(std::remove(buf.begin(), buf.end(), v), buf.end())`
unfoldable pub remove : ℕ → List ℕ → List ℕ
remove v [] = []
remove v (x ∷ xs) = if x == v then remove v xs else x ∷ remove v xs

-- `left` is `k - i`. An index out of range has no defined result.
pub unranking_loop : ℕ → ℕ → List ℕ → List ℕ → Option (List ℕ)
unranking_loop zero idx buf perm = some perm
unranking_loop (suc left) idx buf perm =
    let x = idx / factorial left in
    get_elem? buf x >>= λ v.
    unranking_loop left (idx - x * factorial left) (remove v buf) (perm ++ (v ∷ []))

unfoldable pub integer_to_permutation : ℕ → ℕ → Option (List ℕ)
unfolding unranking_loop iota remove factorial
integer_to_permutation idx k = unranking_loop k idx (iota k 0) []

-- `std::accumulate(…, (uint64_t) 0)`
pub accumulate_loop : ℕ → List ℕ → ℕ
accumulate_loop total [] = total
accumulate_loop total (c ∷ cs) = accumulate_loop (u64 (total + c)) cs

unfoldable pub accumulate : List ℕ → ℕ
unfolding accumulate_loop
accumulate cs = accumulate_loop 0 cs

-- `left` rounds of the loop over `i`, on the parts from `i` on. `none` is a negative `idx`, which
-- only a sum that wraps can produce, or a read out of range.
pub ranking_loop : ℕ → ℕ → ℕ → ℕ → List ℕ → Option ℕ
ranking_loop zero n k idx cs = some idx
ranking_loop (suc left) n k idx [] = none
ranking_loop (suc left) n k idx (c ∷ cs) =
    let total = number_compositions n k in
    let above = number_compositions (sub64 n c) k in
    assert (leb above (idx + total))
    >> ranking_loop left (sub64 n c) (k - 1) (idx + total - above) cs

unfoldable pub composition_to_integer : List ℕ → Option ℕ
unfolding ranking_loop accumulate number_compositions
composition_to_integer composition =
    let k = u16 (length composition) in
    ranking_loop (k - 1) (accumulate composition) k 0 composition

-- `while (!(NumberCompositions(n - mu - 1, k) < NumberCompositions(n, k) - idx)) mu++`. The test
-- compares signed integers; here `idx` stands on the other side. After 2^64 rounds every `mu` has
-- been tried, so a loop that has not ended by then does not end.
pub climb : ℕ → ℕ → ℕ → ℕ → ℕ → Option ℕ
climb zero idx n k mu = none
climb (suc fuel) idx n k mu =
    elim (ltb (number_compositions (sub64 (sub64 n mu) 1) k + idx) (number_compositions n k)) [
      | true ↦ some mu
      | false ↦ climb fuel idx n k (u64 (mu + 1))
    ]

-- `while (!(NumberCompositions(n, k) - idx <= NumberCompositions(n - mu, k))) mu--`
pub descend : ℕ → ℕ → ℕ → ℕ → ℕ → Option ℕ
descend zero idx n k mu = none
descend (suc fuel) idx n k mu =
    elim (leb (number_compositions n k) (number_compositions (sub64 n mu) k + idx)) [
      | true ↦ some mu
      | false ↦ descend fuel idx n k (sub64 mu 1)
    ]

-- Enough for each search to try every uint64_t.
pub search_fuel : ℕ
search_fuel = 2 ^ 64

-- `round_root a j` is the uint64_t of `mp::round(mp::pow(BigFloat(a), BigFloat(1.0 / j)))`.
module _ (round_root : ℕ → ℕ → ℕ) where
  -- The search for one part: a guess, then the two loops.
  pub find_part : ℕ → ℕ → ℕ → Option ℕ
  unfolding climb descend search_fuel
  find_part idx n k =
      let a = (number_compositions n k - idx) * factorial (k - 1) in
      let guess = sub64 (sub64 n (round_root a (k - 1))) ((k - 1) / 2) in
      do mu ← climb search_fuel idx n k guess; descend search_fuel idx n k mu

  -- `left` is `K - 1 - i`. The parts that a `break` leaves are 0; the last part is what remains.
  pub unranking_parts : ℕ → ℕ → ℕ → ℕ → Option (List ℕ)
  unranking_parts zero idx n k = some (n ∷ [])
  unranking_parts (suc left) idx n k =
      let rest = (λ (mu : ℕ).
        unranking_parts left (idx + number_compositions (sub64 n mu) k - number_compositions n k)
          (sub64 n mu) (k - 1)
        >>= λ parts. some (mu ∷ parts)) in
      if n == 0 then some (replicate (suc left) 0 ++ (n ∷ [])) else (find_part idx n k >>= rest)

  -- With `k` = 0 the last part is written out of range.
  unfoldable pub integer_to_composition : ℕ → ℕ → ℕ → Option (List ℕ)
  unfolding unranking_parts find_part
  integer_to_composition idx n k = do assert (leb 1 k); unranking_parts (k - 1) idx n k
