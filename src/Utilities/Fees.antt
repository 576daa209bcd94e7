-- ===== src/Utilities/Fees.antt =====
-- src/lib/bms/Utilities.cpp: the fees of transactions. `GetSerializeSize` is the parameter `size`.
--
-- The source multiplies doubles: numbers of 53 bits times a power of two, to the nearest of which a result
-- is rounded. `Size/1000.0`, rounded up, is exact for a size of 32 bits.
use bitcoin_messaging.Base.{
  ℕ, zero, suc, ◌+◌, ◌*◌, ◌/◌, ◌%◌, ◌^◌, ◌<◌, ◌≡◌, refl, ap, ◌∙◌, arith, true, ltb, ◌==◌, ◌&&◌,
  ◌||◌, if◌then◌else◌, lt→ltb,
}
use bitcoin_messaging.Maths.{u64}
use bitcoin_messaging.BlockchainInterface.{Transaction}

-- Keymap.SuffixBits, Random.SuffixBits and TxFeeRate, and what a conversion from a double to a uint64_t
-- gives where it is out of range, which the language leaves undefined.
pub record Config : Type 0 where
  pub suffix_bits : ℕ
  pub random_suffix_bits : ℕ
  pub fee_rate : ℕ
  pub out_of_range : ℕ → ℕ

-- How often a number is halved until 53 bits are left.
unfoldable pub double_exponent : ℕ → ℕ → ℕ
double_exponent zero x = 0
double_exponent (suc fuel) x =
    let more = double_exponent fuel (x / 2) in if ltb x (2 ^ 53) then 0 else suc more

-- The nearest double, the even one of two that are as near. The products are below 2^128.
unfoldable pub round_double : ℕ → ℕ
unfolding double_exponent
round_double x =
    let unit = 2 ^ double_exponent 128 x in
    let quotient = x / unit in
    let rest = x % unit in
    if ltb (2 * rest) unit || (2 * rest == unit && quotient % 2 == 0)
    then quotient * unit
    else suc quotient * unit

-- `FeeRate * ceil(Size/1000.0)`
unfoldable pub transaction_fee : (Transaction → ℕ) → Config → Transaction → ℕ
unfolding round_double
transaction_fee size config tx =
    let fee = round_double (round_double config.fee_rate * ((size tx + 999) / 1000)) in
    if ltb fee (2 ^ 64) then fee else u64 (config.out_of_range fee)

double_exponent-small : (fuel x : ℕ) → x < 2 ^ 53 → double_exponent fuel x ≡ 0
unfolding double_exponent
double_exponent-small zero x h = refl
double_exponent-small (suc fuel) x h = rw (lt→ltb x (2 ^ 53) h) refl

exact :
    (x unit : ℕ)
    → unit ≡ 1
    → (if ltb (2 * (x % unit)) unit || (2 * (x % unit) == unit && x / unit % 2 == 0)
        then x / unit * unit
        else suc (x / unit) * unit)
      ≡ x
exact x unit h =
    let none_left : x % unit ≡ 0 = rw h (omega arith) in
    let whole : x / unit ≡ x = rw h (omega arith) in rw (none_left, whole, h) (omega arith)

-- A number of 53 bits is a double.
pub round_double-small : (x : ℕ) → x < 2 ^ 53 → round_double x ≡ x
unfolding round_double
round_double-small x h =
    exact x (2 ^ double_exponent 128 x)
      (ap (λ (e : ℕ). 2 ^ e) (double_exponent-small 128 x h) ∙ omega arith)

-- With a rate and a product of 53 bits nothing is rounded.
pub transaction_fee-exact :
    (size : Transaction → ℕ) (config : Config) (tx : Transaction)
    → config.fee_rate < 2 ^ 53
    → config.fee_rate * ((size tx + 999) / 1000) < 2 ^ 53
    → transaction_fee size config tx ≡ config.fee_rate * ((size tx + 999) / 1000)
unfolding transaction_fee
transaction_fee-exact size config tx rate product =
    let inside : ltb (config.fee_rate * ((size tx + 999) / 1000)) (2 ^ 64) ≡ true =
      lt→ltb _ _ (omega arith) in
    rw
      (
        round_double-small config.fee_rate rate,
        round_double-small (config.fee_rate * ((size tx + 999) / 1000)) product,
        inside,
      )
      refl
